-- ===== src/Shell/Commands/Directories.antt =====
-- The commands of src/shell.c on directories: `mkdir`, `rmdir`, `mkdirst` and `ls`.
use rpi_os_cfs_ext.Base.{
  ◌>>=◌, ◌>>◌, ℕ, zero, suc, ◌+◌, ◌-◌, Bool, true, false, ◌&&◌, Option, none, some, ◌==◌, ltb, leb,
  if◌then◌else◌, not, bit_and, bit_or, pure,
}
use rpi_os_cfs_ext.Base.Bytes.{Bytes}
use rpi_os_cfs_ext.Str.{strlen}
use rpi_os_cfs_ext.Shell.List.{ShellEntry, init_entry_list}
use rpi_os_cfs_ext.Shell.Files.{Stack, fs_mkdir, fs_rmdir, release_entry_list}
use rpi_os_cfs_ext.Shell.Listing.{fs_ls}
use rpi_os_cfs_ext.Shell.Commands.{
  C, Result, on_sh, get_console, found, line_size, dot, dotdot, is_same, status,
}

-- The `n` characters from place `i` are letters.
unfoldable pub are_letters : ℕ → ℕ → Bytes → Bool
are_letters zero i name = true
are_letters (suc n) i name =
    let rest = are_letters n (i + 1) name in
    if leb 65 (name i) && leb (name i) 90
    then rest
    else if leb 97 (name i) && leb (name i) 122
    then rest
    else false

unfoldable pub shell_cmd_mkdir : Stack → ShellEntry → ℕ → (ℕ → Bytes) → C Result
unfolding on_sh strlen are_letters fs_mkdir
shell_cmd_mkdir stack entry argc argv = if not (argc == 2) then pure (some tt) else (do
  n ← found (strlen line_size 0 (argv 1))
  if ltb 10 n then pure none else if not (are_letters n 0 (argv 1)) then pure none else (do
    console ← get_console
    result ← on_sh (fs_mkdir console.current (argv 1) entry stack)
    pure (status result)))

unfoldable pub shell_cmd_rmdir : Stack → ℕ → (ℕ → Bytes) → C Result
unfolding on_sh is_same fs_rmdir
shell_cmd_rmdir stack argc argv = if not (argc == 2) then pure (some tt) else (do
  here ← is_same (argv 1) dot
  if here then pure none else (do
    up ← is_same (argv 1) dotdot
    if up
        then pure none
        else (do console ← get_console; on_sh (fs_rmdir console.current (argv 1) stack))))

-- Whether the `n` names from place `i` are of letters.
unfoldable pub check_names : ℕ → ℕ → (ℕ → Bytes) → C Bool
unfolding strlen are_letters
check_names zero i argv = pure true
check_names (suc n) i argv =
    let rest = check_names n (i + 1) argv in
    do
      length ← found (strlen line_size 0 (argv i))
      if are_letters length 0 (argv i) then rest else pure false

-- The first that fails ends the loop; those before it are made. `entry` is the same variable.
unfoldable pub make_directories : Stack → ShellEntry → ℕ → ℕ → (ℕ → Bytes) → C Result
unfolding on_sh fs_mkdir
make_directories stack entry zero i argv = pure (some tt)
make_directories stack entry (suc n) i argv =
    let rest = λ (entry : ShellEntry). make_directories stack entry n (i + 1) argv in
    do
      console ← get_console
      result ← on_sh (fs_mkdir console.current (argv i) entry stack)
      elim result [ none ↦ pure none | some entry ↦ rest entry ]

unfoldable pub shell_cmd_mkdirst : Stack → ShellEntry → ℕ → (ℕ → Bytes) → C Result
unfolding check_names make_directories
shell_cmd_mkdirst stack entry argc argv = if ltb argc 2 then pure (some tt) else (do
  good ← check_names (argc - 1) 1 argv
  if good then make_directories stack entry (argc - 1) 1 argv else pure none)

-- The option of a letter of `ls`.
abbrev pub option : ℕ → Option ℕ
option c =
    if c == 97
    then some 1
    else if c == 108
    then some 2
    else if c == 83
    then some 4
    else if c == 114
    then some 8
    else none

-- The options of the `n` letters from place `i`; `none` for another letter.
unfoldable pub options : ℕ → ℕ → Bytes → ℕ → Option ℕ
options zero i flags opt = some opt
options (suc n) i flags opt =
    let rest = λ (opt : ℕ). options n (i + 1) flags opt in
    elim (option (flags i)) [ none ↦ none | some bit ↦ rest (bit_or opt bit) ]

unfoldable pub list_entries : Stack → ℕ → C Result
unfolding on_sh fs_ls release_entry_list
list_entries stack opt =
    if not (bit_and opt 4 == 0) && not (bit_and opt 8 == 0) then pure none else (do
      console ← get_console
      listed ← on_sh (fs_ls console.current init_entry_list opt stack)
      elim listed [
        | none ↦ pure none
        | some list ↦ do on_sh (release_entry_list list); pure (some tt)
      ])

unfoldable pub shell_cmd_ls : Stack → ℕ → (ℕ → Bytes) → C Result
unfolding strlen options list_entries
shell_cmd_ls stack argc argv =
    if ltb 2 argc
    then pure (some tt)
    else if not (argc == 2)
    then list_entries stack 0
    else if not (argv 1 0 == 45)
    then pure (some tt)
    else (do
      n ← found (strlen line_size 0 (argv 1))
      elim (options (n - 1) 1 (argv 1) 0) [
        | none ↦ pure (some tt)
        | some opt ↦ list_entries stack opt
      ])
