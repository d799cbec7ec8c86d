-- ===== src/Shell/Commands/Contents.antt =====
-- The commands of src/shell.c on files: `touch`, `fill`, `rm`, `cat`, `mv` and `chmod`.
use rpi_os_cfs_ext.Base.{
  ◌>>=◌, ◌>>◌, ℕ, zero, suc, ◌+◌, ◌-◌, ◌*◌, ◌/◌, ◌%◌, ◌^◌, [], ◌∷◌, get_or, none, some, ◌==◌, ltb,
  leb, if◌then◌else◌, not, pure, fault,
}
use rpi_os_cfs_ext.Base.Bytes.{Bytes}
use rpi_os_cfs_ext.Str.{atoi}
use rpi_os_cfs_ext.Mm.{page_size, allocate_kernel_page, free_page}
use rpi_os_cfs_ext.Shell.List.{ShellEntry}
use rpi_os_cfs_ext.Shell.Files.{Stack, on_memory, fs_create, fs_write, fs_remove, fs_chmod, fs_mv}
use rpi_os_cfs_ext.Shell.Listing.{fs_cat}
use rpi_os_cfs_ext.Shell.Commands.{C, Result, on_sh, get_console, found, line_size, status}

unfoldable pub shell_cmd_touch : Stack → ShellEntry → ℕ → (ℕ → Bytes) → C Result
unfolding on_sh fs_create
shell_cmd_touch stack entry argc argv = if ltb argc 2 then pure (some tt) else (do
  console ← get_console
  (result, entry) ← on_sh (fs_create console.current (argv 1) entry stack)
  pure (status result))

-- The eight characters that `fill` writes over and over.
abbrev pub i_see_you : Bytes
i_see_you a = get_or (73 ∷ 83 ∷ 101 ∷ 101 ∷ 89 ∷ 111 ∷ 117 ∷ 46 ∷ []) a 0

-- Up to the first multiple of 8 bytes that is not below the size; the page behind it is of zeros.
unfoldable pub filled : ℕ → Bytes
filled size a = if ltb a ((size + 7) / 8 * 8) then i_see_you (a % 8) else 0

-- To zero more than the page is a fault. The result of the write is dropped.
unfoldable pub shell_cmd_fill : Stack → ShellEntry → ℕ → (ℕ → Bytes) → C Result
unfolding on_sh on_memory atoi fs_create allocate_kernel_page fs_write free_page filled
shell_cmd_fill stack entry argc argv = if not (argc == 3) then pure (some tt) else (do
  size ← found (atoi line_size 0 0 (argv 2))
  if leb (2 ^ 31) size then pure none else (do
    console ← get_console
    (result, entry) ← on_sh (fs_create console.current (argv 1) entry stack)
    elim result [
      | none ↦ pure none
      | some _ ↦ do
        page ← on_sh (on_memory allocate_kernel_page)
        if page == 0 then fault else pure tt
        if leb size page_size then pure tt else fault
        _ ← on_sh (fs_write entry 0 size (filled size))
        on_sh (on_memory (free_page page))
        pure (some tt)
    ]))

unfoldable pub shell_cmd_rm : Stack → ℕ → (ℕ → Bytes) → C Result
unfolding on_sh fs_remove
shell_cmd_rm stack argc argv =
    if not (argc == 2)
    then pure (some tt)
    else (do console ← get_console; on_sh (fs_remove console.current (argv 1) stack))

unfoldable pub cat_files : Stack → ℕ → ℕ → (ℕ → Bytes) → C Result
unfolding on_sh fs_cat
cat_files stack zero i argv = pure (some tt)
cat_files stack (suc n) i argv =
    let rest = cat_files stack n (i + 1) argv in
    do
      console ← get_console
      result ← on_sh (fs_cat console.current (argv i) stack)
      elim result [ none ↦ pure none | some _ ↦ rest ]

unfoldable pub shell_cmd_cat : Stack → ℕ → (ℕ → Bytes) → C Result
unfolding cat_files
shell_cmd_cat stack argc argv =
    if ltb argc 2 then pure (some tt) else cat_files stack (argc - 1) 1 argv

-- The result of the operation is dropped.
unfoldable pub shell_cmd_mv : Stack → ℕ → (ℕ → Bytes) → C Result
unfolding on_sh fs_mv
shell_cmd_mv stack argc argv = if not (argc == 3) then pure (some tt) else (do
  console ← get_console
  _ ← on_sh (fs_mv console.current (argv 1) (argv 2) stack)
  pure (some tt))

unfoldable pub shell_cmd_chmod : Stack → ℕ → (ℕ → Bytes) → C Result
unfolding on_sh atoi fs_chmod
shell_cmd_chmod stack argc argv = if not (argc == 3) then pure (some tt) else (do
  mode ← found (atoi line_size 0 0 (argv 1))
  console ← get_console
  on_sh (fs_chmod console.current (argv 2) mode stack))
