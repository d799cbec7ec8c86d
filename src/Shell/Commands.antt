-- ===== src/Shell/Commands.antt =====
-- The state of src/shell.c, `mount`, `umount` and `cd`, and the commands on files and directories in
-- the children, less what they print; `none` is the result -1, and a wrong number of arguments has
-- the result 0.
pub mod Directories
pub mod Contents
use rpi_os_cfs_ext.Base.{
  ◌>>=◌, ◌>>◌, ℕ, ◌+◌, ◌-◌, Bool, true, false, ◌&&◌, Option, none, some, ◌==◌, ltb, leb,
  if◌then◌else◌, update, Run, pure,
}
use rpi_os_cfs_ext.Base.Bytes.{Bytes}
use rpi_os_cfs_ext.Str.{strcmp}
use rpi_os_cfs_ext.Shell.List.{ShellEntry}
use rpi_os_cfs_ext.Shell.Files.{Sh, S, Stack, fs_lookup}
use rpi_os_cfs_ext.Shell.Listing.{fs_mount}

-- The static variables of src/shell.c, and the file system that `g_fsOprs` and `g_disk` reach.
pub record Console : Type 0 where
  pub sh : Sh
  pub root : ShellEntry
  pub current : ShellEntry
  pub top : ℕ
  pub path : ℕ → ShellEntry
  pub is_mounted : Bool

abbrev pub C : Type 0 → Type 0
C A = Run Console A

abbrev pub Result : Type 0
Result = Option (Unit {0})

unfoldable pub on_sh : {A : Type 0} → S A → C A
on_sh m console = elim (m console.sh) [
  | none ↦ none
  | some (a, sh) ↦ some (a, record console { sh = sh })
]

abbrev pub get_console : C Console
get_console console = some (console, console)

abbrev pub found : {A : Type 0} → Option A → C A
found none console = none
found (some a) console = some (a, console)

-- The size of `buf` in `do_shell`, which the arguments lie in.
abbrev pub line_size : ℕ
line_size = 1000

abbrev pub path_size : ℕ
path_size = 512

abbrev pub dot : Bytes
dot a = if a == 0 then 46 else 0

abbrev pub dotdot : Bytes
dotdot a = if a == 0 then 46 else if a == 1 then 46 else 0

unfoldable pub is_same : Bytes → Bytes → C Bool
unfolding strcmp
is_same a b = do v ← found (strcmp line_size 0 a b); pure (v == 0)

-- `path[++top] = entry`; behind the last element it is a fault.
unfoldable pub push_path : ShellEntry → C (Unit {0})
push_path entry console =
    if leb path_size (console.top + 1)
    then none
    else some (
      tt,
      record console { top = console.top + 1; path = update console.path (console.top + 1) entry },
    )

abbrev pub set_top : ℕ → C (Unit {0})
set_top n console = some (tt, record console { top = n })

-- `g_currentDir = path[top]`
abbrev pub enter_top : C Result
enter_top console = some (some tt, record console { current = console.path console.top })

-- The name is looked up in the current directory.
unfoldable pub enter : Stack → Bytes → C Result
unfolding on_sh fs_lookup push_path
enter stack name = do
  console ← get_console
  result ← on_sh (fs_lookup console.current stack.entry name)
  elim result [
    | none ↦ pure none
    | some entry ↦ if entry.is_directory == 0 then pure none else (do push_path entry; enter_top)
  ]

unfoldable pub shell_cmd_cd : Stack → ℕ → (ℕ → Bytes) → C Result
unfolding is_same enter
shell_cmd_cd stack argc argv = do
  (λ console. some (tt, record console { path = update console.path 0 console.root }))
  if ltb 2 argc then pure (some tt) else if argc == 1 then (do set_top 0; enter_top) else (do
    here ← is_same (argv 1) dot
    if here then pure (some tt) else (do
      up ← is_same (argv 1) dotdot
      console ← get_console
      if up && ltb 0 console.top
          then (do set_top (console.top - 1); enter_top)
          else enter stack (argv 1)))

-- The current directory is the root, whatever the result is.
unfoldable pub shell_cmd_mount : C Result
unfolding on_sh fs_mount
shell_cmd_mount = do
  console ← get_console
  result ← on_sh (fs_mount console.sh.fs.disk console.root)
  elim result [
    | none ↦ λ console. some (none, record console { current = console.root })
    | some root ↦
        λ console. some (some tt, record console { root = root; current = root; is_mounted = true })
  ]

-- `fs_umount` clears a pointer that nothing reads.
unfoldable pub shell_cmd_umount : C Result
shell_cmd_umount console = some (some tt, record console { is_mounted = false })

abbrev pub status : {A : Type 0} → Option A → Result
status none = none
status (some a) = some tt
