-- ===== src/Shell/Line.antt =====
-- The command line of src/shell.c: the words of a line, and when a command may run.
pub mod Words
use rpi_os_cfs_ext.Base.{
  ℕ, zero, suc, ◌+◌, Bool, true, false, ◌&&◌, Option, none, some, ◌==◌, if◌then◌else◌, not, update,
  bit_and,
}
use rpi_os_cfs_ext.Base.Bytes.{Bytes}
use rpi_os_cfs_ext.Str.{isspace}

-- What a line becomes: the buffer with its NULs, and the offsets in it that `argv` points to.
pub record Args : Type 0 where
  pub argc : ℕ
  pub buf : Bytes
  pub argv : ℕ → ℕ

-- `none` is a line whose end is not met within `fuel` rounds. No bound of `argv` is tested.
unfoldable pub seperate_string : (fuel i prev count : ℕ) → Bytes → (ℕ → ℕ) → Option Args
unfolding isspace
seperate_string zero i prev count buf ptrs = none
seperate_string (suc fuel) i prev count buf ptrs =
    let rest = λ (prev count : ℕ) (buf : Bytes) (ptrs : ℕ → ℕ).
      seperate_string fuel (i + 1) prev count buf ptrs in
    if buf i == 0
    then some (record { argc = count; buf = buf; argv = ptrs })
    else if isspace (buf i)
    then rest 0 count (update buf i 0) ptrs
    else if prev == 0
    then rest (buf i) (count + 1) buf (update ptrs count i)
    else rest (buf i) count buf ptrs

abbrev pub cond_mount : ℕ
cond_mount = 1

abbrev pub cond_umount : ℕ
cond_umount = 2

-- Whether the result is 0.
unfoldable pub check_conditions : ℕ → Bool → Bool
check_conditions conditions is_mounted =
    if not (bit_and conditions cond_mount == 0) && not is_mounted
    then false
    else if not (bit_and conditions cond_umount == 0) && is_mounted
    then false
    else true
