-- ===== src/Ext2/Op.antt =====
-- A mounted file system, and operations on it that may end by `return EXT2_ERROR`.
use rpi_os_cfs_ext.Base.{ℕ, Bool, true, false, Option, none, some}
use rpi_os_cfs_ext.Base.Bytes.{Bytes, zeros}
use rpi_os_cfs_ext.Disk
use rpi_os_cfs_ext.Disk.{Disk}

-- `EXT2_FILESYSTEM`. There is one in the kernel, which every node's `fs` points to.
pub record Fs : Type 0 where
  pub sb : Bytes
  pub gd : Bytes
  pub disk : Disk

-- `EXT2_DIR_ENTRY_LOCATION`
pub record Location : Type 0 where
  pub group : ℕ
  pub block : ℕ
  pub offset : ℕ

-- `EXT2_NODE`, less the pointer to the file system.
pub record Node : Type 0 where
  pub entry : Bytes
  pub location : Location

-- `none` is `EXT2_ERROR`; what was written before it stays written.
abbrev pub Op : Type 0 → Type 0
Op A = Fs → Option A × Fs

abbrev pub pure : {A : Type 0} → A → Op A
pure a fs = (some a, fs)

abbrev pub error : {A : Type 0} → Op A
error fs = (none, fs)

abbrev pub and_then : {A B : Type 0} → Option A × Fs → (A → Op B) → Option B × Fs
and_then (none, fs) f = (none, fs)
and_then (some a, fs) f = f a fs

infixl 5 ◌>>=◌ ◌>>◌
abbrev pub ◌>>=◌ : {A B : Type 0} → Op A → (A → Op B) → Op B
◌>>=◌ m f fs = and_then (m fs) f

abbrev pub ◌>>◌ : {B : Type 0} → Op (Unit {0}) → Op B → Op B
m >> k = m >>= λ _. k

abbrev pub when : Bool → Op (Unit {0}) → Op (Unit {0})
when true m = m
when false m = pure tt

abbrev pub get_fs : Op Fs
get_fs fs = (some fs, fs)

abbrev pub set_disk : Disk → Op (Unit {0})
set_disk d fs = (some tt, record fs { disk = d })

-- `ZeroMemory(block)` and `block_read`
abbrev pub read_block : ℕ → ℕ → Op Bytes
read_block g b fs = (some (Disk.block_read fs.disk g b zeros), fs)

abbrev pub write_block : ℕ → ℕ → Bytes → Op (Unit {0})
write_block g b src fs = (some tt, record fs { disk = Disk.block_write fs.disk g b src })

-- A call whose status the source drops.
abbrev pub ignore : {A : Type 0} → Op A → Op (Unit {0})
ignore m fs = (some tt, (m fs).1)

abbrev pub lift : {A : Type 0} → Option A → Op A
lift o fs = (o, fs)

-- A call whose status the source drops, and what its result variable holds if it failed.
abbrev pub or_default : {A : Type 0} → Option A × Fs → A → Option A × Fs
or_default (none, fs) a = (some a, fs)
or_default (some b, fs) a = (some b, fs)

abbrev pub recover : {A : Type 0} → Op A → A → Op A
recover m a fs = or_default (m fs) a
