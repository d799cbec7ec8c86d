-- ===== src/Ext2/DirEntry.antt =====
-- `EXT2_DIR_ENTRY`, 32 bytes: the inode number, 11 bytes of name, the length, padding. Each field of the packed structure is its offset and width.
use rpi_os_cfs_ext.Base.{ℕ}
use rpi_os_cfs_ext.Base.Bytes.{Bytes, u32_at, put32}

abbrev pub size : ℕ
size = 32

abbrev pub inode : Bytes → ℕ
inode b = u32_at b 0

abbrev pub set_inode : Bytes → ℕ → Bytes
set_inode b v = put32 b 0 v

-- the offset of `name`
abbrev pub name : ℕ
name = 4

abbrev pub name_len : Bytes → ℕ
name_len b = u32_at b 15

abbrev pub set_name_len : Bytes → ℕ → Bytes
set_name_len b v = put32 b 15 v
