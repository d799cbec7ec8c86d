-- ===== src/Ext2/Inode.antt =====
-- `INODE`, 128 bytes. Each field of the packed structure is its offset and width.
use rpi_os_cfs_ext.Base.{ℕ, ◌+◌, ◌*◌}
use rpi_os_cfs_ext.Base.Bytes.{Bytes, u16_at, u32_at, put16, put32}

abbrev pub size_of : ℕ
size_of = 128

abbrev pub mode : Bytes → ℕ
mode b = u16_at b 0

abbrev pub set_mode : Bytes → ℕ → Bytes
set_mode b v = put16 b 0 v

abbrev pub uid : Bytes → ℕ
uid b = u16_at b 2

abbrev pub set_uid : Bytes → ℕ → Bytes
set_uid b v = put16 b 2 v

abbrev pub size : Bytes → ℕ
size b = u32_at b 4

abbrev pub set_size : Bytes → ℕ → Bytes
set_size b v = put32 b 4 v

abbrev pub gid : Bytes → ℕ
gid b = u16_at b 24

abbrev pub set_gid : Bytes → ℕ → Bytes
set_gid b v = put16 b 24 v

abbrev pub links_count : Bytes → ℕ
links_count b = u16_at b 26

abbrev pub set_links_count : Bytes → ℕ → Bytes
set_links_count b v = put16 b 26 v

abbrev pub blocks : Bytes → ℕ
blocks b = u32_at b 28

abbrev pub set_blocks : Bytes → ℕ → Bytes
set_blocks b v = put32 b 28 v

-- `block[k]`
abbrev pub block : Bytes → ℕ → ℕ
block b k = u32_at b (40 + 4 * k)

abbrev pub set_block : Bytes → ℕ → ℕ → Bytes
set_block b k v = put32 b (40 + 4 * k) v
