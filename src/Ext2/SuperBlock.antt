-- ===== src/Ext2/SuperBlock.antt =====
-- `EXT2_SUPER_BLOCK`, 86 bytes. Each field of the packed structure is its offset and width.
use rpi_os_cfs_ext.Base.{ℕ}
use rpi_os_cfs_ext.Base.Bytes.{Bytes, u16_at, u32_at, put32}

abbrev pub size : ℕ
size = 86

abbrev pub block_count : Bytes → ℕ
block_count b = u32_at b 4

abbrev pub free_block_count : Bytes → ℕ
free_block_count b = u32_at b 12

abbrev pub set_free_block_count : Bytes → ℕ → Bytes
set_free_block_count b v = put32 b 12 v

abbrev pub free_inode_count : Bytes → ℕ
free_inode_count b = u32_at b 16

abbrev pub set_free_inode_count : Bytes → ℕ → Bytes
set_free_inode_count b v = put32 b 16 v

abbrev pub block_per_group : Bytes → ℕ
block_per_group b = u32_at b 32

abbrev pub inode_per_group : Bytes → ℕ
inode_per_group b = u32_at b 40

abbrev pub magic_signature : Bytes → ℕ
magic_signature b = u16_at b 48

abbrev pub inode_structure_size : Bytes → ℕ
inode_structure_size b = u16_at b 62

abbrev pub first_data_block_each_group : Bytes → ℕ
first_data_block_each_group b = u32_at b 66
