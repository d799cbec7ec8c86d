-- ===== src/Ext2/GroupDescriptor.antt =====
-- `EXT2_GROUP_DESCRIPTOR`, 32 bytes. Each field of the packed structure is its offset and width.
use rpi_os_cfs_ext.Base.{ℕ}
use rpi_os_cfs_ext.Base.Bytes.{Bytes, u16_at, u32_at}

abbrev pub size : ℕ
size = 32

abbrev pub start_block_of_block_bitmap : Bytes → ℕ
start_block_of_block_bitmap b = u32_at b 0

abbrev pub start_block_of_inode_bitmap : Bytes → ℕ
start_block_of_inode_bitmap b = u32_at b 4

abbrev pub free_blocks_count : Bytes → ℕ
free_blocks_count b = u32_at b 12

abbrev pub free_inodes_count : Bytes → ℕ
free_inodes_count b = u32_at b 16

abbrev pub directories_count : Bytes → ℕ
directories_count b = u16_at b 20
