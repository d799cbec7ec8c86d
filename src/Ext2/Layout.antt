-- ===== src/Ext2/Layout.antt =====
-- The constants and macros of include/ext2.h.
use rpi_os_cfs_ext.Base.{ℕ, ◌/◌, sub32}
use rpi_os_cfs_ext.Disk.{number_of_groups}

abbrev pub gdt_block_count : ℕ
gdt_block_count = 2

abbrev pub inodetable_block_count : ℕ
inodetable_block_count = 4

abbrev pub number_of_inodes : ℕ
number_of_inodes = 700

-- `GET_INODE_GROUP`
abbrev pub get_inode_group : ℕ → ℕ
get_inode_group x = sub32 x 1 / (number_of_inodes / number_of_groups)
