-- ===== src/Ext2/Mounted.antt =====
-- The file system as `ext2_format` lays it out and `read_superblock` mounts it.
use rpi_os_cfs_ext.Base.{◌≡◌}
use rpi_os_cfs_ext.Disk.Geometry.{IsReady}
use rpi_os_cfs_ext.Disk.Blocks.{AreBytes}
use rpi_os_cfs_ext.Ext2.Op.{Fs}
use rpi_os_cfs_ext.Ext2.SuperBlock
use rpi_os_cfs_ext.Ext2.GroupDescriptor

pub record IsMounted (fs : Fs) : Type 0 where
  pub ready : IsReady fs.disk
  pub bytes : AreBytes fs.disk.address
  pub block_per_group : SuperBlock.block_per_group fs.sb ≡ 30
  pub inode_per_group : SuperBlock.inode_per_group fs.sb ≡ 175
  pub inode_structure_size : SuperBlock.inode_structure_size fs.sb ≡ 128
  pub first_data_block : SuperBlock.first_data_block_each_group fs.sb ≡ 9
  pub block_bitmap : GroupDescriptor.start_block_of_block_bitmap fs.gd ≡ 3
  pub inode_bitmap : GroupDescriptor.start_block_of_inode_bitmap fs.gd ≡ 4
