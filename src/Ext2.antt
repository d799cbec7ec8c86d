-- ===== src/Ext2.antt =====
-- The file system of src/ext2.c over the disk of `Disk`.
pub mod Layout
pub mod SuperBlock
pub mod GroupDescriptor
pub mod Inode
pub mod DirEntry
pub mod Op
pub mod Mounted
pub mod Bitmap
pub mod Inodes
pub mod Alloc
pub mod FileBlocks
pub mod Dir
pub mod Create
pub mod Io
pub mod Release
pub mod Format
