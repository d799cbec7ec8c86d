-- ===== src/Tests/FileSystem.antt =====
-- The disk and the file system on an empty disk.
use rpi_os_cfs_ext.Base.{Option, ℕ, ◌+◌, ◌<◌, ◌≡◌, ◌≢◌, refl, arith, true, some, bit_and}
use rpi_os_cfs_ext.Base.Bytes.{Bytes, zeros, put8, put16, put32, memcpy}
use rpi_os_cfs_ext.Disk.{Disk, block_read, block_write}
use rpi_os_cfs_ext.Disk.Geometry.{IsReady}
use rpi_os_cfs_ext.Disk.Blocks.{AreBytes, block_read-block_write}
use rpi_os_cfs_ext.Ext2.Op.{Fs}
use rpi_os_cfs_ext.Ext2.Mounted.{IsMounted}
use rpi_os_cfs_ext.Ext2.Dir.{read_superblock}
use rpi_os_cfs_ext.Ext2.Format.{ext2_format, fill_super_block, fill_descriptor_block}
use rpi_os_cfs_ext.Ext2.Bitmap.{set_block_bitmap}
use rpi_os_cfs_ext.Ext2.Bitmap.Laws.{OneBit, set_block_bitmap-OneBit}
use rpi_os_cfs_ext.Ext2.Inodes.{get_inode, set_inode}
use rpi_os_cfs_ext.Ext2.Inodes.Slots.{
  IsLaidOut, IsInode, get_inode-set_inode, set_inode-keeps_data, set_inode-overruns,
}
use rpi_os_cfs_ext.Ext2.Inode
use rpi_os_cfs_ext.Ext2.FileBlocks.{get_inode_block, set_inode_block}
use rpi_os_cfs_ext.Ext2.FileBlocks.Direct.{inode_of, set_inode_block-get_inode_block}
use rpi_os_cfs_ext.Ext2.Dir.{change_mode}
use rpi_os_cfs_ext.Ext2.Dir.Chmod.{change_mode_lem}
use rpi_os_cfs_ext.Ext2.Alloc.{alloc_free_block}

abbrev pub empty_disk : Disk
empty_disk = record { address = zeros; sectors = 242; bytes_per_sector = 512 }

abbrev ones : Bytes
ones a = 1

abbrev pub empty_fs : Fs
empty_fs = record {
  sb = fill_super_block;
  gd = fill_descriptor_block fill_super_block;
  disk = empty_disk;
}

empty_disk-IsReady : IsReady empty_disk
empty_disk-IsReady = record { sectors = refl; bytes_per_sector = refl }

zeros-AreBytes : AreBytes zeros
zeros-AreBytes a = omega arith

super-IsLaidOut : IsLaidOut fill_super_block
unfolding fill_super_block put8 put32 put16
super-IsLaidOut = record { per_group = refl; structure_size = refl }

pub empty_fs-IsMounted : IsMounted empty_fs
unfolding fill_super_block fill_descriptor_block put8 put32 put16
empty_fs-IsMounted = record {
  ready = empty_disk-IsReady;
  bytes = zeros-AreBytes;
  block_per_group = refl;
  inode_per_group = refl;
  inode_structure_size = refl;
  first_data_block = refl;
  block_bitmap = refl;
  inode_bitmap = refl;
}

-- The bits of the blocks 0 to 7 are not looked at.
alloc_free_block_run : (alloc_free_block 1 empty_fs).0 ≡ some 8
unfolding alloc_free_block fill_super_block fill_descriptor_block put8 put32 put16 block_read memcpy
alloc_free_block_run = refl

block_read-block_write_example : block_read (block_write empty_disk 1 9 ones) 1 9 zeros 5 ≡ 1
block_read-block_write_example =
    block_read-block_write 1 9 1 9 5 ones zeros empty_disk-IsReady (omega arith) (omega arith)
      (omega arith)

set_block_bitmap-OneBit_example :
    ((set_block_bitmap empty_disk 2 9 1).0 ≡ true)
    × OneBit empty_disk (set_block_bitmap empty_disk 2 9 1).1 2 3 9 1
set_block_bitmap-OneBit_example =
    set_block_bitmap-OneBit empty_disk-IsReady zeros-AreBytes 2 9 1 (omega arith) (omega arith)
      (omega arith)

get_inode-set_inode_example :
    get_inode (set_inode empty_disk fill_super_block 12 ones) fill_super_block 12 zeros 5 ≡ 1
get_inode-set_inode_example =
    get_inode-set_inode fill_super_block super-IsLaidOut empty_disk-IsReady 12 12 5 ones zeros
      (omega arith) (omega arith) (omega arith)

set_inode-keeps_data_example :
    block_read (set_inode empty_disk fill_super_block 12 ones) 0 9 zeros 5
    ≡ block_read empty_disk 0 9 zeros 5
set_inode-keeps_data_example =
    set_inode-keeps_data fill_super_block super-IsLaidOut empty_disk-IsReady 12 0 9 5 ones
      (omega arith) (omega arith) (omega arith) (omega arith) (omega arith)

-- Inode 33 lies in block 9, which is the root directory's data.
set_inode-overruns_example :
    block_read (set_inode empty_disk fill_super_block 33 ones) 0 9 zeros 5 ≡ 1
set_inode-overruns_example =
    set_inode-overruns fill_super_block super-IsLaidOut empty_disk-IsReady 33 5 ones (omega arith)
      (omega arith) (omega arith)

no_blocks : Inode.blocks (inode_of empty_fs 12) ≡ 0
unfolding get_inode fill_super_block put8 put16 put32 block_read memcpy
no_blocks = refl

set_inode_block-get_inode_block_example :
    (fs' : Fs) × (set_inode_block 12 40 empty_fs ≡ (some tt, fs'))
    × (Inode.blocks (inode_of fs' 12) ≡ Inode.blocks (inode_of empty_fs 12) + 1)
    × (get_inode_block fs'.disk fs'.sb 12 (Inode.blocks (inode_of empty_fs 12)) ≡ 40)
    × ((k : ℕ)
        → k < Inode.blocks (inode_of empty_fs 12)
        → get_inode_block fs'.disk fs'.sb 12 k ≡ get_inode_block empty_disk empty_fs.sb 12 k)
    × ((j a : ℕ) → IsInode j → 12 ≢ j → a < 128 → inode_of fs' j a ≡ inode_of empty_fs j a)
set_inode_block-get_inode_block_example =
    set_inode_block-get_inode_block empty_fs 12 40 empty_fs-IsMounted (omega arith)
      (omega (arith, no_blocks)) (omega arith)

-- chmod 644 on a directory
change_mode_lem_example : change_mode 0x41a4 644 ≡ some (bit_and 0x41a4 0xFE00 + 420)
change_mode_lem_example = change_mode_lem 0x41a4 6 4 4 (omega arith) (omega arith) (omega arith)

-- A disk full of ones, as `disksim_init` has not cleared it.
abbrev dirty_disk : Disk
dirty_disk = record { address = ones; sectors = 242; bytes_per_sector = 512 }

abbrev mounted : Option (Unit {0}) × Fs
mounted = read_superblock (record empty_fs { disk = (ext2_format ones 0 dirty_disk).1 })

-- Every counter of a disk full of ones is large, and bit 1 of every bitmap is clear.
abbrev dirty_fs : Fs
dirty_fs = record empty_fs { disk = dirty_disk }
