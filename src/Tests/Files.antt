-- ===== src/Tests/Files.antt =====
-- A mounted file system with a file of 100 bytes in block 40, which is inode 12.
use rpi_os_cfs_ext.Base.{
  ℕ, ◌+◌, ◌*◌, ◌/◌, ◌%◌, ◌≤◌, ◌<◌, ◌≡◌, ◌≢◌, ◌⊎◌, refl, arith, some, ◌==◌, ltb, if◌then◌else◌,
}
use rpi_os_cfs_ext.Base.Bytes.{Bytes, zeros, put8, put16, put32, memcpy}
use rpi_os_cfs_ext.Disk.{block_read}
use rpi_os_cfs_ext.Disk.Geometry.{IsBlock}
use rpi_os_cfs_ext.Ext2.Op.{Fs}
use rpi_os_cfs_ext.Ext2.Inode
use rpi_os_cfs_ext.Ext2.Mounted.{IsMounted}
use rpi_os_cfs_ext.Ext2.Format.{fill_super_block, fill_descriptor_block}
use rpi_os_cfs_ext.Ext2.Inodes.{get_inode}
use rpi_os_cfs_ext.Ext2.FileBlocks.Direct.{inode_of}
use rpi_os_cfs_ext.Ext2.Io.{copied, ext2_write, ext2_read}
use rpi_os_cfs_ext.Ext2.Io.OneBlock.{IsInBlock}
use rpi_os_cfs_ext.Ext2.Io.InBlock.{ext2_read-ext2_write}
use rpi_os_cfs_ext.Ext2.Release.{release_block}
use rpi_os_cfs_ext.Ext2.Release.Blocks.{Freed, Shortened, released_in, release_block_lem}

-- `size`, `blocks` and `block[0]` of the inode, and the rest of the disk 0.
abbrev file_bytes : Bytes
file_bytes a = if a == 7556 then 100 else if a == 7580 then 1 else if a == 7592 then 40 else 0

abbrev file_fs : Fs
file_fs = record {
  sb = fill_super_block;
  gd = fill_descriptor_block fill_super_block;
  disk = record { address = file_bytes; sectors = 242; bytes_per_sector = 512 };
}

file_fs-IsMounted : IsMounted file_fs
unfolding fill_super_block fill_descriptor_block put8 put32 put16
file_fs-IsMounted = record {
  ready = record { sectors = refl; bytes_per_sector = refl };
  bytes = λ a. ground arith;
  block_per_group = refl;
  inode_per_group = refl;
  inode_structure_size = refl;
  first_data_block = refl;
  block_bitmap = refl;
  inode_bitmap = refl;
}

file_inode :
    (Inode.blocks (inode_of file_fs 12) ≡ 1)
    × (Inode.size (inode_of file_fs 12) ≡ 100)
    × (Inode.block (inode_of file_fs 12) 0 ≡ 40)
unfolding get_inode fill_super_block put8 put16 put32 block_read memcpy
file_inode = (refl, refl, refl)

six_copied : 95 % 1024 + copied 6 ≤ 1024
unfolding copied
six_copied = omega arith

-- Six bytes from 95 on.
file_fs-IsInBlock : IsInBlock file_fs 12 95 6
file_fs-IsInBlock = record {
  inode = (omega arith, omega arith);
  early = omega arith;
  few = omega (arith, file_inode.0);
  present = omega (arith, file_inode.0);
  within = omega arith;
  rounded = six_copied;
  inside = omega (arith, file_inode.1);
  on_disk = omega (arith, file_inode.2);
  in_data = omega (arith, file_inode.2);
}

abbrev six : Bytes
six a = a + 65

ext2_read-ext2_write_example :
    (fs' : Fs) × (ext2_write 12 95 6 six file_fs ≡ some (some tt, fs'))
    × ((out : Bytes) (stack : ℕ → ℕ)
        → (r : Bytes) × (ext2_read 12 95 6 out stack fs' ≡ (some r, fs'))
          × ((a : ℕ) → a < 6 → r a ≡ six a))
    × (Inode.size (inode_of fs' 12) ≡ (
        if ltb (Inode.size (inode_of file_fs 12)) (95 + 6)
        then 95 + 6
        else Inode.size (inode_of file_fs 12)))
    × ((g b a : ℕ)
        → IsBlock g b
        → 9 ≤ b
        → a < 1024
        → Inode.block (inode_of file_fs 12) (95 / 1024) ≢ g * 30 + b
        → block_read fs'.disk g b zeros a ≡ block_read file_fs.disk g b zeros a)
    × ((a : ℕ)
        → a < 1024
        → (a < 95 % 1024) ⊎ (95 % 1024 + copied 6 ≤ a)
        → let number = Inode.block (inode_of file_fs 12) (95 / 1024) in
          block_read fs'.disk (number / 30) (number % 30) zeros a
          ≡ block_read file_fs.disk (number / 30) (number % 30) zeros a)
ext2_read-ext2_write_example =
    ext2_read-ext2_write file_fs 12 95 6 six file_fs-IsMounted file_fs-IsInBlock

-- A file of three blocks, in the groups 0, 1 and 1, loses two.
abbrev three : Bytes
three a =
    if a == 28 then 3 else if a == 40 then 10 else if a == 44 then 40 else if a == 48 then 41 else 0

abbrev numbers : ℕ → ℕ
numbers j = if j == 0 then 10 else 39 + j

release_block_lem_example :
    (fs' : Fs) × (group : ℕ → ℕ) × (inode' : Bytes) × (release_block three numbers 2
        (λ _. 0)
        file_fs
      ≡ (some (inode', group), fs'))
    × Freed numbers 3 1 2 file_fs fs'
    × ((g : ℕ) → group g ≡ released_in numbers 3 1 2 g)
    × Shortened numbers 3 2 three inode'
release_block_lem_example =
    release_block_lem numbers 3 file_fs three 2 file_fs-IsMounted refl (omega arith) (omega arith)
      λ j h. ground arith
