-- ===== src/Ext2/Io/OneBlock.antt =====
-- The one block that a write and a read within it reach: src/ext2.c.
use rpi_os_cfs_ext.Base.{
  ℕ, ◌+◌, ◌-◌, ◌/◌, ◌%◌, ◌^◌, ◌≤◌, ◌<◌, ◌≡◌, inl, inr, refl, ap, arith, false, some, ltb,
  if◌then◌else◌, u32, lt→ltb, Bool-cases,
}
use rpi_os_cfs_ext.Base.Bytes.{Bytes, zeros, from, u32_at, put32, u32_at-put32}
use rpi_os_cfs_ext.Disk.{Disk, block_read, block_write}
use rpi_os_cfs_ext.Disk.Geometry.{IsReady}
use rpi_os_cfs_ext.Disk.Blocks.{block_write-IsReady}
use rpi_os_cfs_ext.Ext2.Op.{Fs}
use rpi_os_cfs_ext.Ext2.SuperBlock
use rpi_os_cfs_ext.Ext2.Inode
use rpi_os_cfs_ext.Ext2.Inodes.{set_inode}
use rpi_os_cfs_ext.Ext2.Inodes.Slots.{IsInode}
use rpi_os_cfs_ext.Ext2.FileBlocks.{get_data_block_at_inode}
use rpi_os_cfs_ext.Ext2.FileBlocks.Direct.{inode_of}
use rpi_os_cfs_ext.Ext2.Io.{
  copied, copy, read_number, write_number, missing_blocks, overruns, write_checked, write_data,
  ext2_read,
}

-- The bytes from `offset` on lie in one block of the file, before its last byte and rounded up to
-- a multiple of eight not past it. The file has at most 12 blocks, and the block is a data block of
-- the disk; the inode is one of the first 32 of its group.
pub record IsInBlock (fs : Fs) (i offset length : ℕ) : Type 0 where
  pub inode : IsInode i
  pub early : (i - 1) % 175 < 32
  pub few : Inode.blocks (inode_of fs i) ≤ 12
  pub present : offset / 1024 < Inode.blocks (inode_of fs i)
  pub within : offset % 1024 + length < 1024
  pub rounded : offset % 1024 + copied length ≤ 1024
  pub inside : offset ≤ Inode.size (inode_of fs i)
  pub on_disk : Inode.block (inode_of fs i) (offset / 1024) < 120
  pub in_data : 9 ≤ Inode.block (inode_of fs i) (offset / 1024) % 30

-- The inode after the write.
abbrev pub sized : Bytes → ℕ → Bytes
sized x last = if ltb (Inode.size x) last then Inode.set_size x (u32 last) else x

pub sized-size :
    (x : Bytes) (last : ℕ)
    → last < 2 ^ 32
    → Inode.size (sized x last) ≡ (if ltb (Inode.size x) last then last else Inode.size x)
sized-size x last h = ground (arith, u32_at-put32 x 4 (u32 last))

-- A field behind the size stays.
pub sized-field : (x : Bytes) (last o : ℕ) → 8 ≤ o → u32_at (sized x last) o ≡ u32_at x o
unfolding put32
sized-field x last o h = ground arith

pub copied-enough : (n : ℕ) → n ≤ copied n
unfolding copied
copied-enough n = ground arith

pub no_missing :
    (blocks block endoffset : ℕ) → block < blocks → missing_blocks blocks block endoffset ≡ 0
unfolding missing_blocks
no_missing blocks block endoffset h = ground arith

pub not_below : (a b : ℕ) → b ≤ a → ltb a b ≡ false
not_below a b h = ground arith

pub set_inode-IsReady :
    (d : Disk) (sb : Bytes) (i : ℕ) (x : Bytes) → IsReady d → IsReady (set_inode d sb i x)
unfolding set_inode
set_inode-IsReady d sb i x r = block_write-IsReady _ _ _ r

-- One block changed from place `o` on.
unfoldable pub changed : Fs → ℕ → ℕ → ℕ → Bytes → ℕ → Fs
changed g per n o buffer length = record g {
  disk =
      block_write g.disk (n / per) (n % per)
        (copy (block_read g.disk (n / per) (n % per) zeros) o buffer length);
}

write_checked-one :
    (g : Fs) (per offset length : ℕ) (wb_num : ℕ → ℕ) (buffer : Bytes)
    → offset % 1024 + length < 1024
    → write_checked per offset length wb_num buffer g
      ≡ (some tt, changed g per (wb_num (offset / 1024)) (offset % 1024) buffer length)
unfolding write_checked read_number write_number changed
write_checked-one g per offset length wb_num buffer h = elim (Bool-cases (ltb 0 (offset % 1024))) [
  | inl e ↦ rw (e, lt→ltb length (1024 - offset % 1024) (omega (arith, h))) refl
  | inr e ↦
      let start : offset % 1024 ≡ 0 = ground arith in
      rw (start, lt→ltb length 1024 (omega (arith, h))) refl
]

not_over :
    (begin length : ℕ)
    → begin + length < 1024
    → begin + copied length ≤ 1024
    → overruns begin length ≡ false
unfolding overruns
not_over begin length h fits =
    rw (lt→ltb length (1024 - begin) (omega (arith, h))) (ground (arith, fits))

pub write_data-one :
    (g : Fs) (per offset length : ℕ) (wb_num : ℕ → ℕ) (buffer : Bytes)
    → offset % 1024 + length < 1024
    → offset % 1024 + copied length ≤ 1024
    → write_data per offset length wb_num buffer g
      ≡ some (some tt, changed g per (wb_num (offset / 1024)) (offset % 1024) buffer length)
unfolding write_data
write_data-one g per offset length wb_num buffer h fits =
    rw (not_over (offset % 1024) length h fits)
      (ap some (write_checked-one g per offset length wb_num buffer h))

pub read-one :
    (g : Fs) (i offset length : ℕ) (out : Bytes) (stack : ℕ → ℕ)
    → offset ≤ Inode.size (inode_of g i)
    → offset % 1024 + length < 1024
    → let n = (get_data_block_at_inode g i stack).1 (offset / 1024) in
      let per = SuperBlock.block_per_group g.sb in
      ext2_read i offset length out stack g ≡ (
        some (
            copy out 0 (from (block_read g.disk (n / per) (n % per) zeros) (offset % 1024)) length),
        g,
      )
unfolding ext2_read read_number get_data_block_at_inode
read-one g i offset length out stack h inside =
    rw (not_below (Inode.size (inode_of g i)) offset h, lt→ltb (offset % 1024 + length) 1024 inside)
      refl
