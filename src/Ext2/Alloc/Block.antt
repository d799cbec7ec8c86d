-- ===== src/Ext2/Alloc/Block.antt =====
-- What an allocation of a block does to the disk.
use rpi_os_cfs_ext.Base.{
  ℕ, ◌+◌, ◌*◌, ◌≤◌, ◌<◌, ◌≡◌, false, Option, some, ◌==◌, ◌&&◌, ◌||◌, if◌then◌else◌, sub32,
}
use rpi_os_cfs_ext.Base.Bytes.{Bytes, zeros, u32_at}
use rpi_os_cfs_ext.Base.Bits.{bitmap_at}
use rpi_os_cfs_ext.Disk.{Disk, block_read}
use rpi_os_cfs_ext.Disk.Geometry.{IsReady, IsBlock}
use rpi_os_cfs_ext.Disk.Blocks.{AreBytes}
use rpi_os_cfs_ext.Ext2.Op.{Fs}
use rpi_os_cfs_ext.Ext2.SuperBlock
use rpi_os_cfs_ext.Ext2.GroupDescriptor
use rpi_os_cfs_ext.Ext2.Alloc.Scan.{AllSet}

-- A block as it reads into a zeroed buffer.
abbrev pub content : Disk → ℕ → ℕ → Bytes
content d g b = block_read d g b zeros

-- The counter field at offset `o` of block `b` of group 0 is one less, and the rest is as it was.
pub record Decremented (d d' : Disk) (b o : ℕ) : Type 0 where
  pub ready : IsReady d'
  pub bytes : AreBytes d'.address
  pub field : u32_at (content d' 0 b) o ≡ sub32 (u32_at (content d 0 b) o) 1
  pub others :
      (g' b' a : ℕ)
      → IsBlock g' b'
      → a < 1024
      → ((0 == g') && (b == b')) ≡ false
      → content d' g' b' a ≡ content d g' b' a

-- The disk after block `b` of group `g` was taken.
pub record Taken (d d' : Disk) (g b : ℕ) : Type 0 where
  pub ready : IsReady d'
  pub bytes : AreBytes d'.address
  -- the block is zeroed
  pub zeroed : (a : ℕ) → a < 1024 → content d' g b a ≡ 0
  -- of the block bitmaps, its bit is set and no other is changed
  pub bits :
      (g' m : ℕ)
      → g' < 4
      → m < 8192
      → bitmap_at (content d' g' 3) m
        ≡ (if (g == g') && (m == b) then 1 else bitmap_at (content d g' 3) m)
  -- the free counts of the super block and of the group's descriptor fall by one
  pub super_count : u32_at (content d' 0 0) 12 ≡ sub32 (u32_at (content d 0 0) 12) 1
  pub group_count :
      u32_at (content d' 0 1) (32 * g + 12) ≡ sub32 (u32_at (content d 0 1) (32 * g + 12)) 1
  -- every other block is as it was
  pub others :
      (g' b' a : ℕ)
      → IsBlock g' b'
      → a < 1024
      → ((g == g') && ((b == b') || (b' == 3))) ≡ false
      → ((0 == g') && ((b' == 0) || (b' == 1))) ≡ false
      → content d' g' b' a ≡ content d g' b' a

abbrev Wrote : Disk → Disk → ℕ → ℕ → Type 0
Wrote d d' g b =
    (g' b' a : ℕ)
    → IsBlock g' b'
    → a < 1024
    → content d' g' b' a ≡ (if (g == g') && (b == b') then 0 else content d g' b' a)

-- The data area of a group is full.
abbrev pub IsFull : Disk → ℕ → Type 0
IsFull d g = AllSet (content d g 3) 8 30

-- What `alloc_free_block` says of a group with no free block, and of one with block `b` free.
abbrev pub Refused : Fs → ℕ → Option ℕ × Fs → Type 0
Refused fs g r = (r ≡ (some 0, fs)) × IsFull fs.disk g

pub record Granted (fs : Fs) (g : ℕ) (r : Option ℕ × Fs) : Type 0 where
  pub block : ℕ
  pub result : r.0 ≡ some block
  pub low : 8 ≤ block
  pub high : block < 30
  pub was_free : bitmap_at (content fs.disk g 3) block ≡ 0
  pub first : AllSet (content fs.disk g 3) 8 block
  pub same_sb : r.1.sb ≡ fs.sb
  pub same_gd : r.1.gd ≡ fs.gd
  pub taken : Taken fs.disk r.1.disk g block
