-- ===== src/Ext2/Alloc/FreeInode.antt =====
-- What `alloc_free_inode` does on a group that has a free inode.
use rpi_os_cfs_ext.Base.{ℕ, ◌+◌, ◌-◌, ◌*◌, ◌≤◌, ◌<◌, ◌≡◌, Option, none, some}
use rpi_os_cfs_ext.Base.Bytes.{Bytes, zeros, u32_at}
use rpi_os_cfs_ext.Base.Bits.{bitmap_at}
use rpi_os_cfs_ext.Disk.{Disk, block_read}
use rpi_os_cfs_ext.Ext2.Op.{Fs}
use rpi_os_cfs_ext.Ext2.SuperBlock
use rpi_os_cfs_ext.Ext2.GroupDescriptor
use rpi_os_cfs_ext.Ext2.Bitmap.{set_inode_bitmap}
use rpi_os_cfs_ext.Ext2.Bitmap.Laws.{OneBit}
use rpi_os_cfs_ext.Ext2.Alloc.{gdt_block, gdt_offset}
use rpi_os_cfs_ext.Ext2.Alloc.Scan.{AllSet, Scanned}
use rpi_os_cfs_ext.Ext2.Alloc.Block.{content}

-- The scan gives the number behind the first clear bit.
abbrev InodeScanned : Bytes → ℕ → ℕ → Option ℕ → Type 0
InodeScanned block lo hi none = AllSet block lo hi
InodeScanned block lo hi (some n) = (0 < n) × Scanned block lo hi (some (n - 1))

-- The descriptor of group `g` on the disk counts a free inode and three free blocks.
abbrev pub HasRoom : Disk → ℕ → Type 0
HasRoom d g =
    (1 ≤ u32_at (block_read d 0 (gdt_block g) zeros) (gdt_offset g + 16))
    × (3 ≤ u32_at (block_read d 0 (gdt_block g) zeros) (gdt_offset g + 12))

-- `g` is the first of the four groups with room.
pub record IsFirstWithRoom (d : Disk) (g : ℕ) : Type 0 where
  pub group : g < 4
  pub room : HasRoom d g
  pub earlier : (j : ℕ) → j < g → ¬ HasRoom d j

-- The inode that is bit `n` of the inode bitmap of group `g`, as `alloc_free_inode` takes it.
pub record TakenInode (fs : Fs) (g : ℕ) (r : Option ℕ × Fs) : Type 0 where
  pub bit : ℕ
  pub small : bit < 175
  pub was_free : bitmap_at (content fs.disk g 4) bit ≡ 0
  pub first : AllSet (content fs.disk g 4) 0 bit
  pub result : r.0 ≡ some (g * 175 + bit + 1)
  pub same_sb : r.1.sb ≡ fs.sb
  pub same_gd : r.1.gd ≡ fs.gd
  pub one_bit : OneBit fs.disk r.1.disk g 4 bit 1

-- What follows the scan.
taken_inode : Fs → ℕ → Option ℕ × Fs
taken_inode fs inode = (some inode, record fs { disk = (set_inode_bitmap fs.disk inode 1).1 })
