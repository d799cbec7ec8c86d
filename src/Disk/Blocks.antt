-- ===== src/Disk/Blocks.antt =====
-- What a block holds after a write: the law by which every structure on the disk is updated.
use rpi_os_cfs_ext.Base.{ℕ, ◌+◌, ◌-◌, ◌<◌, ◌≡◌, arith, ltb, leb, if◌then◌else◌, ◌&&◌, ◌==◌}
use rpi_os_cfs_ext.Base.Bytes.{Bytes, zeros}
use rpi_os_cfs_ext.Disk.{Disk, block_read, block_write}
use rpi_os_cfs_ext.Disk.Geometry.{IsReady, IsBlock, block_start, block_read_lem, block_write_lem}

pub block_write-IsReady :
    {d : Disk} (g b : ℕ) (src : Bytes) → IsReady d → IsReady (block_write d g b src)
unfolding block_write
block_write-IsReady g b src r = ground arith

block_start_inside :
    (g b g' b' a : ℕ)
    → b < 30
    → b' < 30
    → a < 1024
    → (leb (block_start g b) (block_start g' b' + a)
        && ltb (block_start g' b' + a) (block_start g b + 1024))
      ≡ ((g == g') && (b == b'))
block_start_inside g b g' b' a hb hb' ha = ground arith

-- Reading block `b'` of group `g'` after a write of block `b` of group `g` gives what was written
-- if it is the same block, and what was there before if it is not.
pub block_read-block_write :
    {d : Disk} (g b g' b' a : ℕ) (src buf : Bytes)
    → IsReady d
    → IsBlock g b
    → IsBlock g' b'
    → a < 1024
    → block_read (block_write d g b src) g' b' buf a
      ≡ (if (g == g') && (b == b') then src a else block_read d g' b' buf a)
block_read-block_write {d} g b g' b' a src buf r h h' ha = ground (
  arith,
  block_read_lem (block_write-IsReady g b src r) g' b' a buf h',
  block_read_lem r g' b' a buf h',
  block_write_lem r g b (block_start g' b' + a) src h,
  block_start_inside g b g' b' a h.block h'.block ha,
)

abbrev pub AreBytes : Bytes → Type 0
AreBytes b = (a : ℕ) → b a < 256

-- A block read from a disk of bytes is bytes, also past its end in a zeroed buffer.
pub AreBytes-block_read :
    {d : Disk} (g b : ℕ)
    → IsReady d
    → IsBlock g b
    → AreBytes d.address
    → AreBytes (block_read d g b zeros)
AreBytes-block_read {d} g b r h bytes a =
    ground (arith, block_read_lem r g b a zeros h, bytes (block_start g b + a))

pub AreBytes-block_write :
    {d : Disk} (g b : ℕ) (src : Bytes)
    → IsReady d
    → IsBlock g b
    → AreBytes d.address
    → ((a : ℕ) → a < 1024 → src a < 256)
    → AreBytes (block_write d g b src).address
AreBytes-block_write {d} g b src r h bytes hs a =
    ground (arith, block_write_lem r g b a src h, bytes a, hs (a - block_start g b))
