-- ===== src/Disk/Geometry.antt =====
-- The shape that `disksim_init` gives a disk, and where a block lies in it.
use rpi_os_cfs_ext.Base.{ℕ, ◌+◌, ◌-◌, ◌*◌, ◌<◌, ◌≡◌, arith, ltb, leb, if◌then◌else◌, ◌&&◌}
use rpi_os_cfs_ext.Base.Bytes.{Bytes, zeros, from, memcpy}
use rpi_os_cfs_ext.Disk.{
  Disk, number_of_sectors, max_sector_size, sector_read, sector_write, block_read, block_write,
}

pub record IsReady (d : Disk) : Type 0 where
  pub sectors : d.sectors ≡ number_of_sectors
  pub bytes_per_sector : d.bytes_per_sector ≡ max_sector_size

-- A block of a group: there are 4 groups of 30 blocks.
pub record IsBlock (g b : ℕ) : Type 0 where
  pub group : g < 4
  pub block : b < 30

-- The first byte of block `b` of group `g`, behind the two boot sectors.
abbrev pub block_start : ℕ → ℕ → ℕ
block_start g b = 1024 + 30720 * g + 1024 * b

module _ {d : Disk} (r : IsReady d) where
  pub sector_read_lem :
      (g b s a : ℕ) (buf : Bytes)
      → IsBlock g b
      → s < 2
      → sector_read d g b s buf a
        ≡ (if ltb a 512 then d.address (block_start g b + 512 * s + a) else buf a)
  unfolding sector_read memcpy
  sector_read_lem g b s a buf h hs = ground arith

  sector_write_lem :
      (g b s a : ℕ) (src : Bytes)
      → IsBlock g b
      → s < 2
      → (sector_write d g b s src).address a ≡ (
          if leb (block_start g b + 512 * s) a && ltb a (block_start g b + 512 * s + 512)
          then src (a - (block_start g b + 512 * s))
          else d.address a)
  unfolding sector_write memcpy
  sector_write_lem g b s a src h hs = ground arith

  sector_write-IsReady : (g b s : ℕ) (src : Bytes) → IsReady (sector_write d g b s src)
  unfolding sector_write
  sector_write-IsReady g b s src = ground arith

module _ {d : Disk} (r : IsReady d) where
  pub block_read_lem :
      (g b a : ℕ) (buf : Bytes)
      → IsBlock g b
      → block_read d g b buf a ≡ (if ltb a 1024 then d.address (block_start g b + a) else buf a)
  unfolding block_read memcpy
  block_read_lem g b a buf h =
      ground (arith, sector_read_lem r g b 0 a zeros h, sector_read_lem r g b 1 (a - 512) zeros h)

  pub block_write_lem :
      (g b a : ℕ) (src : Bytes)
      → IsBlock g b
      → (block_write d g b src).address a ≡ (
          if leb (block_start g b) a && ltb a (block_start g b + 1024)
          then src (a - block_start g b)
          else d.address a)
  unfolding block_write memcpy
  block_write_lem g b a src h = ground (
    arith,
    sector_write_lem r g b 0 a (memcpy zeros 0 (from src 0) 512) h,
    sector_write_lem (sector_write-IsReady r g b 0 (memcpy zeros 0 (from src 0) 512)) g b 1 a
        (memcpy zeros 0 (from src 512) 512) h,
  )
