-- ===== src/Disk.antt =====
-- src/disksim.c, the disk in memory, and the sector and block layer at the head of src/ext2.c.
-- A status is `true` for 0 and `false` for -1; a read into a buffer returns the new buffer.
pub mod Geometry
pub mod Blocks
use rpi_os_cfs_ext.Base.{
  ℕ, zero, suc, ◌+◌, ◌-◌, ◌*◌, ◌/◌, Bool, true, false, u32, ltb, leb, if◌then◌else◌, ◌||◌, not,
}
use rpi_os_cfs_ext.Base.Bytes.{Bytes, zeros, from, memcpy}

abbrev pub max_sector_size : ℕ
max_sector_size = 512

abbrev pub max_block_size : ℕ
max_block_size = 1024

abbrev pub number_of_sectors : ℕ
number_of_sectors = 240 + 2

abbrev pub number_of_groups : ℕ
number_of_groups = 4

-- `DISK_OPERATIONS` with its `pdata->address`; the two function pointers are the functions below.
pub record Disk : Type 0 where
  pub address : Bytes
  pub sectors : ℕ
  pub bytes_per_sector : ℕ

-- `disksim_init` on a disk that is not null.
unfoldable pub disksim_init : Disk → Disk
disksim_init d = record {
  address = memcpy d.address 0 zeros (max_sector_size * number_of_sectors);
  sectors = number_of_sectors;
  bytes_per_sector = max_sector_size;
}

-- `sector < 0` never holds of the unsigned number.
unfoldable pub disksim_read : Disk → ℕ → Bytes → Bool × Bytes
disksim_read d sector buf = if leb d.sectors sector then (false, buf) else (
  true,
  memcpy buf 0 (from d.address (u32 (sector * d.bytes_per_sector))) d.bytes_per_sector,
)

unfoldable pub disksim_write : Disk → ℕ → Bytes → Bool × Disk
disksim_write d sector src = if leb d.sectors sector then (false, d) else (
  true,
  record d {
    address = memcpy d.address (u32 (sector * d.bytes_per_sector)) src d.bytes_per_sector;
  },
)

-- The sector number on the whole disk, in `unsigned int`.
unfoldable pub real_sector : ℕ → ℕ → ℕ → ℕ
real_sector group block sector_num =
    let per_group = (number_of_sectors - 2) / number_of_groups in
    let per_block = max_block_size / 512 in
    u32 (2 + group * per_group + block * per_block + sector_num)

-- The status of `read_sector` is dropped: past the end the buffer is the zeroed local one.
unfoldable pub sector_read : Disk → ℕ → ℕ → ℕ → Bytes → Bytes
unfolding disksim_read real_sector
sector_read d group block sector_num buf =
    let (_, sector) = disksim_read d (real_sector group block sector_num) zeros in
    memcpy buf 0 sector max_sector_size

unfoldable pub sector_write : Disk → ℕ → ℕ → ℕ → Bytes → Disk
unfolding disksim_write real_sector
sector_write d group block sector_num src =
    let sector = memcpy zeros 0 src max_sector_size in
    (disksim_write d (real_sector group block sector_num) sector).1

-- The loops over the sectors of a block, with the rounds left.
unfoldable pub read_sectors : ℕ → ℕ → Disk → ℕ → ℕ → Bytes → Bytes
unfolding sector_read
read_sectors zero s_num d group block buf = buf
read_sectors (suc left) s_num d group block buf =
    let sector = sector_read d group block s_num zeros in
    read_sectors left (s_num + 1) d group block
      (memcpy buf (max_sector_size * s_num) sector max_sector_size)

unfoldable pub block_read : Disk → ℕ → ℕ → Bytes → Bytes
unfolding read_sectors
block_read d group block buf = read_sectors (max_block_size / 512) 0 d group block buf

unfoldable pub write_sectors : ℕ → ℕ → Disk → ℕ → ℕ → Bytes → Disk
unfolding sector_write
write_sectors zero s_num d group block src = d
write_sectors (suc left) s_num d group block src =
    let sector = memcpy zeros 0 (from src (max_sector_size * s_num)) max_sector_size in
    write_sectors left (s_num + 1) (sector_write d group block s_num sector) group block src

unfoldable pub block_write : Disk → ℕ → ℕ → Bytes → Disk
unfolding write_sectors
block_write d group block src = write_sectors (max_block_size / 512) 0 d group block src
