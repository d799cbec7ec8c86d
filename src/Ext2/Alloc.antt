-- ===== src/Ext2/Alloc.antt =====
-- `alloc_free_block` and `alloc_free_inode` of src/ext2.c.
pub mod Scan
pub mod Block
pub mod Groups
pub mod FreeInode
use rpi_os_cfs_ext.Base.{
  ℕ, zero, suc, ◌+◌, ◌-◌, ◌*◌, ◌/◌, ◌%◌, Bool, true, false, Option, none, some, ◌==◌, ltb,
  if◌then◌else◌, ◌&&◌, ◌||◌, not, sub32, u8, u32, bit_and,
}
use rpi_os_cfs_ext.Base.Bytes.{Bytes, zeros, u32_at, put32}
use rpi_os_cfs_ext.Disk.{Disk, block_read, block_write, max_block_size, number_of_groups}
use rpi_os_cfs_ext.Ext2.SuperBlock
use rpi_os_cfs_ext.Ext2.GroupDescriptor
use rpi_os_cfs_ext.Ext2.Bitmap.{set_block_bitmap, set_inode_bitmap}
use rpi_os_cfs_ext.Ext2.Op.{
  Fs, Op, pure, error, ◌>>=◌, ◌>>◌, when, get_fs, set_disk, read_block, write_block,
}

-- `for(bit = 0; bit < n; bit++) if(byte & mask) mask <<= 1; else { check = 1; break; }` with
-- `left` rounds left; `none` is `check == 0`.
unfoldable pub scan_bits : ℕ → ℕ → ℕ → ℕ → Option ℕ
scan_bits zero bit mask byte = none
scan_bits (suc left) bit mask byte =
    let rest = scan_bits left (bit + 1) (u8 (mask * 2)) byte in
    if bit_and byte mask == 0 then some bit else rest

-- The loop over the whole bytes of the bitmap from `offset`, with `left` bytes left.
unfoldable pub scan_bytes : ℕ → ℕ → Bytes → Option ℕ
unfolding scan_bits
scan_bytes zero offset block = none
scan_bytes (suc left) offset block =
    let rest = scan_bytes left (offset + 1) block in
    if block offset == 0xff
    then rest
    else elim (scan_bits 8 0 1 (block offset)) [ some bit ↦ some (offset * 8 + bit) | none ↦ rest ]

-- The bit of the bitmap that is bit `bit` of byte `k`.
abbrev pub in_byte : ℕ → Option ℕ → Option ℕ
in_byte k none = none
in_byte k (some bit) = some (k * 8 + bit)

abbrev pub or_else : Option ℕ → Option ℕ → Option ℕ
or_else none o = o
or_else (some b) o = some b

-- The search of the bitmap: the whole bytes from byte `first`, then the `per_group % 8` bits
-- behind them. `none` is a full group. (`first` is no more than `per_group / 8` on any disk that
-- the program formats; past it the source reads an index that it never set.)
unfoldable pub search_bitmap : ℕ → ℕ → Bytes → Option ℕ
unfolding scan_bytes scan_bits
search_bitmap per_group first block =
    let max_bit = per_group / 8 in
    or_else (scan_bytes (max_bit - first) first block)
      (in_byte max_bit (scan_bits (per_group % 8) 0 1 (block max_bit)))

unfoldable pub find_free_block : Bytes → Bytes → Option ℕ
unfolding search_bitmap
find_free_block sb block =
    search_bitmap (SuperBlock.block_per_group sb) (SuperBlock.first_data_block_each_group sb / 8)
      block

-- The block of the table, and the offset in it, that hold the descriptor of a group.
abbrev pub gdt_block : ℕ → ℕ
gdt_block group = 1 + group / (max_block_size / GroupDescriptor.size)

abbrev pub gdt_offset : ℕ → ℕ
gdt_offset group = group % (max_block_size / GroupDescriptor.size) * GroupDescriptor.size

-- `block[o] -= 1` on a UINT32 field of block `b` of group 0.
unfoldable pub decrement : ℕ → ℕ → Disk → Disk
decrement b o d =
    let block = block_read d 0 b zeros in
    block_write d 0 b (put32 block o (sub32 (u32_at block o) 1))

-- What follows a successful search: the block is zeroed, marked, and counted off.
unfoldable pub take_block : Disk → ℕ → ℕ → Disk
unfolding decrement
take_block d group b_num =
    let d = block_write d group b_num zeros in
    let (_, d) = set_block_bitmap d group b_num 1 in
    let d = decrement 0 12 d in decrement (gdt_block group) (gdt_offset group + 12) d

-- What follows the search; the result is 0 where the group is full, and is never negative.
unfoldable pub grant : ℕ → Fs → Option ℕ → Option ℕ × Fs
unfolding take_block
grant group fs none = (some 0, fs)
grant group fs (some b_num) = (some b_num, record fs { disk = take_block fs.disk group b_num })

unfoldable pub alloc_free_block : ℕ → Op ℕ
unfolding find_free_block grant
alloc_free_block group fs =
    let bitmap = GroupDescriptor.start_block_of_block_bitmap fs.gd in
    grant group fs (find_free_block fs.sb (block_read fs.disk group bitmap zeros))

-- `do { b = alloc_free_block(fs, g); ... } while(g != start)`: the groups in turn from `start`,
-- with `left` rounds left. The result is the group and the block, which is 0 if none is free.
unfoldable pub alloc_from : ℕ → ℕ → ℕ → Op (ℕ × ℕ)
unfolding alloc_free_block
alloc_from zero start g = pure (g, 0)
alloc_from (suc left) start g = do
  b ← alloc_free_block g
  let g' = (g + 1) % number_of_groups
  let rest = alloc_from left start g'
  if not (b == 0) then pure (g, b) else if g' == start then pure (g', 0) else rest

-- At most `NUMBER_OF_GROUPS` rounds are made from a group that exists.
unfoldable pub alloc_any : ℕ → Op (ℕ × ℕ)
unfolding alloc_from
alloc_any start = alloc_from number_of_groups start start

-- The first group whose descriptor has an inode and three blocks free.
unfoldable pub find_group : ℕ → ℕ → Disk → Option ℕ
find_group zero g d = none
find_group (suc left) g d =
    let rest = find_group left (g + 1) d in
    let gd = block_read d 0 (gdt_block g) zeros in
    if ltb (u32_at gd (gdt_offset g + 16)) 1 || ltb (u32_at gd (gdt_offset g + 12)) 3
    then rest
    else some g

-- The loop over the inode bitmap from byte `i`. Its test for the end, `i*8 + j ==
-- inode_per_group`, is made with `j == 8`.
unfoldable pub scan_inodes : ℕ → ℕ → ℕ → Bytes → Option ℕ
unfolding scan_bits
scan_inodes per_group zero i block = none
scan_inodes per_group (suc left) i block =
    let rest = scan_inodes per_group left (i + 1) block in
    elim (scan_bits 8 0 1 (block i)) [
      | some j ↦ some (i * 8 + j + 1)
      | none ↦ if (i + 1) * 8 + 8 == per_group then none else rest
    ]

-- `parent` is only read for a value that nothing uses.
unfoldable pub alloc_free_inode : Op ℕ
unfolding find_group scan_inodes
alloc_free_inode fs = elim (find_group number_of_groups 0 fs.disk) [
  | none ↦ (none, fs)
  | some g ↦
      let block = block_read fs.disk g (GroupDescriptor.start_block_of_inode_bitmap fs.gd) zeros in
      let per_group = SuperBlock.inode_per_group fs.sb in
      elim (scan_inodes per_group max_block_size 0 block) [
        | none ↦ (none, fs)
        | some n ↦
            let inode = u32 (g * per_group + n) in
            (some inode, record fs { disk = (set_inode_bitmap fs.disk inode 1).1 })
      ]
]
