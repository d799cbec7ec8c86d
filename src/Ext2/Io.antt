-- ===== src/Ext2/Io.antt =====
-- `ext2_write`, `get_block_group` and `ext2_read` of src/ext2.c. A file is its node's inode number.
pub mod OneBlock
pub mod InBlock
use rpi_os_cfs_ext.Base.{
  ℕ, zero, suc, ◌+◌, ◌-◌, ◌*◌, ◌/◌, ◌%◌, Bool, ◌&&◌, Option, none, some, ◌==◌, ltb, leb,
  if◌then◌else◌, u32, u64,
}
use rpi_os_cfs_ext.Base.Bytes.{Bytes, zeros, from, memcpy}
use rpi_os_cfs_ext.Disk.{max_block_size, number_of_groups}
use rpi_os_cfs_ext.Ext2.Layout.{get_inode_group}
use rpi_os_cfs_ext.Ext2.SuperBlock
use rpi_os_cfs_ext.Ext2.Inode
use rpi_os_cfs_ext.Ext2.Inodes.{get_inode, set_inode}
use rpi_os_cfs_ext.Ext2.FileBlocks.{get_data_block_at_inode, alloc_pointer, set_inode_block}
use rpi_os_cfs_ext.Ext2.Op.{
  Fs, Op, pure, error, ◌>>=◌, ◌>>◌, get_fs, set_disk, read_block, write_block,
}

-- `blockPerGroup` is read once, at the start. What lies behind the local block of 1024 bytes is
-- taken to be 0 where `ext2_read` reads it; where `ext2_write` writes it, that is a fault.
--
-- The bytes that `memcpy` of src/mm.S moves for a length: eight at a time, and at least once.
unfoldable pub copied : ℕ → ℕ
copied n = if n == 0 then 8 else (n + 7) / 8 * 8

unfoldable pub copy : Bytes → ℕ → Bytes → ℕ → Bytes
unfolding copied
copy dst o src n = memcpy dst o src (copied n)

-- `block_read` and `block_write` of the block with the number `n` on the whole disk.
unfoldable pub read_number : ℕ → ℕ → Op Bytes
read_number per_group n = read_block (n / per_group) (n % per_group)

unfoldable pub write_number : ℕ → ℕ → Bytes → Op (Unit {0})
write_number per_group n src = write_block (n / per_group) (n % per_group) src

-- How many blocks the file lacks, for the `blocks` that it has.
unfoldable pub missing_blocks : ℕ → ℕ → ℕ → ℕ
missing_blocks blocks block endoffset =
    if leb block blocks
    then (if ltb 0 endoffset && (blocks == block) then 1 else 0)
    else if ltb 0 endoffset
    then block - blocks + 1
    else block - blocks

-- `n` rounds of the loop that allocates them, the first block searched for in group `g`.
unfoldable pub append_blocks : ℕ → ℕ → ℕ → Op (Unit {0})
unfolding alloc_pointer set_inode_block
append_blocks inode zero g = pure tt
append_blocks inode (suc n) g = do
  (g_num, b) ← alloc_pointer g
  fs ← get_fs
  set_inode_block inode (u32 (g_num * SuperBlock.block_per_group fs.sb + b))
  append_blocks inode n g_num

-- The head of `ext2_write`: the size, and the blocks, of the file.
unfoldable pub extend_file : ℕ → ℕ → ℕ → Op (Unit {0})
unfolding get_inode set_inode missing_blocks append_blocks
extend_file number offset length = do
  fs ← get_fs
  let inode = get_inode fs.disk fs.sb number zeros
  if ltb (Inode.size inode) offset then error else do
    let end_write = u32 (offset % max_block_size + length)
    let last = u64 (offset + length)
    let block = u32 (last / max_block_size)
    let grown = if ltb (Inode.size inode) last then Inode.set_size inode (u32 last) else inode
    set_disk (set_inode fs.disk fs.sb number grown)
    append_blocks number (missing_blocks (Inode.blocks inode) block (end_write % max_block_size))
        (get_inode_group number)

-- The loop over the whole blocks from the one at index `i` on, which the buffer goes into.
unfoldable pub write_blocks : ℕ → ℕ → ℕ → (ℕ → ℕ) → Bytes → Op (Unit {0})
unfolding write_number
write_blocks per_group zero i wb_num buffer = pure tt
write_blocks per_group (suc n) i wb_num buffer = do
  write_number per_group (wb_num i) (memcpy zeros 0 buffer max_block_size)
  write_blocks per_group n (i + 1) wb_num (from buffer max_block_size)

-- What follows the first block. The last block is not read before it is written.
unfoldable pub write_rest : ℕ → ℕ → ℕ → (ℕ → ℕ) → Bytes → Op (Unit {0})
unfolding write_blocks copy
write_rest per_group offset_block end_write wb_num buffer = do
  let block = end_write / max_block_size
  let endoffset = end_write % max_block_size
  write_blocks per_group (block - 1) (offset_block + 1) wb_num buffer
  if ltb 0 endoffset && ltb 0 block
      then write_number per_group (wb_num (offset_block + block))
          (copy zeros 0 (from buffer (max_block_size * (block - 1))) endoffset)
      else pure tt

-- The first block, read, changed from `begin` on and written, and the rest.
unfoldable pub write_checked : ℕ → ℕ → ℕ → (ℕ → ℕ) → Bytes → Op (Unit {0})
unfolding read_number write_number copy write_rest
write_checked per_group offset length wb_num buffer = do
  let offset_block = offset / max_block_size
  let begin = offset % max_block_size
  let end_write = u32 (begin + length)
  old ← read_number per_group (wb_num offset_block)
  if ltb 0 begin
      then (if ltb length (max_block_size - begin)
          then write_number per_group (wb_num offset_block) (copy old begin buffer length)
          else (do
            write_number per_group (wb_num offset_block)
                (copy old begin buffer (max_block_size - begin))
            write_rest per_group offset_block end_write wb_num
                (from buffer (max_block_size - begin))))
      else (if ltb length max_block_size
          then write_number per_group (wb_num offset_block) (copy old 0 buffer length)
          else (do
            write_number per_group (wb_num offset_block) (memcpy old 0 buffer max_block_size)
            if length == max_block_size
                then pure tt
                else write_rest per_group offset_block end_write wb_num
                    (from buffer max_block_size)))

-- Whether the copy into the first block, rounded up to eight bytes, runs past the 1024 bytes of
-- the local array. The other copies end within it.
unfoldable pub overruns : ℕ → ℕ → Bool
unfolding copied
overruns begin length =
    let room = max_block_size - begin in
    ltb max_block_size (begin + copied (if ltb length room then length else room))

-- A write behind the local array is a fault, the outer `none`.
unfoldable pub write_data : ℕ → ℕ → ℕ → (ℕ → ℕ) → Bytes → Fs → Option (Option (Unit {0}) × Fs)
unfolding overruns write_checked
write_data per_group offset length wb_num buffer fs =
    if overruns (offset % max_block_size) length
    then none
    else some (write_checked per_group offset length wb_num buffer fs)

-- What follows an operation that may return `EXT2_ERROR`.
abbrev unless_error :
    Option (Unit {0}) × Fs
    → (Fs → Option (Option (Unit {0}) × Fs))
    → Option (Option (Unit {0}) × Fs)
unless_error (none, fs) f = some (none, fs)
unless_error (some u, fs) f = f fs

unfoldable pub ext2_write : ℕ → ℕ → ℕ → Bytes → Fs → Option (Option (Unit {0}) × Fs)
unfolding extend_file get_data_block_at_inode write_data
ext2_write number offset length buffer start =
    unless_error (extend_file number offset length start) λ fs.
      write_data (SuperBlock.block_per_group start.sb) offset length
        (get_data_block_at_inode fs number zeros).1 buffer fs

-- `none` is EXT2_ERROR.
unfoldable pub get_block_group : Bytes → ℕ → Option ℕ
get_block_group sb block_num =
    let blocks_per_group = SuperBlock.block_count sb / number_of_groups in
    let group = block_num / blocks_per_group in
    if (group == number_of_groups)
      && ltb (SuperBlock.block_count sb % number_of_groups) blocks_per_group
    then some (number_of_groups - 1)
    else if ltb group number_of_groups
    then some group
    else none

-- The loop over the whole blocks: `n` of them, from the block at index `b`, to place `o` of the buffer.
unfoldable pub read_blocks : ℕ → ℕ → ℕ → ℕ → (ℕ → ℕ) → Bytes → Op Bytes
unfolding read_number
read_blocks per_group zero b o block_num buffer = pure buffer
read_blocks per_group (suc n) b o block_num buffer = do
  block ← read_number per_group (block_num b)
  read_blocks per_group n (b + 1) (o + max_block_size) block_num
      (memcpy buffer o block max_block_size)

-- The new contents of `buffer`; `stack` is the local array of block numbers before it is filled.
unfoldable pub ext2_read : ℕ → ℕ → ℕ → Bytes → (ℕ → ℕ) → Op Bytes
unfolding get_data_block_at_inode read_number read_blocks copy
ext2_read number offset length buffer stack = do
  fs ← get_fs
  let (inode, block_num) = get_data_block_at_inode fs number stack
  let per_group = SuperBlock.block_per_group fs.sb
  let b_offset = offset % max_block_size
  let b = offset / max_block_size
  let first = max_block_size - b_offset
  let rest = length - first
  if ltb (Inode.size inode) offset then error else do
    block ← read_number per_group (block_num b)
    if ltb (b_offset + length) max_block_size
        then pure (copy buffer 0 (from block b_offset) length)
        else (do
          let buffer = copy buffer 0 (from block b_offset) first
          let whole = rest / max_block_size
          buffer ← read_blocks per_group whole (b + 1) first block_num buffer
          if rest % max_block_size == 0 then pure buffer else (do
            block ← read_number per_group (block_num (b + 1 + whole))
            pure (copy buffer (first + max_block_size * whole) block (rest % max_block_size))))
