-- ===== src/Ext2/FileBlocks.antt =====
-- The blocks of a file: `get_inode_block`, `get_data_block_at_inode` and `set_inode_block` of
-- src/ext2.c.
pub mod Direct
use rpi_os_cfs_ext.Base.{
  ℕ, ◌+◌, ◌-◌, ◌*◌, ◌/◌, ◌%◌, Bool, true, false, Option, none, some, ◌==◌, ltb, leb, if◌then◌else◌,
  not, u32, bit_and,
}
use rpi_os_cfs_ext.Base.Bytes.{Bytes, zeros, u32_at, put32}
use rpi_os_cfs_ext.Disk.{Disk, block_read, max_block_size}
use rpi_os_cfs_ext.Ext2.Layout.{get_inode_group}
use rpi_os_cfs_ext.Ext2.SuperBlock
use rpi_os_cfs_ext.Ext2.Inode
use rpi_os_cfs_ext.Ext2.DirEntry
use rpi_os_cfs_ext.Ext2.Inodes.{get_inode, set_inode}
use rpi_os_cfs_ext.Ext2.Alloc.{alloc_any}
use rpi_os_cfs_ext.Ext2.Op.{
  Fs, Op, pure, error, ◌>>=◌, ◌>>◌, get_fs, set_disk, read_block, write_block,
}

abbrev pub indir_b_num : ℕ
indir_b_num = max_block_size / 4

abbrev pub double_b_num : ℕ
double_b_num = indir_b_num * indir_b_num

-- The first block of a file that is found through the double and the triple indirect block.
abbrev pub first_double : ℕ
first_double = 12 + indir_b_num

abbrev pub first_triple : ℕ
first_triple = 12 + indir_b_num + double_b_num

-- Entry `k` of the pointer block with the number `b` on the whole disk.
unfoldable pub pointer : Disk → Bytes → ℕ → ℕ → ℕ
pointer d sb b k =
    let per_group = SuperBlock.block_per_group sb in
    u32_at (block_read d (b / per_group) (b % per_group) zeros) (4 * k)

-- `get_inode` fills the whole of the local inode.
unfoldable pub get_inode_block : Disk → Bytes → ℕ → ℕ → ℕ
unfolding get_inode pointer
get_inode_block d sb i_num b_num =
    let inode = get_inode d sb i_num zeros in
    let k = b_num - first_triple in
    let m = b_num - first_double in
    if leb first_triple b_num
    then pointer d sb
        (pointer d sb (pointer d sb (Inode.block inode 14) (k / double_b_num))
          (k % double_b_num / indir_b_num))
        (k % indir_b_num)
    else if leb first_double b_num
    then pointer d sb (pointer d sb (Inode.block inode 13) (m / indir_b_num)) (m % indir_b_num)
    else if leb 12 b_num
    then pointer d sb (Inode.block inode 12) (b_num - 12)
    else Inode.block inode b_num

-- The inode, and the array after the loop: entries past the last block keep what they held.
unfoldable pub get_data_block_at_inode : Fs → ℕ → (ℕ → ℕ) → Bytes × (ℕ → ℕ)
unfolding get_inode get_inode_block
get_data_block_at_inode fs number block =
    let inode = get_inode fs.disk fs.sb number zeros in
    (
      inode,
      λ i. if ltb i (Inode.blocks inode) then get_inode_block fs.disk fs.sb number i else block i,
    )

-- `do { b = alloc_free_block(fs, g); ... } while(g != start); if(b == 0) return EXT2_ERROR;`
unfoldable pub alloc_pointer : ℕ → Op (ℕ × ℕ)
unfolding alloc_any
alloc_pointer start = do (g, b) ← alloc_any start; if b == 0 then error else pure (g, b)

-- `block[k] = v` in a block.
unfoldable pub set_pointer : ℕ → ℕ → ℕ → ℕ → Op (Unit {0})
set_pointer g b k v = do block ← read_block g b; write_block g b (put32 block (4 * k) v)

unfoldable pub get_pointer : ℕ → ℕ → ℕ → Op ℕ
get_pointer g b k = do block ← read_block g b; pure (u32_at block (4 * k))

-- The group and the block of each indirect block that the new block needs, and the inode, where
-- the number of a new one at the top is set.
unfoldable pub triple_block : ℕ → ℕ → ℕ → Bytes → Op (ℕ × ℕ × Bytes)
unfolding alloc_pointer
triple_block per_group blocks i_group inode =
    if ltb blocks first_triple
    then pure (i_group, 0, inode)
    else if blocks == first_triple
    then (do
      (g, b) ← alloc_pointer i_group
      pure (g, b, Inode.set_block inode 14 (u32 (g * per_group + b))))
    else pure (Inode.block inode 14 / per_group, Inode.block inode 14 % per_group, inode)

unfoldable pub double_block : ℕ → ℕ → ℕ → ℕ → ℕ → Bytes → Op (ℕ × ℕ × Bytes)
unfolding alloc_pointer set_pointer get_pointer
double_block per_group blocks i_group g_triple b_triple inode =
    let m = blocks - first_double in
    let temp = (blocks - first_triple) / double_b_num in
    if ltb blocks first_double
    then pure (i_group, 0, inode)
    else if m % double_b_num == 0
    then (do
      (g, b) ← alloc_pointer g_triple
      let number = u32 (g * per_group + b)
      if m == 0
          then pure (g, b, Inode.set_block inode 13 number)
          else do set_pointer g_triple b_triple temp number; pure (g, b, inode))
    else if ltb blocks first_triple
    then pure (Inode.block inode 13 / per_group, Inode.block inode 13 % per_group, inode)
    else do
      number ← get_pointer g_triple b_triple temp
      pure (number / per_group, number % per_group, inode)

-- The last level, and the new block's number in it.
unfoldable pub indirect_block : ℕ → ℕ → ℕ → ℕ → ℕ → Bytes → Op Bytes
unfolding alloc_pointer set_pointer get_pointer
indirect_block per_group blocks g_double b_double b_num inode =
    let k = blocks - first_triple in
    let m = blocks - first_double in
    let slot =
      if leb first_triple blocks then k % double_b_num / indir_b_num else m / indir_b_num in
    if (blocks - 12) % indir_b_num == 0
    then (do
      (g, b) ← alloc_pointer g_double
      let number = u32 (g * per_group + b)
      inode ←
          if leb first_double blocks
          then (do set_pointer g_double b_double slot number; pure inode)
          else pure (Inode.set_block inode 12 number)
      write_block g b (put32 zeros 0 b_num)
      pure inode)
    else do
      number ←
          if ltb first_double blocks
          then get_pointer g_double b_double slot
          else pure (Inode.block inode 12)
      let temp =
          if ltb first_triple blocks
          then k % indir_b_num
          else if ltb first_double blocks
          then m % indir_b_num
          else blocks - 12
      set_pointer (number / per_group) (number % per_group) temp b_num
      pure inode

-- What both ends of the function do: one more block, and for a directory one more entry.
unfoldable pub grow_inode : ℕ → Bytes → Op (Unit {0})
unfolding set_inode
grow_inode i_num inode = do
  fs ← get_fs
  let inode = Inode.set_blocks inode (u32 (Inode.blocks inode + 1))
  let inode =
      if bit_and (Inode.mode inode) 0x4000 == 0
      then inode
      else Inode.set_size inode (u32 (Inode.size inode + DirEntry.size))
  set_disk (set_inode fs.disk fs.sb i_num inode)

unfoldable pub set_inode_block : ℕ → ℕ → Op (Unit {0})
unfolding get_inode triple_block double_block indirect_block grow_inode
set_inode_block i_num b_num = do
  fs ← get_fs
  let i_group = get_inode_group i_num
  let inode = get_inode fs.disk fs.sb i_num zeros
  let blocks = Inode.blocks inode
  let per_group = SuperBlock.block_per_group fs.sb
  if ltb blocks 12 then grow_inode i_num (Inode.set_block inode blocks b_num) else do
    (g_triple, b_triple, inode) ← triple_block per_group blocks i_group inode
    (g_double, b_double, inode) ← double_block per_group blocks g_triple g_triple b_triple inode
    inode ← indirect_block per_group blocks g_double b_double b_num inode
    grow_inode i_num inode
