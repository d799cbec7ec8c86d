-- ===== src/Ext2/Release.antt =====
-- `release_inode`, `release_dir_entry`, `release_block` and `increase_free_block` of src/ext2.c.
-- `group` counts the blocks that were freed in each group. `stack` is what a local variable held
-- before it is set.
pub mod Blocks
use rpi_os_cfs_ext.Base.{
  ℕ, zero, suc, ◌+◌, ◌-◌, ◌*◌, ◌/◌, ◌%◌, ◌^◌, none, some, ◌==◌, leb, if◌then◌else◌, u16, u32, sub32,
  update,
}
use rpi_os_cfs_ext.Base.Bytes.{Bytes, from, memcpy, put8, put16, put32, u16_at, u32_at}
use rpi_os_cfs_ext.Disk.{max_block_size}
use rpi_os_cfs_ext.Ext2.Layout.{get_inode_group}
use rpi_os_cfs_ext.Ext2.SuperBlock
use rpi_os_cfs_ext.Ext2.Inode
use rpi_os_cfs_ext.Ext2.DirEntry
use rpi_os_cfs_ext.Ext2.Bitmap.{set_block_bitmap, set_inode_bitmap}
use rpi_os_cfs_ext.Ext2.Inodes.{set_inode}
use rpi_os_cfs_ext.Ext2.Alloc.{gdt_block, gdt_offset}
use rpi_os_cfs_ext.Ext2.FileBlocks.{
  indir_b_num, double_b_num, first_double, first_triple, get_pointer, get_data_block_at_inode,
}
use rpi_os_cfs_ext.Ext2.Dir.{entry_at}
use rpi_os_cfs_ext.Ext2.Create.{set_sb, set_gd}
use rpi_os_cfs_ext.Ext2.Op.{
  Op, Node, pure, ◌>>=◌, ◌>>◌, when, get_fs, set_disk, read_block, write_block,
}

-- Block `b` of group `g` freed, and counted; the status of `set_block_bitmap` is dropped.
unfoldable pub free_block : ℕ → ℕ → (ℕ → ℕ) → Op (ℕ → ℕ)
unfolding set_block_bitmap
free_block g b group = do
  fs ← get_fs
  set_disk (set_block_bitmap fs.disk g b 0).1
  pure (update group g (u32 (group g + 1)))

-- The first loop, from round `i` with `n` rounds to go.
unfoldable pub free_blocks : ℕ → ℕ → (ℕ → ℕ) → ℕ → ℕ → (ℕ → ℕ) → Op (ℕ → ℕ)
unfolding free_block
free_blocks per_group blocks b_num i zero group = pure group
free_blocks per_group blocks b_num i (suc n) group = do
  let number = b_num (sub32 blocks i)
  group ← free_block (number / per_group) (number % per_group) group
  free_blocks per_group blocks b_num (i + 1) n group

-- The indirect blocks that only block `j` of the file needs, `j` in the range of each level, and
-- the pointer to them in the inode.
unfoldable pub free_triple : ℕ → ℕ → Bytes → (ℕ → ℕ) → Op (Bytes × (ℕ → ℕ))
unfolding free_block get_pointer
free_triple per_group m inode group =
    if m % indir_b_num == 0
    then (do
      let triple = Inode.block inode 14
      double ← get_pointer (triple / per_group) (triple % per_group) (m / double_b_num)
      indirect ←
          get_pointer (double / per_group) (double % per_group) (m % double_b_num / indir_b_num)
      group ← free_block (indirect / per_group) (indirect % per_group) group
      if m % double_b_num == 0
          then (do
            group ← free_block (double / per_group) (double % per_group) group
            if m == 0
                then (do
                  group ← free_block (triple / per_group) (triple % per_group) group
                  pure (Inode.set_block inode 14 0, group))
                else pure (inode, group))
          else pure (inode, group))
    else pure (inode, group)

unfoldable pub free_double : ℕ → ℕ → Bytes → (ℕ → ℕ) → Op (Bytes × (ℕ → ℕ))
unfolding free_block get_pointer
free_double per_group m inode group =
    if m % indir_b_num == 0
    then (do
      let double = Inode.block inode 13
      indirect ← get_pointer (double / per_group) (double % per_group) (m / indir_b_num)
      group ← free_block (indirect / per_group) (indirect % per_group) group
      if m == 0
          then (do
            group ← free_block (double / per_group) (double % per_group) group
            pure (Inode.set_block inode 13 0, group))
          else pure (inode, group))
    else pure (inode, group)

-- One round of the second loop for block `j`. The last branch is taken for every block from 13 on
-- that the single indirect block holds, too: from 15 on it is a write behind `block[14]`.
unfoldable pub free_level : ℕ → ℕ → Bytes → (ℕ → ℕ) → Op (Bytes × (ℕ → ℕ))
unfolding free_triple free_double free_block
free_level per_group j inode group =
    if leb first_triple j
    then free_triple per_group (j - first_triple) inode group
    else if leb first_double j
    then free_double per_group (j - first_double) inode group
    else if j == 12
    then (do
      let indirect = Inode.block inode 12
      group ← free_block (indirect / per_group) (indirect % per_group) group
      pure (Inode.set_block inode 12 0, group))
    else pure (Inode.set_block inode j 0, group)

unfoldable pub free_levels : ℕ → ℕ → ℕ → ℕ → Bytes → (ℕ → ℕ) → Op (Bytes × (ℕ → ℕ))
unfolding free_level
free_levels per_group blocks i zero inode group = pure (inode, group)
free_levels per_group blocks i (suc n) inode group = do
  (inode, group) ← free_level per_group (sub32 blocks i) inode group
  free_levels per_group blocks (i + 1) n inode group

unfoldable pub release_block : Bytes → (ℕ → ℕ) → ℕ → (ℕ → ℕ) → Op (Bytes × (ℕ → ℕ))
unfolding free_blocks free_levels
release_block inode b_num release_num group = do
  fs ← get_fs
  let per_group = SuperBlock.block_per_group fs.sb
  let blocks = Inode.blocks inode
  group ← free_blocks per_group blocks b_num 1 release_num group
  (inode, group) ← free_levels per_group blocks 1 release_num inode group
  pure (Inode.set_blocks inode (sub32 (Inode.blocks inode) release_num), group)

-- The loop over the group descriptors from group `g` with `n` to go: the free blocks are counted,
-- and `adjust` is what else is done to the descriptor at an offset of the table.
module _ (adjust : ℕ → ℕ → Bytes → Bytes) where
  unfoldable pub count_groups : (ℕ → ℕ) → ℕ → ℕ → Op (Unit {0})
  unfolding set_gd
  count_groups group g zero = pure tt
  count_groups group g (suc n) =
      let rest = count_groups group (g + 1) n in
      if group g == 0 then rest else (do
        table ← read_block 0 (gdt_block g)
        let o = gdt_offset g
        let table = adjust g o (put32 table (o + 12) (u32 (u32_at table (o + 12) + group g)))
        write_block 0 (gdt_block g) table
        set_gd (from table o)
        rest)

unfoldable pub increase_free_block : (ℕ → ℕ) → Op (Unit {0})
unfolding set_sb count_groups
increase_free_block group = do
  let blocks = u32 (u32 (u32 (group 0 + group 1) + group 2) + group 3)
  block ← read_block 0 0
  let block =
      SuperBlock.set_free_block_count block (u32 (SuperBlock.free_block_count block + blocks))
  write_block 0 0 block
  set_sb block
  count_groups (λ g o table. table) group 0 4

-- The inode that is released counts in its group's descriptor, and as a directory.
unfoldable pub uncount_inode : ℕ → ℕ → ℕ → Bytes → Bytes
uncount_inode number g o table =
    if g == get_inode_group number
    then (let table = put32 table (o + 16) (u32 (u32_at table (o + 16) + 1)) in
        put16 table (o + 20) (u16 (u16_at table (o + 20) + 2 ^ 16 - 1)))
    else table

-- `stack_blocks` is `inode.blocks` before the inode is read.
unfoldable pub release_inode : Node → ℕ → (ℕ → ℕ) → Op (Unit {0})
unfolding get_data_block_at_inode set_inode_bitmap release_block set_sb count_groups uncount_inode
release_inode entry stack_blocks stack = do
  let number = DirEntry.inode entry.entry
  fs ← get_fs
  let (inode, block_num) = get_data_block_at_inode fs number stack
  set_disk (set_inode_bitmap fs.disk number 0).1
  (_, group) ← release_block inode block_num (Inode.blocks inode) (λ _. 0)
  block ← read_block 0 0
  let block =
      SuperBlock.set_free_block_count block (u32 (SuperBlock.free_block_count block + stack_blocks))
  let block = SuperBlock.set_free_inode_count block (u32 (SuperBlock.free_inode_count block + 1))
  write_block 0 0 block
  set_sb block
  count_groups (uncount_inode number) group 0 4

-- The last entry of the directory is moved to the place of the one that is released.
unfoldable pub move_entry : Bytes → Bytes → ℕ → Bytes
move_entry block dir o =
    let last = DirEntry.set_name_len (DirEntry.set_inode (put8 dir DirEntry.name 0) 0) 0 in
    memcpy block o (if u32_at block o == DirEntry.inode dir then last else dir) DirEntry.size

unfoldable pub release_dir_entry : Node → Node → (ℕ → ℕ) → Op (Unit {0})
unfolding get_data_block_at_inode release_block increase_free_block move_entry set_inode
release_dir_entry parent entry stack = do
  let p = DirEntry.inode parent.entry
  fs ← get_fs
  let (p_inode, block_num) = get_data_block_at_inode fs p stack
  let per_group = SuperBlock.block_per_group fs.sb
  let last = block_num (sub32 (Inode.blocks p_inode) 1)
  let k = sub32 (Inode.size p_inode) DirEntry.size % max_block_size / DirEntry.size
  block ← read_block (last / per_group) (last % per_group)
  let dir = entry_at block k
  p_inode ←
      if k == 0
      then (do
        (p_inode, group) ← release_block p_inode block_num 1 (λ _. 0)
        increase_free_block group
        pure p_inode)
      else (do
        write_block (last / per_group) (last % per_group)
            (put8 block (k * DirEntry.size + DirEntry.name) 0)
        pure p_inode)
  block ← read_block entry.location.group entry.location.block
  let o = entry.location.offset / DirEntry.size * DirEntry.size
  write_block entry.location.group entry.location.block (move_entry block dir o)
  fs ← get_fs
  let size = sub32 (Inode.size p_inode) DirEntry.size
  set_disk (set_inode fs.disk fs.sb p (Inode.set_size p_inode size))
