-- ===== src/Ext2/Dir.antt =====
-- Mounting and directories: `read_superblock`, `fill_node_struct`, `ext2_lookup`, `ext2_chmod`,
-- `ext2_read_dir` and `insert_entry` of src/ext2.c.
pub mod Chmod
use rpi_os_cfs_ext.Base.{
  ℕ, zero, suc, ◌+◌, ◌-◌, ◌*◌, ◌/◌, ◌%◌, Bool, true, false, ◌||◌, Option, none, some, ◌==◌, leb,
  if◌then◌else◌, not, u32, sub32, bit_and,
}
use rpi_os_cfs_ext.Base.Bytes.{Bytes, zeros, from, memcpy}
use rpi_os_cfs_ext.Disk.{Disk, block_read, sector_read, max_block_size}
use rpi_os_cfs_ext.Str.{strcmp}
use rpi_os_cfs_ext.Ext2.SuperBlock
use rpi_os_cfs_ext.Ext2.GroupDescriptor
use rpi_os_cfs_ext.Ext2.Inode
use rpi_os_cfs_ext.Ext2.DirEntry
use rpi_os_cfs_ext.Ext2.Inodes.{get_inode, set_inode}
use rpi_os_cfs_ext.Ext2.FileBlocks.{get_data_block_at_inode, set_inode_block, alloc_pointer}
use rpi_os_cfs_ext.Ext2.Op.{
  Fs, Location, Node, Op, pure, error, ignore, ◌>>=◌, ◌>>◌, get_fs, set_disk, read_block,
  write_block,
}

abbrev pub max_name_length : ℕ
max_name_length = 256

unfoldable pub read_superblock : Op (Unit {0})
read_superblock fs =
    let sb = memcpy fs.sb 0 (sector_read fs.disk 0 0 0 zeros) SuperBlock.size in
    let gd = memcpy fs.gd 0 (sector_read fs.disk 0 1 0 zeros) GroupDescriptor.size in
    if SuperBlock.magic_signature sb == 0xEF53
    then (some tt, record fs { sb = sb; gd = gd })
    else (none, record fs { sb = sb })

-- Entry `k` of a block of a directory.
abbrev pub entry_at : Bytes → ℕ → Bytes
entry_at block k = memcpy zeros 0 (from block (k * DirEntry.size)) DirEntry.size

unfoldable pub fill_node_struct : Fs → Node
unfolding get_data_block_at_inode
fill_node_struct fs =
    let (_, block_num) = get_data_block_at_inode fs 2 zeros in
    record {
      entry = entry_at (block_read fs.disk 0 (block_num 0) zeros) 0;
      location = record {
        group = 0;
        block = SuperBlock.first_data_block_each_group fs.sb;
        offset = 0;
      };
    }

-- `strcmp(entry->name, entryName) == 0`, on strings of fewer than 256 characters.
unfoldable pub is_named : Bytes → ℕ → Bytes → Bool
unfolding strcmp
is_named block k name =
    elim (strcmp max_name_length 0 (from block (k * DirEntry.size + DirEntry.name)) name) [
      | none ↦ false
      | some v ↦ v == 0
    ]

-- `DIR_ENTRY_NO_MORE` at entry `k`
abbrev pub is_last : Bytes → ℕ → Bool
is_last block k = block (k * DirEntry.size + DirEntry.name) == 0

-- The entry of that name in one block, from entry `k`; the first entry is tried in any case.
unfoldable pub scan_entries : ℕ → ℕ → Bytes → Bytes → Option ℕ
unfolding is_named
scan_entries zero k block name = none
scan_entries (suc left) k block name =
    let rest = scan_entries left (k + 1) block name in
    if is_named block k name then some k else if is_last block (k + 1) then none else rest

-- The blocks of the directory from block `i` on.
unfoldable pub scan_blocks : ℕ → ℕ → (ℕ → ℕ) → Bytes → Fs → Option Node
unfolding scan_entries
scan_blocks zero i block_num name fs = none
scan_blocks (suc left) i block_num name fs =
    let per_group = SuperBlock.block_per_group fs.sb in
    let group = block_num i / per_group in
    let b = block_num i % per_group in
    let block = block_read fs.disk group b zeros in
    let rest = scan_blocks left (i + 1) block_num name fs in
    elim (scan_entries (max_block_size / DirEntry.size) 0 block name) [
      | none ↦ rest
      | some k ↦ some (record {
        entry = entry_at block k;
        location = record { group = group; block = b; offset = k * DirEntry.size };
      })
    ]

-- `none` is the result 1, for a name that is not there.
unfoldable pub ext2_lookup : Node → Bytes → Fs → Option Node
unfolding get_data_block_at_inode scan_blocks
ext2_lookup parent name fs =
    let (inode, block_num) = get_data_block_at_inode fs (DirEntry.inode parent.entry) zeros in
    scan_blocks (Inode.blocks inode) 0 block_num name fs

-- The new mode for a `rwxmode` that is not negative; `none` is EXT2_ERROR.
unfoldable pub change_mode : ℕ → ℕ → Option ℕ
change_mode mode rwxmode =
    let umode = rwxmode / 100 in
    let gmode = if umode == 0 then rwxmode / 10 else (rwxmode - umode * 100) / 10 in
    let othermode = rwxmode % 10 in
    if (leb 8 umode || leb 8 gmode) || leb 8 othermode
    then none
    else some (bit_and mode 0xFE00 + umode * 64 + gmode * 8 + othermode)

unfoldable pub ext2_chmod : Node → ℕ → Op (Unit {0})
unfolding change_mode get_inode set_inode
ext2_chmod node rwxmode fs =
    let i = DirEntry.inode node.entry in
    let inode = get_inode fs.disk fs.sb i zeros in
    elim (change_mode (Inode.mode inode) rwxmode) [
      | none ↦ (none, fs)
      | some mode ↦
          (some tt, record fs { disk = set_inode fs.disk fs.sb i (Inode.set_mode inode mode) })
    ]

-- The callback `adder` with the list it fills is a parameter.
module _ {L : Type 0} (adder : Fs → L → Node → L) where
  unfoldable pub add_entries : ℕ → ℕ → Bytes → ℕ → ℕ → Fs → L → L
  add_entries zero k block group b fs list = list
  add_entries (suc left) k block group b fs list =
      let file : Node = record {
        entry = entry_at block k;
        location = record { group = group; block = b; offset = k * DirEntry.size };
      } in
      let list' = adder fs list file in
      let rest = add_entries left (k + 1) block group b fs list' in
      if is_last block (k + 1) then list' else rest

  unfoldable pub add_blocks : ℕ → ℕ → (ℕ → ℕ) → Fs → L → L
  unfolding add_entries
  add_blocks zero i block_num fs list = list
  add_blocks (suc left) i block_num fs list =
      let per_group = SuperBlock.block_per_group fs.sb in
      let group = block_num i / per_group in
      let b = block_num i % per_group in
      let block = block_read fs.disk group b zeros in
      add_blocks left (i + 1) block_num fs
        (add_entries (max_block_size / DirEntry.size) 0 block group b fs list)

  unfoldable pub ext2_read_dir : Node → Fs → L → L
  unfolding get_data_block_at_inode add_blocks
  ext2_read_dir dir fs list =
      let (inode, block_num) = get_data_block_at_inode fs (DirEntry.inode dir.entry) zeros in
      add_blocks (Inode.blocks inode) 0 block_num fs list

-- Where `insert_entry` puts the entry: behind the last one, or in a new block if the last is full.
-- The status of `set_inode_block` is dropped.
unfoldable pub make_room : Node → Bytes → ℕ → ℕ → ℕ → Op Location
unfolding set_inode alloc_pointer set_inode_block
make_room parent p_inode group block offset =
    let i = DirEntry.inode parent.entry in
    if offset == 0
    then (do
      (g, b) ← alloc_pointer group
      fs ← get_fs
      ignore (set_inode_block i (u32 (g * SuperBlock.block_per_group fs.sb + b)))
      pure (record { group = g; block = b; offset = offset }))
    else (do
      fs ← get_fs
      set_disk (
          set_inode fs.disk fs.sb i
            (Inode.set_size p_inode (u32 (Inode.size p_inode + DirEntry.size))))
      pure (record { group = group; block = block; offset = offset }))

-- The result is what the source stores in `*location`; `stack` is the local array before it is
-- filled, which a directory of no blocks would read.
unfoldable pub insert_entry : Node → Bytes → (ℕ → ℕ) → Op Location
unfolding get_data_block_at_inode make_room
insert_entry parent entry stack = do
  fs ← get_fs
  let (p_inode, b_num) = get_data_block_at_inode fs (DirEntry.inode parent.entry) stack
  let last = b_num (sub32 (Inode.blocks p_inode) 1)
  let per_group = SuperBlock.block_per_group fs.sb
  if bit_and (Inode.mode p_inode) 0x4000 == 0 then error else do
    location ←
        make_room parent p_inode (last / per_group) (last % per_group)
          (Inode.size p_inode % max_block_size)
    block ← read_block location.group location.block
    write_block location.group location.block (memcpy block location.offset entry DirEntry.size)
    pure location
