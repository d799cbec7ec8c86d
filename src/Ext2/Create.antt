-- ===== src/Ext2/Create.antt =====
-- `ext2_create` and `ext2_mkdir` of src/ext2.c. What a local structure held before its fields are
-- set is the parameter `stack`. A name that has no NUL in its first 256 characters, which would
-- overrun a local buffer, is an error here.
use rpi_os_cfs_ext.Base.{
  ℕ, ◌+◌, ◌*◌, Bool, true, false, Option, none, some, ◌==◌, if◌then◌else◌, u16, sub32,
}
use rpi_os_cfs_ext.Base.Bytes.{Bytes, zeros, from, memcpy, put8, put16, put32, u16_at, u32_at}
use rpi_os_cfs_ext.Str.{strlen, strcpy}
use rpi_os_cfs_ext.Ext2.Layout.{get_inode_group}
use rpi_os_cfs_ext.Ext2.SuperBlock
use rpi_os_cfs_ext.Ext2.GroupDescriptor
use rpi_os_cfs_ext.Ext2.Inode
use rpi_os_cfs_ext.Ext2.DirEntry
use rpi_os_cfs_ext.Ext2.Inodes.{get_inode, set_inode}
use rpi_os_cfs_ext.Ext2.Alloc.{gdt_block, gdt_offset, alloc_free_inode}
use rpi_os_cfs_ext.Ext2.FileBlocks.{alloc_pointer}
use rpi_os_cfs_ext.Ext2.Dir.{max_name_length, ext2_lookup, insert_entry}
use rpi_os_cfs_ext.Ext2.Op.{
  Location, Node, Op, pure, error, recover, lift, ◌>>=◌, ◌>>◌, get_fs, set_disk, read_block,
  write_block,
}

-- `strcpy(entry.name, name)`
unfoldable pub set_name : Bytes → Bytes → Op Bytes
unfolding strcpy
set_name entry name = lift (strcpy max_name_length 0 entry DirEntry.name name)

unfoldable pub length_of : Bytes → Op ℕ
unfolding strlen
length_of name = lift (strlen max_name_length 0 name)

-- The fields that a new file's inode has from its parent's; `block[0]` is the number of the block
-- in its group.
unfoldable pub fill_inode : Bytes → Bytes → ℕ → ℕ → ℕ → ℕ → Bytes
fill_inode stack parent_inode mode b_num size links =
    let inode = Inode.set_mode stack mode in
    let inode = Inode.set_uid inode (Inode.uid parent_inode) in
    let inode = Inode.set_gid inode (Inode.gid parent_inode) in
    let inode = Inode.set_blocks inode 1 in
    let inode = Inode.set_block inode 0 b_num in
    let inode = Inode.set_size inode size in Inode.set_links_count inode links

-- `memcpy(&fs->sb, ...)`, which moves 88 bytes for the 86 of the super block: the last two go to
-- the head of `fs->gd` behind it.
unfoldable pub set_sb : Bytes → Op (Unit {0})
set_sb block fs = (
  some tt,
  record fs {
    sb = memcpy fs.sb 0 block SuperBlock.size;
    gd = memcpy fs.gd 0 (from block SuperBlock.size) 2;
  },
)

-- `memcpy(&fs->gd, ...)`, of 32 bytes

unfoldable pub set_gd : Bytes → Op (Unit {0})
set_gd block fs = (some tt, record fs { gd = memcpy fs.gd 0 block GroupDescriptor.size })

-- The end of both functions: the free inodes, and the directories, are counted on the disk, and
-- the file system's copies are read back.
unfoldable pub count_inode : ℕ → ℕ → Op (Unit {0})
unfolding set_sb set_gd
count_inode g_num directories = do
  block ← read_block 0 0
  let block = SuperBlock.set_free_inode_count block (sub32 (SuperBlock.free_inode_count block) 1)
  write_block 0 0 block
  set_sb block
  table ← read_block 0 (gdt_block g_num)
  let o = gdt_offset g_num
  let table = put32 table (o + 16) (sub32 (u32_at table (o + 16)) 1)
  let table = put16 table (o + 20) (u16 (u16_at table (o + 20) + directories))
  write_block 0 (gdt_block g_num) table
  set_gd (from table o)

-- The new inode, and the group and the block of its first data block.
unfoldable pub new_file : Op (ℕ × ℕ × ℕ)
unfolding alloc_free_inode alloc_pointer
new_file = do
  i_num ← alloc_free_inode
  (g_num, b_num) ← alloc_pointer (get_inode_group i_num)
  pure (i_num, g_num, b_num)

abbrev is_there : Option Node → Bool
is_there none = false
is_there (some _) = true

-- `node` is what `*retEntry` holds before the call.
unfoldable pub ext2_create : Node → Bytes → Node → Bytes → (ℕ → ℕ) → Op Node
unfolding ext2_lookup insert_entry length_of set_name new_file fill_inode count_inode get_inode
    set_inode
ext2_create parent entry_name node stack stack_blocks = do
  fs ← get_fs
  if GroupDescriptor.free_inodes_count fs.gd == 0 then error else do
    len ← length_of entry_name
    if is_there (ext2_lookup parent entry_name fs) then error else do
      entry ← set_name (DirEntry.set_name_len node.entry len) entry_name
      (i_num, g_num, b_num) ← new_file
      fs ← get_fs
      let parent_inode = get_inode fs.disk fs.sb (DirEntry.inode parent.entry) zeros
      let inode = fill_inode stack parent_inode (0x1e4 + 0x8000) b_num 0 1
      set_disk (set_inode fs.disk fs.sb i_num inode)
      let entry = DirEntry.set_inode entry i_num
      location ← insert_entry parent entry stack_blocks
      count_inode g_num 0
      pure (record { entry = entry; location = location })

-- The entries `.` and `..` at the start of a new directory's block.
unfoldable pub dot_entries : Bytes → ℕ → ℕ → Bytes × Bytes
dot_entries stack i_num parent =
    let dot = DirEntry.set_name_len (put8 (put8 (DirEntry.set_inode stack i_num) 4 46) 5 0) 1 in
    let dotdot =
      DirEntry.set_name_len (put8 (put8 (put8 (DirEntry.set_inode dot parent) 4 46) 5 46) 6 0) 2 in
    (memcpy (memcpy zeros 0 dot DirEntry.size) DirEntry.size dotdot DirEntry.size, dotdot)

-- The status of `insert_entry` is dropped, and its location then is what the stack held.
unfoldable pub ext2_mkdir : Node → Bytes → Bytes → Bytes → (ℕ → ℕ) → Location → Op Node
unfolding insert_entry length_of set_name new_file fill_inode dot_entries count_inode get_inode
    set_inode
ext2_mkdir parent entry_name stack stack_entry stack_blocks stack_location = do
  (i_num, g_num, b_num) ← new_file
  fs ← get_fs
  let p = DirEntry.inode parent.entry
  let parent_inode = get_inode fs.disk fs.sb p zeros
  let inode = fill_inode stack parent_inode (0x01a4 + 0x4000) b_num (2 * DirEntry.size) 2
  let d = set_inode fs.disk fs.sb i_num inode
  let links = u16 (Inode.links_count parent_inode + 1)
  set_disk (set_inode d fs.sb p (Inode.set_links_count parent_inode links))
  let (block, entry) = dot_entries stack_entry i_num p
  write_block g_num b_num block
  named ← set_name (DirEntry.set_inode entry i_num) entry_name
  len ← length_of entry_name
  let entry = DirEntry.set_name_len named len
  location ← recover (insert_entry parent entry stack_blocks) stack_location
  count_inode g_num 1
  pure (record { entry = entry; location = location })
