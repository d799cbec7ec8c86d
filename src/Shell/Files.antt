-- ===== src/Shell/Files.antt =====
-- The file operations of src/ext2_shell.c, less what they print, and `release_entry_list` of
-- src/entrylist.c. The list's items and the file system lie in memory pages of their own.
use rpi_os_cfs_ext.Base.{
  ℕ, zero, suc, ◌+◌, ◌-◌, ◌*◌, ◌^◌, Bool, true, false, ◌||◌, Option, none, some, ◌==◌, ltb,
  if◌then◌else◌, not, u16, update, bit_and, Run, pure, fault, ◌>>=◌, ◌>>◌, and_then,
}
use rpi_os_cfs_ext.Base.Bytes.{Bytes, zeros, from}
use rpi_os_cfs_ext.Str.{strcmp, strcpy}
use rpi_os_cfs_ext.Mm.{Memory, M, allocate_kernel_page, free_page}
use rpi_os_cfs_ext.Ext2.Op.{Fs, Op, Node, Location}
use rpi_os_cfs_ext.Ext2.Inode
use rpi_os_cfs_ext.Ext2.DirEntry
use rpi_os_cfs_ext.Ext2.Inodes.{get_inode, set_inode}
use rpi_os_cfs_ext.Ext2.Dir.{max_name_length, ext2_lookup, ext2_chmod, ext2_read_dir, insert_entry}
use rpi_os_cfs_ext.Ext2.Create.{ext2_create, ext2_mkdir}
use rpi_os_cfs_ext.Ext2.Io.{ext2_read, ext2_write}
use rpi_os_cfs_ext.Ext2.Release.{release_inode, release_dir_entry}
use rpi_os_cfs_ext.Shell.List.{
  ShellEntry, EntryList, Items, load_item, init_entry_list, add_entry_list,
}

-- The mounted file system, the items, and the memory's pages.
pub record Sh : Type 0 where
  pub fs : Fs
  pub items : Items
  pub memory : Memory

abbrev pub S : Type 0 → Type 0
S A = Run Sh A

-- What local variables hold that are used before they are set; `failed` is the local node after a
-- call that failed.
pub record Stack : Type 0 where
  pub bytes : Bytes
  pub dir_entry : Bytes
  pub blocks : ℕ → ℕ
  pub number : ℕ
  pub node : Node
  pub failed : Node
  pub location : Location
  pub entry : ShellEntry

unfoldable pub on_fs : {A : Type 0} → Op A → S (Option A)
on_fs m sh = let (r, fs) = m sh.fs in some (r, record sh { fs = fs })

-- An operation whose outer `none` is a fault.
unfoldable pub on_fs_or_fault : {A : Type 0} → (Fs → Option (Option A × Fs)) → S (Option A)
on_fs_or_fault m sh = elim (m sh.fs) [
  | none ↦ none
  | some (r, fs) ↦ some (r, record sh { fs = fs })
]

unfoldable pub on_items : {A : Type 0} → Run Items A → S A
on_items m sh = elim (m sh.items) [
  | none ↦ none
  | some (a, items) ↦ some (a, record sh { items = items })
]

unfoldable pub on_memory : {A : Type 0} → M A → S A
on_memory m sh = elim (m sh.memory) [
  | none ↦ none
  | some (a, memory) ↦ some (a, record sh { memory = memory })
]

abbrev pub get_sh : S Sh
get_sh sh = some (sh, sh)

abbrev pub required : {A : Type 0} → Option A → S A
required none sh = none
required (some a) sh = some (a, sh)

-- `pdata` holds the node; a name without a NUL is a fault.
unfoldable pub ext2_entry_to_shell_entry : Node → ShellEntry → S ShellEntry
unfolding strcpy get_inode
ext2_entry_to_shell_entry node entry = do
  sh ← get_sh
  name ← required (strcpy max_name_length 0 entry.name 0 (from node.entry DirEntry.name))
  let inode = get_inode sh.fs.disk sh.fs.sb (DirEntry.inode node.entry) zeros
  pure (record {
    name = name;
    is_directory = if bit_and (Inode.mode inode) 0x4000 == 0 then 0 else 1;
    size = Inode.size inode;
    permition = bit_and (Inode.mode inode) 0x1ff;
    pdata = node;
  })

-- `none` is the result 1, for a name that is not there.
unfoldable pub fs_lookup : ShellEntry → ShellEntry → Bytes → S (Option ShellEntry)
unfolding ext2_lookup ext2_entry_to_shell_entry
fs_lookup parent entry name = do
  sh ← get_sh
  elim (ext2_lookup parent.pdata name sh.fs) [
    | none ↦ pure none
    | some node ↦ do e ← ext2_entry_to_shell_entry node entry; pure (some e)
  ]

unfoldable pub fs_read : ShellEntry → ℕ → ℕ → Bytes → (ℕ → ℕ) → S (Option Bytes)
unfolding on_fs ext2_read
fs_read entry offset length buffer stack =
    on_fs (ext2_read (DirEntry.inode entry.pdata.entry) offset length buffer stack)

-- The entry is filled again, whatever the result is.
unfoldable pub fs_write : ShellEntry → ℕ → ℕ → Bytes → S (Option (Unit {0}) × ShellEntry)
unfolding on_fs_or_fault ext2_write ext2_entry_to_shell_entry
fs_write entry offset length buffer = do
  result ← on_fs_or_fault (ext2_write (DirEntry.inode entry.pdata.entry) offset length buffer)
  entry ← ext2_entry_to_shell_entry entry.pdata entry
  pure (result, entry)

abbrev pub node_or : Option Node → Node → Node
node_or none node = node
node_or (some n) node = n

unfoldable pub fs_create : ShellEntry → Bytes → ShellEntry → Stack → S (Option Node × ShellEntry)
unfolding on_fs ext2_create ext2_entry_to_shell_entry
fs_create parent name ret_entry stack = do
  result ← on_fs (ext2_create parent.pdata name stack.node stack.bytes stack.blocks)
  entry ← ext2_entry_to_shell_entry (node_or result stack.failed) ret_entry
  pure (result, entry)

-- One entry of a directory, in a page of its own.
unfoldable pub ext2_add_shell_list : Stack → Node → EntryList → S EntryList
unfolding on_memory on_items allocate_kernel_page ext2_entry_to_shell_entry add_entry_list
ext2_add_shell_list stack node list = do
  page ← on_memory allocate_kernel_page
  entry ← ext2_entry_to_shell_entry node stack.entry
  if page == 0
      then fault
      else on_items (λ items. some (tt, update items page (record { entry = entry; next = 0 })))
  on_items (add_entry_list list page)

unfoldable pub fs_read_dir : Stack → ShellEntry → EntryList → S (Option EntryList)
unfolding ext2_read_dir ext2_add_shell_list
fs_read_dir stack parent list sh =
    if parent.is_directory == 0
    then some (none, sh)
    else elim (ext2_read_dir (λ fs acc node. and_then acc (ext2_add_shell_list stack node))
        parent.pdata sh.fs (some (list, sh))) [
          | none ↦ none
          | some (filled, sh') ↦ some (some filled, sh')
        ]

-- `n` items are given back at most; the list's count is one for each.
unfoldable pub release_items : ℕ → ℕ → S (Unit {0})
unfolding on_items on_memory load_item free_page
release_items zero p = if p == 0 then pure tt else fault
release_items (suc n) p =
    let rest = λ (q : ℕ). release_items n q in
    if p == 0
    then pure tt
    else (do item ← on_items (load_item p); on_memory (free_page p); rest item.next)

unfoldable pub release_entry_list : EntryList → S (Unit {0})
unfolding release_items
release_entry_list list = release_items list.count list.first

-- Whether one of the next `n` items has the name.
unfoldable pub find_name : ℕ → ℕ → Bytes → S Bool
unfolding on_items load_item strcmp
find_name zero p name = pure false
find_name (suc n) p name =
    let rest = λ (q : ℕ). find_name n q name in
    do
      item ← on_items (load_item p)
      v ← required (strcmp max_name_length 0 item.entry.name name)
      if v == 0 then pure true else rest item.next

-- The result is not 0 for a name that is there, and for a parent that is no directory.
unfoldable pub is_exist : Stack → ShellEntry → Bytes → S Bool
unfolding fs_read_dir find_name release_entry_list
is_exist stack parent name = do
  listed ← fs_read_dir stack parent init_entry_list
  elim listed [
    | none ↦ pure true
    | some list ↦ do
      found ← find_name list.count list.first name
      release_entry_list list
      pure found
  ]

-- A name that is there leaves the entry alone, and the result is 0, as for a success.
unfoldable pub fs_mkdir : ShellEntry → Bytes → ShellEntry → Stack → S (Option ShellEntry)
unfolding is_exist on_fs ext2_mkdir ext2_entry_to_shell_entry
fs_mkdir parent name ret_entry stack = do
  there ← is_exist stack parent name
  if there then pure (some ret_entry) else (do
    made ←
        on_fs (ext2_mkdir parent.pdata name stack.bytes stack.dir_entry stack.blocks stack.location)
    elim made [
      | none ↦ pure none
      | some node ↦ do e ← ext2_entry_to_shell_entry node ret_entry; pure (some e)
    ])

-- The directory entry and the inode of a file are released.
unfoldable pub release_file : Stack → Node → Node → S (Option (Unit {0}))
unfolding on_fs release_dir_entry release_inode
release_file stack parent node = do
  entry ← on_fs (release_dir_entry parent node stack.blocks)
  elim entry [ none ↦ pure none | some _ ↦ on_fs (release_inode node stack.number stack.blocks) ]

-- One name less for the inode with this number.
unfoldable pub unlink : ℕ → S (Unit {0})
unfolding get_inode set_inode
unlink number sh =
    let inode = get_inode sh.fs.disk sh.fs.sb number zeros in
    let inode = Inode.set_links_count inode (u16 (Inode.links_count inode + 2 ^ 16 - 1)) in
    some (tt, record sh { fs = record sh.fs { disk = set_inode sh.fs.disk sh.fs.sb number inode } })

unfoldable pub fs_rmdir : ShellEntry → Bytes → Stack → S (Option (Unit {0}))
unfolding fs_lookup get_inode unlink release_file
fs_rmdir dir name stack = do
  found ← fs_lookup dir stack.entry name
  sh ← get_sh
  elim found [
    | none ↦ pure none
    | some entry ↦
        let inode = get_inode sh.fs.disk sh.fs.sb (DirEntry.inode entry.pdata.entry) zeros in
        if entry.is_directory == 0 || ltb (2 * DirEntry.size) (Inode.size inode)
        then pure none
        else (do unlink (DirEntry.inode dir.pdata.entry); release_file stack dir.pdata entry.pdata)
  ]

unfoldable pub fs_remove : ShellEntry → Bytes → Stack → S (Option (Unit {0}))
unfolding fs_lookup release_file
fs_remove dir name stack = do
  found ← fs_lookup dir stack.entry name
  elim found [
    | none ↦ pure none
    | some entry ↦
        if entry.is_directory == 1 then pure none else release_file stack dir.pdata entry.pdata
  ]

unfoldable pub fs_chmod : ShellEntry → Bytes → ℕ → Stack → S (Option (Unit {0}))
unfolding fs_lookup on_fs ext2_chmod
fs_chmod parent name mode stack = do
  found ← fs_lookup parent stack.entry name
  elim found [ none ↦ pure none | some entry ↦ on_fs (ext2_chmod entry.pdata mode) ]

-- The statuses of the release and of the insertion are dropped.
unfoldable pub fs_mv : ShellEntry → Bytes → Bytes → Stack → S (Option (Unit {0}))
unfolding on_fs ext2_lookup ext2_entry_to_shell_entry release_dir_entry insert_entry
fs_mv parent name dir stack = do
  sh ← get_sh
  elim (ext2_lookup parent.pdata name sh.fs) [
    | none ↦ pure none
    | some entry ↦ elim (ext2_lookup parent.pdata dir sh.fs) [
      | none ↦ pure none
      | some directory ↦ do
        shell_dir ← ext2_entry_to_shell_entry directory stack.entry
        if not (shell_dir.is_directory == 1) then pure none else (do
          _ ← on_fs (release_dir_entry parent.pdata entry stack.blocks)
          _ ← on_fs (insert_entry directory entry.entry stack.blocks)
          pure (some tt))
    ]
  ]
