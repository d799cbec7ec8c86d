-- ===== src/Shell/Listing.antt =====
-- Mounting and what is listed and printed: `fs_mount`, `fs_df`, `fs_cat`, `fs_ls` and `print_per` of
-- src/ext2_shell.c. What goes to the console is a value.
use rpi_os_cfs_ext.Base.{
  ℕ, zero, suc, ◌+◌, ◌*◌, ◌/◌, ◌%◌, ◌^◌, Option, none, some, ◌==◌, leb, if◌then◌else◌, u16, u32,
  sub32, bit_and, List, [], ◌∷◌, pure, fault, ◌>>=◌, ◌>>◌,
}
use rpi_os_cfs_ext.Base.Bytes.{Bytes, zeros}
use rpi_os_cfs_ext.Disk.{Disk, block_read}
use rpi_os_cfs_ext.Mm.{page_size, allocate_kernel_page, free_page}
use rpi_os_cfs_ext.Ext2.SuperBlock
use rpi_os_cfs_ext.Ext2.Dir.{read_superblock, fill_node_struct}
use rpi_os_cfs_ext.Shell.List.{ShellEntry, EntryList, load_item}
use rpi_os_cfs_ext.Shell.Sort.{alpha_sort, r_alpha_sort, size_sort}
use rpi_os_cfs_ext.Shell.Files.{
  S, Stack, on_fs, on_items, on_memory, get_sh, ext2_entry_to_shell_entry, fs_lookup, fs_read,
  fs_read_dir,
}

-- `none` is EXT2_ERROR. The file system's structure is zeroed before it is filled.
unfoldable pub fs_mount : Disk → ShellEntry → S (Option ShellEntry)
unfolding on_memory on_fs allocate_kernel_page read_superblock fill_node_struct
    ext2_entry_to_shell_entry
fs_mount disk root = do
  page ← on_memory allocate_kernel_page
  if page == 0
      then fault
      else (λ sh. some (tt, record sh { fs = record { sb = zeros; gd = zeros; disk = disk } }))
  mounted ← on_fs read_superblock
  elim mounted [
    | none ↦ pure none
    | some _ ↦ do
      sh ← get_sh
      entry ← ext2_entry_to_shell_entry (fill_node_struct sh.fs) root
      pure (some entry)
  ]

-- The numbers that `fs_df` prints: blocks, used, free, and the two shares, each as its whole per cent
-- and its hundredths.
pub record Usage : Type 0 where
  pub blocks : ℕ
  pub used : ℕ
  pub free : ℕ
  pub used_per : ℕ
  pub used_per_point : ℕ
  pub free_per : ℕ
  pub free_per_point : ℕ

-- `(n * 100) / blocks` and `((n * 10000) / blocks) % 100` on UINT32
abbrev pub whole_per : ℕ → ℕ → ℕ
whole_per n blocks = u32 (n * 100) / blocks

abbrev pub per_point : ℕ → ℕ → ℕ
per_point n blocks = u32 (n * 10000) / blocks % 100

unfoldable pub fs_df : Disk → Usage
unfolding block_read
fs_df disk =
    let sb = block_read disk 0 0 zeros in
    let blocks = SuperBlock.block_count sb in
    let free = SuperBlock.free_block_count sb in
    let used = sub32 blocks free in
    record {
      blocks = blocks;
      used = used;
      free = free;
      used_per = whole_per used blocks;
      used_per_point = per_point used blocks;
      free_per = whole_per free blocks;
      free_per_point = per_point free blocks;
    }

-- The first `n` bytes of a buffer, from place `i`.
unfoldable pub print_bytes : ℕ → ℕ → Bytes → List ℕ
print_bytes zero i buf = []
print_bytes (suc n) i buf = buf i ∷ print_bytes n (i + 1) buf

-- The buffer is one page: to zero it for a longer file is a write behind the page, a fault. A
-- read that fails leaves the page allocated.
unfoldable pub fs_cat : ShellEntry → Bytes → Stack → S (Option (List ℕ))
unfolding on_memory allocate_kernel_page free_page fs_lookup fs_read print_bytes
fs_cat dir name stack = do
  found ← fs_lookup dir stack.entry name
  elim found [
    | none ↦ pure none
    | some entry ↦ if entry.is_directory == 1 then pure none else (do
      page ← on_memory allocate_kernel_page
      if page == 0 then fault else pure tt
      if leb entry.size page_size then pure tt else fault
      buffer ← fs_read entry 0 entry.size zeros stack.blocks
      elim buffer [
        | none ↦ pure none
        | some buf ↦ do on_memory (free_page page); pure (some (print_bytes entry.size 0 buf))
      ])
  ]

-- `.` and `..`, the first two entries, are dropped.
unfoldable pub drop_dots : EntryList → S EntryList
unfolding on_items on_memory load_item free_page
drop_dots list = do
  dot ← on_items (load_item list.first)
  dotdot ← on_items (load_item dot.next)
  on_memory (free_page dot.next)
  on_memory (free_page list.first)
  pure (record { count = sub32 list.count 2; first = dotdot.next; last = list.last })

-- The options of `ls`: 1 all, 4 by size, 8 in reverse.
unfoldable pub fs_ls : ShellEntry → EntryList → ℕ → Stack → S (Option EntryList)
unfolding on_items fs_read_dir drop_dots alpha_sort r_alpha_sort size_sort
fs_ls dir list opt stack = do
  listed ← fs_read_dir stack dir list
  elim listed [
    | none ↦ pure none
    | some list ↦ do
      list ← if bit_and opt 1 == 0 then drop_dots list else pure list
      sorted ←
          if bit_and opt 4 == 0
          then (if bit_and opt 8 == 0
              then on_items (alpha_sort list)
              else on_items (r_alpha_sort list))
          else on_items (size_sort list)
      pure (some sorted)
  ]

-- The letters of `ls -l` for a mode: `n` groups of three to go. `permition` is an unsigned short.
unfoldable pub print_groups : ℕ → ℕ → List ℕ
print_groups zero permition = []
print_groups (suc n) permition =
    let rest = print_groups n (u16 (permition * 2 ^ 3)) in
    (if bit_and permition 0x100 == 0 then 45 else 114)
    ∷ (if bit_and permition 0x80 == 0 then 45 else 119)
    ∷ (if bit_and permition 0x40 == 0 then 45 else 120)
    ∷ rest

unfoldable pub print_per : ShellEntry → List ℕ
unfolding print_groups
print_per entry = (if entry.is_directory == 0 then 45 else 100) ∷ print_groups 3 entry.permition
