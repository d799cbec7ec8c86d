-- ===== src/Shell/List.antt =====
-- The list of entries of src/entrylist.c, and `swap` of src/ext2_shell.c. An item is a page, which
-- is named by its address; 0 is NULL.
pub mod Contents
pub mod Swap
pub mod Add
use rpi_os_cfs_ext.Base.{
  ℕ, zero, suc, ◌+◌, ◌-◌, ◌^◌, Bool, none, some, ◌==◌, if◌then◌else◌, u32, sub32, update, Run, pure,
  fault, ◌>>=◌, ◌>>◌,
}
use rpi_os_cfs_ext.Base.Bytes.{Bytes}
use rpi_os_cfs_ext.Ext2.Op.{Node}

-- `SHELL_ENTRY`, less `parent`, the times and the signature, which nothing sets. `pdata` holds an
-- `EXT2_NODE`.
pub record ShellEntry : Type 0 where
  pub name : Bytes
  pub is_directory : ℕ
  pub size : ℕ
  pub permition : ℕ
  pub pdata : Node

-- `SHELL_ENTRY_LIST_ITEM`
pub record Item : Type 0 where
  pub entry : ShellEntry
  pub next : ℕ

-- `SHELL_ENTRY_LIST`
pub record EntryList : Type 0 where
  pub count : ℕ
  pub first : ℕ
  pub last : ℕ

abbrev pub Items : Type 0
Items = ℕ → Item

abbrev pub init_entry_list : EntryList
init_entry_list = record { count = 0; first = 0; last = 0 }

unfoldable pub load_item : ℕ → Run Items Item
load_item p s = if p == 0 then none else some (s p, s)

-- `p->next = q`
unfoldable pub set_next : ℕ → ℕ → Run Items (Unit {0})
set_next p q s = if p == 0 then none else some (tt, update s p (record (s p) { next = q }))

unfoldable pub add_entry_list : EntryList → ℕ → Run Items EntryList
unfolding set_next
add_entry_list list new =
    if list.count == 0
    then (do set_next new 0; pure (record { count = 1; first = new; last = new }))
    else (do
      set_next list.last new
      set_next new 0
      pure (record { count = u32 (list.count + 1); first = list.first; last = new }))

-- `n` steps along the list
unfoldable pub walk : ℕ → ℕ → Run Items ℕ
unfolding load_item
walk zero p = pure p
walk (suc n) p = do item ← load_item p; walk n item.next

-- The two items exchanged behind the first one's predecessor, and the list's last item then.
unfoldable pub relink : EntryList → ℕ → ℕ → ℕ → Run Items ℕ
unfolding load_item set_next
relink list b item_a item_b =
    if b == sub32 list.count 1
    then (do set_next item_a 0; set_next item_b item_a; pure item_a)
    else (do
      at_b ← load_item item_b
      set_next item_a at_b.next
      set_next item_b item_a
      pure list.last)

-- `swap(list, a, b)`, where `b` is always `a + 1`.
unfoldable pub swap : EntryList → ℕ → ℕ → Run Items EntryList
unfolding load_item set_next walk relink
swap list a b = do
  item_a ← walk a list.first
  at_a ← load_item item_a
  let item_b = at_a.next
  last ← relink list b item_a item_b
  if a == 0 then pure (record { count = list.count; first = item_b; last = last }) else (do
    item ← walk (a - 1) list.first
    set_next item item_b
    pure (record { count = list.count; first = list.first; last = last }))
