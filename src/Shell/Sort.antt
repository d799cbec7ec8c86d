-- ===== src/Shell/Sort.antt =====
-- `alpha_sort`, `r_alpha_sort` and `size_sort` of src/ext2_shell.c, which differ in one test.
pub mod Bubble
pub mod Refine
use rpi_os_cfs_ext.Base.{
  ℕ, zero, suc, ◌+◌, ◌-◌, ◌^◌, Bool, true, false, ◌&&◌, Option, none, some, ◌==◌, leb, ltb,
  if◌then◌else◌, Run, pure, ◌>>=◌, ◌>>◌,
}
use rpi_os_cfs_ext.Str.{strcmp}
use rpi_os_cfs_ext.Shell.List.{ShellEntry, Item, EntryList, Items, load_item, swap}

-- The test of a sort: whether two neighbours are in the wrong order.
module _ (wrong : ShellEntry → ShellEntry → Bool) where
  -- The inner loop at item `item`, which is number `j`, with `n` rounds to go.
  unfoldable pub pass : ℕ → ℕ → ℕ → EntryList → Run Items EntryList
  unfolding load_item swap
  pass zero j item list = pure list
  pass (suc n) j item list = do
    this ← load_item item
    that ← load_item this.next
    if wrong this.entry that.entry
        then (do list ← swap list j (j + 1); pass n (j + 1) item list)
        else pass n (j + 1) this.next list

  -- The outer loop: passes over the first `n` + 1 items, then one less.
  unfoldable pub passes : ℕ → EntryList → Run Items EntryList
  unfolding pass
  passes zero list = pure list
  passes (suc n) list = do list ← pass (suc n) 0 list.first list; passes n list

  unfoldable pub sort : EntryList → Run Items EntryList
  unfolding passes
  sort list = if list.count == 0 then pure list else passes (list.count - 1) list

-- `strcmp` of two names as an `int`, when they end within 256 characters.
unfoldable pub compare_names : ShellEntry → ShellEntry → Option ℕ
unfolding strcmp
compare_names a b = strcmp 256 0 a.name b.name

unfoldable pub is_after : ShellEntry → ShellEntry → Bool
unfolding compare_names
is_after a b = elim (compare_names a b) [ none ↦ false | some v ↦ ltb 0 v && ltb v (2 ^ 31) ]

unfoldable pub is_before : ShellEntry → ShellEntry → Bool
unfolding compare_names
is_before a b = elim (compare_names a b) [ none ↦ false | some v ↦ leb (2 ^ 31) v ]

unfoldable pub is_larger : ShellEntry → ShellEntry → Bool
is_larger a b = ltb b.size a.size

unfoldable pub alpha_sort : EntryList → Run Items EntryList
unfolding sort is_after
alpha_sort = sort is_after

unfoldable pub r_alpha_sort : EntryList → Run Items EntryList
unfolding sort is_before
r_alpha_sort = sort is_before

unfoldable pub size_sort : EntryList → Run Items EntryList
unfolding sort is_larger
size_sort = sort is_larger
