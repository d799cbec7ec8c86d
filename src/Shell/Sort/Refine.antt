-- ===== src/Shell/Sort/Refine.antt =====
-- The sorts of src/ext2_shell.c on the linked items.
use rpi_os_cfs_ext.Base.{
  ℕ, zero, suc, ◌+◌, ◌-◌, ◌^◌, ◌≤◌, ◌<◌, ◌≡◌, inl, inr, refl, sym, ap, subst, ◌∙◌, arith, Bool,
  false, Option, some, and_then, ◌==◌, Bool-cases, List, [], ◌∷◌, ◌++◌, length, length-append,
  count,
}
use rpi_os_cfs_ext.Base.Ordered.{All, IsOrdered}
use rpi_os_cfs_ext.Shell.List.{ShellEntry, EntryList, Items, load_item}
use rpi_os_cfs_ext.Shell.List.Contents.{IsSegment, Holds, SameEntries, IsSegment-append}
use rpi_os_cfs_ext.Shell.List.Swap.{swap-Swapped}
use rpi_os_cfs_ext.Shell.Sort.{pass, passes, sort, size_sort, is_larger}
use rpi_os_cfs_ext.Shell.Sort.Bubble.{
  IsOrder, IsSorted, bubble, bubbles, length-bubble, count-bubbles, bubbles-IsSorted,
}

snoc : (ys : List ℕ) (y : ℕ) (xs : List ℕ) → (ys ++ y ∷ []) ++ xs ≡ ys ++ y ∷ xs
snoc [] y xs = refl
snoc (z ∷ ys) y xs = ap (λ l. z ∷ l) (snoc ys y xs)

length-snoc : (ys : List ℕ) (y : ℕ) → length (ys ++ y ∷ []) ≡ length ys + 1
length-snoc ys y = length-append ys (y ∷ [])

-- The neighbours at a place of the list.
module _ (s : Items) (list : EntryList) (ys : List ℕ) (x y : ℕ) (zs : List ℕ)
    (h : Holds s list (ys ++ x ∷ y ∷ zs)) where
  load_first : load_item x s ≡ some (s x, s)
  unfolding load_item IsSegment
  load_first =
      let (m, front, (mx, pos, rest)) = IsSegment-append s list.first ys (x ∷ y ∷ zs) 0 h.links in
      let not_null : (x == 0) ≡ false = ground arith in rw not_null refl

  load_second : ((s x).next ≡ y) × (load_item y s ≡ some (s y, s))
  unfolding load_item IsSegment
  load_second =
      let (m, front, (mx, pos, (e, pos', rest))) =
        IsSegment-append s list.first ys (x ∷ y ∷ zs) 0 h.links in
      let not_null : (y == 0) ≡ false = ground arith in (e, rw not_null refl)

module _ (wrong : ShellEntry → ShellEntry → Bool) (key : ℕ → ShellEntry) where
  -- The store has the entries `key`.
  abbrev Keeps : Items → Type 0
  Keeps s = (p : ℕ) → (s p).entry ≡ key p

  pass-bubble :
      (n : ℕ) (s : Items) (list : EntryList) (ys : List ℕ) (x : ℕ) (zs : List ℕ)
      → Keeps s
      → Holds s list (ys ++ x ∷ zs)
      → list.count < 2 ^ 32
      → n ≤ length zs
      → (s' : Items) × (list' : EntryList) × (pass wrong n (length ys) x list s ≡ some (list', s'))
        × Holds s' list' (ys ++ bubble wrong key n (x ∷ zs))
        × Keeps s'
        × (list'.count ≡ list.count)
  unfolding pass bubble
  pass-bubble zero s list ys x zs k h small hn = (s, list, refl, h, k, refl)
  pass-bubble (suc n) s list ys x [] k h small hn = absurd (omega arith)
  pass-bubble (suc n) s list ys x (y ∷ zs) k h small hn =
      let first = load_first s list ys x y zs h in
      let (next, second) = load_second s list ys x y zs h in
      let place : length (ys ++ y ∷ []) ≡ length ys + 1 = length-snoc ys y in
      elim (Bool-cases (wrong (key x) (key y))) [
        | inl w ↦
            let (s₁, list₁, run, swapped, n₁) = swap-Swapped s ys x y zs list h small in
            let k₁ : Keeps s₁ = λ p. swapped.entries p ∙ k p in
            let h₁ : Holds s₁ list₁ ((ys ++ y ∷ []) ++ x ∷ zs) =
              subst (Holds s₁ list₁) (sym (snoc ys y (x ∷ zs))) swapped.holds in
            let (s₂, list₂, run', h₂, k₂, n₂) =
              pass-bubble n s₁ list₁ (ys ++ y ∷ []) x zs k₁ h₁ (omega (arith, n₁, small))
                (omega (arith, hn)) in
            (
              s₂,
              list₂,
              rw (first, next, second, k x, k y, w, run, ← place) run',
              rw w (subst (Holds s₂ list₂) (snoc ys y (bubble wrong key n (x ∷ zs))) h₂),
              k₂,
              n₂ ∙ n₁,
            )
        | inr w ↦
            let moved : length (ys ++ x ∷ []) ≡ length ys + 1 = length-snoc ys x in
            let h₁ : Holds s list ((ys ++ x ∷ []) ++ y ∷ zs) =
              subst (Holds s list) (sym (snoc ys x (y ∷ zs))) h in
            let (s₂, list₂, run', h₂, k₂, n₂) =
              pass-bubble n s list (ys ++ x ∷ []) y zs k h₁ small (omega (arith, hn)) in
            (
              s₂,
              list₂,
              rw (first, next, second, k x, k y, w, ← moved) run',
              rw w (subst (Holds s₂ list₂) (snoc ys x (bubble wrong key n (y ∷ zs))) h₂),
              k₂,
              n₂,
            )
      ]

  passes-step :
      (n : ℕ) (s s₁ : Items) (list list₁ : EntryList) (r : Option (EntryList × Items))
      → pass wrong (suc n) 0 list.first list s ≡ some (list₁, s₁)
      → passes wrong n list₁ s₁ ≡ r
      → passes wrong (suc n) list s ≡ r
  unfolding passes
  passes-step n s s₁ list list₁ r first rest = ap (λ o. and_then o (passes wrong n)) first ∙ rest

  passes-none : (s : Items) (list : EntryList) → passes wrong 0 list s ≡ some (list, s)
  unfolding passes
  passes-none s list = refl

  passes-bubbles :
      (n : ℕ) (s : Items) (list : EntryList) (xs : List ℕ)
      → Keeps s
      → Holds s list xs
      → list.count < 2 ^ 32
      → n < length xs
      → (s' : Items) × (list' : EntryList) × (passes wrong n list s ≡ some (list', s'))
        × Holds s' list' (bubbles wrong key n xs)
        × Keeps s'
  unfolding bubbles IsSegment
  passes-bubbles zero s list xs k h small hn = (s, list, passes-none s list, h, k)
  passes-bubbles (suc n) s list [] k h small hn = absurd (omega arith)
  passes-bubbles (suc n) s list (x ∷ xs) k h small hn =
      let start : list.first ≡ x = h.links.0 in
      let (s₁, list₁, run, h₁, k₁, n₁) =
        pass-bubble (suc n) s list [] x xs k h small (omega arith) in
      let (s₂, list₂, run', h₂, k₂) =
        passes-bubbles n s₁ list₁ (bubble wrong key (suc n) (x ∷ xs)) k₁ h₁
          (omega (arith, n₁, small))
          (omega (arith, length-bubble wrong key (suc n) (x ∷ xs), hn)) in
      let from_start =
        subst (λ p. pass wrong (suc n) 0 p list s ≡ some (list₁, s₁)) (sym start) run in
      (s₂, list₂, passes-step n s s₁ list list₁ (some (list₂, s₂)) from_start run', h₂, k₂)

-- The result of a sort: the same items in an order that the test never finds wrong.
record SortedList (wrong : ShellEntry → ShellEntry → Bool) (s s' : Items) (list' : EntryList)
    (xs : List ℕ) : Type 0 where
  items : List ℕ
  holds : Holds s' list' items
  entries : SameEntries s s'
  same_items : (p : ℕ) → count p items ≡ count p xs
  sorted : IsSorted wrong (λ p. (s p).entry) items

sort-SortedList :
    (wrong : ShellEntry → ShellEntry → Bool)
    → IsOrder wrong
    → (s : Items) (list : EntryList) (xs : List ℕ) → Holds s list xs
    → list.count < 2 ^ 32
    → (s' : Items) × (list' : EntryList) × (sort wrong list s ≡ some (list', s'))
      × SortedList wrong s s' list' xs
unfolding sort IsSorted
sort-SortedList wrong o s list [] h small = (
  s,
  list,
  rw h.count_items refl,
  record { items = []; holds = h; entries = λ p. refl; same_items = λ p. refl; sorted = tt },
)
sort-SortedList wrong o s list (x ∷ xs) h small =
    let key = λ (p : ℕ). (s p).entry in
    let (s', list', run, h', k') =
      passes-bubbles wrong key (length xs) s list (x ∷ xs) (λ p. refl) h small (omega arith) in
    let some_items : (list.count == 0) ≡ false = ground (arith, h.count_items) in
    let rounds : list.count - 1 ≡ length xs = omega (arith, h.count_items) in
    (
      s',
      list',
      rw (some_items, rounds) run,
      record {
        items = bubbles wrong key (length xs) (x ∷ xs);
        holds = h';
        entries = k';
        same_items = λ p. count-bubbles wrong key p (length xs) (x ∷ xs);
        sorted = bubbles-IsSorted wrong key o x xs;
      },
    )

is_larger-IsOrder : IsOrder is_larger
unfolding is_larger
is_larger-IsOrder = record {
  asym = λ x y h. ground (arith, h);
  trans = λ x y z h k. ground (arith, h, k);
}

All-counted : (P : ℕ → Type 0) (xs : List ℕ) → ((q : ℕ) → 0 < count q xs → P q) → All P xs
All-counted P [] h = tt
All-counted P (x ∷ xs) h = (h x (ground arith), All-counted P xs (λ q lt. h q (omega (arith, lt))))

not_larger : (a b : ShellEntry) → is_larger a b ≡ false → a.size ≤ b.size
unfolding is_larger
not_larger a b h = ground arith

IsSorted-sizes :
    (key : ℕ → ShellEntry) (xs : List ℕ)
    → IsSorted is_larger key xs
    → IsOrdered (λ p. (key p).size) xs
unfolding IsSorted
IsSorted-sizes key [] h = tt
IsSorted-sizes key (x ∷ xs) (h, hs) = (
  All-counted (λ q. (key x).size ≤ (key q).size) xs (λ q lt. not_larger (key x) (key q) (h q lt)),
  IsSorted-sizes key xs hs,
)

-- The same items with the same entries, linked so that no item is larger than a later one.
pub record SortedBySize (s s' : Items) (list' : EntryList) (xs : List ℕ) : Type 0 where
  pub items : List ℕ
  pub holds : Holds s' list' items
  pub entries : SameEntries s s'
  pub same_items : (p : ℕ) → count p items ≡ count p xs
  pub ascending : IsOrdered (λ p. (s p).entry.size) items

-- `size_sort` of a list of fewer than 2 ^ 32 items that are linked in order ends; the list then
-- holds the same items with the same entries, each as often as before, linked so that the size of
-- each item is at most that of every later one.
pub size_sort-SortedBySize :
    (s : Items) (list : EntryList) (xs : List ℕ)
    → Holds s list xs
    → list.count < 2 ^ 32
    → (s' : Items) × (list' : EntryList) × (size_sort list s ≡ some (list', s'))
      × SortedBySize s s' list' xs
unfolding size_sort
size_sort-SortedBySize s list xs h small =
    let (s', list', run, r) = sort-SortedList is_larger is_larger-IsOrder s list xs h small in
    (
      s',
      list',
      run,
      record {
        items = r.items;
        holds = r.holds;
        entries = r.entries;
        same_items = r.same_items;
        ascending = IsSorted-sizes (λ p. (s p).entry) r.items r.sorted;
      },
    )
