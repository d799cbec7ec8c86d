-- ===== src/Shell/List/Add.antt =====
-- `add_entry_list` of src/entrylist.c puts the new item at the end.
use rpi_os_cfs_ext.Base.{
  ℕ, ◌+◌, ◌^◌, ◌≤◌, ◌<◌, ◌≡◌, ◌≢◌, inl, inr, refl, sym, ap, ◌∙◌, arith, false, some, ◌==◌,
  Bool-cases, ==_iff, u32, List, [], ◌∷◌, ◌++◌, length, length-append, count, count-append,
}
use rpi_os_cfs_ext.Shell.List.{EntryList, Items, add_entry_list}
use rpi_os_cfs_ext.Shell.List.Contents.{
  IsSegment, Holds, SameEntries, IsSegment-append, append-IsSegment, IsSegment-frame,
}
use rpi_os_cfs_ext.Shell.List.Swap.{
  linked, linked-at, linked-else, linked-entry, set_next-linked, last_of-append, Ends, empty, ends,
  Ends-intro, absent,
}

-- The list with one item more.
pub record Added (s s' : Items) (list' : EntryList) (xs : List ℕ) (new : ℕ) : Type 0 where
  pub holds : Holds s' list' (xs ++ new ∷ [])
  pub entries : SameEntries s s'

distinct_more :
    (xs : List ℕ) (new p : ℕ) → count p xs ≤ 1 → count new xs ≡ 0 → count p (xs ++ new ∷ []) ≤ 1
distinct_more xs new p h fresh = elim (Bool-cases (new == p)) [
  | inl e ↦ omega (
    arith,
    count-append p xs (new ∷ []),
    one new p,
    fresh,
    ap (λ q. count q xs) ((==_iff new p).0 e),
  )
  | inr e ↦ ground (arith, count-append p xs (new ∷ []), h)
]
  where
    one : (new p : ℕ) → count p (new ∷ []) ≤ 1
    one new p = ground arith

module _ (s : Items) (new : ℕ) (real : 0 < new) (list : EntryList)
    (small : list.count + 1 < 2 ^ 32) where
  add-empty :
      Holds s list []
      → (s' : Items) × (list' : EntryList) × (add_entry_list list new s ≡ some (list', s'))
        × Added s s' list' [] new
  unfolding add_entry_list IsSegment
  add-empty h = (
    linked s new 0,
    record { count = 1; first = new; last = new },
    rw (h.count_items, set_next-linked s new 0 real) refl,
    record {
      holds = record {
        count_items = refl;
        links = (refl, real, linked-at s new 0);
        last_item = refl;
        distinct = λ p. ground arith;
      };
      entries = linked-entry s new 0;
    },
  )

  add-behind :
      (ys : List ℕ) (w : ℕ)
      → Holds s list (ys ++ w ∷ [])
      → count new (ys ++ w ∷ []) ≡ 0
      → (s' : Items) × (list' : EntryList) × (add_entry_list list new s ≡ some (list', s'))
        × Added s s' list' (ys ++ w ∷ []) new
  unfolding add_entry_list IsSegment
  add-behind ys w h fresh =
      let (m, before, (mw, pos, end)) = IsSegment-append s list.first ys (w ∷ []) 0 h.links in
      let total : list.count ≡ length ys + 1 = h.count_items ∙ length-append ys (w ∷ []) in
      let some_items : (list.count == 0) ≡ false = ground (arith, total) in
      let last : list.last ≡ w = h.last_item ∙ last_of-append ys w [] in
      let n_fresh : count new ys + count new (w ∷ []) ≡ 0 =
        sym (count-append new ys (w ∷ [])) ∙ fresh in
      let other : w ≢ new = λ e. absurd (ground (arith, n_fresh, e)) in
      let nw : count w ys ≡ 0 = ground (arith, h.distinct w, count-append w ys (w ∷ [])) in
      let nn : count new ys ≡ 0 = omega (arith, n_fresh) in
      let s₁ = linked s w new in
      let s₂ = linked s₁ new 0 in
      let before' =
        IsSegment-frame s s₂ list.first ys m
          (λ x c.
            linked-else s₁ new 0 x (absent ys new nn x c)
            ∙ linked-else s w new x (absent ys w nw x c))
          before in
      let behind : (s₂ w).next ≡ new = linked-else s₁ new 0 w other ∙ linked-at s w new in
      let to_new = append-IsSegment s₂ list.first ys (w ∷ []) m new before' (mw, pos, behind) in
      (
        s₂,
        record { count = u32 (list.count + 1); first = list.first; last = new },
        rw (some_items, last, set_next-linked s w new pos, set_next-linked s₁ new 0 real) refl,
        record {
          holds = record {
            count_items = omega (
              arith,
              total,
              small,
              length-append (ys ++ w ∷ []) (new ∷ []),
              length-append ys (w ∷ []),
            );
            links =
                append-IsSegment s₂ list.first (ys ++ w ∷ []) (new ∷ []) new 0 to_new
                  (refl, real, linked-at s₁ new 0);
            last_item = sym (last_of-append (ys ++ w ∷ []) new []);
            distinct = λ p. distinct_more (ys ++ w ∷ []) new p (h.distinct p) fresh;
          };
          entries = λ p. linked-entry s₁ new 0 p ∙ linked-entry s w new p;
        },
      )

  -- `add_entry_list` of an item that is not on the list puts it at the end of the list, and
  -- changes no entry.
  pub add_entry_list-Added :
      (xs : List ℕ)
      → Holds s list xs
      → count new xs ≡ 0
      → (s' : Items) × (list' : EntryList) × (add_entry_list list new s ≡ some (list', s'))
        × Added s s' list' xs new
  add_entry_list-Added xs h fresh = by_end (Ends-intro xs) h fresh
    where
      by_end :
          {xs : List ℕ}
          → Ends xs
          → Holds s list xs
          → count new xs ≡ 0
          → (s' : Items) × (list' : EntryList) × (add_entry_list list new s ≡ some (list', s'))
            × Added s s' list' xs new
      by_end empty h fresh = add-empty h
      by_end (ends ys w) h fresh = add-behind ys w h fresh
