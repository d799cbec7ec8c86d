-- ===== src/Shell/List/Swap.antt =====
-- `swap` of src/ext2_shell.c exchanges two neighbours of the list.
use rpi_os_cfs_ext.Base.{
  ℕ, ◌+◌, ◌-◌, ◌^◌, ◌≤◌, ◌<◌, ◌≡◌, ◌≢◌, inl, inr, refl, sym, ap, subst, ◌∙◌, arith, true, false,
  some, ◌==◌, Bool-cases, ==_iff, update, sub32, List, [], ◌∷◌, ◌++◌, length, length-append, count,
  count-append,
}
use rpi_os_cfs_ext.Shell.List.{EntryList, Items, load_item, set_next, walk, relink, swap}
use rpi_os_cfs_ext.Shell.List.Contents.{
  IsSegment, Holds, SameEntries, last_of, IsSegment-append, append-IsSegment, IsSegment-frame,
  walk-IsSegment,
}

-- `p->next = q`
abbrev pub linked : Items → ℕ → ℕ → Items
linked s p q = update s p (record (s p) { next = q })

module _ (s : Items) (p q : ℕ) where
  pub linked-at : (linked s p q p).next ≡ q
  linked-at = ground arith

  pub linked-else : (x : ℕ) → x ≢ p → (linked s p q x).next ≡ (s x).next
  linked-else x ne = ground (arith, ne)

  pub linked-entry : SameEntries s (linked s p q)
  linked-entry x = elim (Bool-cases (x == p)) [
    | inl e ↦ rw (e, (==_iff x p).0 e) refl
    | inr e ↦ rw e refl
  ]

  pub set_next-linked : 0 < p → set_next p q s ≡ some (tt, linked s p q)
  unfolding set_next
  set_next-linked h = let e : (p == 0) ≡ false = ground arith in rw e refl

pub last_of-append : (xs : List ℕ) (y : ℕ) (ys : List ℕ) → last_of (xs ++ y ∷ ys) ≡ last_of (y ∷ ys)
last_of-append [] y ys = refl
last_of-append (x ∷ []) y ys = refl
last_of-append (x ∷ x' ∷ xs) y ys = last_of-append (x' ∷ xs) y ys

-- A list is empty or has a last element.
pub data Ends : List ℕ → Type 0 where
  empty : Ends []
  ends : (ys : List ℕ) (w : ℕ) → Ends (ys ++ w ∷ [])

pub Ends-intro : (xs : List ℕ) → Ends xs
Ends-intro [] = empty
Ends-intro (x ∷ xs) = grow (Ends-intro xs)
  where
    grow : {xs : List ℕ} → Ends xs → Ends (x ∷ xs)
    grow empty = ends [] x
    grow (ends ys w) = ends (x ∷ ys) w

-- The neighbours `a` and `b` of different addresses exchanged.
exchanged : Items → ℕ → ℕ → Items
exchanged s a b = linked (linked s a (s b).next) b a

module _ (s : Items) (a b : ℕ) (zs : List ℕ) (ne : a ≢ b) where
  exchanged-else : (x : ℕ) → x ≢ a → x ≢ b → (exchanged s a b x).next ≡ (s x).next
  unfolding exchanged
  exchanged-else x na nb =
      linked-else (linked s a (s b).next) b a x nb ∙ linked-else s a (s b).next x na

  exchanged-entry : SameEntries s (exchanged s a b)
  unfolding exchanged
  exchanged-entry x = linked-entry (linked s a (s b).next) b a x ∙ linked-entry s a (s b).next x

  exchanged-IsSegment :
      IsSegment s a (a ∷ b ∷ zs) 0
      → count a zs ≡ 0
      → count b zs ≡ 0
      → IsSegment (exchanged s a b) b (b ∷ a ∷ zs) 0
  unfolding IsSegment exchanged
  exchanged-IsSegment (e, pos, (e', pos', rest)) za zb =
      let second = linked s a (s b).next in
      let at_b : (exchanged s a b b).next ≡ a = linked-at second b a in
      let at_a : (exchanged s a b a).next ≡ (s b).next =
        linked-else second b a a ne ∙ linked-at s a (s b).next in
      (
        refl,
        pos',
        (
          at_b,
          pos,
          subst (λ n. IsSegment (exchanged s a b) n zs 0) (sym at_a)
              (IsSegment-frame s (exchanged s a b) (s b).next zs 0
                (λ x c.
                  exchanged-else x (λ y. absurd (omega (arith, c, za, ap (λ n. count n zs) y)))
                    (λ y. absurd (omega (arith, c, zb, ap (λ n. count n zs) y))))
                rest),
        ),
      )

-- The step of `swap` that exchanges them, for the list that `s` holds.
relink_lem :
    (s : Items) (a b : ℕ) (zs : List ℕ) (list : EntryList) (ys : List ℕ)
    → Holds s list (ys ++ a ∷ b ∷ zs)
    → IsSegment s a (a ∷ b ∷ zs) 0
    → list.count < 2 ^ 32
    → relink list (length ys + 1) a b s ≡ some (last_of (b ∷ a ∷ zs), exchanged s a b)
unfolding relink IsSegment exchanged load_item
relink_lem s a b [] list ys h (e, pos, (e', pos', rest)) small =
    let test : (length ys + 1 == sub32 list.count 1) ≡ true =
      ground (arith, h.count_items, length-append ys (a ∷ b ∷ []), small) in
    let run : relink list (length ys + 1) a b s ≡ some (a, linked (linked s a 0) b a) =
      rw (test, set_next-linked s a 0 pos, set_next-linked (linked s a 0) b a pos') refl in
    run ∙ ap (λ n. some (a, linked (linked s a n) b a)) (sym rest)
relink_lem s a b (z ∷ zs) list ys h (e, pos, (e', pos', rest)) small =
    let test : (length ys + 1 == sub32 list.count 1) ≡ false =
      ground (arith, h.count_items, length-append ys (a ∷ b ∷ z ∷ zs), small) in
    let not_null : (b == 0) ≡ false = ground arith in
    rw
      (
        test,
        not_null,
        set_next-linked s a (s b).next pos,
        set_next-linked (linked s a (s b).next) b a pos',
        h.last_item,
        last_of-append ys a (b ∷ z ∷ zs),
      )
      refl

-- The list with two neighbours exchanged.
pub record Swapped (s s' : Items) (list' : EntryList) (ys : List ℕ) (a b : ℕ) (zs : List ℕ)
    : Type 0 where
  pub holds : Holds s' list' (ys ++ b ∷ a ∷ zs)
  pub entries : SameEntries s s'

count-exchange :
    (p : ℕ) (ys : List ℕ) (a b : ℕ) (zs : List ℕ)
    → count p (ys ++ b ∷ a ∷ zs) ≡ count p (ys ++ a ∷ b ∷ zs)
count-exchange p ys a b zs =
    omega (arith, count-append p ys (b ∷ a ∷ zs), count-append p ys (a ∷ b ∷ zs))

length-exchange :
    (ys : List ℕ) (a b : ℕ) (zs : List ℕ) → length (ys ++ b ∷ a ∷ zs) ≡ length (ys ++ a ∷ b ∷ zs)
length-exchange ys a b zs =
    omega (arith, length-append ys (b ∷ a ∷ zs), length-append ys (a ∷ b ∷ zs))

-- What `Holds` of the new list needs beyond its links.
Holds-exchange :
    {s s' : Items} {list : EntryList} (first : ℕ) (ys : List ℕ) (a b : ℕ) (zs : List ℕ)
    → Holds s list (ys ++ a ∷ b ∷ zs)
    → IsSegment s' first (ys ++ b ∷ a ∷ zs) 0
    → Holds s'
        (record { count = list.count; first = first; last = last_of (b ∷ a ∷ zs) })
        (ys ++ b ∷ a ∷ zs)
Holds-exchange first ys a b zs h links = record {
  count_items = h.count_items ∙ sym (length-exchange ys a b zs);
  links = links;
  last_item = sym (last_of-append ys b (a ∷ zs));
  distinct = λ p. omega (arith, h.distinct p, count-exchange p ys a b zs);
}

pub absent : (xs : List ℕ) (v : ℕ) → count v xs ≡ 0 → (x : ℕ) → 0 < count x xs → x ≢ v
absent xs v z x c e = absurd (omega (arith, z, c, ap (λ n. count n xs) e))

-- `swap` of the first two items.
swap-first :
    (s : Items) (a b : ℕ) (zs : List ℕ) (list : EntryList)
    → Holds s list (a ∷ b ∷ zs)
    → list.count < 2 ^ 32
    → (s' : Items) × (list' : EntryList) × (swap list 0 1 s ≡ some (list', s'))
      × Swapped s s' list' [] a b zs
      × (list'.count ≡ list.count)
unfolding swap walk load_item IsSegment
swap-first s a b zs list h small =
    let (fa, pos, (e', pos', rest)) = h.links in
    let differ : a ≢ b = λ e. absurd (ground (arith, h.distinct a, e)) in
    let za : count a zs ≡ 0 = ground (arith, h.distinct a) in
    let zb : count b zs ≡ 0 = ground (arith, h.distinct b) in
    let seg : IsSegment s a (a ∷ b ∷ zs) 0 = (refl, pos, (e', pos', rest)) in
    let not_null : (a == 0) ≡ false = ground arith in
    (
      exchanged s a b,
      record { count = list.count; first = b; last = last_of (b ∷ a ∷ zs) },
      rw (fa, not_null, e', relink_lem s a b zs list [] h seg small) refl,
      record {
        holds = Holds-exchange b [] a b zs h (exchanged-IsSegment s a b zs differ seg za zb);
        entries = exchanged-entry s a b zs differ;
      },
      refl,
    )

-- `swap` of two later neighbours, behind the item `w`.
swap-later :
    (s : Items) (ys : List ℕ) (w a b : ℕ) (zs : List ℕ) (list : EntryList)
    → Holds s list ((ys ++ w ∷ []) ++ a ∷ b ∷ zs)
    → list.count < 2 ^ 32
    → (s' : Items) × (list' : EntryList) × (swap list
          (length (ys ++ w ∷ []))
          (length (ys ++ w ∷ []) + 1)
          s
        ≡ some (list', s'))
      × Swapped s s' list' (ys ++ w ∷ []) a b zs
      × (list'.count ≡ list.count)
      × (list'.first ≡ list.first)
unfolding swap walk load_item IsSegment
swap-later s ys w a b zs list h small =
    let (m, front, (ma, pos, (e', pos', rest))) =
      IsSegment-append s list.first (ys ++ w ∷ []) (a ∷ b ∷ zs) 0 h.links in
    let (w', before, (ww, wpos, wm)) = IsSegment-append s list.first ys (w ∷ []) m front in
    let once = λ (p : ℕ).
      let split : count p ((ys ++ w ∷ []) ++ a ∷ b ∷ zs) ≡ count p ys + count p (w ∷ a ∷ b ∷ zs) =
        omega (arith, count-append p (ys ++ w ∷ []) (a ∷ b ∷ zs), count-append p ys (w ∷ [])) in
      subst (λ n. n ≤ 1) split (h.distinct p) in
    let differ : a ≢ b = λ e. absurd (ground (arith, once a, e)) in
    let za : count a zs ≡ 0 = ground (arith, once a) in
    let zb : count b zs ≡ 0 = ground (arith, once b) in
    let seg : IsSegment s a (a ∷ b ∷ zs) 0 = (refl, pos, (e', pos', rest)) in
    let tail = exchanged-IsSegment s a b zs differ seg za zb in
    let inner = exchanged s a b in
    let na : count a ys ≡ 0 = ground (arith, once a) in
    let nb : count b ys ≡ 0 = ground (arith, once b) in
    let nw : count w ys ≡ 0 = ground (arith, once w) in
    let nt : count w (b ∷ a ∷ zs) ≡ 0 = ground (arith, once w) in
    let before' : IsSegment inner list.first ys w' =
      IsSegment-frame s inner list.first ys w'
        (λ x c. exchanged-else s a b zs differ x (absent ys a na x c) (absent ys b nb x c))
        before in
    let before'' : IsSegment (linked inner w b) list.first ys w' =
      IsSegment-frame inner (linked inner w b) list.first ys w'
        (λ x c. linked-else inner w b x (absent ys w nw x c)) before' in
    let tail' : IsSegment (linked inner w b) b (b ∷ a ∷ zs) 0 =
      IsSegment-frame inner (linked inner w b) b (b ∷ a ∷ zs) 0
        (λ x c. linked-else inner w b x (absent (b ∷ a ∷ zs) w nt x c)) tail in
    let to_a : walk (length (ys ++ w ∷ [])) list.first s ≡ some (a, s) =
      walk-IsSegment s list.first (ys ++ w ∷ []) m front ∙ ap (λ n. some (n, s)) ma in
    let to_w : walk (length (ys ++ w ∷ []) - 1) list.first inner ≡ some (w, inner) =
      ap (λ n. walk n list.first inner) (omega (arith, length-append ys (w ∷ [])))
      ∙ walk-IsSegment inner list.first ys w' before'
      ∙ ap (λ n. some (n, inner)) ww in
    let not_first : (length (ys ++ w ∷ []) == 0) ≡ false =
      ground (arith, length-append ys (w ∷ [])) in
    let not_null : (a == 0) ≡ false = ground arith in
    let links =
      append-IsSegment (linked inner w b) list.first (ys ++ w ∷ []) (b ∷ a ∷ zs) b 0
        (append-IsSegment (linked inner w b) list.first ys (w ∷ []) w' b before''
          (ww, wpos, linked-at inner w b))
        tail' in
    (
      linked inner w b,
      record { count = list.count; first = list.first; last = last_of (b ∷ a ∷ zs) },
      rw
          (
            to_a,
            not_null,
            e',
            relink_lem s a b zs list (ys ++ w ∷ []) h seg small,
            not_first,
            to_w,
            set_next-linked inner w b wpos,
          )
          refl,
      record {
        holds = Holds-exchange list.first (ys ++ w ∷ []) a b zs h links;
        entries = λ p. linked-entry inner w b p ∙ exchanged-entry s a b zs differ p;
      },
      refl,
      refl,
    )

-- `swap` of two neighbours of a list exchanges them, wherever they stand.
pub swap-Swapped :
    (s : Items) (ys : List ℕ) (a b : ℕ) (zs : List ℕ) (list : EntryList)
    → Holds s list (ys ++ a ∷ b ∷ zs)
    → list.count < 2 ^ 32
    → (s' : Items) × (list' : EntryList) × (swap list (length ys) (length ys + 1) s
        ≡ some (list', s'))
      × Swapped s s' list' ys a b zs
      × (list'.count ≡ list.count)
swap-Swapped s ys a b zs list h small = by_end (Ends-intro ys) h
  where
    by_end :
        {ys : List ℕ}
        → Ends ys
        → Holds s list (ys ++ a ∷ b ∷ zs)
        → (s' : Items) × (list' : EntryList) × (swap list (length ys) (length ys + 1) s
            ≡ some (list', s'))
          × Swapped s s' list' ys a b zs
          × (list'.count ≡ list.count)
    by_end empty h = swap-first s a b zs list h small
    by_end (ends ys w) h =
        let (s', list', run, swapped, n, first) = swap-later s ys w a b zs list h small in
        (s', list', run, swapped, n)
