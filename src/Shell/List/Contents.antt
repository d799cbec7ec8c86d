-- ===== src/Shell/List/Contents.antt =====
-- What a list of src/entrylist.c holds: the addresses of its items, in order.
use rpi_os_cfs_ext.Base.{
  ℕ, ◌≤◌, ◌<◌, ◌≡◌, inl, inr, refl, sym, subst, arith, false, some, ◌==◌, Bool-cases, ==_iff, List,
  [], ◌∷◌, ◌++◌, length, count,
}
use rpi_os_cfs_ext.Shell.List.{EntryList, Items, load_item, walk}

-- The links lead from `p` over the items `xs` to `q`.
unfoldable pub IsSegment : Items → ℕ → List ℕ → ℕ → Type 0
IsSegment s p [] q = p ≡ q
IsSegment s p (x ∷ xs) q = (p ≡ x) × (0 < x) × IsSegment s (s x).next xs q

abbrev pub last_of : List ℕ → ℕ
last_of [] = 0
last_of (x ∷ []) = x
last_of (x ∷ y ∷ xs) = last_of (y ∷ xs)

-- The list `list` in the store `s` has the items `xs`, no two of them the same.
pub record Holds (s : Items) (list : EntryList) (xs : List ℕ) : Type 0 where
  pub count_items : list.count ≡ length xs
  pub links : IsSegment s list.first xs 0
  pub last_item : list.last ≡ last_of xs
  pub distinct : (p : ℕ) → count p xs ≤ 1

-- The entries of all items are as they were.
abbrev pub SameEntries : Items → Items → Type 0
SameEntries s s' = (p : ℕ) → (s' p).entry ≡ (s p).entry

module _ (s : Items) where
  pub IsSegment-append :
      (p : ℕ) (xs ys : List ℕ) (q : ℕ)
      → IsSegment s p (xs ++ ys) q
      → (m : ℕ) × IsSegment s p xs m × IsSegment s m ys q
  unfolding IsSegment
  IsSegment-append p [] ys q h = (p, refl, h)
  IsSegment-append p (x ∷ xs) ys q (e, pos, h) =
      let (m, a, b) = IsSegment-append (s x).next xs ys q h in (m, (e, pos, a), b)

  pub append-IsSegment :
      (p : ℕ) (xs ys : List ℕ) (m q : ℕ)
      → IsSegment s p xs m
      → IsSegment s m ys q
      → IsSegment s p (xs ++ ys) q
  unfolding IsSegment
  append-IsSegment p [] ys m q a b = rw a b
  append-IsSegment p (x ∷ xs) ys m q (e, pos, a) b =
      (e, pos, append-IsSegment (s x).next xs ys m q a b)

  -- The items of a segment are not NULL.
  pub IsSegment-real : (p : ℕ) (xs : List ℕ) (q v : ℕ) → IsSegment s p xs q → 0 < count v xs → 0 < v
  unfolding IsSegment
  IsSegment-real p [] q v h c = absurd (omega arith)
  IsSegment-real p (x ∷ xs) q v (e, pos, h) c = elim (Bool-cases (x == v)) [
    | inl y ↦ subst (λ n. 0 < n) ((==_iff x v).0 y) pos
    | inr n ↦ IsSegment-real (s x).next xs q v h (ground arith)
  ]

  -- `length xs` steps lead to the end.
  pub walk-IsSegment :
      (p : ℕ) (xs : List ℕ) (q : ℕ) → IsSegment s p xs q → walk (length xs) p s ≡ some (q, s)
  unfolding IsSegment walk load_item
  walk-IsSegment p [] q h = rw h refl
  walk-IsSegment p (x ∷ xs) q (e, pos, h) =
      let not_null : (p == 0) ≡ false = ground arith in
      rw (not_null, e) (walk-IsSegment (s x).next xs q h)

-- A segment depends on the links of its items only.
pub IsSegment-frame :
    (s s' : Items) (p : ℕ) (xs : List ℕ) (q : ℕ)
    → ((x : ℕ) → 0 < count x xs → (s' x).next ≡ (s x).next)
    → IsSegment s p xs q
    → IsSegment s' p xs q
unfolding IsSegment
IsSegment-frame s s' p [] q same h = h
IsSegment-frame s s' p (x ∷ xs) q same (e, pos, h) = (
  e,
  pos,
  subst (λ n. IsSegment s' n xs q) (sym (same x (ground arith)))
      (IsSegment-frame s s' (s x).next xs q (λ y c. same y (omega (arith, c))) h),
)
