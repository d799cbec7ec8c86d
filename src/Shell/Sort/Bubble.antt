-- ===== src/Shell/Sort/Bubble.antt =====
-- The sort of src/ext2_shell.c on lists of addresses.
use mathlib.Core.List.{append-nil}
use rpi_os_cfs_ext.Base.{
  ℕ, zero, suc, ◌<◌, ◌≡◌, inl, inr, refl, ap, subst, ◌∙◌, arith, Bool, true, false, ◌==◌,
  if◌then◌else◌, Bool-cases, ==_iff, List, [], ◌∷◌, ◌++◌, length, count, count-append,
}

-- The test of the source as an order: what is not in the wrong order is at most.
pub record IsOrder {A : Type 0} (wrong : A → A → Bool) : Type 0 where
  pub asym : (x y : A) → wrong x y ≡ true → wrong y x ≡ false
  pub trans : (x y z : A) → wrong x y ≡ false → wrong y z ≡ false → wrong x z ≡ false

module _ {A : Type 0} (wrong : A → A → Bool) (key : ℕ → A) where
  -- One pass: `n` neighbours are compared, from the start of the list.
  unfoldable pub bubble : ℕ → List ℕ → List ℕ
  bubble zero xs = xs
  bubble (suc n) [] = []
  bubble (suc n) (x ∷ []) = x ∷ []
  bubble (suc n) (x ∷ y ∷ xs) =
      let moved = y ∷ bubble n (x ∷ xs) in
      let kept = x ∷ bubble n (y ∷ xs) in if wrong (key x) (key y) then moved else kept

  unfoldable pub bubbles : ℕ → List ℕ → List ℕ
  unfolding bubble
  bubbles zero xs = xs
  bubbles (suc n) xs = bubbles n (bubble (suc n) xs)

  -- Every element is at most every later one.
  unfoldable pub IsSorted : List ℕ → Type 0
  IsSorted [] = Unit
  IsSorted (x ∷ xs) = ((q : ℕ) → 0 < count q xs → wrong (key x) (key q) ≡ false) × IsSorted xs

  pub length-bubble : (n : ℕ) (xs : List ℕ) → length (bubble n xs) ≡ length xs
  unfolding bubble
  length-bubble zero xs = refl
  length-bubble (suc n) [] = refl
  length-bubble (suc n) (x ∷ []) = refl
  length-bubble (suc n) (x ∷ y ∷ xs) = elim (Bool-cases (wrong (key x) (key y))) [
    | inl e ↦ rw e (ap suc (length-bubble n (x ∷ xs)))
    | inr e ↦ rw e (ap suc (length-bubble n (y ∷ xs)))
  ]

  pub count-bubble : (p n : ℕ) (xs : List ℕ) → count p (bubble n xs) ≡ count p xs
  unfolding bubble
  count-bubble p zero xs = refl
  count-bubble p (suc n) [] = refl
  count-bubble p (suc n) (x ∷ []) = refl
  count-bubble p (suc n) (x ∷ y ∷ xs) = elim (Bool-cases (wrong (key x) (key y))) [
    | inl e ↦ rw e (omega (arith, count-bubble p n (x ∷ xs)))
    | inr e ↦ rw e (omega (arith, count-bubble p n (y ∷ xs)))
  ]

  pub count-bubbles : (p n : ℕ) (xs : List ℕ) → count p (bubbles n xs) ≡ count p xs
  unfolding bubbles
  count-bubbles p zero xs = refl
  count-bubbles p (suc n) xs = count-bubbles p n (bubble (suc n) xs) ∙ count-bubble p (suc n) xs

  module _ (o : IsOrder wrong) where
    -- A pass over the first `n` + 1 elements takes a largest one of them behind the others.
    record Pass (n x : ℕ) (zs suf : List ℕ) : Type 0 where
      front : List ℕ
      top : ℕ
      split : bubble n (x ∷ zs ++ suf) ≡ front ++ top ∷ suf
      front_length : length front ≡ n
      bound : (p : ℕ) → 0 < count p (x ∷ zs) → wrong (key p) (key top) ≡ false
      same : (p : ℕ) → count p (front ++ top ∷ []) ≡ count p (x ∷ zs)

    reflexive : (x : A) → wrong x x ≡ false
    reflexive x = elim (Bool-cases (wrong x x)) [ inl e ↦ o.asym x x e | inr e ↦ e ]

    only :
        (P : ℕ → Type 0) (x p : ℕ) (xs : List ℕ)
        → P x
        → (0 < count p xs → P p)
        → 0 < count p (x ∷ xs)
        → P p
    only P x p xs h rest c = elim (Bool-cases (x == p)) [
      | inl e ↦ subst P ((==_iff x p).0 e) h
      | inr e ↦ rest (ground arith)
    ]

    bubble-Pass : (n x : ℕ) (zs suf : List ℕ) → length zs ≡ n → Pass n x zs suf
    unfolding bubble
    bubble-Pass zero x [] suf e = record {
      front = [];
      top = x;
      split = refl;
      front_length = refl;
      bound = λ p.
          only (λ q. wrong (key q) (key x) ≡ false) x p [] (reflexive (key x))
            (λ c. absurd (omega arith));
      same = λ p. refl;
    }
    bubble-Pass zero x (y ∷ zs) suf e = absurd (omega arith)
    bubble-Pass (suc n) x [] suf e = absurd (omega arith)
    bubble-Pass (suc n) x (y ∷ zs) suf e = elim (Bool-cases (wrong (key x) (key y))) [
      | inl w ↦
          let r = bubble-Pass n x zs suf (omega (arith, e)) in
          let x_top = r.bound x (ground arith) in
          record {
            front = y ∷ r.front;
            top = r.top;
            split = rw w (ap (λ l. y ∷ l) r.split);
            front_length = ap suc r.front_length;
            bound = λ p c.
                only (λ q. wrong (key q) (key r.top) ≡ false) y p (x ∷ zs)
                  (o.trans (key y) (key x) (key r.top) (o.asym (key x) (key y) w) x_top) (r.bound p)
                  (omega (arith, c));
            same = λ p. omega (arith, r.same p);
          }
      | inr w ↦
          let r = bubble-Pass n y zs suf (omega (arith, e)) in
          let y_top = r.bound y (ground arith) in
          record {
            front = x ∷ r.front;
            top = r.top;
            split = rw w (ap (λ l. x ∷ l) r.split);
            front_length = ap suc r.front_length;
            bound = λ p c.
                only (λ q. wrong (key q) (key r.top) ≡ false) x p (y ∷ zs)
                  (o.trans (key x) (key y) (key r.top) w y_top) (r.bound p) c;
            same = λ p. omega (arith, r.same p);
          }
    ]

    bubbles-IsSorted_from :
        (n : ℕ) (pre suf : List ℕ)
        → length pre ≡ suc n
        → IsSorted suf
        → ((p q : ℕ) → 0 < count p pre → 0 < count q suf → wrong (key p) (key q) ≡ false)
        → IsSorted (bubbles n (pre ++ suf))
    unfolding bubbles IsSorted
    bubbles-IsSorted_from n [] suf e sorted below = absurd (omega arith)
    bubbles-IsSorted_from zero (x ∷ []) suf e sorted below =
        ((λ q c. below x q (ground arith) c), sorted)
    bubbles-IsSorted_from zero (x ∷ y ∷ pre) suf e sorted below = absurd (omega arith)
    bubbles-IsSorted_from (suc n) (x ∷ zs) suf e sorted below =
        let r = bubble-Pass (suc n) x zs suf (omega (arith, e)) in
        let in_pre = λ (p : ℕ) (c : 0 < count p (r.front ++ r.top ∷ [])).
          r.bound p (omega (arith, c, r.same p)) in
        rw r.split (
          bubbles-IsSorted_from n r.front (r.top ∷ suf) r.front_length
            (
              (λ q c.
                  below r.top q
                    (omega
                      (arith, r.same r.top, count-append r.top r.front (r.top ∷ []), one r.top))
                    c),
              sorted,
            )
            (λ p q cp cq.
              only (λ z. wrong (key p) (key z) ≡ false) r.top q suf
                (in_pre p (omega (arith, count-append p r.front (r.top ∷ []), cp)))
                (below p q (omega (arith, r.same p, count-append p r.front (r.top ∷ []), cp))) cq))
      where
        one : (p : ℕ) → count p (p ∷ []) ≡ 1
        one p = ground arith

    -- All passes sort the list.
    pub bubbles-IsSorted : (x : ℕ) (xs : List ℕ) → IsSorted (bubbles (length xs) (x ∷ xs))
    unfolding IsSorted
    bubbles-IsSorted x xs =
        subst (λ l. IsSorted (bubbles (length xs) l)) (append-nil (x ∷ xs))
          (bubbles-IsSorted_from (length xs) (x ∷ xs) [] refl tt
            (λ p q cp cq. absurd (omega (arith, cq))))
