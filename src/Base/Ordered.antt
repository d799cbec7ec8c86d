-- ===== src/Base/Ordered.antt =====
-- Lists of numbers in the order of a key, with repetitions.
use mathlib.Core.Path.{◌≡◌, refl}
use Prim.Native.Nat.{ℕ, ◌≤◌, ◌<◌}
use mathlib.Core.Bool.{Bool, true, false}
use mathlib.Core.List.{List, [], ◌∷◌, ◌++◌}
use native.Mathlib.Omega.{arith}
use rpi_os_cfs_ext.Base.Lists.{count}

-- The first element, 0 if there is none.
abbrev pub head : List ℕ → ℕ
head [] = 0
head (x ∷ xs) = x

abbrev pub is_nil : List ℕ → Bool
is_nil [] = true
is_nil (x ∷ xs) = false

pub is_nil-end : (xs ys : List ℕ) (a : ℕ) → is_nil (xs ++ (ys ++ a ∷ [])) ≡ false
is_nil-end [] [] a = refl
is_nil-end [] (y ∷ ys) a = refl
is_nil-end (x ∷ xs) ys a = refl

abbrev pub All : (ℕ → Type 0) → List ℕ → Type 0
All P [] = Unit
All P (x ∷ xs) = P x × All P xs

module _ (P : ℕ → Type 0) where
  pub All-append : (xs ys : List ℕ) → All P xs → All P ys → All P (xs ++ ys)
  All-append [] ys a b = b
  All-append (x ∷ xs) ys (h, a) b = (h, All-append xs ys a b)

  pub append-All : (xs ys : List ℕ) → All P (xs ++ ys) → All P xs × All P ys
  append-All [] ys a = (tt, a)
  append-All (x ∷ xs) ys (h, a) = let (b, c) = append-All xs ys a in ((h, b), c)

  pub All-count : (q : ℕ) (xs : List ℕ) → All P xs → 0 < count q xs → P q
  All-count q [] a lt = absurd (omega arith)
  All-count q (x ∷ xs) (h, a) lt = ground (arith, h, All-count q xs a)

pub All-imp : (P Q : ℕ → Type 0) (xs : List ℕ) → ((q : ℕ) → P q → Q q) → All P xs → All Q xs
All-imp P Q [] f a = tt
All-imp P Q (x ∷ xs) f (h, a) = (f x h, All-imp P Q xs f a)

module _ (key : ℕ → ℕ) where
  -- The key of each element is at most that of every later one.
  abbrev pub IsOrdered : List ℕ → Type 0
  IsOrdered [] = Unit
  IsOrdered (x ∷ xs) = All (λ q. key x ≤ key q) xs × IsOrdered xs

  pub IsOrdered-parts : (xs ys : List ℕ) → IsOrdered (xs ++ ys) → IsOrdered xs × IsOrdered ys
  IsOrdered-parts [] ys o = (tt, o)
  IsOrdered-parts (x ∷ xs) ys (a, o) =
      let (b, c) = IsOrdered-parts xs ys o in
      ((((append-All (λ q. key x ≤ key q) xs ys a).0), b), c)

  pub IsOrdered-before :
      (xs : List ℕ) (p : ℕ) (ys : List ℕ) → IsOrdered (xs ++ p ∷ ys) → All (λ q. key q ≤ key p) xs
  IsOrdered-before [] p ys o = tt
  IsOrdered-before (x ∷ xs) p ys (a, o) =
      ((append-All (λ q. key x ≤ key q) xs (p ∷ ys) a).1.0, IsOrdered-before xs p ys o)

  -- An element put where it belongs.
  pub IsOrdered-insert :
      (xs ys : List ℕ) (p : ℕ)
      → IsOrdered (xs ++ ys)
      → All (λ q. key q ≤ key p) xs
      → All (λ q. key p < key q) ys
      → IsOrdered (xs ++ p ∷ ys)
  IsOrdered-insert [] ys p o a b =
      (All-imp (λ q. key p < key q) (λ q. key p ≤ key q) ys (λ q h. omega arith) b, o)
  IsOrdered-insert (x ∷ xs) ys p (o, os) (h, a) b =
      let (c, d) = append-All (λ q. key x ≤ key q) xs ys o in
      (All-append (λ q. key x ≤ key q) xs (p ∷ ys) c (h, d), IsOrdered-insert xs ys p os a b)
