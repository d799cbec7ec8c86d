-- ===== src/Str/Compare.antt =====
-- `strcmp` decides whether two strings are the same.
use rpi_os_cfs_ext.Base.{
  ℕ, zero, suc, ◌+◌, ◌≤◌, ◌<◌, ◌≡◌, ◌≢◌, ◌↔◌, inl, inr, refl, arith, Option, some, ◌==◌, sub32,
  Bool-cases, subst,
}
use rpi_os_cfs_ext.Base.Bytes.{Bytes}
use rpi_os_cfs_ext.Str.{strcmp}
use rpi_os_cfs_ext.Str.Length.{IsString}

-- The two buffers agree from `i` to `n`.
abbrev pub Agree : Bytes → Bytes → ℕ → ℕ → Type 0
Agree a b i n = (j : ℕ) → i ≤ j → j ≤ n → a j ≡ b j

abbrev pub Compared : Bytes → Bytes → ℕ → ℕ → Option ℕ → Type 0
Compared a b i n r = (v : ℕ) × (r ≡ some v) × ((v ≡ 0) ↔ Agree a b i n)

module _ (a b : Bytes) (n : ℕ) (ha : IsString a n) (wa : (i : ℕ) → a i < 256)
    (wb : (i : ℕ) → b i < 256) where
  at_end : (i : ℕ) → i ≤ n → a i ≡ 0 → i ≡ n
  at_end i lo z = elim (Bool-cases (i == n)) [
    | inl e ↦ ground arith
    | inr e ↦ absurd (ha.inside i (ground arith) z)
  ]

  Agree-end : (i : ℕ) → i ≤ n → a i ≡ 0 → a i ≡ b i → Agree a b i n
  Agree-end i lo z e j l h = subst (λ k. a k ≡ b k) (omega (arith, at_end i lo z)) e

  Agree-cons : (i : ℕ) → a i ≡ b i → Agree a b (i + 1) n → Agree a b i n
  Agree-cons i e g j l h = elim (Bool-cases (i == j)) [
    | inl q ↦ subst (λ k. a k ≡ b k) (ground arith) e
    | inr q ↦ g j (ground arith) h
  ]

  not_yet : (i : ℕ) → i ≤ n → a i ≢ 0 → i < n
  not_yet i lo nz = elim (Bool-cases (i == n)) [
    | inl q ↦ absurd (nz (subst (λ k. a k ≡ 0) (ground arith) ha.ends))
    | inr q ↦ ground arith
  ]

  strcmp_from : (fuel i : ℕ) → i ≤ n → n < i + fuel → Compared a b i n (strcmp fuel i a b)
  unfolding strcmp
  strcmp_from zero i lo hi = absurd (omega arith)
  strcmp_from (suc fuel) i lo hi = elim (Bool-cases (a i == b i)) [
    | inr ne ↦ (
      sub32 (a i) (b i),
      ground arith,
      (λ e. absurd (ground (arith, wa i, wb i)), λ g. absurd (ground (arith, g i))),
    )
    | inl e ↦ elim (Bool-cases (a i == 0)) [
      | inl z ↦ (0, ground arith, (λ _. Agree-end i lo (ground arith) (ground arith), λ _. refl))
      | inr nz ↦
          let (v, eq, iff) =
            strcmp_from fuel (i + 1) (omega (arith, not_yet i lo (ground arith))) (omega arith) in
          (
            v,
            ground arith,
            (λ z. Agree-cons i (ground arith) (iff.0 z), λ g. iff.1 (λ j l h. g j (omega arith) h)),
          )
    ]
  ]

  -- `strcmp` of a string of length `n` and any buffer of characters ends within `n + 1` rounds,
  -- and returns 0 if and only if the first `n + 1` characters are the same.
  pub strcmp_lem : (fuel : ℕ) → n < fuel → Compared a b 0 n (strcmp fuel 0 a b)
  strcmp_lem fuel hf = strcmp_from fuel 0 (omega arith) (omega arith)
