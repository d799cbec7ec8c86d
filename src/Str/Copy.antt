-- ===== src/Str/Copy.antt =====
-- `strcpy` copies the string with its NUL, and nothing else.
use rpi_os_cfs_ext.Base.{
  ℕ, zero, suc, ◌+◌, ◌-◌, ◌≤◌, ◌<◌, ◌≡◌, arith, ◌&&◌, Option, some, ◌==◌, if◌then◌else◌, leb,
  update, Bool-cases, inl, inr, ap,
}
use rpi_os_cfs_ext.Base.Bytes.{Bytes}
use rpi_os_cfs_ext.Str.{strcpy}
use rpi_os_cfs_ext.Str.Length.{IsString}

abbrev pub Copied : Bytes → ℕ → Bytes → ℕ → ℕ → Option Bytes → Type 0
Copied d o s i n r =
    (d' : Bytes) × (r ≡ some d')
    × ((a : ℕ) → d' a ≡ (if leb (o + i) a && leb a (o + n) then s (a - o) else d a))

source : (o i a : ℕ) (s : Bytes) → a ≡ o + i → s (a - o) ≡ s i
source o i a s e = ap s (omega arith)

strcpy_from :
    (fuel i : ℕ) (d : Bytes) (o : ℕ) (s : Bytes) (n : ℕ)
    → IsString s n
    → i ≤ n
    → n < i + fuel
    → Copied d o s i n (strcpy fuel i d o s)
unfolding strcpy
strcpy_from zero i d o s n h lo hi = absurd (omega arith)
strcpy_from (suc fuel) i d o s n h lo hi = elim (Bool-cases (i == n)) [
  | inl e ↦
      (update d (o + i) 0, ground (arith, h.ends), λ a. ground (arith, h.ends, source o i a s))
  | inr ne ↦
      let (d', eq, at) =
        strcpy_from fuel (i + 1) (update d (o + i) (s i)) o s n h (ground arith) (omega arith) in
      (d', ground (arith, h.inside i), λ a. ground (arith, at a, source o i a s))
]

-- `strcpy` of a string of length `n` ends within `n + 1` rounds: the string and its NUL are at
-- offset `o` of the new buffer, and no other character has changed.
pub strcpy_lem :
    (fuel : ℕ) (d : Bytes) (o : ℕ) (s : Bytes) (n : ℕ)
    → IsString s n
    → n < fuel
    → (d' : Bytes) × (strcpy fuel 0 d o s ≡ some d')
      × ((a : ℕ) → d' a ≡ (if leb o a && leb a (o + n) then s (a - o) else d a))
strcpy_lem fuel d o s n h hf =
    let (d', eq, at) = strcpy_from fuel 0 d o s n h (omega arith) (omega arith) in
    (d', eq, λ a. ground (arith, at a))
