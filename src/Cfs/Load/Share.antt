-- ===== src/Cfs/Load/Share.antt =====
-- How near `__calc_delta` comes to delta * weight / load.
use rpi_os_cfs_ext.Base.{
  ℕ, zero, suc, ◌+◌, ◌-◌, ◌*◌, ◌/◌, ◌^◌, ◌≤◌, ◌<◌, ◌≡◌, inl, inr, refl, arith, Bool, true, false,
  ◌&&◌, ◌==◌, ltb, u32, u64, ap, subst, Bool-cases, ltb→lt,
}
use native.Mathlib.Nat.{pow-suc, le_trans}
use rpi_os_cfs_ext.Base.Tables.{holds_below, from_table}
use rpi_os_cfs_ext.Cfs.Load.{LoadWeight, update_inv_weight, shift_loop, calc_delta, prio_load}

-- What the loop keeps: the factor at its end fits 32 bits and, at its shift, is no more than the
-- factor that it began with.
record Shifted (fact shift : ℕ) (r : ℕ × ℕ) : Type 0 where
  small : r.0 < 2 ^ 32
  below : r.0 * 2 ^ shift ≤ fact * 2 ^ r.1
  shift_le : r.1 ≤ shift

two-mul-pow : (a s : ℕ) → a * 2 ^ suc s ≡ 2 * (a * 2 ^ s)
two-mul-pow a s = omega (arith, ap (λ (t : ℕ). a * t) (pow-suc 2 s))

mul_mono : (a b t : ℕ) → a ≤ b → a * t ≤ b * t
mul_mono a b t h = grind arith

half-mul : (a t : ℕ) → 2 * (a / 2 * t) ≤ a * t
half-mul a t = omega (arith, mul_mono (2 * (a / 2)) a t (omega arith))

Shifted-suc : (fact s : ℕ) (r : ℕ × ℕ) → Shifted (fact / 2) s r → Shifted fact (suc s) r
Shifted-suc fact s r h = record {
  small = h.small;
  below = omega (arith, two-mul-pow r.0 s, h.below, half-mul fact (2 ^ r.1));
  shift_le = omega (arith, h.shift_le);
}

shift_loop_lem :
    (fuel fact shift : ℕ)
    → fact < 2 ^ 32 * 2 ^ fuel
    → fuel ≤ shift
    → Shifted fact shift (shift_loop fuel fact shift)
unfolding shift_loop
shift_loop_lem zero fact shift h hs = record {
  small = omega arith;
  below = omega arith;
  shift_le = omega arith;
}
shift_loop_lem (suc fuel) fact zero h hs = absurd (omega arith)
shift_loop_lem (suc fuel) fact (suc s) h hs =
    let e : suc s - 1 ≡ s = omega arith in
    elim (Bool-cases (fact / 2 ^ 32 == 0)) [
      | inl done ↦
          rw done (record { small = ground arith; below = omega arith; shift_le = omega arith })
      | inr more ↦
          rw (more, e)
            (Shifted-suc fact s (shift_loop fuel (fact / 2) s)
              (shift_loop_lem fuel (fact / 2) s (omega (arith, pow-suc 2 fuel)) (omega arith)))
    ]

pow_pos : (s : ℕ) → 0 < 2 ^ s
pow_pos zero = omega arith
pow_pos (suc s) = omega (arith, pow-suc 2 s, pow_pos s)

pub cancel_mul : (a b t : ℕ) → 0 < t → a * t ≤ b * t → a ≤ b
cancel_mul a b t h le = grind arith

div-mul-le : (x t : ℕ) → 0 < t → x / t * t ≤ x
div-mul-le x t h = grind arith

-- Dividing by the shift brings the result under the share.
share_bound :
    (delta f fact s : ℕ) → f * 2 ^ 32 ≤ fact * 2 ^ s → delta * f / 2 ^ s * 2 ^ 32 ≤ delta * fact
share_bound delta f fact s h =
    cancel_mul (delta * f / 2 ^ s * 2 ^ 32) (delta * fact) (2 ^ s) (pow_pos s) (
      le_trans
        (let step : delta * f / 2 ^ s * 2 ^ 32 * 2 ^ s ≤ delta * f * 2 ^ 32 = omega (
          arith,
          mul_mono (delta * f / 2 ^ s * 2 ^ s) (delta * f) (2 ^ 32)
              (div-mul-le (delta * f) (2 ^ s) (pow_pos s)),
        ) in
          step)
        (let step : delta * f * 2 ^ 32 ≤ delta * fact * 2 ^ s =
            omega (arith, mul_mono (f * 2 ^ 32) (fact * 2 ^ s) delta h) in
          step))

-- The inverse that is filled in.
inv_bound :
    (lw : LoadWeight)
    → lw.inv_weight ≡ 0
    → 0 < lw.weight
    → lw.weight < 2 ^ 32
    → ((update_inv_weight lw).inv_weight * lw.weight < 2 ^ 32)
unfolding update_inv_weight
inv_bound lw e h h' = ground (arith)

mul_bound : (a b n m : ℕ) → a < n → b < m → a * b < n * m
mul_bound a b n m h k =
    omega (arith, mul_mono a n b (omega arith), mul_mono (b + 1) m n (omega arith))

share_chain :
    (result delta w inv weight : ℕ)
    → result * 2 ^ 32 ≤ delta * (w * inv)
    → inv * weight < 2 ^ 32
    → result * weight ≤ delta * w
share_chain result delta w inv weight h hi =
    cancel_mul (result * weight) (delta * w) (2 ^ 32) (omega arith) (
      omega (
        arith,
        mul_mono (result * 2 ^ 32) (delta * (w * inv)) weight h,
        mul_mono (inv * weight) (2 ^ 32) (delta * w) (omega arith),
      ))

-- `__calc_delta` with no inverse stored never gives more than the exact share, delta * weight /
-- load, for 32-bit operands and a load that is not 0: nothing overflows on the way, and every
-- rounding is downwards.
pub calc_delta-le-share :
    (delta w : ℕ) (lw : LoadWeight)
    → lw.inv_weight ≡ 0
    → 0 < lw.weight
    → lw.weight < 2 ^ 32
    → delta < 2 ^ 32
    → w < 2 ^ 32
    → (calc_delta delta w lw).0 * lw.weight ≤ delta * w
unfolding calc_delta
calc_delta-le-share delta w lw e h h' hd hw =
    let inv = (update_inv_weight lw).inv_weight in
    let hi = inv_bound lw e h h' in
    let small : inv < 2 ^ 32 = omega (arith, mul_mono 1 lw.weight inv (omega arith), hi) in
    let fact : u64 (u32 w * inv) ≡ w * inv = omega (
      arith,
      ap (λ (t : ℕ). t * inv) (let t : u32 w ≡ w = omega arith in t),
      mul_bound w inv (2 ^ 32) (2 ^ 32) hw small,
    ) in
    let l =
      shift_loop_lem 32 (w * inv) 32 (omega (arith, mul_bound w inv (2 ^ 32) (2 ^ 32) hw small))
        (omega arith) in
    let r = shift_loop 32 (w * inv) 32 in
    let wrap : u64 (delta * r.0) ≡ delta * r.0 =
      omega (arith, mul_bound delta r.0 (2 ^ 32) (2 ^ 32) hd l.small) in
    share_chain _ delta w inv lw.weight
      (rw (fact, wrap) (share_bound delta r.0 (w * inv) r.1 l.below)) hi

-- Inverse times weight, against 2 ^ 32.
abbrev IsNear : LoadWeight → Type 0
IsNear l =
    (l.inv_weight * l.weight < 2 ^ 32 + l.weight) × (2 ^ 32 < l.inv_weight * l.weight + l.weight)

-- Every entry of the two tables, by evaluation.
prio_entry : ℕ → Bool
unfolding prio_load
prio_entry k =
    let l = prio_load (100 + k) in
    let p = l.inv_weight * l.weight in ltb p (2 ^ 32 + l.weight) && ltb (2 ^ 32) (p + l.weight)

prio_table : holds_below prio_entry 40 ≡ true
unfolding holds_below prio_entry
prio_table = refl

and_parts : (a b : Bool) → (a && b) ≡ true → (a ≡ true) × (b ≡ true)
and_parts true b h = (refl, h)
and_parts false b h = cc

prio_entry-IsNear : (k : ℕ) → prio_entry k ≡ true → IsNear (prio_load (100 + k))
unfolding prio_entry
prio_entry-IsNear k h =
    let l = prio_load (100 + k) in
    let p = l.inv_weight * l.weight in
    let parts = and_parts (ltb p (2 ^ 32 + l.weight)) (ltb (2 ^ 32) (p + l.weight)) h in
    (ltb→lt _ _ parts.0, ltb→lt _ _ parts.1)

-- For each priority from 100 to 139 the stored inverse is less than one unit away from
-- 2 ^ 32 / weight, on either side.
pub prio_load-near :
    (priority : ℕ)
    → 100 ≤ priority
    → priority < 140
    → let l = prio_load priority in
      (l.inv_weight * l.weight < 2 ^ 32 + l.weight) × (2 ^ 32 < l.inv_weight * l.weight + l.weight)
prio_load-near priority lo hi =
    let e : 100 + (priority - 100) ≡ priority = omega arith in
    subst (λ p. IsNear (prio_load p)) e
      (prio_entry-IsNear (priority - 100)
        (from_table prio_entry prio_table (priority - 100) (omega arith)))
