-- ===== src/Base/Bits.antt =====
-- Single bits of a byte: what `|= 1 << k`, `&= ~(1 << k)` and `& mask` do, by tables.
use Prim.Native.Nat.{ℕ, ◌+◌, ◌-◌, ◌*◌, ◌/◌, ◌%◌, ◌^◌, ◌<◌, bit_and, bit_or}
use mathlib.Core.Bool.{Bool, true, ◌&&◌}
use mathlib.Core.Path.{◌≡◌, refl}
use native.Mathlib.Omega.{arith}
use rpi_os_cfs_ext.Base.Bytes.{Bytes}
use rpi_os_cfs_ext.Base.Tables.{holds_below, from_table}
use rpi_os_cfs_ext.Base.Tests.{◌==◌, ltb, if◌then◌else◌, ==_iff, ltb→lt}

-- bit `k` of `x`
unfoldable pub bit_at : ℕ → ℕ → ℕ
bit_at x k = x / 2 ^ k % 2

pub bit_at-lt : (x k : ℕ) → bit_at x k < 2
unfolding bit_at
bit_at-lt x k = omega arith

-- Bit `n` of a bitmap.
abbrev pub bitmap_at : Bytes → ℕ → ℕ
bitmap_at b n = bit_at (b (n / 8)) (n % 8)

-- `x |= 0x01 << k` and `x &= ~(0x01 << k)` on a byte
unfoldable pub set_bit : ℕ → ℕ → ℕ
set_bit x k = bit_or x (2 ^ k)

unfoldable pub clear_bit : ℕ → ℕ → ℕ
clear_bit x k = bit_and x (255 - 2 ^ k)

-- A table over two bit indices and a byte.
table : (ℕ → ℕ → ℕ → Bool) → Bool
unfolding holds_below
table p = holds_below (λ j. holds_below (λ k. holds_below (p j k) 256) 8) 8

from_bytes :
    (p : ℕ → ℕ → ℕ → Bool) {j k x : ℕ} → table p ≡ true → j < 8 → k < 8 → x < 256 → p j k x ≡ true
unfolding table
from_bytes p {j = j} {k = k} {x = x} all hj hk hx =
    let rows = from_table (λ i. holds_below (λ i'. holds_below (p i i') 256) 8) all j hj in
    from_table (p j k) (from_table (λ i. holds_below (p j i) 256) rows k hk) x hx

mask_entry : ℕ → ℕ → ℕ → Bool
unfolding bit_at
mask_entry j k x = bit_and x (2 ^ k) == bit_at x k * 2 ^ k

mask_table : holds_below (λ k. holds_below (mask_entry 0 k) 256) 8 ≡ true
unfolding holds_below mask_entry
mask_table = refl

-- `x & (1 << k)` is the bit at its place.
pub bit_and_mask : (k x : ℕ) → k < 8 → x < 256 → bit_and x (2 ^ k) ≡ bit_at x k * 2 ^ k
unfolding mask_entry
bit_and_mask k x hk hx = (==_iff _ _).0 (
    from_table (mask_entry 0 k) (from_table (λ i. holds_below (mask_entry 0 i) 256) mask_table k hk)
      x hx)

set_entry : ℕ → ℕ → ℕ → Bool
unfolding bit_at set_bit
set_entry j k x =
    (bit_at (set_bit x k) j == (if j == k then 1 else bit_at x j)) && ltb (set_bit x k) 256

set_table : table set_entry ≡ true
unfolding table set_entry
set_table = refl

clear_entry : ℕ → ℕ → ℕ → Bool
unfolding bit_at clear_bit
clear_entry j k x =
    (bit_at (clear_bit x k) j == (if j == k then 0 else bit_at x j)) && ltb (clear_bit x k) 256

clear_table : table clear_entry ≡ true
unfolding table clear_entry
clear_table = refl

mask_step : ℕ → Bool
mask_step k = 2 ^ k * 2 % 256 == 2 ^ (k + 1)

mask_step_table : holds_below mask_step 7 ≡ true
unfolding holds_below mask_step
mask_step_table = refl

-- `mask <<= 1` on a BYTE moves to the next bit.
pub next_mask : (k : ℕ) → k < 7 → 2 ^ k * 2 % 256 ≡ 2 ^ (k + 1)
unfolding mask_step
next_mask k h = (==_iff _ _).0 (from_table mask_step mask_step_table k h)

pow_pos_entry : ℕ → Bool
pow_pos_entry k = ltb 0 (2 ^ k)

pow_pos_table : holds_below pow_pos_entry 8 ≡ true
unfolding holds_below pow_pos_entry
pow_pos_table = refl

pub pow_pos : (k : ℕ) → k < 8 → 0 < 2 ^ k
unfolding pow_pos_entry
pow_pos k h = ltb→lt _ _ (from_table pow_pos_entry pow_pos_table k h)

full_entry : ℕ → Bool
unfolding bit_at
full_entry k = bit_at 0xff k == 1

full_table : holds_below full_entry 8 ≡ true
unfolding holds_below full_entry
full_table = refl

pub bit_at-full : (k : ℕ) → k < 8 → bit_at 0xff k ≡ 1
unfolding full_entry
bit_at-full k h = (==_iff _ _).0 (from_table full_entry full_table k h)

module _ (x k j : ℕ) (hx : x < 256) (hk : k < 8) (hj : j < 8) where
  pub bit_at-set_bit :
      (bit_at (set_bit x k) j ≡ (if j == k then 1 else bit_at x j)) × (set_bit x k < 256)
  unfolding set_entry
  bit_at-set_bit = ground (arith, from_bytes set_entry set_table hj hk hx)

  pub bit_at-clear_bit :
      (bit_at (clear_bit x k) j ≡ (if j == k then 0 else bit_at x j)) × (clear_bit x k < 256)
  unfolding clear_entry
  bit_at-clear_bit = ground (arith, from_bytes clear_entry clear_table hj hk hx)
