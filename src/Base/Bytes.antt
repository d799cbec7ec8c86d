-- ===== src/Base/Bytes.antt =====
-- Memory as a function from offsets to bytes; little-endian fields of packed C structures.
use Prim.Native.Nat.{ℕ, ◌+◌, ◌-◌, ◌*◌, ◌/◌, ◌%◌, ◌^◌, ◌≤◌, ◌<◌}
use mathlib.Core.Bool.{◌&&◌}
use mathlib.Core.Logic.{◌⊎◌}
use mathlib.Core.Path.{◌≡◌, ap}
use native.Mathlib.Omega.{arith}
use rpi_os_cfs_ext.Base.Tests.{leb, ltb, ◌==◌, if◌then◌else◌}

abbrev pub Bytes : Type 0
Bytes = ℕ → ℕ

-- A buffer after `ZeroMemory`.
abbrev pub zeros : Bytes
zeros a = 0

-- `b + o`: the buffer that begins at offset `o`.
abbrev pub from : Bytes → ℕ → Bytes
from b o a = b (o + a)

-- `memcpy(dst + o, src, n)`
unfoldable pub memcpy : Bytes → ℕ → Bytes → ℕ → Bytes
memcpy dst o src n a = if leb o a && ltb a (o + n) then src (a - o) else dst a

abbrev pub u16_at : Bytes → ℕ → ℕ
u16_at b o = b o + 256 * b (o + 1)

abbrev pub u32_at : Bytes → ℕ → ℕ
u32_at b o = b o + 256 * b (o + 1) + 65536 * b (o + 2) + 16777216 * b (o + 3)

unfoldable pub put8 : Bytes → ℕ → ℕ → Bytes
put8 b o v a = if a == o then v % 256 else b a

unfoldable pub put16 : Bytes → ℕ → ℕ → Bytes
put16 b o v a = if a == o then v % 256 else if a == o + 1 then v / 256 % 256 else b a

unfoldable pub put32 : Bytes → ℕ → ℕ → Bytes
put32 b o v a =
    if a == o
    then v % 256
    else if a == o + 1
    then v / 256 % 256
    else if a == o + 2
    then v / 65536 % 256
    else if a == o + 3
    then v / 16777216 % 256
    else b a

pub u16_at-put16 : (b : Bytes) (o v : ℕ) → u16_at (put16 b o v) o ≡ v % 2 ^ 16
unfolding put16
u16_at-put16 b o v = ground arith

pub u32_at-put32 : (b : Bytes) (o v : ℕ) → u32_at (put32 b o v) o ≡ v % 2 ^ 32
unfolding put32
u32_at-put32 b o v = ground arith

-- A byte outside the field stays.
pub put32_outside : (b : Bytes) (o v a : ℕ) → (a < o) ⊎ (o + 4 ≤ a) → put32 b o v a ≡ b a
unfolding put32
put32_outside b o v a h = ground arith

pub put16_outside : (b : Bytes) (o v a : ℕ) → (a < o) ⊎ (o + 2 ≤ a) → put16 b o v a ≡ b a
unfolding put16
put16_outside b o v a h = ground arith

pub memcpy_inside : (d : Bytes) (o : ℕ) (s : Bytes) (n a : ℕ) → a < n → memcpy d o s n (o + a) ≡ s a
unfolding memcpy
memcpy_inside d o s n a h = ground (arith, sub-add o a)
  where
    sub-add : (o a : ℕ) → s (o + a - o) ≡ s a
    sub-add o a = rw (let e : o + a - o ≡ a = omega arith in e)

pub memcpy_outside :
    (d : Bytes) (o : ℕ) (s : Bytes) (n a : ℕ) → (a < o) ⊎ (o + n ≤ a) → memcpy d o s n a ≡ d a
unfolding memcpy
memcpy_outside d o s n a h = ground arith

-- A field depends on its four bytes only.
pub u32_at-cong :
    (b c : Bytes) (o : ℕ) → ((a : ℕ) → o ≤ a → a < o + 4 → b a ≡ c a) → u32_at b o ≡ u32_at c o
u32_at-cong b c o h = omega (
  arith,
  h o (omega arith) (omega arith),
  h (o + 1) (omega arith) (omega arith),
  h (o + 2) (omega arith) (omega arith),
  h (o + 3) (omega arith) (omega arith),
)

pub memcpy_first : (d s : Bytes) (n a : ℕ) → a < n → memcpy d 0 s n a ≡ s a
unfolding memcpy
memcpy_first d s n a h = ground (arith, let e : s (a - 0) ≡ s a = ap s (omega arith) in e)
