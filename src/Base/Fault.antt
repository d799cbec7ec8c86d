-- ===== src/Base/Fault.antt =====
-- State with faults: `none` is a read or write through a null or bad pointer.
use mathlib.Core.Option.{Option, none, some}
use mathlib.Core.Bool.{Bool, true, false}

abbrev pub Run : Type 0 → Type 0 → Type 0
Run S A = S → Option (A × S)

abbrev pub pure : {S A : Type 0} → A → Run S A
pure a s = some (a, s)

abbrev pub fault : {S A : Type 0} → Run S A
fault s = none

abbrev pub and_then : {S A B : Type 0} → Option (A × S) → (A → Run S B) → Option (B × S)
and_then none f = none
and_then (some (a, s)) f = f a s

infixl 5 ◌>>=◌ ◌>>◌
abbrev pub ◌>>=◌ : {S A B : Type 0} → Run S A → (A → Run S B) → Run S B
◌>>=◌ m f s = and_then (m s) f

abbrev pub ◌>>◌ : {S B : Type 0} → Run S (Unit {0}) → Run S B → Run S B
m >> k = m >>= λ _. k

-- `if(b) m;`
abbrev pub when : {S : Type 0} → Bool → Run S (Unit {0}) → Run S (Unit {0})
when true m = m
when false m = pure tt
