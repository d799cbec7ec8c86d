-- ===== src/Base/Tables.antt =====
-- Facts about small numbers, decided by running a test on each of them.
use Prim.Native.Nat.{ℕ, zero, suc, ◌<◌}
use mathlib.Core.Bool.{Bool, true, false}
use mathlib.Core.Path.{◌≡◌}
use native.Mathlib.Omega.{arith}
use rpi_os_cfs_ext.Base.Tests.{if◌then◌else◌}

module _ (test : ℕ → Bool) where
  unfoldable pub holds_below : ℕ → Bool
  holds_below zero = true
  holds_below (suc n) = if test n then holds_below n else false

  run_table : (n : ℕ) → holds_below n ≡ true → (k : ℕ) → k < n → test k ≡ true
  unfolding holds_below
  run_table zero table k h = absurd (omega arith)
  run_table (suc n) table k h = ground (arith, run_table n (ground arith) k)

  pub from_table : {n : ℕ} → holds_below n ≡ true → (k : ℕ) → k < n → test k ≡ true
  from_table {n = n} table k h = run_table n table k h
