-- ===== src/Str/Length.antt =====
-- `strlen`, and what a string is.
use rpi_os_cfs_ext.Base.{ℕ, zero, suc, ◌+◌, ◌≤◌, ◌<◌, ◌≡◌, ◌≢◌, arith, some}
use rpi_os_cfs_ext.Base.Bytes.{Bytes}
use rpi_os_cfs_ext.Str.{strlen}

-- The first NUL of the buffer is at `n`.
pub record IsString (s : Bytes) (n : ℕ) : Type 0 where
  pub ends : s n ≡ 0
  pub inside : (i : ℕ) → i < n → s i ≢ 0

strlen_from :
    (fuel i n : ℕ) (s : Bytes) → IsString s n → i ≤ n → n < i + fuel → strlen fuel i s ≡ some n
unfolding strlen
strlen_from zero i n s h lo hi = absurd (omega arith)
strlen_from (suc fuel) i n s h lo hi =
    ground (arith, h.ends, h.inside i, strlen_from fuel (i + 1) n s h)

-- On a string of length `n`, `strlen` returns `n` within `n + 1` rounds.
pub strlen_lem : (fuel n : ℕ) (s : Bytes) → IsString s n → n < fuel → strlen fuel 0 s ≡ some n
strlen_lem fuel n s h hf = strlen_from fuel 0 n s h (omega arith) (omega arith)
