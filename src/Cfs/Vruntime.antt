-- ===== src/Cfs/Vruntime.antt =====
-- Comparisons of virtual run times on a clock that wraps, in src/fair.c.
use rpi_os_cfs_ext.Base.{
  ℕ, ◌^◌, ◌≤◌, ◌<◌, ◌≡◌, ◌↔◌, arith, Bool, true, not, ◌&&◌, ◌==◌, if◌then◌else◌, sub64, is_neg64,
}

-- `max_vruntime` and `min_vruntime`; a difference is positive if it is neither negative nor 0.
unfoldable pub max_vruntime : ℕ → ℕ → ℕ
max_vruntime a v =
    let delta = sub64 v a in if not (is_neg64 delta) && not (delta == 0) then v else a

unfoldable pub min_vruntime : ℕ → ℕ → ℕ
min_vruntime a v = let delta = sub64 v a in if is_neg64 delta then v else a

-- `entity_before` on the two virtual run times
unfoldable pub entity_before : ℕ → ℕ → Bool
entity_before a b = is_neg64 (sub64 a b)

-- A virtual run time that lies less than half the clock after `base`.
abbrev pub IsWithin : ℕ → ℕ → Type 0
IsWithin base v = (v < 2 ^ 64) × (sub64 v base < 2 ^ 63)

module _ (base : ℕ) (hb : base < 2 ^ 64) where
  -- Among virtual run times less than half the clock after a common base, `entity_before` is the
  -- order of their distances from the base, whether or not the clock has wrapped between them.
  pub entity_before_iff :
      (a b : ℕ)
      → IsWithin base a
      → IsWithin base b
      → (entity_before a b ≡ true) ↔ (sub64 a base < sub64 b base)
  unfolding entity_before
  entity_before_iff a b ha hb' = ground arith

  -- Of two virtual run times less than half the clock after a common base, `max_vruntime` gives
  -- the one farther from the base and `min_vruntime` the other.
  pub max_min_vruntime :
      (a b : ℕ)
      → IsWithin base a
      → IsWithin base b
      → (sub64 a base ≤ sub64 b base → (max_vruntime a b ≡ b) × (min_vruntime a b ≡ a))
        × (sub64 b base ≤ sub64 a base → (max_vruntime a b ≡ a) × (min_vruntime a b ≡ b))
  unfolding max_vruntime min_vruntime
  max_min_vruntime a b ha hb' = ground arith

-- `max_vruntime` never moves its first argument back.
pub max_vruntime-advances :
    (a v : ℕ) → a < 2 ^ 64 → v < 2 ^ 64 → sub64 (max_vruntime a v) a < 2 ^ 63
unfolding max_vruntime
max_vruntime-advances a v ha hv = ground arith
