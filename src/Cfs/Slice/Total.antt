-- ===== src/Cfs/Slice/Total.antt =====
-- The slices of the entities on the queue fit into the scheduling period.
use rpi_os_cfs_ext.Base.{ℕ, ◌+◌, ◌*◌, ◌^◌, ◌≤◌, ◌<◌, ◌≡◌, ◌≢◌, arith, subst, List, [], ◌∷◌}
use rpi_os_cfs_ext.Cfs.Load.{sched_period, calc_delta}
use rpi_os_cfs_ext.Cfs.Load.Share.{calc_delta-le-share, cancel_mul}
use rpi_os_cfs_ext.Cfs.State.{Entity, CfsRq}
use rpi_os_cfs_ext.Cfs.Slice.{sched_slice}

-- The weights of a list of entities, and their slices, added up.
abbrev pub total_weight : List Entity → ℕ
total_weight [] = 0
total_weight (e ∷ es) = e.load.weight + total_weight es

abbrev pub total_slice : CfsRq → List Entity → ℕ
total_slice q [] = 0
total_slice q (e ∷ es) = (sched_slice q e).0 + total_slice q es

abbrev pub AllQueued : List Entity → Type 0
AllQueued [] = Unit
AllQueued (e ∷ es) = (e.on_rq ≢ 0) × AllQueued es

sched_slice-queued :
    (q : CfsRq) (e : Entity)
    → e.on_rq ≢ 0
    → q.nr_running < 2 ^ 28
    → (sched_slice q e).0 ≡ (calc_delta (sched_period q.nr_running) e.load.weight q.load).0
unfolding sched_slice
sched_slice-queued q e h small = ground arith

sched_period-lt : (n : ℕ) → n < 2 ^ 28 → sched_period n < 2 ^ 32
unfolding sched_period
sched_period-lt n h = ground arith

add_shares :
    (s t load period w ws : ℕ)
    → s * load ≤ period * w
    → t * load ≤ period * ws
    → (s + t) * load ≤ period * (w + ws)
add_shares s t load period w ws h k = omega arith

module _ (q : CfsRq) (fresh : q.load.inv_weight ≡ 0) (pos : 0 < q.load.weight)
    (small : q.load.weight < 2 ^ 32) (few : q.nr_running < 2 ^ 28) where
  total_slice_share :
      (es : List Entity)
      → AllQueued es
      → total_weight es ≤ q.load.weight
      → total_slice q es * q.load.weight ≤ sched_period q.nr_running * total_weight es
  total_slice_share [] h le = omega arith
  total_slice_share (e ∷ es) h le =
      add_shares (sched_slice q e).0 (total_slice q es) q.load.weight (sched_period q.nr_running)
        e.load.weight (total_weight es)
        (rw (sched_slice-queued q e h.0 few) (
          calc_delta-le-share (sched_period q.nr_running) e.load.weight q.load fresh pos small
            (sched_period-lt q.nr_running few) (omega arith)))
        (total_slice_share es h.1 (omega arith))

  -- If the entities are on the queue, fewer than 2 ^ 28 are counted, and their weights add up to the
  -- queue's load, which is positive, less than 2 ^ 32, and has no inverse stored yet, then their
  -- slices together are no longer than the scheduling period.
  pub total_slice-le-period :
      (es : List Entity)
      → AllQueued es
      → total_weight es ≡ q.load.weight
      → total_slice q es ≤ sched_period q.nr_running
  total_slice-le-period es h e =
      cancel_mul (total_slice q es) (sched_period q.nr_running) q.load.weight pos (
        subst (λ w. total_slice q es * q.load.weight ≤ sched_period q.nr_running * w) e
          (total_slice_share es h (omega arith)))
