-- ===== src/Cfs/Queue/Accounting.antt =====
-- The load and the length of the queue, and the queue's clock.
use rpi_os_cfs_ext.Base.{
  ℕ, ◌^◌, ◌<◌, ◌≡◌, inl, inr, arith, false, Option, none, some, ◌==◌, if◌then◌else◌, sub64,
  Bool-cases,
}
use mathlib.Core.Option
use rpi_os_cfs_ext.Cfs.Load.{LoadWeight}
use rpi_os_cfs_ext.Cfs.Vruntime.{max_vruntime, min_vruntime, max_vruntime-advances}
use rpi_os_cfs_ext.Cfs.State.{Kernel, CfsRq, load_task, load_se}
use rpi_os_cfs_ext.Cfs.Queue.{
  account_entity_enqueue, account_entity_dequeue, curr_vruntime, next_vruntime, update_min_vruntime,
}

-- Taking an entity's load off the queue undoes putting it on: the weight and the number of
-- entities are as before, also where they wrapped, and no inverse is stored.
pub account_entity_dequeue-enqueue :
    (q : CfsRq) (load : LoadWeight)
    → q.load.weight < 2 ^ 64
    → load.weight < 2 ^ 64
    → q.nr_running < 2 ^ 32
    → account_entity_dequeue (account_entity_enqueue q load) load
      ≡ record q { load = record { weight = q.load.weight; inv_weight = 0 } }
unfolding account_entity_enqueue account_entity_dequeue
account_entity_dequeue-enqueue q load h h' hn = ground arith

-- Every virtual run time and the queue's own is a 64-bit word.
pub record AreWords (k : Kernel) : Type 0 where
  pub min_vruntime : k.rq.min_vruntime < 2 ^ 64
  pub vruntime : (p : ℕ) → (k.tasks p).se.vruntime < 2 ^ 64

-- The virtual run time of the current entity, and the one that `update_min_vruntime` moves to.
abbrev curr_of : Kernel → Option ℕ
curr_of k =
    let e = (k.tasks k.rq.curr).se in
    if k.rq.curr == 0 then none else if e.on_rq == 0 then none else some e.vruntime

target : Kernel → Option ℕ → ℕ
target k curr =
    let first = (k.tasks k.timeline.leftmost).se.vruntime in
    if k.timeline.leftmost == 0
    then Option.get_or curr k.rq.min_vruntime
    else elim curr [ none ↦ first | some v ↦ min_vruntime v first ]

pub load_se-some : (p : ℕ) (k : Kernel) → (p == 0) ≡ false → load_se p k ≡ some ((k.tasks p).se, k)
unfolding load_se
load_se-some p k e = rw (e, load_task)

curr_vruntime_lem : (k : Kernel) → curr_vruntime k.rq.curr k ≡ some (curr_of k, k)
unfolding curr_vruntime
curr_vruntime_lem k = elim (Bool-cases (k.rq.curr == 0)) [
  | inl e ↦ rw e
  | inr e ↦ rw (e, load_se-some k.rq.curr k e)
]

next_vruntime_lem :
    (k : Kernel) (curr : Option ℕ)
    → next_vruntime k.rq.min_vruntime curr k.timeline.leftmost k ≡ some (target k curr, k)
unfolding next_vruntime target
next_vruntime_lem k curr = elim (Bool-cases (k.timeline.leftmost == 0)) [
  | inl e ↦ rw e
  | inr e ↦ rw (e, load_se-some k.timeline.leftmost k e)
]

abbrev with_min : Kernel → ℕ → Kernel
with_min k v = record k { rq = record k.rq { min_vruntime = v } }

update_min_vruntime-eq :
    (k : Kernel)
    → update_min_vruntime k
      ≡ some (tt, with_min k (max_vruntime k.rq.min_vruntime (target k (curr_of k))))
unfolding update_min_vruntime
update_min_vruntime-eq k = rw (curr_vruntime_lem k, next_vruntime_lem k (curr_of k))

target-lt : (k : Kernel) → AreWords k → target k (curr_of k) < 2 ^ 64
unfolding target min_vruntime
target-lt k w = ground (arith, w.min_vruntime, w.vruntime k.rq.curr, w.vruntime k.timeline.leftmost)

-- `update_min_vruntime` ends on every kernel whose virtual run times are words, changes nothing
-- but the queue's own clock, and does not move it back.
pub update_min_vruntime_lem :
    (k : Kernel)
    → AreWords k
    → (v : ℕ) × (update_min_vruntime k
        ≡ some (tt, record k { rq = record k.rq { min_vruntime = v } }))
      × (sub64 v k.rq.min_vruntime < 2 ^ 63)
update_min_vruntime_lem k w = (
  max_vruntime k.rq.min_vruntime (target k (curr_of k)),
  update_min_vruntime-eq k,
  max_vruntime-advances k.rq.min_vruntime (target k (curr_of k)) w.min_vruntime (target-lt k w),
)
