-- ===== src/Cfs/Slice.antt =====
-- Time slices and the placing of entities in src/fair.c.
pub mod Total
pub mod Place
use rpi_os_cfs_ext.Base.{
  ℕ, ◌+◌, ◌-◌, ◌%◌, ◌^◌, Bool, true, false, not, Option, none, some, ◌==◌, if◌then◌else◌, u32, u64,
  Run, pure, ◌>>=◌, ◌>>◌,
}
use rpi_os_cfs_ext.Cfs.Load.{LoadWeight, update_load_add, calc_delta, calc_delta_fair, sched_period}
use rpi_os_cfs_ext.Cfs.Vruntime.{max_vruntime}
use rpi_os_cfs_ext.Cfs.State.{K, Entity, CfsRq, load_se, store_se, get_rq, set_rq}

-- `sched_slice`: the slice, and the queue's load with its inverse filled in. An entity that is
-- off the queue is counted in on a copy.
unfoldable pub sched_slice : CfsRq → Entity → ℕ × LoadWeight
unfolding update_load_add
sched_slice q e =
    let slice = sched_period (u32 (q.nr_running + (if e.on_rq == 0 then 1 else 0))) in
    if e.on_rq == 0
    then ((calc_delta slice e.load.weight (update_load_add q.load e.load.weight)).0, q.load)
    else calc_delta slice e.load.weight q.load

-- `sched_vslice`: the virtual slice, the queue's load and the entity's.
unfoldable pub sched_vslice : CfsRq → Entity → ℕ × LoadWeight × LoadWeight
unfolding sched_slice
sched_vslice q e =
    let (slice, rq_load) = sched_slice q e in
    let (vslice, se_load) = calc_delta_fair slice e.load in (vslice, rq_load, se_load)

-- `place_entity`
unfoldable pub place_entity : ℕ → K (Unit {0})
unfolding load_se store_se sched_vslice max_vruntime
place_entity se = do
  q ← get_rq
  e ← load_se se
  let (vslice, rq_load, se_load) = sched_vslice q e
  set_rq (record q { load = rq_load })
  store_se se (record e {
    load = se_load;
    vruntime = max_vruntime e.vruntime (u64 (q.min_vruntime + vslice));
  })
