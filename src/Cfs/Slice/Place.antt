-- ===== src/Cfs/Slice/Place.antt =====
-- Where `place_entity` of src/fair.c puts a new entity.
use rpi_os_cfs_ext.Base.{ℕ, ◌+◌, ◌^◌, ◌<◌, ◌≡◌, ◌≢◌, arith, false, some, ◌==◌, u64, sub64, update}
use rpi_os_cfs_ext.Cfs.Load.{LoadWeight}
use rpi_os_cfs_ext.Cfs.Vruntime.{max_vruntime, max_vruntime-advances}
use rpi_os_cfs_ext.Cfs.State.{Kernel, Entity}
use rpi_os_cfs_ext.Cfs.Slice.{sched_vslice, place_entity}
use rpi_os_cfs_ext.Cfs.Queue.Accounting.{AreWords, load_se-some}
use rpi_os_cfs_ext.Cfs.Queue.Charge.{store_se-some}

-- The entity at `se`, and its virtual slice.
abbrev pub entity_at : Kernel → ℕ → Entity
entity_at k se = (k.tasks se).se

abbrev pub vslice_of : Kernel → ℕ → ℕ
vslice_of k se = (sched_vslice k.rq (entity_at k se)).0

abbrev placed : Kernel → ℕ → Entity
placed k se =
    let r = sched_vslice k.rq (entity_at k se) in
    record (entity_at k se) {
      load = r.2;
      vruntime = max_vruntime (entity_at k se).vruntime (u64 (k.rq.min_vruntime + r.0));
    }

place_entity-eq :
    (k : Kernel) (se : ℕ)
    → (se == 0) ≡ false
    → place_entity se k
      ≡ some (
        tt,
        record k {
          rq = record k.rq { load = (sched_vslice k.rq (entity_at k se)).1 };
          tasks = update k.tasks se (record (k.tasks se) { se = placed k se });
        },
      )
unfolding place_entity
place_entity-eq k se z =
    let k' = record k { rq = record k.rq { load = (sched_vslice k.rq (entity_at k se)).1 } } in
    rw (load_se-some se k z, store_se-some se (placed k se) k' z)

-- The later of two words is not behind either, if the second is less than half the clock after
-- the first.
latest : (a v : ℕ) → a < 2 ^ 64 → v < 2 ^ 64 → sub64 v a < 2 ^ 63 → max_vruntime a v ≡ v
unfolding max_vruntime
latest a v ha hv h = ground arith

-- `place_entity` of any task ends. Of the entities it changes this one alone, its load and its
-- virtual run time, and of the queue the load; the virtual run time does not move back; and an
-- entity that is behind the queue's clock plus its own virtual slice is put exactly there.
pub place_entity_lem :
    (k : Kernel) (se : ℕ)
    → AreWords k
    → se ≢ 0
    → (v : ℕ) × (own load : LoadWeight) × (place_entity se k
        ≡ some (
          tt,
          record k {
            rq = record k.rq { load = load };
            tasks =
                update k.tasks se (record (k.tasks se) {
                  se = record (entity_at k se) { load = own; vruntime = v };
                });
          },
        ))
      × (sub64 v (entity_at k se).vruntime < 2 ^ 63)
      × (sub64 (u64 (k.rq.min_vruntime + vslice_of k se)) (entity_at k se).vruntime < 2 ^ 63
          → v ≡ u64 (k.rq.min_vruntime + vslice_of k se))
place_entity_lem k se w h =
    let target = u64 (k.rq.min_vruntime + vslice_of k se) in
    (
      (placed k se).vruntime,
      (placed k se).load,
      (sched_vslice k.rq (entity_at k se)).1,
      place_entity-eq k se (ground (arith, h)),
      max_vruntime-advances (entity_at k se).vruntime target (w.vruntime se) (omega arith),
      latest (entity_at k se).vruntime target (w.vruntime se) (omega arith),
    )
