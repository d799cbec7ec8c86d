-- ===== src/Tests/Scheduler.antt =====
-- The scheduler with one task of priority 119 running.
use rpi_os_cfs_ext.Base.{
  u64, ℕ, ◌+◌, ◌-◌, ◌*◌, ◌^◌, ◌≤◌, ◌<◌, ◌≡◌, ◌↔◌, refl, arith, true, none, some, [], ◌∷◌, sub64,
  update,
}
use rpi_os_cfs_ext.Cfs.Load.{LoadWeight, calc_delta, sched_period}
use rpi_os_cfs_ext.Cfs.Load.Share.{calc_delta-le-share}
use rpi_os_cfs_ext.Cfs.Vruntime.{entity_before, entity_before_iff}
use rpi_os_cfs_ext.Cfs.State.{Kernel, Entity}
use rpi_os_cfs_ext.Cfs.Queue.{account_entity_enqueue, account_entity_dequeue, update_min_vruntime}
use rpi_os_cfs_ext.Cfs.Queue.Accounting.{
  AreWords, account_entity_dequeue-enqueue, update_min_vruntime_lem,
}
use rpi_os_cfs_ext.Cfs.Slice.{place_entity}
use rpi_os_cfs_ext.Cfs.Slice.Place.{vslice_of, place_entity_lem}
use rpi_os_cfs_ext.Cfs.Slice.Total.{total_slice, total_slice-le-period}
use rpi_os_cfs_ext.Cfs.Schedule.{schedule_task}
use rpi_os_cfs_ext.Cfs.Schedule.Switch.{schedule_task-empty}

abbrev weight : LoadWeight
weight = record { weight = 1277; inv_weight = 0 }

abbrev entity : Entity
entity = record {
  load = weight;
  on_rq = 1;
  exec_start = 3;
  sum_exec_runtime = 50;
  vruntime = 40;
  prev_sum_exec_runtime = 0;
}

abbrev one_task : Kernel
one_task = record {
  rq = record { load = weight; nr_running = 1; min_vruntime = 30; curr = 64; clock_task = 10 };
  timeline = record {
    nodes = λ _. record { parent_color = 0; right = 0; left = 0 };
    root = 0;
    leftmost = 0;
  };
  tasks = λ _. record { ti_flags = 0; preempt_count = 0; priority = 119; se = entity };
  current = 64;
  clock = 10;
  fuel = 8;
}

one_task-AreWords : AreWords one_task
one_task-AreWords = record { min_vruntime = omega arith; vruntime = λ p. omega arith }

update_min_vruntime_lem_example :
    (v : ℕ) × (update_min_vruntime one_task
      ≡ some (tt, record one_task { rq = record one_task.rq { min_vruntime = v } }))
    × (sub64 v 30 < 2 ^ 63)
update_min_vruntime_lem_example = update_min_vruntime_lem one_task one_task-AreWords

account_entity_dequeue-enqueue_example :
    account_entity_dequeue (account_entity_enqueue one_task.rq weight) weight ≡ one_task.rq
account_entity_dequeue-enqueue_example =
    account_entity_dequeue-enqueue one_task.rq weight (omega arith) (omega arith) (omega arith)

calc_delta-le-share_example : (calc_delta 64 1024 weight).0 * 1277 ≤ 65536
calc_delta-le-share_example =
    calc_delta-le-share 64 1024 weight refl (omega arith) (omega arith) (omega arith) (omega arith)

total_slice-le-period_example : total_slice one_task.rq (entity ∷ []) ≤ 64
unfolding sched_period
total_slice-le-period_example =
    total_slice-le-period one_task.rq refl (omega arith) (omega arith) (omega arith) (entity ∷ [])
      (omega arith, tt) refl

-- The second virtual run time has wrapped.
entity_before_iff_example : (entity_before (2 ^ 64 - 1) 5 ≡ true) ↔ (9 < 15)
entity_before_iff_example =
    entity_before_iff (2 ^ 64 - 10) (omega arith) (2 ^ 64 - 1) 5 (omega arith) (omega arith)

abbrev no_task : Kernel
no_task = record one_task { rq = record one_task.rq { nr_running = 0 } }

schedule_task-empty_example : schedule_task no_task ≡ none
schedule_task-empty_example = schedule_task-empty no_task refl

place_entity_lem_example :
    (v : ℕ) × (own load : LoadWeight) × (place_entity 128 one_task
      ≡ some (
        tt,
        record one_task {
          rq = record one_task.rq { load = load };
          tasks =
              update one_task.tasks 128
                (record (one_task.tasks 128) { se = record entity { load = own; vruntime = v } });
        },
      ))
    × (sub64 v 40 < 2 ^ 63)
    × (sub64 (u64 (30 + vslice_of one_task 128)) 40 < 2 ^ 63
        → v ≡ u64 (30 + vslice_of one_task 128))
place_entity_lem_example = place_entity_lem one_task 128 one_task-AreWords (omega arith)
