-- ===== src/Cfs/Tick.antt =====
-- The timer tick and the fork hook of src/fair.c.
use rpi_os_cfs_ext.Base.{
  ℕ, not, ◌&&◌, ◌==◌, ltb, if◌then◌else◌, sub64, is_neg64, pure, ◌>>=◌, ◌>>◌, when,
}
use rpi_os_cfs_ext.Cfs.Load.{sysctl_sched_min_granularity}
use rpi_os_cfs_ext.Cfs.Vruntime.{entity_before}
use rpi_os_cfs_ext.Cfs.State.{
  K, load_task, load_se, store_se, get_rq, set_rq, get_current, rb_first_cached, resched_curr,
  update_rq_clock, is_preemptible,
}
use rpi_os_cfs_ext.Cfs.Queue.{update_curr, enqueue_entity}
use rpi_os_cfs_ext.Cfs.Slice.{sched_slice, place_entity}

-- `check_preempt_tick`; `__pick_first_entity` may give NULL, whose virtual run time faults.
unfoldable pub check_preempt_tick : ℕ → K (Unit {0})
unfolding load_se sched_slice resched_curr
check_preempt_tick curr = do
  q ← get_rq
  c ← load_se curr
  let (ideal_runtime, rq_load) = sched_slice q c
  set_rq (record q { load = rq_load })
  let delta_exec = sub64 c.sum_exec_runtime c.prev_sum_exec_runtime
  if ltb ideal_runtime delta_exec
      then resched_curr curr
      else if ltb delta_exec sysctl_sched_min_granularity
      then pure tt
      else do
        se ← rb_first_cached
        e ← load_se se
        let delta = sub64 c.vruntime e.vruntime
        when (not (is_neg64 delta) && ltb ideal_runtime delta) (resched_curr curr)

-- `entity_tick`
unfoldable pub entity_tick : ℕ → K (Unit {0})
unfolding load_task update_curr check_preempt_tick
entity_tick curr = do
  update_curr
  q ← get_rq
  p ← load_task curr
  when (ltb 1 q.nr_running && is_preemptible p) (check_preempt_tick curr)

-- `task_tick_fair`
unfoldable pub task_tick_fair : ℕ → K (Unit {0})
unfolding entity_tick
task_tick_fair curr = entity_tick curr

-- `swap(curr->vruntime, se->vruntime); resched_curr(curr);`
unfoldable pub run_child_first : (curr se : ℕ) → K (Unit {0})
unfolding load_se store_se resched_curr
run_child_first curr se = do
  c ← load_se curr
  e ← load_se se
  store_se curr (record c { vruntime = e.vruntime })
  store_se se (record e { vruntime = c.vruntime })
  resched_curr curr

-- `task_fork_fair`; `sysctl_sched_child_runs_first` is 1.
unfoldable pub task_fork_fair : ℕ → K (Unit {0})
unfolding load_task load_se store_se entity_before update_rq_clock update_curr place_entity
    enqueue_entity run_child_first
task_fork_fair se = do
  current ← get_current
  _ ← load_task current
  update_rq_clock
  q ← get_rq
  when (not (q.curr == 0)) (do
    update_curr
    c ← load_se q.curr
    e ← load_se se
    store_se se (record e { vruntime = c.vruntime }))
  place_entity se
  enqueue_entity se
  if q.curr == 0 then pure tt else do
    c ← load_se q.curr
    e ← load_se se
    when (entity_before c.vruntime e.vruntime) (run_child_first q.curr se)
