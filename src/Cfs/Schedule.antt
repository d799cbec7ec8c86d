-- ===== src/Cfs/Schedule.antt =====
-- src/sched.c: initialisation, switching, and the timer tick.
pub mod Switch
use rpi_os_cfs_ext.Base.{
  ℕ, ◌+◌, ◌-◌, ◌%◌, ◌^◌, Bool, true, false, not, ◌&&◌, ◌||◌, Option, none, some, ◌==◌, ltb, leb,
  if◌then◌else◌, u64, Run, pure, ◌>>=◌, ◌>>◌, when,
}
use rpi_os_cfs_ext.Cfs.Load.{prio_load}
use rpi_os_cfs_ext.Cfs.State.{
  K, load_task, store_task, load_se, store_se, get_rq, set_rq, get_current, set_current, get_clock,
  resched_curr, test_tsk_need_resched, clear_tsk_need_resched, update_rq_clock, preempt_disable,
  preempt_enable, is_preemptible,
}
use rpi_os_cfs_ext.Rbtree.{Rb}
use rpi_os_cfs_ext.Cfs.Queue.{enqueue_entity, pick_next_entity, put_prev_entity, set_next_entity}
use rpi_os_cfs_ext.Cfs.Slice.{place_entity}
use rpi_os_cfs_ext.Cfs.Tick.{task_tick_fair}

-- `set_load_weight`
unfoldable pub set_load_weight : ℕ → K (Unit {0})
unfolding load_task store_task prio_load
set_load_weight p = do
  t ← load_task p
  store_task p (record t { se = record t.se { load = prio_load t.priority } })

-- `RB_ROOT_CACHED`
abbrev pub clear_timeline : K (Unit {0})
clear_timeline k = some (tt, record k { timeline = record k.timeline { root = 0; leftmost = 0 } })

-- `sched_init`; `init_task` is the current task.
unfoldable pub sched_init : K (Unit {0})
unfolding load_se store_se set_load_weight place_entity enqueue_entity
sched_init = do
  init_task ← get_current
  clock ← get_clock
  clear_timeline
  set_load_weight init_task
  set_rq (record {
    load = record { weight = 0; inv_weight = 0 };
    nr_running = 0;
    min_vruntime = 0;
    curr = init_task;
    clock_task = clock;
  })
  e ← load_se init_task
  store_se init_task (record e { exec_start = clock; vruntime = 0 })
  place_entity init_task
  enqueue_entity init_task

-- `pick_next_task_fair`, with NULL for no task
unfoldable pub pick_next_task_fair : ℕ → K ℕ
unfolding pick_next_entity put_prev_entity set_next_entity
pick_next_task_fair prev = do
  q ← get_rq
  if q.nr_running == 0
      then pure 0
      else do se ← pick_next_entity 0; put_prev_entity prev; set_next_entity se; pure se

-- `switch_to`, up to the change of the stacks; `next->mm.pgd` is read through `next`.
unfoldable pub switch_to : ℕ → K (Unit {0})
unfolding load_task
switch_to next = do
  current ← get_current
  if current == next then pure tt else do set_current next; _ ← load_task next; pure tt

-- `_schedule`
unfoldable pub schedule_task : K (Unit {0})
unfolding pick_next_task_fair clear_tsk_need_resched switch_to preempt_disable preempt_enable
schedule_task = do
  preempt_disable
  prev ← get_current
  next ← pick_next_task_fair prev
  clear_tsk_need_resched prev
  switch_to next
  preempt_enable

-- `schedule`
unfoldable pub schedule : K (Unit {0})
unfolding load_se store_se schedule_task
schedule = do
  current ← get_current
  q ← get_rq
  when (not (current == 0)) (do
    e ← load_se current
    store_se current (record e { vruntime = u64 (e.vruntime + q.min_vruntime) }))
  schedule_task

-- `timer_tick`
unfoldable pub timer_tick : K (Unit {0})
unfolding load_task test_tsk_need_resched update_rq_clock task_tick_fair schedule_task
timer_tick = do
  current ← get_current
  t ← load_task current
  if not (is_preemptible t) then pure tt else do
    update_rq_clock
    task_tick_fair current
    again ← test_tsk_need_resched current
    when again schedule_task
