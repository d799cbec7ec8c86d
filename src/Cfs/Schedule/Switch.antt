-- ===== src/Cfs/Schedule/Switch.antt =====
-- What `_schedule` of src/sched.c does when there is nothing to switch to.
use rpi_os_cfs_ext.Base.{
  ℕ, ◌≡◌, inl, inr, arith, false, none, some, ◌==◌, Bool-cases, u32, ◌+◌, update,
}
use rpi_os_cfs_ext.Cfs.State.{
  Kernel, load_task, store_task, preempt_disable, clear_tsk_need_resched,
}
use rpi_os_cfs_ext.Cfs.Schedule.{pick_next_task_fair, switch_to, schedule_task}

abbrev disabled : Kernel → Kernel
disabled k =
    let t = k.tasks k.current in
    record k {
      tasks = update k.tasks k.current (record t { preempt_count = u32 (t.preempt_count + 1) });
    }

preempt_disable_lem :
    (k : Kernel) → (k.current == 0) ≡ false → preempt_disable k ≡ some (tt, disabled k)
unfolding preempt_disable
preempt_disable_lem k z = rw (load_task, store_task, z)

abbrev cleared : Kernel → ℕ → Kernel
cleared k p = record k { tasks = update k.tasks p (record (k.tasks p) { ti_flags = 0 }) }

clear_lem :
    (k : Kernel) (p : ℕ) → (p == 0) ≡ false → clear_tsk_need_resched p k ≡ some (tt, cleared k p)
unfolding clear_tsk_need_resched
clear_lem k p z = rw (load_task, store_task, z)

switch_to_null : (k : Kernel) → (k.current == 0) ≡ false → switch_to 0 k ≡ none
unfolding switch_to load_task
switch_to_null k z = rw z

pick-empty : (k : Kernel) (p : ℕ) → k.rq.nr_running ≡ 0 → pick_next_task_fair p k ≡ some (0, k)
unfolding pick_next_task_fair
pick-empty k p e = elim (Bool-cases (k.rq.nr_running == 0)) [ inl z ↦ rw z | inr z ↦ ground arith ]

-- With an empty run queue `_schedule` faults, whatever task is current: `pick_next_task_fair`
-- gives NULL, and `switch_to` reads its page directory.
pub schedule_task-empty : (k : Kernel) → k.rq.nr_running ≡ 0 → schedule_task k ≡ none
unfolding schedule_task
schedule_task-empty k e = elim (Bool-cases (k.current == 0)) [
  | inl z ↦ rw (preempt_disable, load_task, z)
  | inr z ↦ rw (
    preempt_disable_lem k z,
    pick-empty (disabled k) k.current e,
    clear_lem (disabled k) k.current z,
    switch_to_null (cleared (disabled k) k.current) z,
  )
]
