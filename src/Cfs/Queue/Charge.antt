-- ===== src/Cfs/Queue/Charge.antt =====
-- What `update_curr` of src/fair.c charges to the running entity.
use rpi_os_cfs_ext.Base.{
  ℕ, ◌+◌, ◌^◌, ◌≤◌, ◌<◌, ◌≡◌, ◌≢◌, ◌⊎◌, inl, inr, arith, true, false, ◌||◌, Option, some, ◌==◌, u64,
  sub64, is_neg64, update, Bool-cases,
}
use rpi_os_cfs_ext.Cfs.Load.{calc_delta_fair}
use rpi_os_cfs_ext.Cfs.State.{Kernel, Entity, store_se, load_task, store_task}
use rpi_os_cfs_ext.Cfs.Queue.{update_min_vruntime, update_curr}
use rpi_os_cfs_ext.Cfs.Queue.Accounting.{AreWords, load_se-some}

-- The running entity's, and the time since it was last charged.
abbrev pub running : Kernel → Entity
running k = (k.tasks k.rq.curr).se

abbrev pub elapsed : Kernel → ℕ
elapsed k = sub64 k.rq.clock_task (running k).exec_start

-- Nothing runs, or the clock has not advanced: the difference is 0 or negative as an `s64`.
abbrev pub IsIdle : Kernel → Type 0
IsIdle k = (k.rq.curr ≡ 0) ⊎ (elapsed k ≡ 0) ⊎ (2 ^ 63 ≤ elapsed k)

-- A task runs and the clock has advanced.
abbrev pub IsCharging : Kernel → Type 0
IsCharging k = (k.rq.curr ≢ 0) × (0 < elapsed k) × (elapsed k < 2 ^ 63)

abbrev pub charged : Kernel → Entity
charged k =
    let r = calc_delta_fair (elapsed k) (running k).load in
    record (running k) {
      load = r.1;
      exec_start = k.rq.clock_task;
      sum_exec_runtime = u64 ((running k).sum_exec_runtime + elapsed k);
      vruntime = u64 ((running k).vruntime + r.0);
    }

abbrev pub with_charge : Kernel → Kernel
with_charge k = record k {
  tasks = update k.tasks k.rq.curr (record (k.tasks k.rq.curr) { se = charged k });
}

pub store_se-some :
    (p : ℕ) (e : Entity) (k : Kernel)
    → (p == 0) ≡ false
    → store_se p e k
      ≡ some (tt, record k { tasks = update k.tasks p (record (k.tasks p) { se = e }) })
unfolding store_se
store_se-some p e k h = rw (h, load_task, store_task)

pub AreWords-charge : (k : Kernel) → AreWords k → AreWords (with_charge k)
AreWords-charge k w = record {
  min_vruntime = w.min_vruntime;
  vruntime = λ p. ground (arith, w.vruntime p);
}

pub idle_lem :
    (k : Kernel)
    → (k.rq.curr ≡ 0) ⊎ ((is_neg64 (elapsed k) || (elapsed k == 0)) ≡ true)
    → update_curr k ≡ some (tt, k)
unfolding update_curr
idle_lem k (inl e) = rw e
idle_lem k (inr e) = elim (Bool-cases (k.rq.curr == 0)) [
  | inl z ↦ rw z
  | inr z ↦ rw (z, load_se-some k.rq.curr k z, e)
]

pub charge_lem :
    (k : Kernel)
    → (k.rq.curr == 0) ≡ false
    → (is_neg64 (elapsed k) || (elapsed k == 0)) ≡ false
    → {r : Option (Unit {0} × Kernel)} → update_min_vruntime (with_charge k) ≡ r
    → update_curr k ≡ r
unfolding update_curr
charge_lem k z e h =
    rw (z, load_se-some k.rq.curr k z, e, store_se-some k.rq.curr (charged k) k z) h
