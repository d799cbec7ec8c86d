-- ===== src/Cfs/Timeline/SetNext.antt =====
-- `set_next_entity` of src/fair.c on a timeline.
use rpi_os_cfs_ext.Base.{
  ℕ, ◌<◌, ◌≡◌, ◌≢◌, inl, inr, refl, arith, false, some, ◌==◌, sub64, List, ◌∷◌, length, ap, sym,
  subst, update, Bool-cases,
}
use std.Path.{fun_ext}
use rpi_os_cfs_ext.Base.Ordered.{All, IsOrdered}
use rpi_os_cfs_ext.Rbtree.{Rb}
use rpi_os_cfs_ext.Cfs.Vruntime.{IsWithin}
use rpi_os_cfs_ext.Cfs.State.{Kernel, Task}
use rpi_os_cfs_ext.Cfs.Queue.{erase_entity, set_next_entity}
use rpi_os_cfs_ext.Cfs.Queue.Accounting.{load_se-some}
use rpi_os_cfs_ext.Cfs.Queue.Charge.{store_se-some}
use rpi_os_cfs_ext.Cfs.Timeline.{vruntime_of, IsTimeline}
use rpi_os_cfs_ext.Cfs.Timeline.Dequeue.{erase_entity-IsTimeline}
use rpi_os_cfs_ext.Cfs.Timeline.Pick.{not_zero}

-- The task with its entity started now.
abbrev pub started : Kernel → ℕ → Task
started k x =
    let e = (k.tasks x).se in
    record (k.tasks x) {
      se = record e { exec_start = k.rq.clock_task; prev_sum_exec_runtime = e.sum_exec_runtime };
    }

-- The kernel with `x` running, started now, and the tree `t`.
abbrev pub running_next : Kernel → ℕ → Rb → Kernel
running_next k x t = record k {
  timeline = t;
  rq = record k.rq { curr = x };
  tasks = update k.tasks x (started k x);
}

-- Starting a task leaves the virtual run times.
started-vruntime :
    (k : Kernel) (x p : ℕ) → (update k.tasks x (started k x) p).se.vruntime ≡ vruntime_of k p
started-vruntime k x p = elim (Bool-cases (p == x)) [
  | inl e ↦ rw e (ap (vruntime_of k) (ground (arith, e)))
  | inr e ↦ rw e refl
]

running_next-IsTimeline :
    (k : Kernel) (base x : ℕ) (xs : List ℕ) (t : Rb)
    → IsTimeline (record k { timeline = t }) base xs
    → IsTimeline (running_next k x t) base xs
running_next-IsTimeline k base x xs t q =
    let same = sym (fun_ext (started-vruntime k x)) in
    record {
      tree = q.tree;
      focus = q.focus;
      order = q.order;
      red_black = q.red_black;
      sorted = subst (λ (v : ℕ → ℕ). IsOrdered (λ p. sub64 (v p) base) xs) same q.sorted;
      within = subst (λ (v : ℕ → ℕ). All (λ p. IsWithin base (v p)) xs) same q.within;
      first = q.first;
    }

set_next_run :
    (k : Kernel) (x : ℕ) (t : Rb)
    → (x == 0) ≡ false
    → ((k.tasks x).se.on_rq == 0) ≡ false
    → erase_entity x k ≡ some (tt, record k { timeline = t })
    → set_next_entity x k ≡ some (tt, running_next k x t)
unfolding set_next_entity
set_next_run k x t hx on erase =
    rw
      (
        load_se-some x k hx,
        on,
        erase,
        store_se-some x (started k x).se (record k { timeline = t; rq = record k.rq { curr = x } })
            hx,
      )
      refl

-- `set_next_entity` of the first task of a timeline, with more fuel than tasks behind it, makes it
-- the running one, started now; the others are the timeline.
pub set_next_entity-IsTimeline :
    (k : Kernel) (base x : ℕ) (xs : List ℕ)
    → IsTimeline k base (x ∷ xs)
    → length xs < k.fuel
    → x ≢ 0
    → (k.tasks x).se.on_rq ≢ 0
    → (t : Rb) × (set_next_entity x k ≡ some (tt, running_next k x t))
      × IsTimeline (running_next k x t) base xs
set_next_entity-IsTimeline k base x xs q lt hx on =
    let (t, run, left) = erase_entity-IsTimeline k base x xs q lt in
    (
      t,
      set_next_run k x t (not_zero x hx) (not_zero (k.tasks x).se.on_rq on) run,
      running_next-IsTimeline k base x xs t left,
    )
