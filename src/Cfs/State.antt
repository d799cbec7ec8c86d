-- ===== src/Cfs/State.antt =====
-- Tasks, the run queue, and access to them: include/sched.h.
use rpi_os_cfs_ext.Base.{
  ℕ, ◌+◌, ◌^◌, Bool, not, ◌||◌, none, some, ◌==◌, leb, if◌then◌else◌, u32, sub32, update, Run, pure,
  ◌>>=◌, when,
}
use rpi_os_cfs_ext.Rbtree.{Rb}
use rpi_os_cfs_ext.Cfs.Load.{LoadWeight}

-- `struct sched_entity`, less its `run_node`, which is a node of the tree's store at the task's
-- address, and less `cfs_rq`, which always points to the one run queue.
pub record Entity : Type 0 where
  pub load : LoadWeight
  pub on_rq : ℕ
  pub exec_start : ℕ
  pub sum_exec_runtime : ℕ
  pub vruntime : ℕ
  pub prev_sum_exec_runtime : ℕ

-- The fields of `struct task_struct` that the scheduler reads; the counters are bit patterns.
pub record Task : Type 0 where
  pub ti_flags : ℕ
  pub preempt_count : ℕ
  pub priority : ℕ
  pub se : Entity

-- `struct cfs_rq`, less the tree.
pub record CfsRq : Type 0 where
  pub load : LoadWeight
  pub nr_running : ℕ
  pub min_vruntime : ℕ
  pub curr : ℕ
  pub clock_task : ℕ

-- The scheduler's part of the kernel. A task, its entity and its node share one address, since
-- `container_of` takes one to the other; 0 is NULL. `clock` is what `timer_clock` returns, and
-- `fuel` bounds the walks of the tree.
pub record Kernel : Type 0 where
  pub rq : CfsRq
  pub timeline : Rb
  pub tasks : ℕ → Task
  pub current : ℕ
  pub clock : ℕ
  pub fuel : ℕ

abbrev pub K : Type 0 → Type 0
K A = Run Kernel A

abbrev pub tif_need_resched : ℕ
tif_need_resched = 1

unfoldable pub load_task : ℕ → K Task
load_task p k = if p == 0 then none else some (k.tasks p, k)

unfoldable pub store_task : ℕ → Task → K (Unit {0})
store_task p t k = if p == 0 then none else some (tt, record k { tasks = update k.tasks p t })

unfoldable pub load_se : ℕ → K Entity
unfolding load_task
load_se p = do t ← load_task p; pure t.se

unfoldable pub store_se : ℕ → Entity → K (Unit {0})
unfolding load_task store_task
store_se p e = do t ← load_task p; store_task p (record t { se = e })

abbrev pub get_rq : K CfsRq
get_rq k = some (k.rq, k)

abbrev pub set_rq : CfsRq → K (Unit {0})
set_rq q k = some (tt, record k { rq = q })

abbrev pub get_current : K ℕ
get_current k = some (k.current, k)

abbrev pub set_current : ℕ → K (Unit {0})
set_current p k = some (tt, record k { current = p })

abbrev pub get_clock : K ℕ
get_clock k = some (k.clock, k)

-- An operation on the tree.
unfoldable pub on_tree : {A : Type 0} → (ℕ → Run Rb A) → K A
on_tree m k = elim (m k.fuel k.timeline) [
  | none ↦ none
  | some (a, t) ↦ some (a, record k { timeline = t })
]

-- `rb_first_cached`
abbrev pub rb_first_cached : K ℕ
rb_first_cached k = some (k.timeline.leftmost, k)

-- `test_tsk_need_resched`, `set_tsk_need_resched`, `clear_tsk_need_resched`
unfoldable pub test_tsk_need_resched : ℕ → K Bool
unfolding load_task
test_tsk_need_resched p = do t ← load_task p; pure (t.ti_flags == tif_need_resched)

unfoldable pub set_tsk_need_resched : ℕ → K (Unit {0})
unfolding load_task store_task
set_tsk_need_resched p = do t ← load_task p; store_task p (record t { ti_flags = tif_need_resched })

unfoldable pub clear_tsk_need_resched : ℕ → K (Unit {0})
unfolding load_task store_task
clear_tsk_need_resched p = do t ← load_task p; store_task p (record t { ti_flags = 0 })

-- `resched_curr`
unfoldable pub resched_curr : ℕ → K (Unit {0})
unfolding test_tsk_need_resched set_tsk_need_resched
resched_curr se = do
  already ← test_tsk_need_resched se
  when (not already) (set_tsk_need_resched se)

-- `update_rq_clock`
unfoldable pub update_rq_clock : K (Unit {0})
update_rq_clock = do c ← get_clock; q ← get_rq; set_rq (record q { clock_task = c })

-- `preempt_disable` and `preempt_enable`, on an `int`
unfoldable pub preempt_disable : K (Unit {0})
unfolding load_task store_task
preempt_disable = do
  c ← get_current
  t ← load_task c
  store_task c (record t { preempt_count = u32 (t.preempt_count + 1) })

unfoldable pub preempt_enable : K (Unit {0})
unfolding load_task store_task
preempt_enable = do
  c ← get_current
  t ← load_task c
  store_task c (record t { preempt_count = sub32 t.preempt_count 1 })

-- `preempt_count <= 0`
abbrev pub is_preemptible : Task → Bool
is_preemptible t = (t.preempt_count == 0) || leb (2 ^ 31) t.preempt_count
