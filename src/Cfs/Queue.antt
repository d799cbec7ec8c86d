-- ===== src/Cfs/Queue.antt =====
-- The run queue: what src/fair.c does to the tree and to the virtual run times.
pub mod Accounting
pub mod Charge
use rpi_os_cfs_ext.Base.{
  ℕ, zero, suc, ◌+◌, ◌-◌, ◌%◌, ◌^◌, Bool, true, false, not, ◌&&◌, ◌||◌, Option, none, some, ◌==◌,
  if◌then◌else◌, u32, sub32, u64, sub64, is_neg64, Run, pure, fault, ◌>>=◌, ◌>>◌, when,
}
use mathlib.Core.Option
use rpi_os_cfs_ext.Rbtree.{Link, root_link, left_link, right_link, read_link, rb_link_node}
use rpi_os_cfs_ext.Rbtree.Insert.{rb_insert_color_cached}
use rpi_os_cfs_ext.Rbtree.Erase.{rb_erase_cached}
use rpi_os_cfs_ext.Cfs.Load.{LoadWeight, update_load_add, update_load_sub, calc_delta_fair}
use rpi_os_cfs_ext.Cfs.Vruntime.{max_vruntime, min_vruntime, entity_before}
use rpi_os_cfs_ext.Cfs.State.{
  K, Kernel, Entity, CfsRq, load_se, store_se, get_rq, set_rq, on_tree, rb_first_cached,
}

-- `account_entity_enqueue` and `account_entity_dequeue`
unfoldable pub account_entity_enqueue : CfsRq → LoadWeight → CfsRq
unfolding update_load_add
account_entity_enqueue q load = record q {
  load = update_load_add q.load load.weight;
  nr_running = u32 (q.nr_running + 1);
}

unfoldable pub account_entity_dequeue : CfsRq → LoadWeight → CfsRq
unfolding update_load_sub
account_entity_dequeue q load = record q {
  load = update_load_sub q.load load.weight;
  nr_running = sub32 q.nr_running 1;
}

-- The first half of `update_min_vruntime`: the current entity's virtual run time, which does not
-- count if the entity is off the queue.
unfoldable pub curr_vruntime : ℕ → K (Option ℕ)
unfolding load_se
curr_vruntime curr =
    if curr == 0
    then pure none
    else do e ← load_se curr; pure (if e.on_rq == 0 then none else some e.vruntime)

-- The second half: the earlier of that one and the leftmost entity's, if there are any.
unfoldable pub next_vruntime : ℕ → Option ℕ → ℕ → K ℕ
unfolding load_se min_vruntime
next_vruntime own curr leftmost =
    let vruntime = Option.get_or curr own in
    if leftmost == 0 then pure vruntime else do
      e ← load_se leftmost
      pure (elim curr [ none ↦ e.vruntime | some v ↦ min_vruntime v e.vruntime ])

unfoldable pub update_min_vruntime : K (Unit {0})
unfolding curr_vruntime next_vruntime max_vruntime
update_min_vruntime = do
  q ← get_rq
  leftmost ← rb_first_cached
  curr ← curr_vruntime q.curr
  vruntime ← next_vruntime q.min_vruntime curr leftmost
  set_rq (record q { min_vruntime = max_vruntime q.min_vruntime vruntime })

-- The descent of `__enqueue_entity` from `link`, with the parent and the `leftmost` flag so far.
unfoldable pub find_link : ℕ → (vruntime : ℕ) → Link → ℕ → Bool → K (Link × ℕ × Bool)
unfolding load_se on_tree read_link entity_before
find_link zero vruntime link parent leftmost = fault
find_link (suc fuel) vruntime link parent leftmost = do
  node ← on_tree (λ _. read_link link)
  if node == 0 then pure (link, parent, leftmost) else do
    entry ← load_se node
    let before = entity_before vruntime entry.vruntime
    find_link fuel vruntime (if before then left_link node else right_link node) node
        (if before then leftmost else false)

-- `__enqueue_entity`
unfoldable pub insert_entity : ℕ → K (Unit {0})
unfolding load_se find_link on_tree rb_link_node rb_insert_color_cached
insert_entity se k =
    (do
      e ← load_se se
      (link, parent, leftmost) ← find_link k.fuel e.vruntime root_link 0 true
      on_tree (λ _. rb_link_node se parent link)
      on_tree (λ fuel. rb_insert_color_cached fuel se leftmost))
      k

-- `__dequeue_entity`
unfoldable pub erase_entity : ℕ → K (Unit {0})
unfolding on_tree rb_erase_cached
erase_entity se = on_tree (λ fuel. rb_erase_cached fuel se)

-- `update_curr`; the difference of the clocks counts if it is positive as an `s64`.
unfoldable pub update_curr : K (Unit {0})
unfolding load_se store_se calc_delta_fair update_min_vruntime
update_curr = do
  q ← get_rq
  if q.curr == 0 then pure tt else do
    e ← load_se q.curr
    let delta_exec = sub64 q.clock_task e.exec_start
    if is_neg64 delta_exec || (delta_exec == 0) then pure tt else do
      let (delta, load) = calc_delta_fair delta_exec e.load
      store_se q.curr (record e {
        load = load;
        exec_start = q.clock_task;
        sum_exec_runtime = u64 (e.sum_exec_runtime + delta_exec);
        vruntime = u64 (e.vruntime + delta);
      })
      update_min_vruntime

-- `enqueue_entity`
unfoldable pub enqueue_entity : ℕ → K (Unit {0})
unfolding load_se store_se account_entity_enqueue insert_entity
enqueue_entity se = do
  q ← get_rq
  e ← load_se se
  set_rq (account_entity_enqueue q e.load)
  when (not (se == q.curr)) (insert_entity se)
  e ← load_se se
  store_se se (record e { on_rq = 1 })

-- `dequeue_entity`
unfoldable pub dequeue_entity : ℕ → K (Unit {0})
unfolding load_se store_se account_entity_dequeue erase_entity update_curr update_min_vruntime
dequeue_entity se = do
  update_curr
  q ← get_rq
  when (not (se == q.curr)) (erase_entity se)
  e ← load_se se
  store_se se (record e { on_rq = 0 })
  set_rq (account_entity_dequeue q e.load)
  update_min_vruntime

-- `set_next_entity`
unfoldable pub set_next_entity : ℕ → K (Unit {0})
unfolding load_se store_se erase_entity
set_next_entity se = do
  e ← load_se se
  when (not (e.on_rq == 0)) (erase_entity se)
  q ← get_rq
  set_rq (record q { curr = se })
  store_se se (record e { exec_start = q.clock_task; prev_sum_exec_runtime = e.sum_exec_runtime })

-- `pick_next_entity`, with NULL for no entity
unfoldable pub pick_next_entity : ℕ → K ℕ
unfolding load_se entity_before
pick_next_entity curr = do
  left ← rb_first_cached
  if left == 0 then pure curr else if curr == 0 then pure left else do
    c ← load_se curr
    l ← load_se left
    pure (if entity_before c.vruntime l.vruntime then curr else left)

-- `put_prev_entity`
unfoldable pub put_prev_entity : ℕ → K (Unit {0})
unfolding load_se insert_entity update_curr
put_prev_entity prev = do
  e ← load_se prev
  when (not (e.on_rq == 0)) (do update_curr; insert_entity prev)
  q ← get_rq
  set_rq (record q { curr = 0 })
