-- ===== src/Tests/Timeline.antt =====
-- A timeline of the tasks 64 and 128, which task 192 is put on.
use rpi_os_cfs_ext.Base.{
  ℕ, ◌≡◌, refl, arith, true, false, some, ◌==◌, if◌then◌else◌, [], ◌∷◌, update, ◌≤◌, ◌<◌, List,
  ◌++◌,
}
use rpi_os_cfs_ext.Base.Ordered.{All}
use rpi_os_cfs_ext.Rbtree.{Rb, RbNode, left, right}
use rpi_os_cfs_ext.Rbtree.Insert.{insert_loop}
use rpi_os_cfs_ext.Rbtree.Insert.Cases.{Rebalanced}
use rpi_os_cfs_ext.Rbtree.Insert.Loop.{insert_loop_lem}
use rpi_os_cfs_ext.Rbtree.Shape.{leaf, node, Spine, top, step, Focus}
use rpi_os_cfs_ext.Rbtree.Shape.Balance.{IsRedBlack}
use rpi_os_cfs_ext.Cfs.Load.{calc_delta_fair}
use rpi_os_cfs_ext.Cfs.State.{Kernel}
use rpi_os_cfs_ext.Rbtree.Erase.{erase_color}
use rpi_os_cfs_ext.Rbtree.Erase.Loop.{erase_color_lem}
use rpi_os_cfs_ext.Cfs.Queue.{erase_entity, insert_entity, pick_next_entity, put_prev_entity}
use rpi_os_cfs_ext.Cfs.Timeline.{distance, IsTimeline}
use rpi_os_cfs_ext.Cfs.Timeline.Enqueue.{IsEnqueued, insert_entity_lem}
use rpi_os_cfs_ext.Cfs.Timeline.Dequeue.{erase_entity-IsTimeline}
use rpi_os_cfs_ext.Cfs.Queue.Accounting.{AreWords}
use rpi_os_cfs_ext.Cfs.Schedule.{pick_next_task_fair}
use rpi_os_cfs_ext.Cfs.Timeline.Put.{after_charge, put_back, put_prev_entity-IsTimeline}
use rpi_os_cfs_ext.Cfs.Timeline.SetNext.{running_next}
use rpi_os_cfs_ext.Cfs.Timeline.Next.{
  IsTurn, pick_next_task_fair-IsTurn, pick_next_task_fair-IsTimeline,
}
use rpi_os_cfs_ext.Cfs.Timeline.Pick.{IsEarliest, pick_next_entity-IsEarliest}

abbrev nodes : ℕ → RbNode
nodes a =
    if a == 64
    then record { parent_color = 1; right = 128; left = 0 }
    else if a == 128
    then record { parent_color = 64; right = 0; left = 0 }
    else record { parent_color = 0; right = 0; left = 0 }

abbrev two_nodes : Rb
two_nodes = record { nodes = nodes; root = 64; leftmost = 64 }

abbrev two_tasks : Kernel
two_tasks = record {
  rq = record {
    load = record { weight = 2048; inv_weight = 0 };
    nr_running = 2;
    min_vruntime = 30;
    curr = 256;
    clock_task = 10;
  };
  timeline = two_nodes;
  tasks = λ a. record {
    ti_flags = 0;
    preempt_count = 0;
    priority = 120;
    se = record {
      load = record { weight = 1024; inv_weight = 0 };
      on_rq = 1;
      exec_start = 3;
      sum_exec_runtime = 50;
      vruntime = if a == 64 then 64 else if a == 128 then 128 else if a == 192 then 192 else 256;
      prev_sum_exec_runtime = 0;
    };
  };
  current = 256;
  clock = 10;
  fuel = 8;
}

two_nodes-Focus : Focus two_nodes top (node leaf true 64 (node leaf false 128 leaf))
two_nodes-Focus = record {
  rep = (
    (λ e. absurd (omega arith), refl),
    refl,
    tt,
    ((λ e. absurd (omega arith), refl), refl, tt, tt),
  );
  rep_spine = refl;
  distinct = λ p. ground arith;
}

two_nodes-IsRedBlack : IsRedBlack (node leaf true 64 (node leaf false 128 leaf))
two_nodes-IsRedBlack = record {
  height = 1;
  balanced = (0, refl, refl, (refl, refl, refl, refl));
  black_root = refl;
}

two_tasks-IsTimeline : IsTimeline two_tasks 0 (64 ∷ 128 ∷ [])
two_tasks-IsTimeline = record {
  tree = node leaf true 64 (node leaf false 128 leaf);
  focus = two_nodes-Focus;
  order = refl;
  red_black = two_nodes-IsRedBlack;
  sorted = omega arith;
  within = omega arith;
  first = refl;
}

insert_entity_lem_example : IsEnqueued two_tasks 0 (64 ∷ 128 ∷ []) 192 (insert_entity 192 two_tasks)
insert_entity_lem_example =
    insert_entity_lem two_tasks 0 (64 ∷ 128 ∷ []) 192 (omega arith) two_tasks-IsTimeline
      (λ e. absurd (omega arith), refl) refl (omega arith) (omega arith)

pick_next_entity-IsEarliest_example :
    (r : ℕ) × (pick_next_entity 256 two_tasks ≡ some (r, two_tasks))
    × IsEarliest two_tasks 256 64 (128 ∷ []) r
pick_next_entity-IsEarliest_example =
    pick_next_entity-IsEarliest two_tasks 0 256 64 (128 ∷ []) (omega arith) two_tasks-IsTimeline
      (λ e. absurd (omega arith)) (λ _. omega arith)

-- Task 192 as a red child of task 128, which is red, too.
abbrev three_nodes : Rb
three_nodes = record {
  nodes =
      update (update nodes 128 (record { parent_color = 64; right = 192; left = 0 })) 192
        (record { parent_color = 128; right = 0; left = 0 });
  root = 64;
  leftmost = 64;
}

abbrev below_red : Spine
below_red = step right false 128 leaf (step right true 64 leaf top)

three-Focus : Focus three_nodes below_red (node leaf false 192 leaf)
three-Focus = record {
  rep = ((λ e. absurd (omega arith), refl), refl, tt, tt);
  rep_spine = (
    (λ e. absurd (omega arith), refl),
    refl,
    tt,
    ((λ e. absurd (omega arith), refl), refl, tt, refl),
  );
  distinct = λ p. ground arith;
}

insert_loop_lem_example :
    Rebalanced three_nodes (64 ∷ 128 ∷ 192 ∷ []) (insert_loop 4 192 128 three_nodes)
insert_loop_lem_example =
    insert_loop_lem 4 three_nodes below_red leaf leaf 192 0 three-Focus (refl, refl, refl, refl)
      (refl, refl, refl, (refl, tt)) (omega arith)

erase_entity-IsTimeline_example :
    (timeline : Rb) × (erase_entity 64 two_tasks
      ≡ some (tt, record two_tasks { timeline = timeline }))
    × IsTimeline (record two_tasks { timeline = timeline }) 0 (128 ∷ [])
erase_entity-IsTimeline_example =
    erase_entity-IsTimeline two_tasks 0 64 (128 ∷ []) two_tasks-IsTimeline (omega arith)

-- Task 64 with the black task 128 on its right, and a black node lost on its left.
abbrev one_lost : Rb
one_lost = record {
  nodes = update nodes 128 (record { parent_color = 65; right = 0; left = 0 });
  root = 64;
  leftmost = 64;
}

one_lost-Focus : Focus one_lost (step left true 64 (node leaf true 128 leaf) top) leaf
one_lost-Focus = record {
  rep = tt;
  rep_spine = (
    (λ e. absurd (omega arith), refl),
    refl,
    ((λ e. absurd (omega arith), refl), refl, tt, tt),
    refl,
  );
  distinct = λ p. ground arith;
}

erase_color_lem_example : Rebalanced one_lost (64 ∷ 128 ∷ []) (erase_color 3 0 64 one_lost)
erase_color_lem_example =
    erase_color_lem 3 one_lost left true 64 0 (node leaf true 128 leaf) top leaf one_lost-Focus refl
      ((0, refl, refl, refl), tt) (omega arith)

two_tasks-AreWords : AreWords two_tasks
two_tasks-AreWords = record { min_vruntime = omega arith; vruntime = λ p. ground arith }

-- The running task 256 is charged 7.
two_tasks-charge : (after_charge two_tasks).vruntime ≡ 263
unfolding calc_delta_fair
two_tasks-charge = refl

-- It goes behind task 128.
pick_next_task_fair-IsTurn_example :
    IsTurn two_tasks 0 256 64 (128 ∷ []) (pick_next_task_fair 256 two_tasks)
pick_next_task_fair-IsTurn_example =
    pick_next_task_fair-IsTurn two_tasks 0 64 (128 ∷ []) (omega arith) two_tasks-AreWords
      two_tasks-IsTimeline (λ e. absurd (omega arith), refl) refl (λ e. absurd (omega arith))
      (omega (arith, two_tasks-charge)) (omega (arith, two_tasks-charge)) (omega arith)
      (λ e. absurd (omega arith)) (λ e. absurd (omega arith)) (λ e. absurd (omega arith))

put_prev_entity-IsTimeline_example :
    (v : ℕ) × (t : Rb) × (earlier : List ℕ) × (later : List ℕ) × (put_prev_entity 256 two_tasks
      ≡ some (tt, put_back two_tasks v t))
    × ((64 ∷ 128 ∷ []) ≡ earlier ++ later)
    × All
        (λ p. distance (put_back two_tasks v t) 0 p ≤ distance (put_back two_tasks v t) 0 256)
        earlier
    × All
        (λ p. distance (put_back two_tasks v t) 0 256 < distance (put_back two_tasks v t) 0 p)
        later
    × IsTimeline (put_back two_tasks v t) 0 (earlier ++ 256 ∷ later)
put_prev_entity-IsTimeline_example =
    put_prev_entity-IsTimeline two_tasks 0 (64 ∷ 128 ∷ []) (omega arith) two_tasks-AreWords
      two_tasks-IsTimeline (λ e. absurd (omega arith), refl) refl (λ e. absurd (omega arith))
      (omega (arith, two_tasks-charge)) (omega arith)

-- Task 256 has left the queue.
abbrev one_blocked : Kernel
one_blocked = record two_tasks {
  tasks =
      update two_tasks.tasks 256
        (record (two_tasks.tasks 256) { se = record (two_tasks.tasks 256).se { on_rq = 0 } });
}

one_blocked-IsTimeline : IsTimeline one_blocked 0 (64 ∷ 128 ∷ [])
one_blocked-IsTimeline = record {
  tree = node leaf true 64 (node leaf false 128 leaf);
  focus = two_nodes-Focus;
  order = refl;
  red_black = two_nodes-IsRedBlack;
  sorted = omega arith;
  within = omega arith;
  first = refl;
}

pick_next_task_fair-IsTimeline_example :
    (t : Rb) × (pick_next_task_fair 256 one_blocked ≡ some (64, running_next one_blocked 64 t))
    × IsTimeline (running_next one_blocked 64 t) 0 (128 ∷ [])
pick_next_task_fair-IsTimeline_example =
    pick_next_task_fair-IsTimeline one_blocked 0 256 64 (128 ∷ []) one_blocked-IsTimeline
      (omega arith) (λ e. absurd (omega arith)) (λ e. absurd (omega arith))
      (λ e. absurd (omega arith)) refl (λ e. absurd (omega arith))
