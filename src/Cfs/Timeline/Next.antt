-- ===== src/Cfs/Timeline/Next.antt =====
-- `pick_next_task_fair` of src/fair.c on a timeline.
use rpi_os_cfs_ext.Base.{
  ℕ, ◌≤◌, ◌<◌, ◌≡◌, ◌≢◌, refl, arith, false, some, ◌==◌, ◌^◌, ◌++◌, count, sub64, length-append,
  Option, List, [], ◌∷◌, length, ap, sym, subst, ◌∙◌,
}
use rpi_os_cfs_ext.Base.Ordered.{head, All}
use rpi_os_cfs_ext.Rbtree.{Rb}
use rpi_os_cfs_ext.Cfs.Vruntime.{IsWithin}
use rpi_os_cfs_ext.Cfs.State.{Kernel, Task}
use rpi_os_cfs_ext.Cfs.Queue.{set_next_entity, put_prev_entity}
use rpi_os_cfs_ext.Cfs.Queue.Accounting.{load_se-some}
use rpi_os_cfs_ext.Cfs.Schedule.{pick_next_task_fair}
use rpi_os_cfs_ext.Cfs.Timeline.{distance, IsTimeline}
use rpi_os_cfs_ext.Cfs.Timeline.Dequeue.{tail}
use rpi_os_cfs_ext.Cfs.Queue.Accounting.{AreWords}
use rpi_os_cfs_ext.Cfs.Queue.Charge.{running}
use rpi_os_cfs_ext.Rbtree.Shape.{IsAddress}
use rpi_os_cfs_ext.Cfs.Timeline.Put.{
  after_charge, charged-else, charged-curr, put_back, put_prev_entity-IsTimeline,
}
use rpi_os_cfs_ext.Cfs.Timeline.Pick.{pick_first, not_zero}
use rpi_os_cfs_ext.Cfs.Timeline.SetNext.{running_next, set_next_entity-IsTimeline}

put_blocked :
    (k : Kernel) (prev : ℕ)
    → (prev == 0) ≡ false
    → (k.tasks prev).se.on_rq ≡ 0
    → put_prev_entity prev k ≡ some (tt, record k { rq = record k.rq { curr = 0 } })
unfolding put_prev_entity
put_blocked k prev hp off = rw (load_se-some prev k hp, off) refl

-- `pick_next_task_fair` after a task that is not on the queue any more, on a timeline with fewer
-- other tasks than there is fuel, a first task that is queued, and a queue that counts a task, gives
-- the first task of the timeline and makes it the running one, started now; the others are the
-- timeline.
pub pick_next_task_fair-IsTimeline :
    (k : Kernel) (base prev x : ℕ) (xs : List ℕ)
    → IsTimeline k base (x ∷ xs)
    → length xs < k.fuel
    → x ≢ 0
    → (k.tasks x).se.on_rq ≢ 0
    → prev ≢ 0
    → (k.tasks prev).se.on_rq ≡ 0
    → k.rq.nr_running ≢ 0
    → (t : Rb) × (pick_next_task_fair prev k ≡ some (x, running_next k x t))
      × IsTimeline (running_next k x t) base xs
unfolding pick_next_task_fair
pick_next_task_fair-IsTimeline k base prev x xs q lt hx on hp off nr =
    let k0 = record k { rq = record k.rq { curr = 0 } } in
    let q0 : IsTimeline k0 base (x ∷ xs) = record {
      tree = q.tree;
      focus = q.focus;
      order = q.order;
      red_black = q.red_black;
      sorted = q.sorted;
      within = q.within;
      first = q.first;
    } in
    let (t, run, left) = set_next_entity-IsTimeline k0 base x xs q0 lt hx on in
    (
      t,
      rw
          (
            not_zero k.rq.nr_running nr,
            pick_first k 0 x q.first (not_zero x hx),
            put_blocked k prev (not_zero prev hp) off,
            run,
          )
          refl,
      left,
    )

-- The queue after a turn: the task `prev` stands among the others `xs`, behind all that are not later
-- and before all that are, and `x` runs.
pub record IsTurn (k : Kernel) (base prev x : ℕ) (xs : List ℕ) (r : Option (ℕ × Kernel))
    : Type 0 where
  pub clock : ℕ
  pub timeline : Rb
  pub earlier : List ℕ
  pub later : List ℕ
  pub run : r ≡ some (x, running_next (put_back k clock timeline) x timeline)
  pub split : xs ≡ earlier ++ later
  pub not_later :
      All
        (λ p.
          distance (put_back k clock timeline) base p
          ≤ distance (put_back k clock timeline) base prev)
        earlier
  pub after_it :
      All
        (λ p.
          distance (put_back k clock timeline) base prev
          < distance (put_back k clock timeline) base p)
        later
  pub queue :
      IsTimeline
        (running_next (put_back k clock timeline) x timeline)
        base
        (earlier ++ prev ∷ later)

turn_run :
    (k : Kernel) (x v : ℕ) (t t' : Rb)
    → k.rq.nr_running ≢ 0
    → k.timeline.leftmost ≡ x
    → x ≢ 0
    → put_prev_entity k.rq.curr k ≡ some (tt, put_back k v t)
    → set_next_entity x (put_back k v t) ≡ some (tt, running_next (put_back k v t) x t')
    → pick_next_task_fair k.rq.curr k ≡ some (x, running_next (put_back k v t') x t')
unfolding pick_next_task_fair
turn_run k x v t t' nr first hx put next =
    rw (not_zero k.rq.nr_running nr, pick_first k 0 x first (not_zero x hx), put, next) refl

clash : (a b c : ℕ) → a ≤ b → b < c → c ≡ a → ⊥
clash a b c le lt e = omega (arith, le, lt, e)

shorter :
    (x p fuel : ℕ) (xs es ls : List ℕ)
    → length (x ∷ xs) < fuel
    → xs ≡ es ++ ls
    → length (es ++ p ∷ ls) < fuel
shorter x p fuel xs es ls lt e =
    omega (arith, lt, ap (length {0}) e, length-append {0} es ls, length-append {0} es (p ∷ ls))

-- The first task of the queue stays the first one when a task that is not before it is put back.
IsTurn-of :
    (k : Kernel) (base x v : ℕ) (xs : List ℕ) (t : Rb) (es ls : List ℕ)
    → k.rq.nr_running ≢ 0
    → k.timeline.leftmost ≡ x
    → x ≢ 0
    → (x == k.rq.curr) ≡ false
    → (k.tasks x).se.on_rq ≢ 0
    → distance k base x ≤ distance (put_back k v t) base k.rq.curr
    → length (x ∷ xs) < k.fuel
    → put_prev_entity k.rq.curr k ≡ some (tt, put_back k v t)
    → (x ∷ xs) ≡ es ++ ls
    → All (λ p. distance (put_back k v t) base p ≤ distance (put_back k v t) base k.rq.curr) es
    → All (λ p. distance (put_back k v t) base k.rq.curr < distance (put_back k v t) base p) ls
    → IsTimeline (put_back k v t) base (es ++ k.rq.curr ∷ ls)
    → IsTurn k base k.rq.curr x xs (pick_next_task_fair k.rq.curr k)
IsTurn-of k base x v xs t [] [] nr first hx ne on le lt put split nl al q =
    absurd (ground (arith, ap (length {0}) split))
IsTurn-of k base x v xs t [] (y ∷ ls) nr first hx ne on le lt put split nl al q =
    let after = distance (put_back k v t) base in
    absurd (
      clash (distance k base x) (after k.rq.curr) (after x) le
        (subst (λ (n : ℕ). after k.rq.curr < after n) (ap head (sym split)) al.0)
        (ap (λ (s : Task). sub64 s.se.vruntime base) (charged-else k x ne)))
IsTurn-of k base x v xs t (y ∷ es) ls nr first hx ne on le lt put split nl al q =
    let rest = ap tail split in
    let (t', run, left) =
      set_next_entity-IsTimeline (put_back k v t) base x (es ++ k.rq.curr ∷ ls)
        (subst (λ (n : ℕ). IsTimeline (put_back k v t) base (n ∷ es ++ k.rq.curr ∷ ls))
          (ap head (sym split)) q)
        (shorter x k.rq.curr k.fuel xs es ls lt rest) hx
        (λ e. on (sym (ap (λ (s : Task). s.se.on_rq) (charged-else k x ne)) ∙ e)) in
    record {
      clock = v;
      timeline = t';
      earlier = es;
      later = ls;
      run = turn_run k x v t t' nr first hx put run;
      split = rest;
      not_later = nl.1;
      after_it = al;
      queue = left;
    }

-- `pick_next_task_fair` after a running task that is queued, at an aligned address, in no timeline
-- and, when it is charged, not before the first one of the timeline gives this first one and makes
-- it the running one, started now. The charged task is back in the timeline, behind all that are
-- not later than it and before all that are. It needs a queue that counts a task, a first task that
-- is queued, fewer tasks in the timeline than there is fuel, run times that are 64-bit words, and
-- all in the timeline, the charged one included, less than half the clock behind a base.
pub pick_next_task_fair-IsTurn :
    (k : Kernel) (base x : ℕ) (xs : List ℕ)
    → base < 2 ^ 64
    → AreWords k
    → IsTimeline k base (x ∷ xs)
    → IsAddress k.rq.curr
    → count k.rq.curr (x ∷ xs) ≡ 0
    → (running k).on_rq ≢ 0
    → IsWithin base (after_charge k).vruntime
    → distance k base x ≤ sub64 (after_charge k).vruntime base
    → length (x ∷ xs) < k.fuel
    → x ≢ 0
    → (k.tasks x).se.on_rq ≢ 0
    → k.rq.nr_running ≢ 0
    → IsTurn k base k.rq.curr x xs (pick_next_task_fair k.rq.curr k)
pick_next_task_fair-IsTurn k base x xs hb w q h fresh on near le lt hx onx nr =
    let (v, t, es, ls, put, split, nl, al, tl) =
      put_prev_entity-IsTimeline k base (x ∷ xs) hb w q h fresh on near lt in
    IsTurn-of k base x v xs t es ls nr q.first hx (ground (arith, fresh)) onx
      (subst (λ (n : ℕ). distance k base x ≤ n)
        (sym (ap (λ (n : ℕ). sub64 n base) (charged-curr k v))) le)
      lt put split nl al tl
