-- ===== src/Cfs/Timeline/Put.antt =====
-- `put_prev_entity` of src/fair.c: the running task goes back to the timeline.
use std.Path.{fun_ext}
use rpi_os_cfs_ext.Base.{
  ℕ, ◌^◌, ◌≤◌, ◌<◌, ◌≡◌, ◌≢◌, inl, inr, refl, arith, Bool, false, ◌||◌, some, ◌==◌, if◌then◌else◌,
  sub64, is_neg64, List, [], ◌∷◌, ◌++◌, length, ap, sym, subst, ◌∙◌, update, count, Bool-cases,
}
use rpi_os_cfs_ext.Base.Ordered.{All, All-imp, IsOrdered}
use rpi_os_cfs_ext.Rbtree.{Rb}
use rpi_os_cfs_ext.Rbtree.Shape.{IsAddress}
use rpi_os_cfs_ext.Rbtree.Shape.Writes.{address_ne}
use rpi_os_cfs_ext.Rbtree.Insert.Cases.{is_self}
use rpi_os_cfs_ext.Cfs.Vruntime.{IsWithin}
use rpi_os_cfs_ext.Cfs.State.{Kernel, Entity, Task}
use rpi_os_cfs_ext.Cfs.Queue.{insert_entity, update_curr, put_prev_entity}
use rpi_os_cfs_ext.Cfs.Queue.Accounting.{AreWords, load_se-some, update_min_vruntime_lem}
use rpi_os_cfs_ext.Cfs.Queue.Charge.{
  running, elapsed, charged, idle_lem, charge_lem, AreWords-charge, with_charge,
}
use rpi_os_cfs_ext.Cfs.Timeline.{vruntime_of, distance, IsTimeline}
use rpi_os_cfs_ext.Cfs.Timeline.Enqueue.{insert_entity_lem}
use rpi_os_cfs_ext.Cfs.Timeline.Pick.{not_zero}

-- The running entity after `update_curr`.
abbrev pub after_charge : Kernel → Entity
after_charge k = if is_neg64 (elapsed k) || (elapsed k == 0) then running k else charged k

abbrev pub charged_tasks : Kernel → ℕ → Task
charged_tasks k = update k.tasks k.rq.curr (record (k.tasks k.rq.curr) { se = after_charge k })

abbrev pub charged_kernel : Kernel → ℕ → Kernel
charged_kernel k v = record k { tasks = charged_tasks k; rq = record k.rq { min_vruntime = v } }

update_self : (f : ℕ → Task) (p q : ℕ) → f q ≡ update f p (f p) q
update_self f p q = elim (Bool-cases (q == p)) [
  | inl e ↦ rw e (ap f (ground (arith, e)))
  | inr e ↦ rw e refl
]

-- A running task is charged in every case, if only for nothing.
charge_any :
    (k : Kernel)
    → AreWords k
    → (k.rq.curr == 0) ≡ false
    → (v : ℕ) × (update_curr k ≡ some (tt, charged_kernel k v))
charge_any k w hc = elim (Bool-cases (is_neg64 (elapsed k) || (elapsed k == 0))) [
  | inl e ↦ (
    k.rq.min_vruntime,
    idle_lem k (inr e)
        ∙ rw e (
            ap (λ (f : ℕ → Task). some (tt, record k { tasks = f }))
              (fun_ext (update_self k.tasks k.rq.curr))),
  )
  | inr e ↦
      let (v, eq, h) = update_min_vruntime_lem (with_charge k) (AreWords-charge k w) in
      (v, charge_lem k hc e eq ∙ rw e refl)
]

All-apart : (c : ℕ) (xs : List ℕ) → count c xs ≡ 0 → All (λ p. (p == c) ≡ false) xs
All-apart c [] h = tt
All-apart c (x ∷ xs) h = (ground (arith, h), All-apart c xs (omega (arith, h)))

-- An order and a bound that hold for a key hold for one that agrees with it on the list.
module _ (f g : ℕ → ℕ) where
  above :
      (x : ℕ) (xs : List ℕ)
      → g x ≡ f x
      → All (λ p. g p ≡ f p) xs
      → All (λ p. f x ≤ f p) xs
      → All (λ p. g x ≤ g p) xs
  above x [] e es a = tt
  above x (y ∷ xs) e (e', es) (h, a) = (omega (arith, e, e', h), above x xs e es a)

  IsOrdered-key : (xs : List ℕ) → All (λ p. g p ≡ f p) xs → IsOrdered f xs → IsOrdered g xs
  IsOrdered-key [] e o = tt
  IsOrdered-key (x ∷ xs) (e, es) (a, o) = (above x xs e es a, IsOrdered-key xs es o)

  All-key :
      (P : ℕ → Type 0) (xs : List ℕ)
      → All (λ p. g p ≡ f p) xs
      → All (λ p. P (f p)) xs
      → All (λ p. P (g p)) xs
  All-key P [] e o = tt
  All-key P (x ∷ xs) (e, es) (h, a) = (subst P (sym e) h, All-key P xs es a)

pub charged-else : (k : Kernel) (p : ℕ) → (p == k.rq.curr) ≡ false → charged_tasks k p ≡ k.tasks p
charged-else k p e =
    ap (λ (b : Bool). if b then record (k.tasks k.rq.curr) { se = after_charge k } else k.tasks p) e

pub charged-curr :
    (k : Kernel) (v : ℕ) → vruntime_of (charged_kernel k v) k.rq.curr ≡ (after_charge k).vruntime
charged-curr k v =
    ap
      (λ (b : Bool).
        (if b
          then record (k.tasks k.rq.curr) { se = after_charge k }
          else k.tasks k.rq.curr).se.vruntime)
      (is_self k.rq.curr)

-- Charging a task that is not in a timeline leaves the timeline.
charged-IsTimeline :
    (k : Kernel) (base v : ℕ) (xs : List ℕ)
    → IsTimeline k base xs
    → count k.rq.curr xs ≡ 0
    → IsTimeline (charged_kernel k v) base xs
charged-IsTimeline k base v xs q fresh =
    let k1 = charged_kernel k v in
    let same : All (λ p. vruntime_of k1 p ≡ vruntime_of k p) xs =
      All-imp (λ p. (p == k.rq.curr) ≡ false) (λ p. vruntime_of k1 p ≡ vruntime_of k p) xs
        (λ p e. ap (λ (t : Task). t.se.vruntime) (charged-else k p e))
        (All-apart k.rq.curr xs fresh) in
    let nearer =
      All-imp (λ p. vruntime_of k1 p ≡ vruntime_of k p)
        (λ p. distance k1 base p ≡ distance k base p) xs (λ p e. ap (λ (a : ℕ). sub64 a base) e)
        same in
    record {
      tree = q.tree;
      focus = q.focus;
      order = q.order;
      red_black = q.red_black;
      sorted = IsOrdered-key (distance k base) (distance k1 base) xs nearer q.sorted;
      within = All-key (vruntime_of k) (vruntime_of k1) (IsWithin base) xs same q.within;
      first = q.first;
    }

-- The kernel after `put_prev_entity`, with the tree `t` and the queue's clock at `v`.
abbrev pub put_back : Kernel → ℕ → Rb → Kernel
put_back k v t = record k {
  timeline = t;
  tasks = charged_tasks k;
  rq = record k.rq { min_vruntime = v; curr = 0 };
}

put_run :
    (k : Kernel) (v : ℕ) (t : Rb)
    → (k.rq.curr == 0) ≡ false
    → (running k).on_rq ≢ 0
    → update_curr k ≡ some (tt, charged_kernel k v)
    → insert_entity k.rq.curr (charged_kernel k v)
      ≡ some (tt, record (charged_kernel k v) { timeline = t })
    → put_prev_entity k.rq.curr k ≡ some (tt, put_back k v t)
unfolding put_prev_entity
put_run k v t hc on charge insert =
    rw (load_se-some k.rq.curr k hc, not_zero (running k).on_rq on, charge, insert) refl

-- `put_prev_entity` of the running task, which is queued, at an aligned address and not in the
-- timeline, charges it and puts it back: behind all tasks of the timeline that are not later and
-- before all that are. It needs fewer tasks in the timeline than there is fuel, run times that are
-- 64-bit words, and all, the charged one included, less than half the clock behind a base.
pub put_prev_entity-IsTimeline :
    (k : Kernel) (base : ℕ) (xs : List ℕ)
    → base < 2 ^ 64
    → AreWords k
    → IsTimeline k base xs
    → IsAddress k.rq.curr
    → count k.rq.curr xs ≡ 0
    → (running k).on_rq ≢ 0
    → IsWithin base (after_charge k).vruntime
    → length xs < k.fuel
    → (v : ℕ) × (t : Rb) × (earlier : List ℕ) × (later : List ℕ) × (put_prev_entity k.rq.curr k
        ≡ some (tt, put_back k v t))
      × (xs ≡ earlier ++ later)
      × All
          (λ p. distance (put_back k v t) base p ≤ distance (put_back k v t) base k.rq.curr)
          earlier
      × All (λ p. distance (put_back k v t) base k.rq.curr < distance (put_back k v t) base p) later
      × IsTimeline (put_back k v t) base (earlier ++ k.rq.curr ∷ later)
put_prev_entity-IsTimeline k base xs hb w q h fresh on near lt =
    let hc = address_ne k.rq.curr h in
    let (v, charge) = charge_any k w hc in
    let b =
      insert_entity_lem (charged_kernel k v) base xs k.rq.curr hb
        (charged-IsTimeline k base v xs q fresh) h fresh
        (subst (IsWithin base) (sym (charged-curr k v)) near) lt in
    (
      v,
      b.timeline,
      b.earlier,
      b.later,
      put_run k v b.timeline hc on charge b.run,
      b.split,
      b.not_later,
      b.after_it,
      record {
        tree = b.queue.tree;
        focus = b.queue.focus;
        order = b.queue.order;
        red_black = b.queue.red_black;
        sorted = b.queue.sorted;
        within = b.queue.within;
        first = b.queue.first;
      },
    )
