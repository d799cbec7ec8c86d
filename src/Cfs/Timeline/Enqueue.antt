-- ===== src/Cfs/Timeline/Enqueue.antt =====
-- `__enqueue_entity` of src/fair.c: the new entity's place in the timeline.
use mathlib.Core.List.{append-nil}
use rpi_os_cfs_ext.Base.{
  ℕ, ◌^◌, ◌≤◌, ◌<◌, ◌≡◌, inl, refl, arith, Bool, true, false, Option, some, if◌then◌else◌, List, [],
  ◌∷◌, ◌++◌, length, sym, ap, subst, ◌∙◌, count,
}
use rpi_os_cfs_ext.Base.Ordered.{
  head, is_nil, All, All-append, append-All, IsOrdered, IsOrdered-insert,
}
use rpi_os_cfs_ext.Rbtree.{Rb, left, root_link}
use rpi_os_cfs_ext.Rbtree.Insert.{insert_loop, rb_insert, rb_insert_color_cached}
use rpi_os_cfs_ext.Rbtree.Shape.{
  Tree, leaf, node, inorder, Spine, top, up, plug, Focus, IsAddress, occurs_spine, occurs-plug,
  occurs-inorder,
}
use rpi_os_cfs_ext.Rbtree.Shape.Balance.{IsBalancedAround, IsRedBlack}
use rpi_os_cfs_ext.Rbtree.Shape.Hole.{
  befores, afters, link_of, blank, linked, rb_link_node_lem, linked-Focus, inorder-around, steps-le,
}
use rpi_os_cfs_ext.Rbtree.Shape.Writes.{address_ne}
use rpi_os_cfs_ext.Rbtree.Shape.Graft.{graft-leftmost}
use rpi_os_cfs_ext.Rbtree.Insert.Round.{rb_red_parent-on}
use rpi_os_cfs_ext.Rbtree.Insert.Loop.{insert_loop_lem}
use rpi_os_cfs_ext.Cfs.Vruntime.{IsWithin}
use rpi_os_cfs_ext.Cfs.State.{Kernel, on_tree}
use rpi_os_cfs_ext.Cfs.Queue.{find_link, insert_entity}
use rpi_os_cfs_ext.Cfs.Queue.Accounting.{load_se-some}
use rpi_os_cfs_ext.Cfs.Timeline.{vruntime_of, distance, IsTimeline}
use rpi_os_cfs_ext.Cfs.Timeline.Descend.{find_link_lem}

-- The entity stands behind all that are not later than it, and before all that are.
pub record IsEnqueued (k : Kernel) (base : ℕ) (xs : List ℕ) (se : ℕ)
    (r : Option (Unit {0} × Kernel)) : Type 0 where
  pub timeline : Rb
  pub run : r ≡ some (tt, record k { timeline = timeline })
  pub earlier : List ℕ
  pub later : List ℕ
  pub split : xs ≡ earlier ++ later
  pub not_later : All (λ p. distance k base p ≤ distance k base se) earlier
  pub after_it : All (λ p. distance k base se < distance k base p) later
  pub queue : IsTimeline (record k { timeline = timeline }) base (earlier ++ se ∷ later)

insert_run :
    (fuel : ℕ) (t : Rb) (c : Spine) (se : ℕ)
    → Focus t c (node leaf false se leaf)
    → rb_insert fuel se t ≡ insert_loop fuel se (up c) t
unfolding rb_insert
insert_run fuel t c se f = rw (rb_red_parent-on t se (up c) left 0 0 f.rep.0 f.rep.1) refl

-- What balancing leaves of a new node at the hole.
record Colored (c : Spine) (se first : ℕ) (r : Option (Unit {0} × Rb)) : Type 0 where
  after : Rb
  run : r ≡ some (tt, after)
  tree : Tree
  focus : Focus after top tree
  order : inorder tree ≡ befores c ++ se ∷ afters c
  red_black : IsRedBlack tree
  leftmost : after.leftmost ≡ first

color_at :
    (fuel : ℕ) (t : Rb) (c : Spine) (se : ℕ)
    → Focus t c (node leaf false se leaf)
    → IsBalancedAround c 0
    → length (befores c ++ afters c) < fuel
    → Colored c se t.leftmost (rb_insert fuel se t)
color_at fuel t c se f bc lt =
    let b =
      insert_loop_lem fuel t c leaf leaf se 0 f (refl, refl, refl, refl) bc
        (omega (arith, steps-le c)) in
    record {
      after = b.after;
      run = insert_run fuel t c se f ∙ b.run;
      tree = b.tree;
      focus = b.focus;
      order = b.order ∙ inorder-around c (node leaf false se leaf);
      red_black = b.red_black;
      leftmost = b.same_leftmost;
    }

color_run :
    (fuel : ℕ) (t : Rb) (c : Spine) (se : ℕ) (first : Bool)
    → Focus t c (node leaf false se leaf)
    → IsBalancedAround c 0
    → length (befores c ++ afters c) < fuel
    → Colored c se (if first then se else t.leftmost) (rb_insert_color_cached fuel se first t)
unfolding rb_insert_color_cached
color_run fuel t c se true f bc lt =
    color_at fuel (record t { leftmost = se }) c se
      (record { rep = f.rep; rep_spine = f.rep_spine; distinct = f.distinct }) bc lt
color_run fuel t c se false f bc lt = color_at fuel t c se f bc lt

head_insert :
    (xs ys : List ℕ) (p : ℕ) (first : Bool)
    → is_nil xs ≡ first
    → (if first then p else head (xs ++ ys)) ≡ head (xs ++ p ∷ ys)
head_insert [] ys p first e = rw (sym e) refl
head_insert (x ∷ xs) ys p first e = rw (sym e) refl

absent_around : (p : ℕ) (c : Spine) → count p (befores c ++ afters c) ≡ 0 → occurs_spine p c ≡ 0
absent_around p c h = omega (
  arith,
  h,
  occurs-plug p c leaf,
  occurs-inorder p (plug c leaf) ∙ ap (count p) (inorder-around c leaf),
)

-- The two writes of `__enqueue_entity` after the descent.
place_run :
    (k : Kernel) (c : Spine) (se : ℕ) (first : Bool) (after : Rb)
    → Focus k.timeline c leaf
    → IsAddress se
    → occurs_spine se c ≡ 0
    → rb_insert_color_cached k.fuel se first (linked k.timeline c se) ≡ some (tt, after)
    → find_link k.fuel (vruntime_of k se) root_link 0 true k ≡ some ((link_of c, up c, first), k)
    → insert_entity se k ≡ some (tt, record k { timeline = after })
unfolding insert_entity
place_run k c se first after f h fresh run found =
    rw
      (
        load_se-some se k (address_ne se h),
        found,
        on_tree,
        rb_link_node_lem k.timeline c se f h fresh,
        run,
      )
      refl

-- `__enqueue_entity` of a task that is not queued, with more fuel than tasks in the timeline and with
-- all virtual run times less than half the clock behind the base, ends and changes the tree only;
-- the new task stands behind all that are not later and before all that are, in a timeline.
pub insert_entity_lem :
    (k : Kernel) (base : ℕ) (xs : List ℕ) (se : ℕ)
    → base < 2 ^ 64
    → IsTimeline k base xs
    → IsAddress se
    → count se xs ≡ 0
    → IsWithin base (vruntime_of k se)
    → length xs < k.fuel
    → IsEnqueued k base xs se (insert_entity se k)
insert_entity_lem k base xs se hb q h fresh hv lt =
    let v = vruntime_of k se in
    let s =
      find_link_lem k base v k.fuel top q.tree true q.red_black.height hb hv q.focus
        (subst (IsOrdered (distance k base)) (sym q.order) q.sorted)
        (subst (All (λ p. IsWithin base (vruntime_of k p))) (sym q.order) q.within)
        (record { lower = tt; upper = tt; leftmost = refl }) q.red_black.balanced tt
        (inl q.red_black.black_root) (omega (arith, lt, ap (length {0}) q.order)) in
    let split = s.around ∙ append-nil (inorder q.tree) ∙ q.order in
    let absent = absent_around se s.hole (ap (count se) split ∙ fresh) in
    let b =
      color_run k.fuel (linked k.timeline s.hole se) s.hole se s.first
        (linked-Focus k.timeline s.hole se s.focus h absent) s.balanced
        (omega (arith, lt, ap (length {0}) split)) in
    record {
      timeline = b.after;
      run = place_run k s.hole se s.first b.after s.focus h absent b.run s.run;
      earlier = befores s.hole;
      later = afters s.hole;
      split = sym split;
      not_later = s.place.lower;
      after_it = s.place.upper;
      queue = record {
        tree = b.tree;
        focus = b.focus;
        order = b.order;
        red_black = b.red_black;
        sorted =
            IsOrdered-insert (distance k base) (befores s.hole) (afters s.hole) se
              (subst (IsOrdered (distance k base)) (sym split) q.sorted) s.place.lower
              s.place.upper;
        within =
            let (we, wl) =
              append-All (λ p. IsWithin base (vruntime_of k p)) (befores s.hole) (afters s.hole)
                (subst (All (λ p. IsWithin base (vruntime_of k p))) (sym split) q.within) in
            All-append (λ p. IsWithin base (vruntime_of k p)) (befores s.hole) (se ∷ afters s.hole)
              we (hv, wl);
        first =
            b.leftmost
            ∙ ap (λ (a : ℕ). if s.first then se else a)
                (graft-leftmost (blank k.timeline s.hole se) s.hole se
                  ∙ q.first
                  ∙ ap head (sym split))
            ∙ head_insert (befores s.hole) (afters s.hole) se s.first s.place.leftmost;
      };
    }
