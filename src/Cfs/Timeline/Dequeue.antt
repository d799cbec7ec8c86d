-- ===== src/Cfs/Timeline/Dequeue.antt =====
-- `__dequeue_entity` of src/fair.c for the first entity of the timeline.
use rpi_os_cfs_ext.Base.{
  ℕ, ◌<◌, ◌≡◌, inl, refl, arith, Option, some, ◌==◌, List, [], ◌∷◌, ◌++◌, length, length-append,
  sym, ap, subst, ◌∙◌,
}
use rpi_os_cfs_ext.Base.Ordered.{head}
use rpi_os_cfs_ext.Rbtree.{Rb, rb_next}
use rpi_os_cfs_ext.Rbtree.Shape.{Tree, leaf, node, inorder, top, Focus}
use rpi_os_cfs_ext.Rbtree.Shape.Balance.{IsBalanced, IsRedBlack}
use rpi_os_cfs_ext.Rbtree.Shape.Hole.{befores, afters, inorder-around, steps-le}
use rpi_os_cfs_ext.Rbtree.Insert.Cases.{is_self}
use rpi_os_cfs_ext.Rbtree.Erase.{rb_erase_cached, rb_erase_augmented}
use rpi_os_cfs_ext.Rbtree.Erase.Unlink.{rebalanced, unlink-Rebalanced}
use rpi_os_cfs_ext.Rbtree.Erase.First.{AtFirst, find_first, rb_next-first}
use rpi_os_cfs_ext.Cfs.State.{Kernel, on_tree}
use rpi_os_cfs_ext.Cfs.Queue.{erase_entity}
use rpi_os_cfs_ext.Cfs.Timeline.{IsTimeline}

abbrev pub tail : List ℕ → List ℕ
tail [] = []
tail (x ∷ xs) = xs

first_of :
    (t : Rb) (x : Tree) (m p : ℕ) (ps : List ℕ)
    → Focus t top x
    → IsBalanced x m
    → IsRedBlack x
    → inorder x ≡ p ∷ ps
    → AtFirst t (inorder x)
first_of t leaf m p ps f h rb e = absurd (ground (arith, ap (length {0}) e))
first_of t (node l b a r) m p ps f h rb e =
    find_first t top l b a r m f refl h tt (inl rb.black_root)

-- What is left and right of the hole in place of the first node.
parts :
    (t : Rb) (p : ℕ) (ps : List ℕ)
    → (s : AtFirst t (p ∷ ps)) → (s.first ≡ p) × (inorder s.rest ++ afters s.spine ≡ ps)
parts t p ps s =
    let e =
      sym (
        inorder-around s.spine (node leaf s.color s.first s.rest)
        ∙ ap (λ (b : List ℕ). b ++ (s.first ∷ inorder s.rest ++ afters s.spine)) s.no_before)
      ∙ s.order in
    (ap head e, ap tail e)

next_run :
    (fuel : ℕ) (t : Rb) (n h : ℕ) (r : Option (Unit {0} × Rb))
    → t.leftmost ≡ n
    → rb_next fuel n t ≡ some (h, t)
    → rebalanced fuel (rb_erase_augmented fuel n (record t { leftmost = h })) ≡ r
    → rb_erase_cached fuel n t ≡ r
unfolding rb_erase_cached
next_run fuel t n h r e next done = rw (ap (λ (a : ℕ). a == n) e ∙ is_self n, next) done

record WithoutFirst (t : Rb) (n : ℕ) (nodes : List ℕ) (fuel : ℕ) : Type 0 where
  after : Rb
  run : rb_erase_cached fuel n t ≡ some (tt, after)
  tree : Tree
  focus : Focus after top tree
  order : inorder tree ≡ nodes
  red_black : IsRedBlack tree
  cached : after.leftmost ≡ head nodes

without_first :
    (fuel : ℕ) (t : Rb) (p : ℕ) (ps : List ℕ)
    → (s : AtFirst t (p ∷ ps)) → t.leftmost ≡ p
    → length ps < fuel
    → WithoutFirst t s.first ps fuel
without_first fuel t p ps s cached lt =
    let (first, rest) = parts t p ps s in
    let t1 = record t { leftmost = head ps } in
    let f1 : Focus t1 s.spine (node leaf s.color s.first s.rest) = record {
      rep = s.focus.rep;
      rep_spine = s.focus.rep_spine;
      distinct = s.focus.distinct;
    } in
    let sizes = ap (length {0}) rest in
    let behind = length-append {0} (inorder s.rest) (afters s.spine) in
    let around = length-append {0} (befores s.spine) (afters s.spine) in
    let none_before = ap (length {0}) s.no_before in
    let b =
      unlink-Rebalanced fuel t1 s.spine s.color s.first s.height s.rest f1 s.balanced s.around
        s.free (omega (arith, lt, sizes, steps-le s.spine, around, behind, none_before)) in
    record {
      after = b.after;
      run =
          next_run fuel t s.first (head ps) _ (cached ∙ sym first)
            (rb_next-first fuel t s.spine s.color s.first s.rest s.focus s.no_before
                (omega (arith, lt, sizes, behind))
              ∙ ap (λ (l : List ℕ). some (head l, t)) rest)
            b.run;
      tree = b.tree;
      focus = b.focus;
      order =
          b.order
          ∙ inorder-around s.spine s.rest
          ∙ ap (λ (l : List ℕ). l ++ (inorder s.rest ++ afters s.spine)) s.no_before
          ∙ rest;
      red_black = b.red_black;
      cached = b.same_leftmost;
    }

-- `__dequeue_entity` of the first task of a timeline, with more fuel than tasks behind it, leaves
-- the timeline of the others.
pub erase_entity-IsTimeline :
    (k : Kernel) (base x : ℕ) (xs : List ℕ)
    → IsTimeline k base (x ∷ xs)
    → length xs < k.fuel
    → (timeline : Rb) × (erase_entity x k ≡ some (tt, record k { timeline = timeline }))
      × IsTimeline (record k { timeline = timeline }) base xs
unfolding erase_entity on_tree
erase_entity-IsTimeline k base x xs q lt =
    let s = subst (AtFirst k.timeline) q.order (
      first_of k.timeline q.tree q.red_black.height x xs q.focus q.red_black.balanced q.red_black
        q.order) in
    let b = without_first k.fuel k.timeline x xs s q.first lt in
    let run =
      subst (λ (n : ℕ). rb_erase_cached k.fuel n k.timeline ≡ some (tt, b.after))
        (parts k.timeline x xs s).0 b.run in
    (
      b.after,
      rw (on_tree, run) refl,
      record {
        tree = b.tree;
        focus = b.focus;
        order = b.order;
        red_black = b.red_black;
        sorted = q.sorted.1;
        within = q.within.1;
        first = b.cached;
      },
    )
