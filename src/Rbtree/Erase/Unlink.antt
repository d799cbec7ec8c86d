-- ===== src/Rbtree/Erase/Unlink.antt =====
-- Case 1 of `__rb_erase_augmented`: a node without a left child.
use rpi_os_cfs_ext.Base.{
  ℕ, suc, ◌+◌, ◌≤◌, ◌≡◌, inl, inr, refl, arith, Bool, true, false, Option, some, ◌==◌, ap, ◌∙◌, sym,
  subst, if◌then◌else◌, not, and_then, when, update,
}
use rpi_os_cfs_ext.Rbtree.{Rb, left, change_child}
use rpi_os_cfs_ext.Rbtree.Shape.{
  Tree, leaf, node, addr, is_black, paint, cell, RepSpine-frame, occurs, once_self, Spine, top,
  step, up, plug, inorder, Focus, occurs_spine,
}
use rpi_os_cfs_ext.Rbtree.Shape.Writes.{
  on, load-on, address_ne, parent_of_flagged, set_word, update-at, update-else, once_at,
}
use rpi_os_cfs_ext.Rbtree.Shape.Graft.{
  graft, graft-else, graft-RepSpine, graft-leftmost, change_child_lem, up-aligned,
}
use rpi_os_cfs_ext.Rbtree.Shape.Balance.{
  IsBalanced, IsBalancedAround, plug-IsRedBlack, plug-Focus, inorder-plug,
}
use rpi_os_cfs_ext.Rbtree.Shape.Hole.{IsFree}
use rpi_os_cfs_ext.Rbtree.Insert.Cases.{Rebalanced, retarget}
use rpi_os_cfs_ext.Rbtree.Insert.Round.{rb_is_black-on, steps}
use rpi_os_cfs_ext.Rbtree.Erase.{unlink_leaf, rb_erase_augmented, erase_color}
use rpi_os_cfs_ext.Rbtree.Erase.Loop.{erase_color_lem}

-- The rest of `rb_erase_cached` after a node was unlinked.
abbrev pub rebalanced : ℕ → Option (ℕ × Rb) → Option (Unit {0} × Rb)
rebalanced fuel r =
    and_then r (λ rebalance. when (not (rebalance == 0)) (erase_color fuel 0 rebalance))

settled :
    (fuel : ℕ) (t after : Rb) (c : Spine) (x : Tree) (n : ℕ) (r : Option (ℕ × Rb))
    → r ≡ some (0, after)
    → Focus after c x
    → IsBalanced x n
    → IsBalancedAround c n
    → IsFree x c
    → after.leftmost ≡ t.leftmost
    → Rebalanced t (inorder (plug c x)) (rebalanced fuel r)
settled fuel t after c x n r e f hx hc free first = record {
  after = after;
  run = rw e refl;
  tree = plug c x;
  focus = plug-Focus after c x f;
  order = refl;
  red_black = plug-IsRedBlack c x n hc hx free;
  same_leftmost = first;
}

-- The hole lacks a black node.
lacking :
    (fuel : ℕ) (t after : Rb) (c : Spine) (r : Option (ℕ × Rb))
    → r ≡ some (up c, after)
    → Focus after c leaf
    → IsBalancedAround c 1
    → after.leftmost ≡ t.leftmost
    → steps c ≤ fuel
    → Rebalanced t (inorder (plug c leaf)) (rebalanced fuel r)
lacking fuel t after top r e f hc first lt =
    settled fuel t after top leaf 0 r e f refl tt (inl refl) first
lacking fuel t after (step d b p v c) r e f hc first lt =
    retarget t after _ _ _ _ first refl (rw (e, address_ne p f.rep_spine.0) refl)
      (erase_color_lem fuel after d b p 0 v c leaf f refl hc lt)

module _ (t : Rb) (c : Spine) (b : Bool) (n : ℕ) (r : Tree) (f : Focus t c (node leaf b n r)) where
  absent : (occurs n r ≡ 0) × (occurs_spine n c ≡ 0)
  absent = omega (arith, f.distinct n, once_self n)

  graft_run : change_child n (addr r) (up c) t ≡ some (tt, graft c (addr r) t)
  graft_run = change_child_lem t c n (addr r) f.rep.0.0 absent.1 f.rep_spine

  grafted-else : (a : ℕ) → occurs_spine a c ≡ 0 → (graft c (addr r) t).nodes a ≡ t.nodes a
  grafted-else a h = graft-else t c (addr r) a h

-- A leaf of the tree.
leaf_run :
    (t : Rb) (c : Spine) (b : Bool) (n : ℕ)
    → Focus t c (node leaf b n leaf)
    → unlink_leaf n 0 t ≡ some ((if b then up c else 0), graft c 0 t)
unfolding unlink_leaf
leaf_run t c b n f =
    let aligned = up-aligned t.nodes t.root c n f.rep_spine in
    rw
      (
        load-on t t.nodes n f.rep.0,
        f.rep.1,
        parent_of_flagged (up c) b aligned,
        graft_run t c b n leaf f,
        rb_is_black-on (graft c 0 t) n (up c) left b 0 0 f.rep.0 aligned
            (grafted-else t c b n leaf f n (absent t c b n leaf f).1 ∙ f.rep.1),
      )
      refl

leaf-Focus :
    (t : Rb) (c : Spine) (b : Bool) (n : ℕ)
    → Focus t c (node leaf b n leaf)
    → Focus (graft c 0 t) c leaf
leaf-Focus t c b n f = record {
  rep = tt;
  rep_spine = graft-RepSpine t c n 0 (λ a. omega (arith, f.distinct a)) f.rep_spine;
  distinct = λ a. omega (arith, f.distinct a);
}

child_absent :
    (t : Rb) (c : Spine) (b bk : Bool) (n k : ℕ)
    → Focus t c (node leaf b n (node leaf bk k leaf))
    → occurs_spine k c ≡ 0
child_absent t c b bk n k f = omega (arith, f.distinct k, once_self k)

-- A black node over one red child, which takes its place and its word.
child_run :
    (t : Rb) (c : Spine) (b bk : Bool) (n k : ℕ)
    → Focus t c (node leaf b n (node leaf bk k leaf))
    → unlink_leaf n k t
      ≡ some (0, on (graft c k t) (update (graft c k t).nodes k (cell left (up c + paint b) 0 0)))
unfolding unlink_leaf
child_run t c b bk n k f =
    let aligned = up-aligned t.nodes t.root c n f.rep_spine in
    let (hk, at_k, _, _) = f.rep.3 in
    rw
      (
        load-on t t.nodes n f.rep.0,
        f.rep.1,
        parent_of_flagged (up c) b aligned,
        graft_run t c b n (node leaf bk k leaf) f,
        address_ne k hk,
        set_word (graft c k t) (graft c k t).nodes k hk left (n + paint bk) 0 0
            (graft-else t c k k (child_absent t c b bk n k f) ∙ at_k) (up c + paint b),
      )
      refl

child-Focus :
    (t : Rb) (c : Spine) (b bk : Bool) (n k : ℕ)
    → Focus t c (node leaf b n (node leaf bk k leaf))
    → Focus
        (on (graft c k t) (update (graft c k t).nodes k (cell left (up c + paint b) 0 0)))
        c
        (node leaf b k leaf)
child-Focus t c b bk n k f = record {
  rep = (f.rep.3.0, update-at (graft c k t).nodes k _, tt, tt);
  rep_spine =
      RepSpine-frame (graft c k t).nodes _ (graft c k t).root c k
        (λ a lt.
          update-else (graft c k t).nodes k a _
            (λ z. absurd (omega (arith, f.distinct a, once_at k a z))))
        (graft-RepSpine t c n k (λ a. omega (arith, f.distinct a)) f.rep_spine);
  distinct = λ a. omega (arith, f.distinct a);
}

erase_run :
    (fuel : ℕ) (t : Rb) (c : Spine) (b : Bool) (n : ℕ) (r : Tree)
    → Focus t c (node leaf b n r)
    → (s : Option (ℕ × Rb)) → unlink_leaf n (addr r) t ≡ s
    → rb_erase_augmented fuel n t ≡ s
unfolding rb_erase_augmented
erase_run fuel t c b n r f s e = rw (load-on t t.nodes n f.rep.0, f.rep.1) e

-- In a balanced tree a right child alone is red, and a leaf.
is_leaf : (x : Tree) → IsBalanced x 0 → is_black x ≡ true → x ≡ leaf
is_leaf leaf h e = refl
is_leaf (node l true a r) (m, e, _, _) b = absurd (omega arith)
is_leaf (node l false a r) h b = absurd (ground arith)

abbrev ChildCase : ℕ → Rb → Spine → ℕ → ℕ → Tree → Tree → Type 0
ChildCase fuel t c n a l r =
    Focus t c (node leaf true n (node l false a r))
    → Rebalanced t (inorder (plug c (node l false a r)))
        (rebalanced fuel (rb_erase_augmented fuel n t))

child_case :
    (fuel : ℕ) (t : Rb) (c : Spine) (n a : ℕ)
    → Focus t c (node leaf true n (node leaf false a leaf))
    → IsBalancedAround c 1
    → Rebalanced t
        (inorder (plug c (node leaf false a leaf)))
        (rebalanced fuel (rb_erase_augmented fuel n t))
child_case fuel t c n a f hc =
    let s = graft c a t in
    let after = on s (update s.nodes a (cell left (up c + paint true) 0 0)) in
    retarget t t _ _ _ _ refl (inorder-plug c (node leaf false a leaf) (node leaf true a leaf) refl)
      refl
      (settled fuel t after c (node leaf true a leaf) 1 _
        (erase_run fuel t c true n (node leaf false a leaf) f _ (child_run t c true false n a f))
        (child-Focus t c true false n a f) (0, refl, refl, refl) hc (inl refl)
        (graft-leftmost t c a))

-- What `rb_erase_augmented` and the balancing do to a node without a left child.
pub unlink-Rebalanced :
    (fuel : ℕ) (t : Rb) (c : Spine) (b : Bool) (n m : ℕ) (r : Tree)
    → Focus t c (node leaf b n r)
    → IsBalanced (node leaf b n r) m
    → IsBalancedAround c m
    → IsFree (node leaf b n r) c
    → steps c ≤ fuel
    → Rebalanced t (inorder (plug c r)) (rebalanced fuel (rb_erase_augmented fuel n t))
unlink-Rebalanced fuel t c true n m leaf f (k, e, hl, hr) hc free lt =
    lacking fuel t (graft c 0 t) c _ (erase_run fuel t c true n leaf f _ (leaf_run t c true n f))
      (leaf-Focus t c true n f) (subst (IsBalancedAround c) (e ∙ ap suc hl) hc)
      (graft-leftmost t c 0) lt
unlink-Rebalanced fuel t c false n m leaf f (hl, hr, _, _) hc (inl z) lt = absurd (ground arith)
unlink-Rebalanced fuel t c false n m leaf f (hl, hr, _, _) hc (inr u) lt =
    settled fuel t (graft c 0 t) c leaf 0 _
      (erase_run fuel t c false n leaf f _ (leaf_run t c false n f)) (leaf-Focus t c false n f) refl
      (subst (IsBalancedAround c) hl hc) (inl refl) (graft-leftmost t c 0)
unlink-Rebalanced fuel t c false n m (node l true a r) f (hl, (k, e, _, _), _, _) hc free lt =
    absurd (omega (arith, e, hl))
unlink-Rebalanced fuel t c false n m (node l false a r) f (_, _, _, br) hc free lt =
    absurd (ground arith)
unlink-Rebalanced fuel t c true n m (node l true a r) f (k, e, hl, (j, e', _, _)) hc free lt =
    absurd (omega (arith, e', hl))
unlink-Rebalanced fuel t c true n m (node l false a r) f (k, e, hk, (hl, hr, bl, br)) hc free lt =
    let el = is_leaf l (subst (IsBalanced l) hk hl) bl in
    let er = is_leaf r (subst (IsBalanced r) hk hr) br in
    subst (λ (x : Tree). ChildCase fuel t c n a x r) (sym el)
      (subst (λ (x : Tree). ChildCase fuel t c n a leaf x) (sym er)
        (λ f. child_case fuel t c n a f (subst (IsBalancedAround c) (e ∙ ap suc hk) hc)))
      f
