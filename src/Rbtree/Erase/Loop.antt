-- ===== src/Rbtree/Erase/Loop.antt =====
-- The loop of `__rb_erase_color` on a balanced tree with one black node too few on one way down.
use rpi_os_cfs_ext.Base.{
  ℕ, zero, suc, ◌+◌, ◌≤◌, ◌≡◌, ◌⊎◌, inl, inr, refl, arith, Bool, true, false, subst,
}
use rpi_os_cfs_ext.Rbtree.{Rb, Side, left, right}
use rpi_os_cfs_ext.Rbtree.Shape.{
  Tree, leaf, node, addr, is_black, sided, addr-sided, Spine, step, plug, inorder, Focus,
}
use rpi_os_cfs_ext.Rbtree.Shape.Balance.{IsBalanced, IsBalancedAround, is_black-sided}
use rpi_os_cfs_ext.Rbtree.Insert.Cases.{Rebalanced, retarget}
use rpi_os_cfs_ext.Rbtree.Insert.Round.{steps}
use rpi_os_cfs_ext.Rbtree.Shape.Hole.{Focus-left, Focus-right}
use rpi_os_cfs_ext.Rbtree.Erase.{erase_color}
use rpi_os_cfs_ext.Rbtree.Erase.Pivot.{IsPivot}
use rpi_os_cfs_ext.Rbtree.Erase.Rotations.{
  sibling_after, rotate_sibling_run, sibling-Focus, sibling-leftmost,
}
use rpi_os_cfs_ext.Rbtree.Erase.Push.{Rep-unsided, Focus-IsPivot}
use rpi_os_cfs_ext.Rbtree.Erase.Settle.{IsUnder, inorder-pivoted}
use rpi_os_cfs_ext.Rbtree.Erase.Round.{round, sided-address}
use rpi_os_cfs_ext.Rbtree.Erase.Black.{Continues, settle-Rebalanced}

-- The sibling's colour, as the path has it.
IsUnder-of :
    (d : Side) (b : Bool) (p m : ℕ) (v : Tree) (c : Spine)
    → IsBalancedAround (step d b p v c) (suc m)
    → IsUnder b c m × IsBalanced v (suc m) × ((b ≡ true) ⊎ (is_black v ≡ true))
IsUnder-of d true p m v c (hv, hc) = (hc, hv, inl refl)
IsUnder-of d false p m v c (hv, bv, ub, hc) = ((ub, hc), hv, inr bv)

at_black :
    (fuel : ℕ) (t : Rb) (c : Spine) (d : Side) (p k m : ℕ) (x y z : Tree) (b : Bool)
    → Continues fuel
    → IsPivot t t.nodes c d p k x y z b (p + 1) k k k
    → IsUnder b c m
    → IsBalanced x m
    → IsBalanced y m
    → IsBalanced z m
    → (b ≡ true → steps c ≤ fuel)
    → Rebalanced t
        (inorder (plug c (sided d x b p (sided d y true k z))))
        (erase_color (suc fuel) (addr x) p t)
at_black fuel t c d p k m x y z b ih o u hx hy hz lt =
    retarget t t _ _ _ _ refl refl (round fuel t c d p k x y z b true o _ refl)
      (settle-Rebalanced fuel t c d p k m x y z b ih o u hx hy hz lt)

Focus-down :
    (t : Rb) (c : Spine) (d : Side) (x y : Tree) (a : ℕ) (b : Bool)
    → Focus t c (sided d x b a y)
    → Focus t (step d b a y c) x
Focus-down t c left x y a b f = Focus-left t c x y b a f
Focus-down t c right x y a b f = Focus-right t c y x b a f

-- Below a red sibling, whose near child is `sided d y true w z`.
at_red :
    (fuel : ℕ) (t : Rb) (c : Spine) (d : Side) (p k w m : ℕ) (x y z f : Tree)
    → Continues fuel
    → IsPivot t t.nodes c d p k x (sided d y true w z) f true (p + 0) k k k
    → IsBalancedAround c (suc (suc m))
    → IsBalanced x m
    → IsBalanced y m
    → IsBalanced z m
    → IsBalanced f (suc m)
    → Rebalanced t
        (inorder (plug c (sided d x true p (sided d (sided d y true w z) false k f))))
        (erase_color (suc fuel) (addr x) p t)
at_red fuel t c d p k w m x y z f ih o u hx hy hz hf =
    let n = sided d y true w z in
    let ne = sided-address d y true w z (Rep-unsided t.nodes k d y true w z o.rep_y).0.0 in
    let black = is_black-sided d y true w z in
    let t1 = sibling_after t t.nodes c d p k x n f true (p + 0) k k o ne black in
    let down = Focus-down t1 (step d true k f c) d x n p false (
      Focus-down t1 c d (sided d x false p n) f k true
        (sibling-Focus t t.nodes c d p k x n f true (p + 0) k k o ne black)) in
    retarget t t1 _ _ _ _ (sibling-leftmost t t.nodes c d p k x n f true (p + 0) k k o ne black)
      (inorder-pivoted c d true false false true p k x n f f refl)
      (round fuel t c d p k x n f true false o _ (
        rw
          (
            rotate_sibling_run t t.nodes c d p k x n f true (p + 0) k k o ne black,
            addr-sided d y true w z,
          )
          refl))
      (settle-Rebalanced fuel t1 (step d true k f c) d p w m x y z false ih
        (Focus-IsPivot t1 (step d true k f c) d p w x y z false true down) (refl, (hf, u)) hx hy hz
        (λ e. absurd (ground arith)))

below_red :
    (fuel : ℕ) (t : Rb) (c : Spine) (d : Side) (p k m : ℕ) (x y f : Tree)
    → Continues fuel
    → IsPivot t t.nodes c d p k x y f true (p + 0) k k k
    → IsBalancedAround c (suc (suc m))
    → IsBalanced x m
    → IsBalanced y (suc m)
    → is_black y ≡ true
    → IsBalanced f (suc m)
    → Rebalanced t
        (inorder (plug c (sided d x true p (sided d y false k f))))
        (erase_color (suc fuel) (addr x) p t)
below_red fuel t c d p k m x leaf f ih o u hx hy by hf = absurd (omega (arith, hy))
below_red fuel t c d p k m x (node l false w r) f ih o u hx hy by hf = absurd (ground arith)
below_red fuel t c left p k m x (node l true w r) f ih o u hx (n, e, hl, hr) by hf =
    let same : n ≡ m = omega (arith, e) in
    at_red fuel t c left p k w m x l r f ih o u hx (subst (IsBalanced l) same hl)
      (subst (IsBalanced r) same hr) hf
below_red fuel t c right p k m x (node l true w r) f ih o u hx (n, e, hl, hr) by hf =
    let same : n ≡ m = omega (arith, e) in
    at_red fuel t c right p k w m x r l f ih o u hx (subst (IsBalanced r) same hr)
      (subst (IsBalanced l) same hl) hf

-- `erase_color` ends on a tree that lacks a black node below `p` on the side of `x`.
pub erase_color_lem :
    (fuel : ℕ) (t : Rb) (d : Side) (b : Bool) (p m : ℕ) (v : Tree) (c : Spine) (x : Tree)
    → Focus t (step d b p v c) x
    → IsBalanced x m
    → IsBalancedAround (step d b p v c) (suc m)
    → suc (steps c) ≤ fuel
    → Rebalanced t (inorder (plug (step d b p v c) x)) (erase_color fuel (addr x) p t)
erase_color_lem zero t d b p m v c x f hx hc lt = absurd (omega arith)
erase_color_lem (suc fuel) t d b p m leaf c x f hx hc lt =
    absurd (omega (arith, (IsUnder-of d b p m leaf c hc).1))
erase_color_lem (suc fuel) t left b p m (node y true k z) c x f hx hc lt =
    let (u, (n, e, h1, h2), _) = IsUnder-of left b p m (node y true k z) c hc in
    let same : n ≡ m = omega (arith, e) in
    at_black fuel t c left p k m x y z b (erase_color_lem fuel)
      (Focus-IsPivot t c left p k x y z b true f) u hx (subst (IsBalanced y) same h1)
      (subst (IsBalanced z) same h2) (λ _. omega (arith, lt))
erase_color_lem (suc fuel) t right b p m (node z true k y) c x f hx hc lt =
    let (u, (n, e, h1, h2), _) = IsUnder-of right b p m (node z true k y) c hc in
    let same : n ≡ m = omega (arith, e) in
    at_black fuel t c right p k m x y z b (erase_color_lem fuel)
      (Focus-IsPivot t c right p k x y z b true f) u hx (subst (IsBalanced y) same h2)
      (subst (IsBalanced z) same h1) (λ _. omega (arith, lt))
erase_color_lem (suc fuel) t left false p m (node y false k z) c x f hx (_, bv, _, _) lt =
    absurd (ground arith)
erase_color_lem (suc fuel) t right false p m (node y false k z) c x f hx (_, bv, _, _) lt =
    absurd (ground arith)
erase_color_lem (suc fuel) t left true p m (node y false k f) c x g hx hc lt =
    let (u, (h1, h2, b1, b2), _) = IsUnder-of left true p m (node y false k f) c hc in
    below_red fuel t c left p k m x y f (erase_color_lem fuel)
      (Focus-IsPivot t c left p k x y f true false g) u hx h1 b1 h2
erase_color_lem (suc fuel) t right true p m (node f false k y) c x g hx hc lt =
    let (u, (h1, h2, b1, b2), _) = IsUnder-of right true p m (node f false k y) c hc in
    below_red fuel t c right p k m x y f (erase_color_lem fuel)
      (Focus-IsPivot t c right p k x y f true false g) u hx h2 b2 h1
