-- ===== src/Rbtree/Erase/Black.antt =====
-- The rounds of `__rb_erase_color` whose sibling and nephews are black, and the choice among the cases.
use rpi_os_cfs_ext.Base.{
  ℕ, suc, ◌+◌, ◌≤◌, ◌≡◌, inl, inr, refl, arith, Bool, true, false, ◌==◌, ap, sym, if◌then◌else◌,
  pure, and_then, Bool-cases,
}
use rpi_os_cfs_ext.Rbtree.{Rb, Side, left, right, M}
use rpi_os_cfs_ext.Rbtree.Shape.{
  Tree, leaf, node, addr, is_black, sided, addr-sided, Store, Rep, Spine, top, step, plug, inorder,
  Focus,
}
use rpi_os_cfs_ext.Rbtree.Shape.Writes.{address_ne}
use rpi_os_cfs_ext.Rbtree.Shape.Balance.{
  IsBalanced, IsBalancedAround, IsRedBlack, plug-IsRedBlack, plug-Focus, black-sided, red-sided,
  is_black-sided, inorder-plug,
}
use rpi_os_cfs_ext.Rbtree.Insert.Cases.{Rebalanced, retarget}
use rpi_os_cfs_ext.Rbtree.Insert.Round.{steps}
use rpi_os_cfs_ext.Rbtree.Erase.{push_up, finish, erase_color}
use rpi_os_cfs_ext.Rbtree.Erase.Pivot.{IsPivot}
use rpi_os_cfs_ext.Rbtree.Erase.Push.{Pushed, push_up_red, push_up_black}
use rpi_os_cfs_ext.Rbtree.Erase.Settle.{
  IsUnder, parent-Rebalanced, inorder-far, blackened-IsBalanced,
}
use rpi_os_cfs_ext.Rbtree.Erase.Round.{
  settle, settle_push, settle_turn, settle_rotate, turn-Rebalanced,
}

-- What the loop does with less fuel, one level up.
abbrev pub Continues : ℕ → Type 0
Continues fuel =
    (t : Rb) (d : Side) (b : Bool) (p m : ℕ) (v : Tree) (c : Spine) (x : Tree)
    → Focus t (step d b p v c) x
    → IsBalanced x m
    → IsBalancedAround (step d b p v c) (suc m)
    → suc (steps c) ≤ fuel
    → Rebalanced t (inorder (plug (step d b p v c) x)) (erase_color fuel (addr x) p t)

inorder-pushed :
    (c : Spine) (d : Side) (b : Bool) (p k : ℕ) (x y z : Tree)
    → inorder (plug c (sided d x b p (sided d y true k z)))
      ≡ inorder (plug c (sided d x true p (sided d y false k z)))
inorder-pushed c d b p k x y z =
    inorder-plug c _ _ (inorder-far d x _ _ b true p (inorder-far d y z z true false k refl))

pushed-IsBalanced :
    (d : Side) (p k m : ℕ) (x y z : Tree)
    → IsBalanced x m
    → IsBalanced y m
    → IsBalanced z m
    → is_black y ≡ true
    → is_black z ≡ true
    → IsBalanced (sided d x true p (sided d y false k z)) (suc m)
pushed-IsBalanced d p k m x y z hx hy hz by bz =
    black-sided d x p (sided d y false k z) m hx (red-sided d y k z m hy hz by bz)

-- The loop ends at this tree.
ended :
    (fuel : ℕ) (t : Rb) (c : Spine) (x : Tree) (p : ℕ) (r : M ℕ)
    → Pushed t c x 0 r
    → IsRedBlack (plug c x)
    → Rebalanced t
        (inorder (plug c x))
        (and_then (r t) (λ above. if above == 0 then pure tt else erase_color fuel p above))
ended fuel t c x p r e rb = record {
  after = e.after;
  run = rw e.run refl;
  tree = plug c x;
  focus = plug-Focus e.after c x e.focus;
  order = refl;
  red_black = rb;
  same_leftmost = e.same_leftmost;
}

push-Rebalanced :
    (fuel : ℕ) (t : Rb) (c : Spine) (d : Side) (p k m : ℕ) (x y z : Tree) (b : Bool)
    → Continues fuel
    → IsPivot t t.nodes c d p k x y z b (p + 1) k k k
    → IsUnder b c m
    → IsBalanced (sided d x true p (sided d y false k z)) (suc m)
    → (b ≡ true → steps c ≤ fuel)
    → Rebalanced t (inorder (plug c (sided d x true p (sided d y false k z)))) (
        and_then
          (push_up p k t)
          (λ above. if above == 0 then pure tt else erase_color fuel p above))
push-Rebalanced fuel t c d p k m x y z false ih o (ub, u) h lt =
    ended fuel t c (sided d x true p (sided d y false k z)) p (push_up p k)
      (push_up_red t c d p k x y z o)
      (plug-IsRedBlack c (sided d x true p (sided d y false k z)) (suc m) u h (inr ub))
push-Rebalanced fuel t top d p k m x y z true ih o u h lt =
    ended fuel t top (sided d x true p (sided d y false k z)) p (push_up p k)
      (push_up_black t top d p k x y z o)
      (plug-IsRedBlack top (sided d x true p (sided d y false k z)) (suc m) tt h
        (inl (is_black-sided d x true p (sided d y false k z))))
push-Rebalanced fuel t (step e b' g v c) d p k m x y z true ih o u h lt =
    let f = push_up_black t (step e b' g v c) d p k x y z o in
    let w = sided d x true p (sided d y false k z) in
    retarget t f.after _ _ _ _ f.same_leftmost refl
      (rw (f.run, address_ne g f.focus.rep_spine.0)
        (ap (λ (n : ℕ). erase_color fuel n g f.after)
          (sym (addr-sided d x true p (sided d y false k z)))))
      (ih f.after e b' g (suc m) v c w f.focus h u (lt refl))

red-Rebalanced :
    (t : Rb) (c : Spine) (d : Side) (p k m : ℕ) (x y z : Tree) (b : Bool)
    → IsPivot t t.nodes c d p k x y z b (p + 1) k k k
    → IsUnder b c m
    → IsBalanced x m
    → IsBalanced y m
    → IsBalanced z m
    → is_black y ≡ false
    → Rebalanced t
        (inorder (plug c (sided d x b p (sided d y true k z))))
        (finish d p k (addr z) (addr y) true t)
red-Rebalanced t c d p k m x leaf z b o u hx hy hz e = absurd (ground arith)
red-Rebalanced t c d p k m x (node l true w r) z b o u hx hy hz e = absurd (ground arith)
red-Rebalanced t c left p k m x (node l false w r) z b o u hx (hl, hr, bl, br) hz e =
    turn-Rebalanced t c left p k w m x l r z b o br u hx hl hr hz
red-Rebalanced t c right p k m x (node l false w r) z b o u hx (hl, hr, bl, br) hz e =
    turn-Rebalanced t c right p k w m x r l z b o bl u hx hr hl hz

red_address : (z : Tree) → is_black z ≡ false → addr z ≡ 0 → (s : Store) (q : ℕ) → Rep s q z → ⊥
red_address leaf e h s q r = ground arith
red_address (node l b a y) e h s q r = r.0.0 h

pub settle-Rebalanced :
    (fuel : ℕ) (t : Rb) (c : Spine) (d : Side) (p k m : ℕ) (x y z : Tree) (b : Bool)
    → Continues fuel
    → IsPivot t t.nodes c d p k x y z b (p + 1) k k k
    → IsUnder b c m
    → IsBalanced x m
    → IsBalanced y m
    → IsBalanced z m
    → (b ≡ true → steps c ≤ fuel)
    → Rebalanced t (inorder (plug c (sided d x b p (sided d y true k z)))) (settle fuel d p k t)
unfolding finish
settle-Rebalanced fuel t c d p k m x y z b ih o u hx hy hz lt = elim (Bool-cases (is_black z)) [
  | inr bz ↦ retarget t t _ _ _ _ refl refl (settle_rotate fuel t c d p k x y z b o _ bz refl) (
      parent-Rebalanced t t.nodes c d b true p k m x y z (p + 1) k k k o o.address.1.1
        (λ h. red_address z bz h t.nodes k o.rep_z) u hx hy (blackened-IsBalanced z m hz bz).0)
  | inl bz ↦ elim (Bool-cases (is_black y)) [
    | inr by ↦
        retarget t t _ _ _ _ refl refl (settle_turn fuel t c d p k x y z b o _ bz by refl)
          (red-Rebalanced t c d p k m x y z b o u hx hy hz by)
    | inl by ↦
        retarget t t _ _ _ _ refl (inorder-pushed c d b p k x y z)
          (settle_push fuel t c d p k x y z b o _ bz by refl)
          (push-Rebalanced fuel t c d p k m x y z b ih o u
            (pushed-IsBalanced d p k m x y z hx hy hz by bz) lt)
  ]
]
