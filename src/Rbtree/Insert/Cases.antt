-- ===== src/Rbtree/Insert/Cases.antt =====
-- The rotations of `__rb_insert` on red-black trees.
use rpi_os_cfs_ext.Base.{
  ℕ, suc, ◌<◌, ◌≡◌, ◌≢◌, inl, refl, arith, true, false, Option, some, ◌==◌, List, ◌∙◌, sym,
}
use rpi_os_cfs_ext.Rbtree.{Rb, Side}
use rpi_os_cfs_ext.Rbtree.Shape.{
  Tree, leaf, node, addr, is_black, cell, sided, inorder, IsAddress, Store, Spine, top, plug,
  occurs, addr-absent, Focus, once_self,
}
use rpi_os_cfs_ext.Rbtree.Shape.Writes.{on, load-on, child-cell}
use rpi_os_cfs_ext.Rbtree.Shape.Balance.{
  IsBalanced, IsBalancedAround, IsRedBlack, plug-IsRedBlack, plug-Focus, black-sided, red-sided,
  is_black-sided, inorder-rotated, inorder-plug, inorder-sided,
}
use rpi_os_cfs_ext.Rbtree.Insert.{turn, rotate, restructure}
use rpi_os_cfs_ext.Rbtree.Insert.Rotate.{
  IsOuter, rotated, rotate_after, rotate_run, rotate-Focus, rotate-leftmost,
}
use rpi_os_cfs_ext.Rbtree.Insert.Turn.{IsInner, turn_after, turn_run, turn-IsOuter}

-- A run that ends with a red-black tree of the nodes `xs` in this order, and the leftmost node not
-- changed.
pub record Rebalanced (t : Rb) (xs : List ℕ) (r : Option (Unit {0} × Rb)) : Type 0 where
  pub after : Rb
  pub run : r ≡ some (tt, after)
  pub tree : Tree
  pub focus : Focus after top tree
  pub order : inorder tree ≡ xs
  pub red_black : IsRedBlack tree
  pub same_leftmost : after.leftmost ≡ t.leftmost

-- Another run with the same result, and the order written in another way.
pub retarget :
    (t t' : Rb) (xs ys : List ℕ) (r r' : Option (Unit {0} × Rb))
    → t'.leftmost ≡ t.leftmost
    → xs ≡ ys
    → r ≡ r'
    → Rebalanced t' ys r'
    → Rebalanced t xs r
retarget t t' xs ys r r' first e e' b = record {
  after = b.after;
  run = e' ∙ b.run;
  tree = b.tree;
  focus = b.focus;
  order = b.order ∙ sym e;
  red_black = b.red_black;
  same_leftmost = b.same_leftmost ∙ first;
}

root-occurs : (x : Tree) → addr x ≢ 0 → 0 < occurs (addr x) x
root-occurs leaf h = absurd (h refl)
root-occurs (node l b a r) h = omega (arith, once_self a)

pub is_other : (p q : ℕ) → p ≢ q → (p == q) ≡ false
is_other p q h = ground (arith, h)

pub is_self : (p : ℕ) → (p == p) ≡ true
is_self p = ground arith

restructure_outer :
    (t : Rb) (s : Store) (d : Side) (n p g pc f : ℕ)
    → IsAddress p
    → s p ≡ cell d pc n f
    → n ≢ f
    → restructure d n p g (on t s) ≡ rotate d p f g (on t s)
unfolding restructure
restructure_outer t s d n p g pc f h e ne =
    rw (load-on t s p h, e, (child-cell d pc n f).1, is_other n f ne) refl

restructure_inner :
    (t : Rb) (s s' : Store) (d : Side) (n p g pc v z : ℕ)
    → IsAddress p
    → s p ≡ cell d pc v n
    → turn d n p (on t s) ≡ some ((n, z), on t s')
    → restructure d n p g (on t s) ≡ rotate d n z g (on t s')
unfolding restructure
restructure_inner t s s' d n p g pc v z h e run =
    rw (load-on t s p h, e, (child-cell d pc v n).1, is_self n, run) refl

module _ (t : Rb) (c : Spine) (m : ℕ) (around : IsBalancedAround c (suc m)) where
  rotate-Rebalanced :
      (s : Store) (d : Side) (p g : ℕ) (x y u : Tree) (pc old q : ℕ)
      → IsOuter t s c d p g x y u pc old q
      → IsBalanced x m
      → IsBalanced y m
      → IsBalanced u m
      → is_black u ≡ true
      → Rebalanced t (inorder (plug c (rotated d p g x y u))) (rotate d p (addr y) g (on t s))
  rotate-Rebalanced s d p g x y u pc old q o hx hy hu bu = record {
    after = rotate_after t s c d p g x y u pc old q o;
    run = rotate_run t s c d p g x y u pc old q o;
    tree = plug c (rotated d p g x y u);
    focus = plug-Focus _ c (rotated d p g x y u) (rotate-Focus t s c d p g x y u pc old q o);
    order = refl;
    red_black =
        plug-IsRedBlack c (rotated d p g x y u) (suc m) around
          (black-sided d x p (sided d y false g u) m hx (red-sided d y g u m hy hu o.black_y bu))
          (inl (is_black-sided d x true p (sided d y false g u)));
    same_leftmost = rotate-leftmost t s c d p g x y u pc old q o;
  }

  -- The node, the root of `x`, is the near child of `p`.
  pub outer-Rebalanced :
      (s : Store) (d : Side) (p g : ℕ) (x y u : Tree) (pc old q : ℕ)
      → IsOuter t s c d p g x y u pc old q
      → addr x ≢ 0
      → IsBalanced x m
      → IsBalanced y m
      → IsBalanced u m
      → is_black u ≡ true
      → Rebalanced t
          (inorder (plug c (sided d (sided d x false p y) true g u)))
          (restructure d (addr x) p g (on t s))
  outer-Rebalanced s d p g x y u pc old q o hn hx hy hu bu =
      retarget t t _ _ _ _ refl
        (inorder-plug c (sided d (sided d x false p y) true g u) (rotated d p g x y u)
          (inorder-rotated d x y u false true true false p g))
        (restructure_outer t s d (addr x) p g pc (addr y) o.address.0 o.at_p (λ e.
          addr-absent (addr x) y hn (omega (arith, root-occurs x hn, o.distinct (addr x))) (sym e)))
        (rotate-Rebalanced s d p g x y u pc old q o hx hy hu bu)

  -- The node `n` is the far child of `p`.
  pub inner-Rebalanced :
      (s : Store) (d : Side) (n p g : ℕ) (v y z u : Tree) (pcn pcp : ℕ)
      → IsInner t s c d n p g v y z u pcn pcp
      → IsBalanced v m
      → IsBalanced y m
      → IsBalanced z m
      → IsBalanced u m
      → is_black v ≡ true
      → is_black u ≡ true
      → Rebalanced t
          (inorder (plug c (sided d (sided d v false p (sided d y false n z)) true g u)))
          (restructure d n p g (on t s))
  inner-Rebalanced s d n p g v y z u pcn pcp i hv hy hz hu bv bu =
      let s' = turn_after t s c d n p g v y z u pcn pcp i in
      retarget t t _ _ _ _ refl
        (inorder-plug c (sided d (sided d v false p (sided d y false n z)) true g u)
          (rotated d n g (sided d v false p y) z u)
          (inorder-sided d _ _ true true g u
              (sym (inorder-rotated d v y z false false false false p n))
            ∙ inorder-rotated d (sided d v false p y) z u false true true false n g))
        (restructure_inner t s s' d n p g pcp (addr v) (addr z) i.address.1 i.at_p
          (turn_run t s c d n p g v y z u pcn pcp i))
        (rotate-Rebalanced s' d n g (sided d v false p y) z u pcn p n
          (turn-IsOuter t s c d n p g v y z u pcn pcp i) (red-sided d v p y m hv hy bv i.black_yz.0)
          hz hu bu)
