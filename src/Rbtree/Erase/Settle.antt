-- ===== src/Rbtree/Erase/Settle.antt =====
-- Cases 2, 3 and 4 of `__rb_erase_color`: a black sibling.
use rpi_os_cfs_ext.Base.{ℕ, suc, ◌%◌, ◌≡◌, ◌≢◌, inl, inr, refl, arith, Bool, true, false, ◌∙◌, sym}
use rpi_os_cfs_ext.Rbtree.{Rb, Side, left, right}
use rpi_os_cfs_ext.Rbtree.Shape.{
  Tree, leaf, node, addr, is_black, sided, Store, Spine, plug, inorder,
}
use rpi_os_cfs_ext.Rbtree.Shape.Writes.{on}
use rpi_os_cfs_ext.Rbtree.Shape.Balance.{
  IsBalanced, IsBalancedAround, IsRedBlack, under_black, plug-IsRedBlack, plug-Focus, black-sided,
  red-sided, is_black-sided, inorder-rotated, inorder-plug,
}
use rpi_os_cfs_ext.Rbtree.Insert.Cases.{Rebalanced}
use rpi_os_cfs_ext.Rbtree.Erase.{rotate_parent}
use rpi_os_cfs_ext.Rbtree.Erase.Pivot.{IsPivot}
use rpi_os_cfs_ext.Rbtree.Erase.Rotations.{
  blackened, rotate_parent_run, parent_after, parent-Focus, parent-leftmost,
}

-- A path whose hole takes a node of colour `b` over children of `m` and one black nodes.
abbrev pub IsUnder : Bool → Spine → ℕ → Type 0
IsUnder true c m = IsBalancedAround c (suc (suc m))
IsUnder false c m = (under_black c ≡ true) × IsBalancedAround c (suc m)

inorder-blackened : (x : Tree) → inorder (blackened x) ≡ inorder x
inorder-blackened leaf = refl
inorder-blackened (node l b a r) = refl

pub blackened-IsBalanced :
    (z : Tree) (m : ℕ)
    → IsBalanced z m
    → is_black z ≡ false
    → IsBalanced (blackened z) (suc m) × (addr z ≡ addr (blackened z))
blackened-IsBalanced leaf m h e = absurd (ground arith)
blackened-IsBalanced (node l true a r) m h e = absurd (ground arith)
blackened-IsBalanced (node l false a r) m (hl, hr, _, _) e = ((m, refl, hl, hr), refl)

is_black-blackened : (z : Tree) → is_black (blackened z) ≡ true
is_black-blackened leaf = refl
is_black-blackened (node l b a r) = refl

pivoted-IsRedBlack :
    (c : Spine) (d : Side) (b : Bool) (p k m : ℕ) (x y z : Tree)
    → IsUnder b c m
    → IsBalanced x m
    → IsBalanced y m
    → IsBalanced z (suc m)
    → is_black z ≡ true
    → IsRedBlack (plug c (sided d (sided d x true p y) b k z))
pivoted-IsRedBlack c d true p k m x y z u hx hy hz bz =
    plug-IsRedBlack c (sided d (sided d x true p y) true k z) (suc (suc m)) u
      (black-sided d (sided d x true p y) k z (suc m) (black-sided d x p y m hx hy) hz)
      (inl (is_black-sided d (sided d x true p y) true k z))
pivoted-IsRedBlack c d false p k m x y z (ub, u) hx hy hz bz =
    plug-IsRedBlack c (sided d (sided d x true p y) false k z) (suc m) u
      (red-sided d (sided d x true p y) k z (suc m) (black-sided d x p y m hx hy) hz
        (is_black-sided d x true p y) bz)
      (inr ub)

pub inorder-far :
    (d : Side) (x y y' : Tree) (b b' : Bool) (a : ℕ)
    → inorder y ≡ inorder y'
    → inorder (sided d x b a y) ≡ inorder (sided d x b' a y')
inorder-far left x y y' b b' a e = rw e refl
inorder-far right x y y' b b' a e = rw e refl

-- The order stays, whatever the colours.
pub inorder-pivoted :
    (c : Spine) (d : Side) (b bp bk bk' : Bool) (p k : ℕ) (x y z z' : Tree)
    → inorder z' ≡ inorder z
    → inorder (plug c (sided d x b p (sided d y bk k z)))
      ≡ inorder (plug c (sided d (sided d x bp p y) bk' k z'))
inorder-pivoted c d b bp bk bk' p k x y z z' e = inorder-plug c _ _ (
    sym
      (inorder-far d (sided d x bp p y) z' z bk' bk' k e ∙ inorder-rotated d x y z bp b bk' bk p k))

-- Case 4 on a pivot, whatever stands in the words of the nodes.
pub parent-Rebalanced :
    (t : Rb) (s : Store) (c : Spine) (d : Side) (b bk : Bool) (p k m : ℕ) (x y z : Tree)
    (pck old qy qz : ℕ)
    → IsPivot t s c d p k x y z b pck old qy qz
    → qy % 4 ≡ 0
    → addr z ≢ 0
    → IsUnder b c m
    → IsBalanced x m
    → IsBalanced y m
    → IsBalanced (blackened z) (suc m)
    → Rebalanced t
        (inorder (plug c (sided d x b p (sided d y bk k z))))
        (rotate_parent d p k (addr z) (on t s))
parent-Rebalanced t s c d b bk p k m x y z pck old qy qz o hq hz u hx hy hz' = record {
  after = parent_after t s c d p k x y z b pck old qy qz o hq hz;
  run = rotate_parent_run t s c d p k x y z b pck old qy qz o hq hz;
  tree = plug c (sided d (sided d x true p y) b k (blackened z));
  focus =
      plug-Focus _ c (sided d (sided d x true p y) b k (blackened z))
        (parent-Focus t s c d p k x y z b pck old qy qz o hq hz);
  order = sym (inorder-pivoted c d b true bk b p k x y z (blackened z) (inorder-blackened z));
  red_black = pivoted-IsRedBlack c d b p k m x y (blackened z) u hx hy hz' (is_black-blackened z);
  same_leftmost = parent-leftmost t s c d p k x y z b pck old qy qz o hq hz;
}
