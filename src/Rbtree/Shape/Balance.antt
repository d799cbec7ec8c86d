-- ===== src/Rbtree/Shape/Balance.antt =====
-- Red-black trees: the colours of a tree and of a path to a hole.
use mathlib.Core.List.{append_assoc}
use rpi_os_cfs_ext.Base.{ℕ, suc, ◌≡◌, ◌⊎◌, inl, inr, refl, arith, Bool, true, false, ◌∷◌, sym}
use rpi_os_cfs_ext.Rbtree.{Rb, Side, left, right}
use rpi_os_cfs_ext.Rbtree.Shape.{
  Tree, leaf, node, is_black, sided, inorder, Spine, top, step, plug, occurs-plug, Focus, plug-Rep,
}

-- A red node has black children, and every way down meets `n` black nodes.
abbrev pub IsBalanced : Tree → ℕ → Type 0
IsBalanced leaf n = n ≡ 0
IsBalanced (node l true a r) n = (m : ℕ) × (n ≡ suc m) × IsBalanced l m × IsBalanced r m
IsBalanced (node l false a r) n =
    IsBalanced l n × IsBalanced r n × (is_black l ≡ true) × (is_black r ≡ true)

-- Whether the node above the hole is black; the root itself has to be.
abbrev pub under_black : Spine → Bool
under_black top = false
under_black (step d b a y c) = b

-- The path is one of a balanced tree whose hole takes `n` black nodes on the way down.
abbrev pub IsBalancedAround : Spine → ℕ → Type 0
IsBalancedAround top n = Unit
IsBalancedAround (step d true a y c) n = IsBalanced y n × IsBalancedAround c (suc n)
IsBalancedAround (step d false a y c) n =
    IsBalanced y n × (is_black y ≡ true) × (under_black c ≡ true) × IsBalancedAround c n

pub black-sided :
    (d : Side) (x : Tree) (a : ℕ) (y : Tree) (n : ℕ)
    → IsBalanced x n
    → IsBalanced y n
    → IsBalanced (sided d x true a y) (suc n)
black-sided left x a y n hx hy = (n, refl, hx, hy)
black-sided right x a y n hx hy = (n, refl, hy, hx)

pub red-sided :
    (d : Side) (x : Tree) (a : ℕ) (y : Tree) (n : ℕ)
    → IsBalanced x n
    → IsBalanced y n
    → is_black x ≡ true
    → is_black y ≡ true
    → IsBalanced (sided d x false a y) n
red-sided left x a y n hx hy bx by = (hx, hy, bx, by)
red-sided right x a y n hx hy bx by = (hy, hx, by, bx)

pub is_black-sided :
    (d : Side) (x : Tree) (b : Bool) (a : ℕ) (y : Tree) → is_black (sided d x b a y) ≡ b
is_black-sided left x b a y = refl
is_black-sided right x b a y = refl

-- A red-black tree: balanced, under a black root or none.
pub record IsRedBlack (x : Tree) : Type 0 where
  pub height : ℕ
  pub balanced : IsBalanced x height
  pub black_root : is_black x ≡ true

pub plug-IsRedBlack :
    (c : Spine) (x : Tree) (n : ℕ)
    → IsBalancedAround c n
    → IsBalanced x n
    → (is_black x ≡ true) ⊎ (under_black c ≡ true)
    → IsRedBlack (plug c x)
plug-IsRedBlack top x n hc hx (inl b) = record { height = n; balanced = hx; black_root = b }
plug-IsRedBlack top x n hc hx (inr b) = absurd (ground arith)
plug-IsRedBlack (step d true a y c) x n (hy, hc) hx b =
    plug-IsRedBlack c (sided d x true a y) (suc n) hc (black-sided d x a y n hx hy)
      (inl (is_black-sided d x true a y))
plug-IsRedBlack (step d false a y c) x n (hy, by, bc, hc) hx (inl bx) =
    plug-IsRedBlack c (sided d x false a y) n hc (red-sided d x a y n hx hy bx by) (inr bc)
plug-IsRedBlack (step d false a y c) x n (hy, by, bc, hc) hx (inr b) = absurd (ground arith)

pub inorder-sided :
    (d : Side) (x x' : Tree) (b b' : Bool) (a : ℕ) (y : Tree)
    → inorder x ≡ inorder x'
    → inorder (sided d x b a y) ≡ inorder (sided d x' b' a y)
inorder-sided left x x' b b' a y e = rw e
inorder-sided right x x' b b' a y e = rw e

pub inorder-plug :
    (c : Spine) (x x' : Tree) → inorder x ≡ inorder x' → inorder (plug c x) ≡ inorder (plug c x')
inorder-plug top x x' e = e
inorder-plug (step d b a y c) x x' e =
    inorder-plug c (sided d x b a y) (sided d x' b a y) (inorder-sided d x x' b b a y e)

pub plug-Focus : (t : Rb) (c : Spine) (x : Tree) → Focus t c x → Focus t top (plug c x)
plug-Focus t c x f =
    let (r, e) = plug-Rep t.nodes t.root c x f.rep f.rep_spine in
    record {
      rep = r;
      rep_spine = e;
      distinct = λ p. omega (arith, f.distinct p, occurs-plug p c x);
    }

-- A rotation keeps the order.
pub inorder-rotated :
    (d : Side) (x y u : Tree) (b b' c c' : Bool) (p g : ℕ)
    → inorder (sided d (sided d x b p y) c g u) ≡ inorder (sided d x b' p (sided d y c' g u))
inorder-rotated left x y u b b' c c' p g = append_assoc (inorder x) (p ∷ inorder y) (g ∷ inorder u)
inorder-rotated right x y u b b' c c' p g =
    sym (append_assoc (inorder u) (g ∷ inorder y) (p ∷ inorder x))
