-- ===== src/Rbtree/Shape.antt =====
-- The tree that the nodes of a store make, and a tree with a hole: the path from the root to it.
pub mod Writes
pub mod Graft
pub mod Balance
pub mod Hole
use rpi_os_cfs_ext.Base.{
  ℕ, ◌+◌, ◌%◌, ◌≤◌, ◌<◌, ◌≡◌, ◌≢◌, refl, arith, Bool, true, false, ◌==◌, if◌then◌else◌, List, [],
  ◌∷◌, ◌++◌, count, count-append, ap, ◌∙◌, sym, subst,
}
use rpi_os_cfs_ext.Rbtree.{Rb, RbNode, Side, left, right}

-- The colour is whether the node is black.
pub data Tree : Type 0 where
  leaf : Tree
  node : Tree → Bool → ℕ → Tree → Tree

abbrev pub addr : Tree → ℕ
addr leaf = 0
addr (node l b a r) = a

abbrev pub is_black : Tree → Bool
is_black leaf = true
is_black (node l b a r) = b

abbrev pub paint : Bool → ℕ
paint true = 1
paint false = 0

-- A tree or a node of the store whose child on the side is the first one.
abbrev pub sided : Side → Tree → Bool → ℕ → Tree → Tree
sided left x b a y = node x b a y
sided right x b a y = node y b a x

abbrev pub cell : Side → ℕ → ℕ → ℕ → RbNode
cell left pc n f = record { parent_color = pc; right = f; left = n }
cell right pc n f = record { parent_color = pc; right = n; left = f }

abbrev pub IsAddress : ℕ → Type 0
IsAddress a = (a ≢ 0) × (a % 4 ≡ 0)

abbrev pub Store : Type 0
Store = ℕ → RbNode

-- The store has the tree's nodes at their addresses, under the parent `q`.
abbrev pub Rep : Store → ℕ → Tree → Type 0
Rep s q leaf = Unit
Rep s q (node l b a r) =
    IsAddress a × (s a ≡ cell left (q + paint b) (addr l) (addr r)) × Rep s a l × Rep s a r

-- The addresses in order, and how often an address occurs.
abbrev pub inorder : Tree → List ℕ
inorder leaf = []
inorder (node l b a r) = inorder l ++ a ∷ inorder r

abbrev pub once : ℕ → ℕ → ℕ
once p a = if a == p then 1 else 0

abbrev pub occurs : ℕ → Tree → ℕ
occurs p leaf = 0
occurs p (node l b a r) = occurs p l + once p a + occurs p r

-- From the hole up: the side on which it stands below each node, and the other child.
pub data Spine : Type 0 where
  top : Spine
  step : Side → Bool → ℕ → Tree → Spine → Spine

-- The parent of the hole.
abbrev pub up : Spine → ℕ
up top = 0
up (step d b a y c) = a

abbrev pub plug : Spine → Tree → Tree
plug top x = x
plug (step d b a y c) x = plug c (sided d x b a y)

-- The store has the nodes of the path; the hole points to `h`.
abbrev pub RepSpine : Store → ℕ → Spine → ℕ → Type 0
RepSpine s root top h = root ≡ h
RepSpine s root (step d b a y c) h =
    IsAddress a × (s a ≡ cell d (up c + paint b) h (addr y)) × Rep s a y × RepSpine s root c a

abbrev pub occurs_spine : ℕ → Spine → ℕ
occurs_spine p top = 0
occurs_spine p (step d b a y c) = once p a + occurs p y + occurs_spine p c

-- A tree of the store at the hole of a path, all at distinct addresses.
pub record Focus (t : Rb) (c : Spine) (x : Tree) : Type 0 where
  pub rep : Rep t.nodes (up c) x
  pub rep_spine : RepSpine t.nodes t.root c (addr x)
  pub distinct : (p : ℕ) → occurs p x + occurs_spine p c ≤ 1

pub addr-sided : (d : Side) (x : Tree) (b : Bool) (a : ℕ) (y : Tree) → addr (sided d x b a y) ≡ a
addr-sided left x b a y = refl
addr-sided right x b a y = refl

pub occurs-sided :
    (p : ℕ) (d : Side) (x : Tree) (b : Bool) (a : ℕ) (y : Tree)
    → occurs p (sided d x b a y) ≡ occurs p x + once p a + occurs p y
occurs-sided p left x b a y = refl
occurs-sided p right x b a y = omega arith

pub Rep-sided :
    (s : Store) (q : ℕ) (d : Side) (x : Tree) (b : Bool) (a : ℕ) (y : Tree)
    → IsAddress a
    → s a ≡ cell d (q + paint b) (addr x) (addr y)
    → Rep s a x
    → Rep s a y
    → Rep s q (sided d x b a y)
Rep-sided s q left x b a y h e rx ry = (h, e, rx, ry)
Rep-sided s q right x b a y h e rx ry = (h, e, ry, rx)

pub once_self : (a : ℕ) → once a a ≡ 1
once_self a = ground arith

-- A tree survives what leaves its addresses alone.
pub Rep-frame :
    (s s' : Store) (q : ℕ) (x : Tree)
    → ((p : ℕ) → 0 < occurs p x → s' p ≡ s p)
    → Rep s q x
    → Rep s' q x
Rep-frame s s' q leaf same r = tt
Rep-frame s s' q (node l b a y) same (h, e, rl, ry) = (
  h,
  same a (omega (arith, once_self a)) ∙ e,
  Rep-frame s s' a l (λ p lt. same p (omega arith)) rl,
  Rep-frame s s' a y (λ p lt. same p (omega arith)) ry,
)

-- A path survives it, too, if the hole points where it did.
pub RepSpine-frame :
    (s s' : Store) (root : ℕ) (c : Spine) (h : ℕ)
    → ((p : ℕ) → 0 < occurs_spine p c → s' p ≡ s p)
    → RepSpine s root c h
    → RepSpine s' root c h
RepSpine-frame s s' root top h same r = r
RepSpine-frame s s' root (step d b a y c) h same (ha, e, ry, rc) = (
  ha,
  same a (omega (arith, once_self a)) ∙ e,
  Rep-frame s s' a y (λ p lt. same p (omega arith)) ry,
  RepSpine-frame s s' root c a (λ p lt. same p (omega arith)) rc,
)

pub addr-absent : (p : ℕ) (x : Tree) → p ≢ 0 → occurs p x ≡ 0 → addr x ≢ p
addr-absent p leaf h e = λ z. h (sym z)
addr-absent p (node l b a r) h e = λ z. absurd (ground arith)

pub occurs-inorder : (p : ℕ) (x : Tree) → occurs p x ≡ count p (inorder x)
occurs-inorder p leaf = refl
occurs-inorder p (node l b a r) =
    omega
      (arith, occurs-inorder p l, occurs-inorder p r, count-append p (inorder l) (a ∷ inorder r))

pub occurs-plug :
    (p : ℕ) (c : Spine) (x : Tree) → occurs p (plug c x) ≡ occurs p x + occurs_spine p c
occurs-plug p top x = omega arith
occurs-plug p (step d b a y c) x =
    omega (arith, occurs-plug p c (sided d x b a y), occurs-sided p d x b a y)

-- The path closes over its hole.
pub plug-Rep :
    (s : Store) (root : ℕ) (c : Spine) (x : Tree)
    → Rep s (up c) x
    → RepSpine s root c (addr x)
    → Rep s 0 (plug c x) × (root ≡ addr (plug c x))
plug-Rep s root top x r u = (r, u)
plug-Rep s root (step d b a y c) x r (ha, e, ry, rc) =
    plug-Rep s root c (sided d x b a y) (Rep-sided s (up c) d x b a y ha e r ry)
      (subst (RepSpine s root c) (sym (addr-sided d x b a y)) rc)
