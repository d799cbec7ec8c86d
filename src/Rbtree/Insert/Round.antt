-- ===== src/Rbtree/Insert/Round.antt =====
-- One round of the loop of `__rb_insert`: which case it takes.
use rpi_os_cfs_ext.Base.{
  ℕ, suc, ◌+◌, ◌%◌, ◌≡◌, ◌≢◌, refl, arith, Bool, true, false, not, Option, some, ◌==◌, ap, ◌∙◌, sym,
  if◌then◌else◌, and_then,
}
use rpi_os_cfs_ext.Rbtree.{
  Rb, Side, left, right, color_of, rb_color, rb_is_black, rb_is_red, rb_red_parent, exists_red,
}
use rpi_os_cfs_ext.Rbtree.Shape.{
  Tree, leaf, node, addr, is_black, cell, paint, IsAddress, Rep, Spine, top, step, up, addr-absent,
  Focus, once_self,
}
use rpi_os_cfs_ext.Rbtree.Shape.Writes.{load-on, child-cell, address_ne}
use rpi_os_cfs_ext.Rbtree.Shape.Graft.{word-cell}
use rpi_os_cfs_ext.Rbtree.Insert.{recolor, restructure, insert_loop}
use rpi_os_cfs_ext.Rbtree.Insert.Cases.{is_other, is_self}

color_flagged : (q : ℕ) (b : Bool) → q % 4 ≡ 0 → color_of (q + paint b) ≡ paint b
color_flagged q true h = omega arith
color_flagged q false h = omega arith

module _ (t : Rb) (p q : ℕ) (d : Side) (b : Bool) (n f : ℕ) (h : IsAddress p) (hq : q % 4 ≡ 0)
    (e : t.nodes p ≡ cell d (q + paint b) n f) where
  pub rb_color-on : rb_color p t ≡ some (paint b, t)
  unfolding rb_color
  rb_color-on =
      rw (load-on t t.nodes p h, e, word-cell d (q + paint b) n f)
        (ap (λ (c : ℕ). some (c, t)) (color_flagged q b hq))

  paint_black : (b : Bool) → (paint b == 1) ≡ b
  paint_black true = refl
  paint_black false = refl

  paint_red : (b : Bool) → (paint b == 0) ≡ not b
  paint_red true = refl
  paint_red false = refl

  pub rb_is_black-on : rb_is_black p t ≡ some (b, t)
  unfolding rb_is_black
  rb_is_black-on = rw rb_color-on (ap (λ (c : Bool). some (c, t)) (paint_black b))

  pub rb_is_red-on : rb_is_red p t ≡ some (not b, t)
  unfolding rb_is_red
  rb_is_red-on = rw rb_color-on (ap (λ (c : Bool). some (c, t)) (paint_red b))

exists_red-on :
    (t : Rb) (q : ℕ) (u : Tree)
    → q % 4 ≡ 0
    → Rep t.nodes q u
    → exists_red (addr u) t ≡ some (not (is_black u), t)
unfolding exists_red
exists_red-on t q leaf hq r = refl
exists_red-on t q (node l b a y) hq (h, e, _, _) =
    rw (address_ne a h) (rb_is_red-on t a q left b (addr l) (addr y) h hq e)

-- The side of the parent, as the code finds it.
pub near_side :
    (d : Side) (p pc f : ℕ) → p ≢ f → (if p == (cell d pc p f).right then right else left) ≡ d
near_side left p pc f ne = rw (is_other p f ne) refl
near_side right p pc f ne = rw (is_self p) refl

pub rb_red_parent-on :
    (t : Rb) (p q : ℕ) (d : Side) (n f : ℕ)
    → IsAddress p
    → t.nodes p ≡ cell d (q + 0) n f
    → rb_red_parent p t ≡ some (q, t)
unfolding rb_red_parent
rb_red_parent-on t p q d n f h e =
    rw (load-on t t.nodes p h, e, word-cell d (q + 0) n f)
      (ap (λ (a : ℕ). some (a, t)) (omega arith))

pub if_at :
    {A B : Type 0} (b : Bool) (m k : A → B) (a : A)
    → (if b then m else k) a ≡ (if b then m a else k a)
if_at true m k a = refl
if_at false m k a = refl

-- One round below a red parent and a black grandparent.
pub round :
    (fuel : ℕ) (t : Rb) (c : Spine) (d e : Side) (x v u : Tree) (p g : ℕ)
    → Focus t (step d false p v (step e true g u c)) x
    → (r : Option (Unit {0} × Rb))
    → (if not (is_black u)
        then and_then (recolor (addr u) p g t) (λ (n, q). insert_loop fuel n q)
        else restructure e (addr x) p g t)
      ≡ r
    → insert_loop (suc fuel) (addr x) p t ≡ r
unfolding insert_loop
round fuel t c d e x v u p g f r done =
    let (hp, at_p, _, (hg, at_g, ru, rc)) = f.rep_spine in
    let apart =
      λ (z : p ≡ addr u). addr-absent p u hp.0 (omega (arith, f.distinct p, once_self p)) (sym z) in
    rw
      (
        address_ne p hp,
        rb_is_black-on t p g d false (addr x) (addr v) hp hg.1 at_p,
        rb_red_parent-on t p g d (addr x) (addr v) hp at_p,
        load-on t t.nodes g hg,
        at_g,
        near_side e p (up c + 1) (addr u) apart,
        (child-cell e (up c + 1) p (addr u)).1,
        exists_red-on t g u hg.1 ru,
      )
      (if_at (not (is_black u)) _ _ t ∙ done)

-- How many rounds the path takes at most.
abbrev pub steps : Spine → ℕ
steps top = 0
steps (step d b a y c) = suc (steps c)
