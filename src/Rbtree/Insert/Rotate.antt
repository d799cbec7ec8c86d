-- ===== src/Rbtree/Insert/Rotate.antt =====
-- Cases 2 and 3 of `__rb_insert`: the rotations.
use rpi_os_cfs_ext.Base.{
  ℕ, ◌+◌, ◌≤◌, ◌≡◌, ◌≢◌, arith, true, false, some, update, ap, ◌∙◌, sym, subst,
}
use rpi_os_cfs_ext.Rbtree.{Rb, Side}
use rpi_os_cfs_ext.Rbtree.Shape.{
  Tree, addr, is_black, cell, sided, addr-sided, occurs-sided, Rep-sided, IsAddress, Store, Rep,
  occurs, once, once_self, Spine, up, RepSpine, occurs_spine, Rep-frame, RepSpine-frame, Focus,
}
use rpi_os_cfs_ext.Rbtree.Shape.Writes.{
  on, set_near, set_far, update-at, update-else, once_absent, adopt, adopt-else, adopt-Rep,
  adopt_lem,
}
use rpi_os_cfs_ext.Rbtree.Shape.Graft.{
  graft, graft-else, graft-leftmost, graft-RepSpine, rotate_set_parents_lem,
}
use rpi_os_cfs_ext.Rbtree.Insert.{rotate}

-- A red node `p` whose near child is red, too, below the black node `g`, all at distinct addresses.
-- What `p` has as its parent and what `g` has in the place of `p` does not matter.
pub record IsOuter (t : Rb) (s : Store) (c : Spine) (d : Side) (p g : ℕ) (x y u : Tree)
    (pc old q : ℕ) : Type 0 where
  pub address : IsAddress p × IsAddress g
  pub at_p : s p ≡ cell d pc (addr x) (addr y)
  pub at_g : s g ≡ cell d (up c + 1) old (addr u)
  pub rep_x : Rep s p x
  pub rep_y : Rep s q y
  pub rep_u : Rep s g u
  pub spine : RepSpine s t.root c g
  pub black_y : is_black y ≡ true
  pub distinct :
      (a : ℕ) → occurs a x + occurs a y + occurs a u + once a p + once a g + occurs_spine a c ≤ 1

-- The parent in the place of the grandparent.
abbrev pub rotated : Side → (p g : ℕ) → (x y u : Tree) → Tree
rotated d p g x y u = sided d x true p (sided d y false g u)

module _ (t : Rb) (s : Store) (c : Spine) (d : Side) (p g : ℕ) (x y u : Tree) (pc old q : ℕ)
    (o : IsOuter t s c d p g x y u pc old q) where
  absent_p :
      (occurs p x ≡ 0)
      × (occurs p y ≡ 0)
      × (occurs p u ≡ 0)
      × (once p g ≡ 0)
      × (occurs_spine p c ≡ 0)
  absent_p = omega (arith, o.distinct p, once_self p)

  absent_g :
      (occurs g x ≡ 0)
      × (occurs g y ≡ 0)
      × (occurs g u ≡ 0)
      × (once g p ≡ 0)
      × (occurs_spine g c ≡ 0)
  absent_g = omega (arith, o.distinct g, once_self g)

  p_ne_g : p ≢ g
  p_ne_g e = once_absent g p absent_p.3 (sym e)

  abbrev s1 : Store
  s1 = update s g (cell d (up c + 1) (addr y) (addr u))

  abbrev s2 : Store
  s2 = update s1 p (cell d pc (addr x) g)

  abbrev s3 : Store
  s3 = adopt s2 g y

  abbrev s4 : Store
  s4 = update s3 p (cell d (up c + 1) (addr x) g)

  abbrev s5 : Store
  s5 = update s4 g (cell d (p + 0) (addr y) (addr u))

  s2-else : (a : ℕ) → a ≢ p → a ≢ g → s2 a ≡ s a
  s2-else a np ng = update-else s1 p a _ np ∙ update-else s g a _ ng

  s3-g : s3 g ≡ cell d (up c + 1) (addr y) (addr u)
  s3-g =
      adopt-else s2 g g y absent_g.1 ∙ update-else s1 p g _ (λ e. p_ne_g (sym e)) ∙ update-at s g _

  s3-p : s3 p ≡ cell d pc (addr x) g
  s3-p = adopt-else s2 g p y absent_p.1 ∙ update-at s1 p _

  s5-else : (a : ℕ) → a ≢ p → a ≢ g → s5 a ≡ s3 a
  s5-else a np ng = update-else s4 g a _ ng ∙ update-else s3 p a _ np

  s5-old : (a : ℕ) → a ≢ p → a ≢ g → occurs a y ≡ 0 → s5 a ≡ s a
  s5-old a np ng ny = s5-else a np ng ∙ adopt-else s2 g a y ny ∙ s2-else a np ng

  ne_of : (a b : ℕ) → once a b ≡ 0 → a ≢ b
  ne_of a b h e = once_absent b a h (sym e)

  Rep-y : Rep s2 q y
  Rep-y =
      Rep-frame s s2 q y
        (λ a lt.
          s2-else a (ne_of a p (omega (arith, o.distinct a)))
            (ne_of a g (omega (arith, o.distinct a))))
        o.rep_y

  s3-old : (a : ℕ) → a ≢ p → a ≢ g → occurs a y ≡ 0 → s3 a ≡ s a
  s3-old a np ng ny = adopt-else s2 g a y ny ∙ s2-else a np ng

  spine3 : RepSpine s3 t.root c g
  spine3 =
      RepSpine-frame s s3 t.root c g
        (λ a lt.
          s3-old a (ne_of a p (omega (arith, o.distinct a)))
            (ne_of a g (omega (arith, o.distinct a))) (omega (arith, o.distinct a)))
        o.spine

  spine5 : RepSpine s5 t.root c g
  spine5 =
      RepSpine-frame s3 s5 t.root c g
        (λ a lt.
          s5-else a (ne_of a p (omega (arith, o.distinct a)))
            (ne_of a g (omega (arith, o.distinct a))))
        spine3

  -- The store at the end.
  abbrev final : Store
  final = (graft c p (on t s5)).nodes

  kept : (a : ℕ) → once a p ≡ 0 → once a g ≡ 0 → occurs_spine a c ≡ 0 → final a ≡ s3 a
  kept a hp hg hc = graft-else (on t s5) c p a hc ∙ s5-else a (ne_of a p hp) (ne_of a g hg)

  kept_old :
      (a : ℕ) → once a p ≡ 0 → once a g ≡ 0 → occurs_spine a c ≡ 0 → occurs a y ≡ 0 → final a ≡ s a
  kept_old a hp hg hc hy = kept a hp hg hc ∙ s3-old a (ne_of a p hp) (ne_of a g hg) hy

  final-p : final p ≡ cell d (up c + 1) (addr x) (addr (sided d y false g u))
  final-p =
      graft-else (on t s5) c p p absent_p.4
      ∙ update-else s4 g p _ p_ne_g
      ∙ update-at s3 p _
      ∙ ap (cell d (up c + 1) (addr x)) (sym (addr-sided d y false g u))

  final-g : final g ≡ cell d (p + 0) (addr y) (addr u)
  final-g = graft-else (on t s5) c p g absent_g.4 ∙ update-at s4 g _

  Rep-rotated : Rep final (up c) (rotated d p g x y u)
  Rep-rotated =
      Rep-sided final (up c) d x true p (sided d y false g u) o.address.0 final-p
        (Rep-frame s final p x
          (λ a lt.
            kept_old a (omega (arith, o.distinct a)) (omega (arith, o.distinct a))
              (omega (arith, o.distinct a)) (omega (arith, o.distinct a)))
          o.rep_x)
        (Rep-sided final p d y false g u o.address.1 final-g
          (Rep-frame s3 final g y
            (λ a lt.
              kept a (omega (arith, o.distinct a)) (omega (arith, o.distinct a))
                (omega (arith, o.distinct a)))
            (adopt-Rep s2 q g y (λ a. omega (arith, o.distinct a)) Rep-y))
          (Rep-frame s final g u
            (λ a lt.
              kept_old a (omega (arith, o.distinct a)) (omega (arith, o.distinct a))
                (omega (arith, o.distinct a)) (omega (arith, o.distinct a)))
            o.rep_u))

  abbrev pub rotate_after : Rb
  rotate_after = graft c p (on t s5)

  pub rotate_run : rotate d p (addr y) g (on t s) ≡ some (tt, rotate_after)
  unfolding rotate
  rotate_run =
      rw
        (
          set_near t s g o.address.1 d (up c + 1) old (addr u) o.at_g (addr y),
          set_far t s1 p o.address.0 d pc (addr x) (addr y) (update-else s g p _ p_ne_g ∙ o.at_p) g,
          adopt_lem t s2 q g y Rep-y o.black_y o.address.1.1,
        )
        (rotate_set_parents_lem t s3 c g p d d true false pc (addr y) (addr u) (addr x) g
          o.address.1 o.address.0 p_ne_g absent_g.4 absent_p.4 spine3 s3-g s3-p)

  pub rotate-Focus : Focus rotate_after c (rotated d p g x y u)
  rotate-Focus = record {
    rep = Rep-rotated;
    rep_spine =
        subst (RepSpine final (graft c p (on t s5)).root c)
          (sym (addr-sided d x true p (sided d y false g u)))
          (graft-RepSpine (on t s5) c g p (λ a. omega (arith, o.distinct a)) spine5);
    distinct = λ a. omega (
      arith,
      o.distinct a,
      occurs-sided a d x true p (sided d y false g u),
      occurs-sided a d y false g u,
    );
  }

  pub rotate-leftmost : rotate_after.leftmost ≡ t.leftmost
  rotate-leftmost = graft-leftmost (on t s5) c p
