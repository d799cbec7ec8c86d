-- ===== src/Rbtree/Erase/Rotations.antt =====
-- Cases 1 and 4 of `__rb_erase_color` run, and what they leave.
use rpi_os_cfs_ext.Base.{
  Run, ◌>>◌, ℕ, ◌+◌, ◌%◌, ◌≤◌, ◌≡◌, ◌≢◌, refl, arith, Bool, true, false, some, ap, ◌∙◌, sym, bit_or,
}
use rpi_os_cfs_ext.Base.Flags.{zero-bit_or, one-bit_or}
use rpi_os_cfs_ext.Rbtree.{
  set_child, Rb, Side, left, other, child, black, unless_null, rb_set_parent, rb_set_parent_color,
  rotate_set_parents,
}
use rpi_os_cfs_ext.Rbtree.Shape.{
  Tree, leaf, node, addr, is_black, paint, sided, Store, Rep, occurs, Spine, up, Rep-frame, Focus,
}
use rpi_os_cfs_ext.Rbtree.Shape.Writes.{
  on, load-on, set_near, set_far, set_word, set_word_flagged, update-else, once_absent, adopt,
  adopt-else, painted-Rep, child-cell, address_ne,
}
use rpi_os_cfs_ext.Rbtree.Shape.Graft.{graft-leftmost, rotate_set_parents_lem}
use rpi_os_cfs_ext.Rbtree.Insert.Round.{rb_color-on}
use rpi_os_cfs_ext.Rbtree.Erase.{rotate_sibling, rotate_parent}
use rpi_os_cfs_ext.Rbtree.Erase.Pivot.{
  IsPivot, absent_p, absent_k, p_ne_k, s1, s2, s2-else, s3-p, s3-k, spine3, pivot_after,
  pivot-Focus,
}

-- A tree with a black root.
abbrev pub blackened : Tree → Tree
blackened leaf = leaf
blackened (node l b a r) = node l true a r

pub addr-blackened : (x : Tree) → addr (blackened x) ≡ addr x
addr-blackened leaf = refl
addr-blackened (node l b a r) = refl

pub occurs-blackened : (p : ℕ) (x : Tree) → occurs p (blackened x) ≡ occurs p x
occurs-blackened p leaf = refl
occurs-blackened p (node l b a r) = refl

pub adopt-black :
    (t : Rb) (s : Store) (q g : ℕ) (x : Tree)
    → Rep s q x
    → addr x ≢ 0
    → g % 4 ≡ 0
    → rb_set_parent_color (addr x) g black (on t s) ≡ some (tt, on t (adopt s g (blackened x)))
adopt-black t s q g leaf r h hg = absurd (h refl)
adopt-black t s q g (node l c a y) (h, e, _, _) ne hg =
    set_word_flagged t s a h left (q + paint c) (addr l) (addr y) e g true hg

adopt_root :
    (t : Rb) (s : Store) (q g : ℕ) (x : Tree)
    → Rep s q x
    → addr x ≢ 0
    → is_black x ≡ true
    → g % 4 ≡ 0
    → rb_set_parent_color (addr x) g black (on t s) ≡ some (tt, on t (adopt s g x))
adopt_root t s q g leaf r h b hg = absurd (h refl)
adopt_root t s q g (node l c a y) (h, e, _, _) ne b hg =
    rw b (set_word_flagged t s a h left (q + paint c) (addr l) (addr y) e g true hg)

flag-first : (b : Bool) (g : ℕ) → g % 4 ≡ 0 → bit_or (paint b) g ≡ g + paint b
flag-first true g h = one-bit_or g (omega arith) ∙ (omega arith)
flag-first false g h = zero-bit_or g ∙ (omega arith)

pub adopt_any :
    (t : Rb) (s : Store) (q g : ℕ) (x : Tree)
    → Rep s q x
    → q % 4 ≡ 0
    → g % 4 ≡ 0
    → unless_null (addr x) (rb_set_parent (addr x) g) (on t s) ≡ some (tt, on t (adopt s g x))
unfolding rb_set_parent
adopt_any t s q g leaf r hq hg = refl
adopt_any t s q g (node l c a y) (h, e, _, _) hq hg =
    rw (address_ne a h, rb_color-on (on t s) a q left c (addr l) (addr y) h hq e, flag-first c g hg)
      (set_word t s a h left (q + paint c) (addr l) (addr y) e (g + paint c))

pub blackened-Rep :
    (s : Store) (q g : ℕ) (x : Tree)
    → ((p : ℕ) → occurs p x ≤ 1)
    → Rep s q x
    → Rep (adopt s g (blackened x)) g (blackened x)
blackened-Rep s q g leaf one r = tt
blackened-Rep s q g (node l b a y) one r = painted-Rep s q g l b true a y one r

adopt-blackened-else :
    (s : Store) (g p : ℕ) (x : Tree) → occurs p x ≡ 0 → adopt s g (blackened x) p ≡ s p
adopt-blackened-else s g p x h = adopt-else s g p (blackened x) (occurs-blackened p x ∙ h)

module _ (t : Rb) (s : Store) (c : Spine) (d : Side) (p k : ℕ) (x y z : Tree) (b : Bool)
    (pck old qy qz : ℕ) (o : IsPivot t s c d p k x y z b pck old qy qz) where
  abbrev pub mid_store : Store
  mid_store = s2 t s c d p k x y z b pck old qy qz o

  pub mid-z : Rep mid_store qz z
  mid-z =
      Rep-frame s mid_store qz z
        (λ a lt.
          s2-else t s c d p k x y z b pck old qy qz o a
            (λ e. once_absent p a (omega (arith, o.distinct a)) (sym e))
            (λ e. once_absent k a (omega (arith, o.distinct a)) (sym e)))
        o.rep_z

  pub mid-y : Rep mid_store qy y
  mid-y =
      Rep-frame s mid_store qy y
        (λ a lt.
          s2-else t s c d p k x y z b pck old qy qz o a
            (λ e. once_absent p a (omega (arith, o.distinct a)) (sym e))
            (λ e. once_absent k a (omega (arith, o.distinct a)) (sym e)))
        o.rep_y

  module _ (b' : Bool) (z' : Tree) (same : addr z' ≡ addr z)
      (occ : (a : ℕ) → occurs a z' ≡ occurs a z) where
    -- What follows on the writes to `p` and `k` and to the root of `y`.
    pivot_end :
        (mid : Store) (rep_z' : Rep mid k z')
        (mid-else : (a : ℕ) → occurs a z ≡ 0 → mid a ≡ mid_store a)
        → rotate_set_parents p k (paint b') (on t (adopt mid p y))
          ≡ some (
            tt,
            pivot_after t s c d p k x y z b pck old qy qz o b' mid z' same occ rep_z' mid-else,
          )
    pivot_end mid rep_z' mid-else =
        rotate_set_parents_lem t (adopt mid p y) c p k d d b b' pck (addr x) (addr y) p (addr z)
          o.address.0 o.address.1 (λ e. p_ne_k t s c d p k x y z b pck old qy qz o (sym e))
          (absent_p t s c d p k x y z b pck old qy qz o).3
          (absent_k t s c d p k x y z b pck old qy qz o).3
          (spine3 t s c d p k x y z b pck old qy qz o b' mid z' same occ rep_z' mid-else)
          (s3-p t s c d p k x y z b pck old qy qz o b' mid z' same occ rep_z' mid-else)
          (s3-k t s c d p k x y z b pck old qy qz o b' mid z' same occ rep_z' mid-else)

  pub far_child : child d (s k) ≡ addr y
  far_child = ap (child d) o.at_k ∙ (child-cell d pck (addr y) (addr z)).0

  -- The first two writes of both cases.
  two_writes :
      {A : Type 0} (m : Run Rb A)
      → (set_child (other d) p (addr y) >> (set_child d k p >> m)) (on t s) ≡ m (on t mid_store)
  two_writes m =
      rw
        (
          set_far t s p o.address.0 d (up c + paint b) (addr x) old o.at_p (addr y),
          set_near t (s1 t s c d p k x y z b pck old qy qz o) k o.address.1 d pck (addr y) (addr z)
              (update-else s p k _ (λ e. p_ne_k t s c d p k x y z b pck old qy qz o (sym e))
                ∙ o.at_k)
              p,
        )
        refl

  -- Case 4: the far child `z` becomes black, and `p` black on the near side.
  module _ (hq : qy % 4 ≡ 0) (hz : addr z ≢ 0) where
    abbrev pub black_mid : Store
    black_mid = adopt mid_store k (blackened z)

    pub black_z : Rep black_mid k (blackened z)
    black_z = blackened-Rep mid_store qz k z (λ a. omega (arith, o.distinct a)) mid-z

    pub black_mid-else : (a : ℕ) → occurs a z ≡ 0 → black_mid a ≡ mid_store a
    black_mid-else a h = adopt-blackened-else mid_store k a z h

    black_y : Rep black_mid qy y
    black_y =
        Rep-frame mid_store black_mid qy y (λ a lt. black_mid-else a (omega (arith, o.distinct a)))
          mid-y

    abbrev pub parent_after : Rb
    parent_after =
        pivot_after t s c d p k x y z b pck old qy qz o true black_mid (blackened z)
          (addr-blackened z) (λ a. occurs-blackened a z) black_z black_mid-else

    pub rotate_parent_run : rotate_parent d p k (addr z) (on t s) ≡ some (tt, parent_after)
    unfolding rotate_parent
    rotate_parent_run =
        rw (load-on t s k o.address.1, far_child)
          (two_writes _
            ∙ rw
                (
                  adopt-black t mid_store qz k z mid-z hz o.address.1.1,
                  adopt_any t black_mid qy p y black_y hq o.address.0.1,
                )
                (pivot_end true (blackened z) (addr-blackened z) (λ a. occurs-blackened a z)
                  black_mid black_z black_mid-else))

    pub parent-Focus : Focus parent_after c (sided d (sided d x true p y) b k (blackened z))
    parent-Focus =
        pivot-Focus t s c d p k x y z b pck old qy qz o true black_mid (blackened z)
          (addr-blackened z) (λ a. occurs-blackened a z) black_z black_mid-else

    pub parent-leftmost : parent_after.leftmost ≡ t.leftmost
    parent-leftmost = graft-leftmost (on t _) c k

-- Case 1: the black near child `y` of the red sibling becomes the new sibling.
module _ (t : Rb) (s : Store) (c : Spine) (d : Side) (p k : ℕ) (x y z : Tree) (b : Bool)
    (pck old qy : ℕ) (o : IsPivot t s c d p k x y z b pck old qy k) (hy : addr y ≢ 0)
    (by : is_black y ≡ true) where
  abbrev pub sibling_after : Rb
  sibling_after =
      pivot_after t s c d p k x y z b pck old qy k o false
        (mid_store t s c d p k x y z b pck old qy k o) z refl (λ a. refl)
        (mid-z t s c d p k x y z b pck old qy k o) (λ a h. refl)

  pub rotate_sibling_run : rotate_sibling d p k (on t s) ≡ some (addr y, sibling_after)
  unfolding rotate_sibling
  rotate_sibling_run =
      rw (load-on t s k o.address.1, far_child t s c d p k x y z b pck old qy k o)
        (two_writes t s c d p k x y z b pck old qy k o _
          ∙ rw
              (
                adopt_root t (mid_store t s c d p k x y z b pck old qy k o) qy p y
                    (mid-y t s c d p k x y z b pck old qy k o) hy by o.address.0.1,
                pivot_end t s c d p k x y z b pck old qy k o false z refl (λ a. refl)
                    (mid_store t s c d p k x y z b pck old qy k o)
                    (mid-z t s c d p k x y z b pck old qy k o) (λ a h. refl),
              )
              refl)

  pub sibling-Focus : Focus sibling_after c (sided d (sided d x false p y) b k z)
  sibling-Focus =
      pivot-Focus t s c d p k x y z b pck old qy k o false
        (mid_store t s c d p k x y z b pck old qy k o) z refl (λ a. refl)
        (mid-z t s c d p k x y z b pck old qy k o) (λ a h. refl)

  pub sibling-leftmost : sibling_after.leftmost ≡ t.leftmost
  sibling-leftmost = graft-leftmost (on t _) c k
