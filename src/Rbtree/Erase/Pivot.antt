-- ===== src/Rbtree/Erase/Pivot.antt =====
-- The rotation of `__rb_erase_color` around a node and its sibling: cases 1 and 4.
use rpi_os_cfs_ext.Base.{ℕ, ◌+◌, ◌≤◌, ◌≡◌, ◌≢◌, arith, Bool, update, ap, ◌∙◌, sym, subst}
use rpi_os_cfs_ext.Rbtree.{Rb, Side}
use rpi_os_cfs_ext.Rbtree.Shape.{
  Tree, addr, paint, cell, sided, addr-sided, occurs-sided, Rep-sided, IsAddress, Store, Rep,
  occurs, once, once_self, Spine, up, RepSpine, occurs_spine, Rep-frame, RepSpine-frame, Focus,
}
use rpi_os_cfs_ext.Rbtree.Shape.Writes.{
  on, update-at, update-else, once_absent, adopt, adopt-else, adopt-Rep,
}
use rpi_os_cfs_ext.Rbtree.Shape.Graft.{graft, graft-else, graft-RepSpine}

-- The node `p`, on the near side of which is `x`, and its far child `k`, with their colours. What
-- the words of `k` and of its children's roots say of their parents does not matter.
pub record IsPivot (t : Rb) (s : Store) (c : Spine) (d : Side) (p k : ℕ) (x y z : Tree) (b : Bool)
    (pck old qy qz : ℕ) : Type 0 where
  pub address : IsAddress p × IsAddress k
  pub at_p : s p ≡ cell d (up c + paint b) (addr x) old
  pub at_k : s k ≡ cell d pck (addr y) (addr z)
  pub rep_x : Rep s p x
  pub rep_y : Rep s qy y
  pub rep_z : Rep s qz z
  pub spine : RepSpine s t.root c p
  pub distinct :
      (a : ℕ) → occurs a x + occurs a y + occurs a z + once a p + once a k + occurs_spine a c ≤ 1

module _ (t : Rb) (s : Store) (c : Spine) (d : Side) (p k : ℕ) (x y z : Tree) (b : Bool)
    (pck old qy qz : ℕ) (o : IsPivot t s c d p k x y z b pck old qy qz) where
  pub absent_p : (occurs p y ≡ 0) × (occurs p z ≡ 0) × (once p k ≡ 0) × (occurs_spine p c ≡ 0)
  absent_p = omega (arith, o.distinct p, once_self p)

  pub absent_k : (occurs k y ≡ 0) × (occurs k z ≡ 0) × (once k p ≡ 0) × (occurs_spine k c ≡ 0)
  absent_k = omega (arith, o.distinct k, once_self k)

  pub p_ne_k : p ≢ k
  p_ne_k e = once_absent k p absent_p.2 (sym e)

  pub ne_of : (a b : ℕ) → once a b ≡ 0 → a ≢ b
  ne_of a b h e = once_absent b a h (sym e)

  abbrev pub s1 : Store
  s1 = update s p (cell d (up c + paint b) (addr x) (addr y))

  abbrev pub s2 : Store
  s2 = update s1 k (cell d pck p (addr z))

  pub s2-else : (a : ℕ) → a ≢ p → a ≢ k → s2 a ≡ s a
  s2-else a np nk = update-else s1 k a _ nk ∙ update-else s p a _ np

  -- Between the writes the root of `z` may get another word; then `z'` is there.
  module _ (b' : Bool) (mid : Store) (z' : Tree) (same : addr z' ≡ addr z)
      (occ : (a : ℕ) → occurs a z' ≡ occurs a z) (rep_z' : Rep mid k z')
      (mid-else : (a : ℕ) → occurs a z ≡ 0 → mid a ≡ s2 a) where
    abbrev pub s3 : Store
    s3 = adopt mid p y

    abbrev pub s4 : Store
    s4 = update s3 k (cell d (up c + paint b) p (addr z))

    abbrev pub s5 : Store
    s5 = update s4 p (cell d (k + paint b') (addr x) (addr y))

    pub s3-p : s3 p ≡ cell d (up c + paint b) (addr x) (addr y)
    s3-p =
        adopt-else mid p p y absent_p.0
        ∙ mid-else p absent_p.1
        ∙ update-else s1 k p _ p_ne_k
        ∙ update-at s p _

    pub s3-k : s3 k ≡ cell d pck p (addr z)
    s3-k = adopt-else mid p k y absent_k.0 ∙ mid-else k absent_k.1 ∙ update-at s1 k _

    s3-old : (a : ℕ) → a ≢ p → a ≢ k → occurs a y ≡ 0 → occurs a z ≡ 0 → s3 a ≡ s a
    s3-old a np nk ny nz = adopt-else mid p a y ny ∙ mid-else a nz ∙ s2-else a np nk

    s5-else : (a : ℕ) → a ≢ p → a ≢ k → s5 a ≡ s3 a
    s5-else a np nk = update-else s4 p a _ np ∙ update-else s3 k a _ nk

    pub spine3 : RepSpine s3 t.root c p
    spine3 =
        RepSpine-frame s s3 t.root c p
          (λ a lt.
            s3-old a (ne_of a p (omega (arith, o.distinct a)))
              (ne_of a k (omega (arith, o.distinct a))) (omega (arith, o.distinct a))
              (omega (arith, o.distinct a)))
          o.spine

    spine5 : RepSpine s5 t.root c p
    spine5 =
        RepSpine-frame s3 s5 t.root c p
          (λ a lt.
            s5-else a (ne_of a p (omega (arith, o.distinct a)))
              (ne_of a k (omega (arith, o.distinct a))))
          spine3

    abbrev pub pivot_after : Rb
    pivot_after = graft c k (on t s5)

    abbrev final : Store
    final = pivot_after.nodes

    kept : (a : ℕ) → once a p ≡ 0 → once a k ≡ 0 → occurs_spine a c ≡ 0 → final a ≡ s3 a
    kept a hp hk hc = graft-else (on t s5) c k a hc ∙ s5-else a (ne_of a p hp) (ne_of a k hk)

    Rep-mid_y : Rep mid qy y
    Rep-mid_y =
        Rep-frame s mid qy y
          (λ a lt.
            mid-else a (omega (arith, o.distinct a))
            ∙ s2-else a (ne_of a p (omega (arith, o.distinct a)))
                (ne_of a k (omega (arith, o.distinct a))))
          o.rep_y

    final-k : final k ≡ cell d (up c + paint b) (addr (sided d x b' p y)) (addr z')
    final-k =
        graft-else (on t s5) c k k absent_k.3
        ∙ update-else s4 p k _ (λ e. p_ne_k (sym e))
        ∙ update-at s3 k _
        ∙ ap (λ (a : ℕ). cell d (up c + paint b) a (addr z)) (sym (addr-sided d x b' p y))
        ∙ ap (cell d (up c + paint b) (addr (sided d x b' p y))) (sym same)

    final-p : final p ≡ cell d (k + paint b') (addr x) (addr y)
    final-p = graft-else (on t s5) c k p absent_p.3 ∙ update-at s4 p _

    Rep-pivoted : Rep final (up c) (sided d (sided d x b' p y) b k z')
    Rep-pivoted =
        Rep-sided final (up c) d (sided d x b' p y) b k z' o.address.1 final-k
          (Rep-sided final k d x b' p y o.address.0 final-p
            (Rep-frame s final p x
              (λ a lt.
                kept a (omega (arith, o.distinct a)) (omega (arith, o.distinct a))
                  (omega (arith, o.distinct a))
                ∙ s3-old a (ne_of a p (omega (arith, o.distinct a)))
                    (ne_of a k (omega (arith, o.distinct a))) (omega (arith, o.distinct a))
                    (omega (arith, o.distinct a)))
              o.rep_x)
            (Rep-frame s3 final p y
              (λ a lt.
                kept a (omega (arith, o.distinct a)) (omega (arith, o.distinct a))
                  (omega (arith, o.distinct a)))
              (adopt-Rep mid qy p y (λ a. omega (arith, o.distinct a)) Rep-mid_y)))
          (Rep-frame mid final k z'
            (λ a lt.
              kept a (omega (arith, o.distinct a, occ a)) (omega (arith, o.distinct a, occ a))
                (omega (arith, o.distinct a, occ a))
              ∙ adopt-else mid p a y (omega (arith, o.distinct a, occ a)))
            rep_z')

    pub pivot-Focus : Focus pivot_after c (sided d (sided d x b' p y) b k z')
    pivot-Focus = record {
      rep = Rep-pivoted;
      rep_spine =
          subst (RepSpine final pivot_after.root c) (sym (addr-sided d (sided d x b' p y) b k z'))
            (graft-RepSpine (on t s5) c p k (λ a. omega (arith, o.distinct a)) spine5);
      distinct = λ a. omega (
        arith,
        o.distinct a,
        occ a,
        occurs-sided a d (sided d x b' p y) b k z',
        occurs-sided a d x b' p y,
      );
    }
