-- ===== src/Rbtree/Insert/Recolor.antt =====
-- Case 1 of `__rb_insert`: a red uncle.
use rpi_os_cfs_ext.Base.{
  ℕ, ◌+◌, ◌≤◌, ◌≡◌, ◌≢◌, refl, arith, true, false, some, ap, ◌∙◌, sym, subst, update,
}
use rpi_os_cfs_ext.Rbtree.{Rb, Side, left}
use rpi_os_cfs_ext.Rbtree.Shape.{
  Tree, node, addr, cell, sided, Store, Rep, Spine, step, up, occurs, Focus, once, once_self,
  RepSpine, Rep-frame, RepSpine-frame, Rep-sided, addr-sided, occurs-sided,
}
use rpi_os_cfs_ext.Rbtree.Shape.Writes.{on, set_word_flagged, update-at, update-else, once_absent}
use rpi_os_cfs_ext.Rbtree.Shape.Graft.{up-aligned, rb_parent-on}
use rpi_os_cfs_ext.Rbtree.Insert.{recolor}

-- The parent in the place of the grandparent's child, with a red uncle: all but the grandparent
-- become black.
module _ (t : Rb) (c : Spine) (d e : Side) (x v ul ur : Tree) (p g k : ℕ)
    (f : Focus t (step d false p v (step e true g (node ul false k ur) c)) x) where
  ne_of : (a b : ℕ) → once a b ≡ 0 → a ≢ b
  ne_of a b h z = once_absent b a h (sym z)

  abbrev s1 : Store
  s1 = update t.nodes k (cell left (g + 1) (addr ul) (addr ur))

  abbrev s2 : Store
  s2 = update s1 p (cell d (g + 1) (addr x) (addr v))

  abbrev s3 : Store
  s3 = update s2 g (cell e (up c + 0) p k)

  absent_k : (once k p ≡ 0) × (once k g ≡ 0)
  absent_k = omega (arith, f.distinct k, once_self k)

  absent_p : (once p k ≡ 0) × (once p g ≡ 0)
  absent_p = omega (arith, f.distinct p, once_self p)

  absent_g : (once g k ≡ 0) × (once g p ≡ 0)
  absent_g = omega (arith, f.distinct g, once_self g)

  s3-else : (a : ℕ) → once a k ≡ 0 → once a p ≡ 0 → once a g ≡ 0 → s3 a ≡ t.nodes a
  s3-else a hk hp hg =
      update-else s2 g a _ (ne_of a g hg)
      ∙ update-else s1 p a _ (ne_of a p hp)
      ∙ update-else t.nodes k a _ (ne_of a k hk)

  at_g2 : s2 g ≡ cell e (up c + 1) p k
  at_g2 =
      update-else s1 p g _ (ne_of g p absent_g.1)
      ∙ update-else t.nodes k g _ (ne_of g k absent_g.0)
      ∙ f.rep_spine.3.1

  Rep-kept :
      (q : ℕ) (y : Tree)
      → ((a : ℕ) → occurs a y + once a k + once a p + once a g ≤ 1)
      → Rep t.nodes q y
      → Rep s3 q y
  Rep-kept q y apart =
      Rep-frame t.nodes s3 q y (λ a lt.
        s3-else a (omega (arith, apart a)) (omega (arith, apart a)) (omega (arith, apart a)))

  abbrev pub recolored : Rb
  recolored = on t s3

  pub recolor_run : recolor k p g t ≡ some ((g, up c), recolored)
  unfolding recolor
  recolor_run =
      let (hp, at_p, _, (hg, at_g, (hk, at_k, _, _), rc)) = f.rep_spine in
      let aligned = up-aligned t.nodes t.root c g rc in
      rw
        (
          set_word_flagged t t.nodes k hk left (g + 0) (addr ul) (addr ur) at_k g true hg.1,
          set_word_flagged t s1 p hp d (g + 0) (addr x) (addr v)
              (update-else t.nodes k p _ (ne_of p k absent_p.0) ∙ at_p) g true hg.1,
          rb_parent-on t s2 g (up c) e true p k hg aligned at_g2,
          set_word_flagged t s2 g hg e (up c + 1) p k at_g2 (up c) false aligned,
        )
        refl

  pub recolor-Focus : Focus recolored c (sided e (sided d x true p v) false g (node ul true k ur))
  recolor-Focus =
      let (hp, at_p, rv, (hg, at_g, (hk, at_k, rl, rr), rc)) = f.rep_spine in
      record {
        rep =
            Rep-sided s3 (up c) e (sided d x true p v) false g (node ul true k ur) hg
              (update-at s2 g _
                ∙ ap (λ (a : ℕ). cell e (up c + 0) a k) (sym (addr-sided d x true p v)))
              (Rep-sided s3 g d x true p v hp
                (update-else s2 g p _ (ne_of p g absent_p.1) ∙ update-at s1 p _)
                (Rep-kept p x (λ a. omega (arith, f.distinct a)) f.rep)
                (Rep-kept p v (λ a. omega (arith, f.distinct a)) rv))
              (
                hk,
                update-else s2 g k _ (ne_of k g absent_k.1)
                    ∙ update-else s1 p k _ (ne_of k p absent_k.0)
                    ∙ update-at t.nodes k _,
                Rep-kept k ul (λ a. omega (arith, f.distinct a)) rl,
                Rep-kept k ur (λ a. omega (arith, f.distinct a)) rr,
              );
        rep_spine =
            subst (RepSpine s3 t.root c)
              (sym (addr-sided e (sided d x true p v) false g (node ul true k ur)))
              (RepSpine-frame t.nodes s3 t.root c g
                (λ a lt.
                  s3-else a (omega (arith, f.distinct a)) (omega (arith, f.distinct a))
                    (omega (arith, f.distinct a)))
                rc);
        distinct = λ a. omega (
          arith,
          f.distinct a,
          occurs-sided a e (sided d x true p v) false g (node ul true k ur),
          occurs-sided a d x true p v,
        );
      }
