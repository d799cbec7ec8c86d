-- ===== src/Rbtree/Insert/Turn.antt =====
-- Case 2 of `__rb_insert`: the far child takes its parent's place, which makes it case 3.
use rpi_os_cfs_ext.Base.{ℕ, ◌+◌, ◌≤◌, ◌≡◌, ◌≢◌, arith, true, false, some, update, ap, ◌∙◌, sym}
use rpi_os_cfs_ext.Rbtree.{Rb, Side}
use rpi_os_cfs_ext.Rbtree.Shape.{
  Tree, addr, is_black, cell, sided, addr-sided, occurs-sided, Rep-sided, IsAddress, Store, Rep,
  occurs, once, once_self, Spine, up, RepSpine, occurs_spine, Rep-frame, RepSpine-frame,
}
use rpi_os_cfs_ext.Rbtree.Shape.Writes.{
  on, load-on, set_near, set_far, set_word_flagged, update-at, update-else, once_absent, adopt,
  adopt-else, adopt-Rep, adopt_lem, child-cell,
}
use rpi_os_cfs_ext.Rbtree.Insert.{turn}
use rpi_os_cfs_ext.Rbtree.Insert.Rotate.{IsOuter}

-- A red node `n` that is the far child of the red node `p`, below the black node `g`.
pub record IsInner (t : Rb) (s : Store) (c : Spine) (d : Side) (n p g : ℕ) (v y z u : Tree)
    (pcn pcp : ℕ) : Type 0 where
  pub address : IsAddress n × IsAddress p × IsAddress g
  pub at_n : s n ≡ cell d pcn (addr y) (addr z)
  pub at_p : s p ≡ cell d pcp (addr v) n
  pub at_g : s g ≡ cell d (up c + 1) p (addr u)
  pub rep_v : Rep s p v
  pub rep_y : Rep s n y
  pub rep_z : Rep s n z
  pub rep_u : Rep s g u
  pub spine : RepSpine s t.root c g
  pub black_yz : (is_black y ≡ true) × (is_black z ≡ true)
  pub distinct :
      (a : ℕ)
      → occurs a v
          + occurs a y
          + occurs a z
          + occurs a u
          + once a n
          + once a p
          + once a g
          + occurs_spine a c
        ≤ 1

module _ (t : Rb) (s : Store) (c : Spine) (d : Side) (n p g : ℕ) (v y z u : Tree) (pcn pcp : ℕ)
    (i : IsInner t s c d n p g v y z u pcn pcp) where
  absent_n : (occurs n v ≡ 0) × (occurs n y ≡ 0) × (once n p ≡ 0) × (once n g ≡ 0)
  absent_n = omega (arith, i.distinct n, once_self n)

  absent_p : (occurs p v ≡ 0) × (occurs p y ≡ 0) × (once p n ≡ 0) × (once p g ≡ 0)
  absent_p = omega (arith, i.distinct p, once_self p)

  absent_g : (occurs g y ≡ 0) × (once g p ≡ 0) × (once g n ≡ 0)
  absent_g = omega (arith, i.distinct g, once_self g)

  ne_of : (a b : ℕ) → once a b ≡ 0 → a ≢ b
  ne_of a b h e = once_absent b a h (sym e)

  abbrev s1 : Store
  s1 = update s p (cell d pcp (addr v) (addr y))

  abbrev s2 : Store
  s2 = update s1 n (cell d pcn p (addr z))

  abbrev s3 : Store
  s3 = adopt s2 p y

  abbrev s4 : Store
  s4 = update s3 p (cell d (n + 0) (addr v) (addr y))

  s2-else : (a : ℕ) → a ≢ n → a ≢ p → s2 a ≡ s a
  s2-else a nn np = update-else s1 n a _ nn ∙ update-else s p a _ np

  Rep-y : Rep s2 n y
  Rep-y =
      Rep-frame s s2 n y
        (λ a lt.
          s2-else a (ne_of a n (omega (arith, i.distinct a)))
            (ne_of a p (omega (arith, i.distinct a))))
        i.rep_y

  s3-p : s3 p ≡ cell d pcp (addr v) (addr y)
  s3-p =
      adopt-else s2 p p y absent_p.1 ∙ update-else s1 n p _ (ne_of p n absent_p.2) ∙ update-at s p _

  s4-n : s4 n ≡ cell d pcn p (addr z)
  s4-n =
      update-else s3 p n _ (ne_of n p absent_n.2)
      ∙ adopt-else s2 p n y absent_n.1
      ∙ update-at s1 n _

  kept : (a : ℕ) → once a n ≡ 0 → once a p ≡ 0 → occurs a y ≡ 0 → s4 a ≡ s a
  kept a hn hp hy =
      update-else s3 p a _ (ne_of a p hp)
      ∙ adopt-else s2 p a y hy
      ∙ s2-else a (ne_of a n hn) (ne_of a p hp)

  Rep-kept :
      (q : ℕ) (x : Tree)
      → ((a : ℕ) → occurs a x + once a n + once a p + occurs a y ≤ 1)
      → Rep s q x
      → Rep s4 q x
  Rep-kept q x apart =
      Rep-frame s s4 q x
        (λ a lt. kept a (omega (arith, apart a)) (omega (arith, apart a)) (omega (arith, apart a)))

  abbrev pub turn_after : Store
  turn_after = s4

  pub turn_run : turn d n p (on t s) ≡ some ((n, addr z), on t turn_after)
  unfolding turn
  turn_run =
      rw
        (
          load-on t s n i.address.0,
          i.at_n,
          (child-cell d pcn (addr y) (addr z)).0,
          set_far t s p i.address.1 d pcp (addr v) n i.at_p (addr y),
          set_near t s1 n i.address.0 d pcn (addr y) (addr z)
              (update-else s p n _ (ne_of n p absent_n.2) ∙ i.at_n) p,
          adopt_lem t s2 n p y Rep-y i.black_yz.0 i.address.1.1,
          set_word_flagged t s3 p i.address.1 d pcp (addr v) (addr y) s3-p n false i.address.0.1,
          load-on t s4 n i.address.0,
          s4-n,
        )
        (ap (λ (f : ℕ). some ((n, f), on t s4)) (child-cell d pcn p (addr z)).1)

  pub turn-IsOuter : IsOuter t turn_after c d n g (sided d v false p y) z u pcn p n
  turn-IsOuter = record {
    address = (i.address.0, i.address.2);
    at_p = s4-n ∙ ap (λ (a : ℕ). cell d pcn a (addr z)) (sym (addr-sided d v false p y));
    at_g = kept g absent_g.2 absent_g.1 absent_g.0 ∙ i.at_g;
    rep_x =
        Rep-sided s4 n d v false p y i.address.1 (update-at s3 p _)
          (Rep-kept p v (λ a. omega (arith, i.distinct a)) i.rep_v)
          (Rep-frame s3 s4 p y
            (λ a lt. update-else s3 p a _ (ne_of a p (omega (arith, i.distinct a))))
            (adopt-Rep s2 n p y (λ a. omega (arith, i.distinct a)) Rep-y));
    rep_y = Rep-kept n z (λ a. omega (arith, i.distinct a)) i.rep_z;
    rep_u = Rep-kept g u (λ a. omega (arith, i.distinct a)) i.rep_u;
    spine =
        RepSpine-frame s s4 t.root c g
          (λ a lt.
            kept a (omega (arith, i.distinct a)) (omega (arith, i.distinct a))
              (omega (arith, i.distinct a)))
          i.spine;
    black_y = i.black_yz.1;
    distinct = λ a. omega (arith, i.distinct a, occurs-sided a d v false p y);
  }
