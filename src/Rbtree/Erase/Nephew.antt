-- ===== src/Rbtree/Erase/Nephew.antt =====
-- Case 3 of `__rb_erase_color`: the red near child of the sibling takes its place, which makes it
-- case 4.
use rpi_os_cfs_ext.Base.{ℕ, ◌+◌, ◌≤◌, ◌≡◌, ◌≢◌, refl, arith, Bool, true, some, update, ap, ◌∙◌, sym}
use rpi_os_cfs_ext.Rbtree.{Rb, Side}
use rpi_os_cfs_ext.Rbtree.Shape.{
  Tree, addr, is_black, paint, cell, sided, addr-sided, occurs-sided, Rep-sided, IsAddress, Store,
  Rep, occurs, once, once_self, Spine, up, RepSpine, occurs_spine, Rep-frame, RepSpine-frame,
}
use rpi_os_cfs_ext.Rbtree.Shape.Writes.{
  on, load-on, set_near, set_far, update-at, update-else, once_absent, adopt, adopt-else, adopt-Rep,
  adopt_lem, child-cell,
}
use rpi_os_cfs_ext.Rbtree.Erase.{turn_sibling}
use rpi_os_cfs_ext.Rbtree.Erase.Pivot.{IsPivot}

pub record IsNephew (t : Rb) (s : Store) (c : Spine) (d : Side) (p k w : ℕ) (x a e z : Tree)
    (b : Bool) : Type 0 where
  pub address : IsAddress p × IsAddress k × IsAddress w
  pub at_p : s p ≡ cell d (up c + paint b) (addr x) k
  pub at_k : s k ≡ cell d (p + 1) w (addr z)
  pub at_w : s w ≡ cell d (k + 0) (addr a) (addr e)
  pub rep_x : Rep s p x
  pub rep_a : Rep s w a
  pub rep_e : Rep s w e
  pub rep_z : Rep s k z
  pub spine : RepSpine s t.root c p
  pub black_e : is_black e ≡ true
  pub distinct :
      (q : ℕ)
      → occurs q x
          + occurs q a
          + occurs q e
          + occurs q z
          + once q p
          + once q k
          + once q w
          + occurs_spine q c
        ≤ 1

module _ (t : Rb) (s : Store) (c : Spine) (d : Side) (p k w : ℕ) (x a e z : Tree) (b : Bool)
    (o : IsNephew t s c d p k w x a e z b) where
  absent_p : (occurs p e ≡ 0) × (once p k ≡ 0) × (once p w ≡ 0)
  absent_p = omega (arith, o.distinct p, once_self p)

  absent_k : (occurs k e ≡ 0) × (once k p ≡ 0) × (once k w ≡ 0)
  absent_k = omega (arith, o.distinct k, once_self k)

  absent_w : (occurs w e ≡ 0) × (once w p ≡ 0) × (once w k ≡ 0)
  absent_w = omega (arith, o.distinct w, once_self w)

  ne_of : (q r : ℕ) → once q r ≡ 0 → q ≢ r
  ne_of q r h z = once_absent r q h (sym z)

  abbrev s1 : Store
  s1 = update s k (cell d (p + 1) (addr e) (addr z))

  abbrev s2 : Store
  s2 = update s1 w (cell d (k + 0) (addr a) k)

  abbrev s3 : Store
  s3 = update s2 p (cell d (up c + paint b) (addr x) w)

  abbrev pub turned : Store
  turned = adopt s3 k e

  s3-else : (q : ℕ) → once q p ≡ 0 → once q k ≡ 0 → once q w ≡ 0 → s3 q ≡ s q
  s3-else q hp hk hw =
      update-else s2 p q _ (ne_of q p hp)
      ∙ update-else s1 w q _ (ne_of q w hw)
      ∙ update-else s k q _ (ne_of q k hk)

  kept : (q : ℕ) → once q p ≡ 0 → once q k ≡ 0 → once q w ≡ 0 → occurs q e ≡ 0 → turned q ≡ s q
  kept q hp hk hw he = adopt-else s3 k q e he ∙ s3-else q hp hk hw

  Rep-kept :
      (r : ℕ) (y : Tree)
      → ((q : ℕ) → occurs q y + once q p + once q k + once q w + occurs q e ≤ 1)
      → Rep s r y
      → Rep turned r y
  Rep-kept r y apart = Rep-frame s turned r y (λ q lt.
      kept q (omega (arith, apart q)) (omega (arith, apart q)) (omega (arith, apart q))
        (omega (arith, apart q)))

  Rep-e : Rep s3 w e
  Rep-e =
      Rep-frame s s3 w e
        (λ q lt.
          s3-else q (omega (arith, o.distinct q)) (omega (arith, o.distinct q))
            (omega (arith, o.distinct q)))
        o.rep_e

  turned-p : turned p ≡ cell d (up c + paint b) (addr x) w
  turned-p = adopt-else s3 k p e absent_p.0 ∙ update-at s2 p _

  turned-w : turned w ≡ cell d (k + 0) (addr a) k
  turned-w =
      adopt-else s3 k w e absent_w.0
      ∙ update-else s2 p w _ (ne_of w p absent_w.1)
      ∙ update-at s1 w _

  turned-k : turned k ≡ cell d (p + 1) (addr e) (addr z)
  turned-k =
      adopt-else s3 k k e absent_k.0
      ∙ update-else s2 p k _ (ne_of k p absent_k.1)
      ∙ update-else s1 w k _ (ne_of k w absent_k.2)
      ∙ update-at s k _

  pub turn_sibling_run : turn_sibling d p k w (on t s) ≡ some ((w, k), on t turned)
  unfolding turn_sibling
  turn_sibling_run =
      rw
        (
          load-on t s w o.address.2,
          o.at_w,
          (child-cell d (k + 0) (addr a) (addr e)).1,
          set_near t s k o.address.1 d (p + 1) w (addr z) o.at_k (addr e),
          set_far t s1 w o.address.2 d (k + 0) (addr a) (addr e)
              (update-else s k w _ (ne_of w k absent_w.2) ∙ o.at_w) k,
          set_far t s2 p o.address.0 d (up c + paint b) (addr x) k
              (update-else s1 w p _ (ne_of p w absent_p.2)
                ∙ update-else s k p _ (ne_of p k absent_p.1)
                ∙ o.at_p)
              w,
          adopt_lem t s3 w k e Rep-e o.black_e o.address.1.1,
        )
        refl

  pub turned-IsPivot : IsPivot t turned c d p w x a (sided d e true k z) b (k + 0) w w p
  turned-IsPivot = record {
    address = (o.address.0, o.address.2);
    at_p = turned-p;
    at_k = turned-w ∙ ap (cell d (k + 0) (addr a)) (sym (addr-sided d e true k z));
    rep_x = Rep-kept p x (λ q. omega (arith, o.distinct q)) o.rep_x;
    rep_y = Rep-kept w a (λ q. omega (arith, o.distinct q)) o.rep_a;
    rep_z =
        Rep-sided turned p d e true k z o.address.1 turned-k
          (adopt-Rep s3 w k e (λ q. omega (arith, o.distinct q)) Rep-e)
          (Rep-kept k z (λ q. omega (arith, o.distinct q)) o.rep_z);
    spine =
        RepSpine-frame s turned t.root c p
          (λ q lt.
            kept q (omega (arith, o.distinct q)) (omega (arith, o.distinct q))
              (omega (arith, o.distinct q)) (omega (arith, o.distinct q)))
          o.spine;
    distinct = λ q. omega (arith, o.distinct q, occurs-sided q d e true k z);
  }
