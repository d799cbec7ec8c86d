-- ===== src/Rbtree/Erase/Push.antt =====
-- Case 2 of `__rb_erase_color`: the sibling becomes red.
use mathlib.Core.Path.{fun_ext}
use rpi_os_cfs_ext.Base.{
  bit_or, Bool-cases, inl, inr, ==_iff, ℕ, ◌+◌, ◌%◌, ◌≤◌, ◌≡◌, ◌≢◌, refl, arith, Bool, true, false,
  some, ◌==◌, update, ap, ◌∙◌, sym, subst,
}
use rpi_os_cfs_ext.Base.Flags.{bit_or-one}
use rpi_os_cfs_ext.Rbtree.{M, black, Rb, RbNode, Side, left, right, set_parent_color, rb_set_black}
use rpi_os_cfs_ext.Rbtree.Shape.{
  Tree, addr, paint, cell, sided, addr-sided, occurs-sided, Rep-sided, IsAddress, Store, Rep,
  occurs, once, once_self, Spine, step, up, RepSpine, Rep-frame, RepSpine-frame, Focus,
}
use rpi_os_cfs_ext.Rbtree.Shape.Writes.{
  on, load-on, set_word, set_word_flagged, update-at, update-else, once_absent,
}
use rpi_os_cfs_ext.Rbtree.Shape.Graft.{up-aligned, rb_parent-on, word-cell}
use rpi_os_cfs_ext.Rbtree.Insert.Round.{rb_is_red-on}
use rpi_os_cfs_ext.Rbtree.Erase.{push_up}
use rpi_os_cfs_ext.Rbtree.Erase.Pivot.{IsPivot}

pub Rep-unsided :
    (s : Store) (q : ℕ) (d : Side) (x : Tree) (b : Bool) (a : ℕ) (y : Tree)
    → Rep s q (sided d x b a y)
    → IsAddress a × (s a ≡ cell d (q + paint b) (addr x) (addr y)) × Rep s a x × Rep s a y
Rep-unsided s q left x b a y r = r
Rep-unsided s q right x b a y (h, e, ry, rx) = (h, e, rx, ry)

-- A tree at a hole whose sibling is not empty.
pub Focus-IsPivot :
    (t : Rb) (c : Spine) (d : Side) (p k : ℕ) (x y z : Tree) (b bk : Bool)
    → Focus t (step d b p (sided d y bk k z) c) x
    → IsPivot t t.nodes c d p k x y z b (p + paint bk) k k k
Focus-IsPivot t c d p k x y z b bk f =
    let (hp, at_p, rk, rc) = f.rep_spine in
    let (hk, at_k, ry, rz) = Rep-unsided t.nodes p d y bk k z rk in
    record {
      address = (hp, hk);
      at_p = at_p ∙ ap (cell d (up c + paint b) (addr x)) (addr-sided d y bk k z);
      at_k = at_k;
      rep_x = f.rep;
      rep_y = ry;
      rep_z = rz;
      spine = rc;
      distinct = λ a. omega (arith, f.distinct a, occurs-sided a d y bk k z);
    }

module _ (t : Rb) (c : Spine) (d : Side) (p k : ℕ) (x y z : Tree) (b : Bool)
    (o : IsPivot t t.nodes c d p k x y z b (p + 1) k k k) where
  ne_of : (q r : ℕ) → once q r ≡ 0 → q ≢ r
  ne_of q r h z = once_absent r q h (sym z)

  p_ne_k : p ≢ k
  p_ne_k = ne_of p k (omega (arith, o.distinct p, once_self p))

  abbrev s1 : Store
  s1 = update t.nodes k (cell d (p + 0) (addr y) (addr z))

  s1-p : s1 p ≡ cell d (up c + paint b) (addr x) k
  s1-p = update-else t.nodes k p _ p_ne_k ∙ o.at_p

  abbrev pub pushed : Store
  pushed = update s1 p (cell d (up c + 1) (addr x) k)

  abbrev pub pushed_tree : Tree
  pushed_tree = sided d x true p (sided d y false k z)

  kept : (a : ℕ) → once a p ≡ 0 → once a k ≡ 0 → pushed a ≡ t.nodes a
  kept a hp hk = update-else s1 p a _ (ne_of a p hp) ∙ update-else t.nodes k a _ (ne_of a k hk)

  Rep-kept :
      (q : ℕ) (w : Tree)
      → ((a : ℕ) → occurs a w + once a p + once a k ≤ 1)
      → Rep t.nodes q w
      → Rep pushed q w
  Rep-kept q w apart =
      Rep-frame t.nodes pushed q w
        (λ a lt. kept a (omega (arith, apart a)) (omega (arith, apart a)))

  -- Both for a red parent, which became black, and for a black one, whose word is written as it was.
  pushed-Focus : Focus (on t pushed) c pushed_tree
  pushed-Focus = record {
    rep =
        Rep-sided pushed (up c) d x true p (sided d y false k z) o.address.0
          (update-at s1 p _ ∙ ap (cell d (up c + 1) (addr x)) (sym (addr-sided d y false k z)))
          (Rep-kept p x (λ a. omega (arith, o.distinct a)) o.rep_x)
          (Rep-sided pushed p d y false k z o.address.1
            (update-else s1 p k _ (λ e. p_ne_k (sym e)) ∙ update-at t.nodes k _)
            (Rep-kept k y (λ a. omega (arith, o.distinct a)) o.rep_y)
            (Rep-kept k z (λ a. omega (arith, o.distinct a)) o.rep_z));
    rep_spine =
        subst (RepSpine pushed t.root c) (sym (addr-sided d x true p (sided d y false k z))) (
          RepSpine-frame t.nodes pushed t.root c p
            (λ a lt. kept a (omega (arith, o.distinct a)) (omega (arith, o.distinct a))) o.spine);
    distinct = λ a. omega (
      arith,
      o.distinct a,
      occurs-sided a d x true p (sided d y false k z),
      occurs-sided a d y false k z,
    );
  }

-- The state after `push_up`, its result and its tree.
pub record Pushed (t : Rb) (c : Spine) (x : Tree) (above : ℕ) (r : M ℕ) : Type 0 where
  pub after : Rb
  pub run : r t ≡ some (above, after)
  pub focus : Focus after c x
  pub same_leftmost : after.leftmost ≡ t.leftmost

or_one : (a : ℕ) → a % 4 ≡ 0 → bit_or (a + 0) black ≡ a + 1
or_one a h = bit_or-one (a + 0) (omega arith) ∙ (omega arith)

rb_set_black_run :
    (t : Rb) (s : Store) (p q : ℕ) (d : Side) (n f : ℕ)
    → IsAddress p
    → q % 4 ≡ 0
    → s p ≡ cell d (q + 0) n f
    → rb_set_black p (on t s) ≡ some (tt, on t (update s p (cell d (q + 1) n f)))
unfolding rb_set_black
rb_set_black_run t s p q d n f h hq e = rw (load-on t s p h) (
    subst
      (λ (w : ℕ). set_parent_color p w (on t s) ≡ some (tt, on t (update s p (cell d (q + 1) n f))))
      (sym (
        ap (λ (m : RbNode). bit_or m.parent_color black) e
        ∙ ap (λ (w : ℕ). bit_or w black) (word-cell d (q + 0) n f)
        ∙ or_one q hq))
      (set_word t s p h d (q + 0) n f e (q + 1)))

written_again : (s : Store) (p a : ℕ) (n : RbNode) → s p ≡ n → update s p n a ≡ s a
written_again s p a n e = elim (Bool-cases (a == p)) [
  | inl z ↦ rw z (sym e ∙ ap s (sym ((==_iff a p).0 z)))
  | inr z ↦ rw z refl
]

pub push_up_red :
    (t : Rb) (c : Spine) (d : Side) (p k : ℕ) (x y z : Tree)
    → IsPivot t t.nodes c d p k x y z false (p + 1) k k k
    → Pushed t c (sided d x true p (sided d y false k z)) 0 (push_up p k)
unfolding push_up
push_up_red t c d p k x y z o =
    let aligned = up-aligned t.nodes t.root c p o.spine in
    let s = s1 t c d p k x y z false o in
    record {
      after = on t (pushed t c d p k x y z false o);
      run =
          rw
            (
              set_word_flagged t t.nodes k o.address.1 d (p + 1) (addr y) (addr z) o.at_k p false
                  o.address.0.1,
              rb_is_red-on (on t s) p (up c) d false (addr x) k o.address.0 aligned
                  (s1-p t c d p k x y z false o),
              rb_set_black_run t s p (up c) d (addr x) k o.address.0 aligned
                  (s1-p t c d p k x y z false o),
            )
            refl;
      focus = pushed-Focus t c d p k x y z false o;
      same_leftmost = refl;
    }

pub push_up_black :
    (t : Rb) (c : Spine) (d : Side) (p k : ℕ) (x y z : Tree)
    → IsPivot t t.nodes c d p k x y z true (p + 1) k k k
    → Pushed t c (sided d x true p (sided d y false k z)) (up c) (push_up p k)
unfolding push_up
push_up_black t c d p k x y z o =
    let aligned = up-aligned t.nodes t.root c p o.spine in
    let s = s1 t c d p k x y z true o in
    let e = s1-p t c d p k x y z true o in
    record {
      after = on t s;
      run =
          rw
            (
              set_word_flagged t t.nodes k o.address.1 d (p + 1) (addr y) (addr z) o.at_k p false
                  o.address.0.1,
              rb_is_red-on (on t s) p (up c) d true (addr x) k o.address.0 aligned e,
              rb_parent-on t s p (up c) d true (addr x) k o.address.0 aligned e,
            )
            refl;
      focus =
          subst (λ (n : Store). Focus (on t n) c (sided d x true p (sided d y false k z)))
            (fun_ext (λ a. written_again s p a (cell d (up c + 1) (addr x) k) e))
            (pushed-Focus t c d p k x y z true o);
      same_leftmost = refl;
    }
