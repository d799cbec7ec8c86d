-- ===== src/Rbtree/Insert/Ends.antt =====
-- The rounds of `__rb_insert` that end the loop: at the root, under a black parent, and the rotations.
use rpi_os_cfs_ext.Base.{ℕ, suc, ◌+◌, ◌≤◌, ◌≡◌, inr, refl, arith, true, false, update}
use rpi_os_cfs_ext.Rbtree.{Rb, Side, left, right}
use rpi_os_cfs_ext.Rbtree.Shape.{
  Tree, node, addr, is_black, cell, inorder, IsAddress, Rep, Spine, top, step, up, plug, occurs,
  Focus, once, once_self, Rep-frame,
}
use rpi_os_cfs_ext.Rbtree.Shape.Writes.{
  on, set_word_flagged, update-at, update-else, once_at, address_ne,
}
use rpi_os_cfs_ext.Rbtree.Shape.Graft.{up-aligned}
use rpi_os_cfs_ext.Rbtree.Shape.Balance.{IsBalanced, IsBalancedAround, plug-IsRedBlack, plug-Focus}
use rpi_os_cfs_ext.Rbtree.Insert.{restructure, insert_loop}
use rpi_os_cfs_ext.Rbtree.Insert.Rotate.{IsOuter}
use rpi_os_cfs_ext.Rbtree.Insert.Turn.{IsInner}
use rpi_os_cfs_ext.Rbtree.Insert.Cases.{Rebalanced, outer-Rebalanced, inner-Rebalanced}
use rpi_os_cfs_ext.Rbtree.Insert.Round.{rb_is_black-on}

pub root_lem :
    (fuel : ℕ) (t : Rb) (l r : Tree) (n m : ℕ)
    → Focus t top (node l false n r)
    → IsBalanced l m
    → IsBalanced r m
    → Rebalanced t (inorder (node l false n r)) (insert_loop (suc fuel) n 0 t)
unfolding insert_loop
root_lem fuel t l r n m f hl hr =
    let (hn, at_n, rl, rr) = f.rep in
    let s = update t.nodes n (cell left (0 + 1) (addr l) (addr r)) in
    let same = λ (y : Tree) (one : (a : ℕ) → occurs a y + once a n ≤ 1).
      Rep-frame t.nodes s n y (λ a lt.
        update-else t.nodes n a _
          (λ z. absurd (omega (arith, one a, once_at n a z, once_self n)))) in
    record {
      after = on t s;
      run = set_word_flagged t t.nodes n hn left 0 (addr l) (addr r) at_n 0 true refl;
      tree = node l true n r;
      focus = record {
        rep = (
          hn,
          update-at t.nodes n _,
          same l (λ a. omega (arith, f.distinct a)) rl,
          same r (λ a. omega (arith, f.distinct a)) rr,
        );
        rep_spine = f.rep_spine;
        distinct = f.distinct;
      };
      order = refl;
      red_black = record { height = suc m; balanced = (m, refl, hl, hr); black_root = refl };
      same_leftmost = refl;
    }

pub black_lem :
    (fuel : ℕ) (t : Rb) (c : Spine) (d : Side) (x v : Tree) (p m : ℕ)
    → Focus t (step d true p v c) x
    → IsBalanced x m
    → IsBalancedAround (step d true p v c) m
    → Rebalanced t (inorder (plug (step d true p v c) x)) (insert_loop (suc fuel) (addr x) p t)
unfolding insert_loop
black_lem fuel t c d x v p m f hx hc =
    let (hp, at_p, rv, rc) = f.rep_spine in
    record {
      after = t;
      run =
          rw
            (
              address_ne p hp,
              rb_is_black-on t p (up c) d true (addr x) (addr v) hp
                  (up-aligned t.nodes t.root c p rc) at_p,
            )
            refl;
      tree = plug (step d true p v c) x;
      focus = plug-Focus t (step d true p v c) x f;
      order = refl;
      red_black = plug-IsRedBlack (step d true p v c) x m hc hx (inr refl);
      same_leftmost = refl;
    }

IsOuter-intro :
    (t : Rb) (c : Spine) (d : Side) (x v u : Tree) (p g : ℕ)
    → Focus t (step d false p v (step d true g u c)) x
    → is_black v ≡ true
    → IsOuter t t.nodes c d p g x v u (g + 0) p p
IsOuter-intro t c d x v u p g f bv =
    let (hp, at_p, rv, (hg, at_g, ru, rc)) = f.rep_spine in
    record {
      address = (hp, hg);
      at_p = at_p;
      at_g = at_g;
      rep_x = f.rep;
      rep_y = rv;
      rep_u = ru;
      spine = rc;
      black_y = bv;
      distinct = λ a. omega (arith, f.distinct a);
    }

IsInner-intro :
    (t : Rb) (c : Spine) (d e : Side) (x v y z u : Tree) (n p g : ℕ)
    → Focus t (step e false p v (step d true g u c)) x
    → t.nodes p ≡ cell d (g + 0) (addr v) n
    → IsAddress n
      × (t.nodes n ≡ cell d (p + 0) (addr y) (addr z))
      × Rep t.nodes n y
      × Rep t.nodes n z
    → ((a : ℕ) → occurs a x ≡ occurs a y + once a n + occurs a z)
    → is_black v ≡ true
    → (is_black y ≡ true) × (is_black z ≡ true)
    → IsInner t t.nodes c d n p g v y z u (p + 0) (g + 0)
IsInner-intro t c d e x v y z u n p g f at_p (hn, at_n, ry, rz) parts bv byz =
    let (hp, _, rv, (hg, at_g, ru, rc)) = f.rep_spine in
    record {
      address = (hn, hp, hg);
      at_n = at_n;
      at_p = at_p;
      at_g = at_g;
      rep_v = rv;
      rep_y = ry;
      rep_z = rz;
      rep_u = ru;
      spine = rc;
      black_yz = byz;
      distinct = λ a. omega (arith, f.distinct a, parts a);
    }

-- Below a black uncle, on either side of the parent and of the grandparent.
pub rotate_lem :
    (t : Rb) (c : Spine) (d e : Side) (l r v u : Tree) (n p g m : ℕ)
    → Focus t (step d false p v (step e true g u c)) (node l false n r)
    → IsBalanced (node l false n r) m
    → IsBalancedAround (step d false p v (step e true g u c)) m
    → is_black u ≡ true
    → Rebalanced t
        (inorder (plug (step d false p v (step e true g u c)) (node l false n r)))
        (restructure e n p g t)
rotate_lem t c left left l r v u n p g m f hx (hv, bv, _, (hu, hc)) bu =
    outer-Rebalanced t c m hc t.nodes left p g (node l false n r) v u (g + 0) p p
      (IsOuter-intro t c left (node l false n r) v u p g f bv) f.rep.0.0 hx hv hu bu
rotate_lem t c right right l r v u n p g m f hx (hv, bv, _, (hu, hc)) bu =
    outer-Rebalanced t c m hc t.nodes right p g (node l false n r) v u (g + 0) p p
      (IsOuter-intro t c right (node l false n r) v u p g f bv) f.rep.0.0 hx hv hu bu
rotate_lem t c right left l r v u n p g m f (hl, hr, bl, br) (hv, bv, _, (hu, hc)) bu =
    inner-Rebalanced t c m hc t.nodes left n p g v l r u (p + 0) (g + 0)
      (IsInner-intro t c left right (node l false n r) v l r u n p g f f.rep_spine.1 f.rep
        (λ a. refl) bv (bl, br))
      hv hl hr hu bv bu
rotate_lem t c left right l r v u n p g m f (hl, hr, bl, br) (hv, bv, _, (hu, hc)) bu =
    let (hn, at_n, rl, rr) = f.rep in
    inner-Rebalanced t c m hc t.nodes right n p g v r l u (p + 0) (g + 0)
      (IsInner-intro t c right left (node l false n r) v r l u n p g f f.rep_spine.1
        (hn, at_n, rr, rl) (λ a. omega arith) bv (br, bl))
      hv hr hl hu bv bu
