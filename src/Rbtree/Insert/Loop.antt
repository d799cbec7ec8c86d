-- ===== src/Rbtree/Insert/Loop.antt =====
-- The loop of `__rb_insert` on a balanced tree with one red node more than its parent allows.
use rpi_os_cfs_ext.Base.{ℕ, zero, suc, ◌<◌, ◌≡◌, refl, arith, true, false, and_then}
use rpi_os_cfs_ext.Rbtree.{Rb, Side, left, right}
use rpi_os_cfs_ext.Rbtree.Shape.{
  Tree, leaf, node, sided, inorder, Spine, top, step, up, plug, Focus,
}
use rpi_os_cfs_ext.Rbtree.Shape.Balance.{
  IsBalanced, IsBalancedAround, black-sided, is_black-sided, inorder-plug,
}
use rpi_os_cfs_ext.Rbtree.Insert.{recolor, insert_loop}
use rpi_os_cfs_ext.Rbtree.Insert.Cases.{Rebalanced, retarget}
use rpi_os_cfs_ext.Rbtree.Insert.Recolor.{recolored, recolor_run, recolor-Focus}
use rpi_os_cfs_ext.Rbtree.Insert.Round.{round, steps}
use rpi_os_cfs_ext.Rbtree.Insert.Ends.{root_lem, black_lem, rotate_lem}

-- The order of the nodes around a red uncle stays, whatever the colours.
inorder-recolored :
    (c : Spine) (d e : Side) (x v ul ur : Tree) (p g k : ℕ)
    → inorder (plug (step d false p v (step e true g (node ul false k ur) c)) x)
      ≡ inorder (plug c (sided e (sided d x true p v) false g (node ul true k ur)))
inorder-recolored c left left x v ul ur p g k = inorder-plug c _ _ refl
inorder-recolored c left right x v ul ur p g k = inorder-plug c _ _ refl
inorder-recolored c right left x v ul ur p g k = inorder-plug c _ _ refl
inorder-recolored c right right x v ul ur p g k = inorder-plug c _ _ refl

after_recolor :
    (fuel : ℕ) (t : Rb) (c : Spine) (d e : Side) (x v ul ur : Tree) (p g k : ℕ)
    → (f : Focus t (step d false p v (step e true g (node ul false k ur) c)) x)
    → and_then (recolor k p g t) (λ (n, q). insert_loop fuel n q)
      ≡ insert_loop fuel g (up c) (recolored t c d e x v ul ur p g k f)
after_recolor fuel t c d e x v ul ur p g k f = rw (recolor_run t c d e x v ul ur p g k f) refl

-- The loop on a balanced tree whose red node may stand below a red parent.
pub insert_loop_lem :
    (fuel : ℕ) (t : Rb) (c : Spine) (l r : Tree) (n m : ℕ)
    → Focus t c (node l false n r)
    → IsBalanced (node l false n r) m
    → IsBalancedAround c m
    → steps c < fuel
    → Rebalanced t (inorder (plug c (node l false n r))) (insert_loop fuel n (up c) t)
insert_loop_lem zero t c l r n m f hx hc lt = absurd (omega arith)
insert_loop_lem (suc fuel) t top l r n m f (hl, hr, bl, br) hc lt = root_lem fuel t l r n m f hl hr
insert_loop_lem (suc fuel) t (step d true p v c) l r n m f hx hc lt =
    black_lem fuel t c d (node l false n r) v p m f hx hc
insert_loop_lem (suc fuel) t (step d false p v top) l r n m f hx (_, _, bc, _) lt =
    absurd (ground arith)
insert_loop_lem (suc fuel) t (step d false p v (step e false g u c)) l r n m f hx (_, _, bc, _) lt =
    absurd (ground arith)
insert_loop_lem (suc fuel) t (step d false p v (step e true g leaf c)) l r n m f hx hc lt =
    retarget t t _ _ _ _ refl refl (round fuel t c d e (node l false n r) v leaf p g f _ refl)
      (rotate_lem t c d e l r v leaf n p g m f hx hc refl)
insert_loop_lem (suc fuel) t (step d false p v (step e true g (node ul true k ur) c)) l r n m f hx
      hc lt =
    retarget t t _ _ _ _ refl refl
      (round fuel t c d e (node l false n r) v (node ul true k ur) p g f _ refl)
      (rotate_lem t c d e l r v (node ul true k ur) n p g m f hx hc refl)
insert_loop_lem (suc fuel) t (step d false p v (step left true g (node ul false k ur) c)) l r n m f
      (hl, hr, bl, br) (hv, bv, _, ((hul, hur, _, _), hc)) lt =
    let x = node l false n r in
    let t' = recolored t c d left x v ul ur p g k f in
    retarget t t' _ _ _ _ refl (inorder-recolored c d left x v ul ur p g k)
      (round fuel t c d left x v (node ul false k ur) p g f _
        (after_recolor fuel t c d left x v ul ur p g k f))
      (insert_loop_lem fuel t' c (sided d x true p v) (node ul true k ur) g (suc m)
        (recolor-Focus t c d left x v ul ur p g k f)
        (
          black-sided d x p v m (hl, hr, bl, br) hv,
          (m, refl, hul, hur),
          is_black-sided d x true p v,
          refl,
        )
        hc (omega arith))
insert_loop_lem (suc fuel) t (step d false p v (step right true g (node ul false k ur) c)) l r n m f
      (hl, hr, bl, br) (hv, bv, _, ((hul, hur, _, _), hc)) lt =
    let x = node l false n r in
    let t' = recolored t c d right x v ul ur p g k f in
    retarget t t' _ _ _ _ refl (inorder-recolored c d right x v ul ur p g k)
      (round fuel t c d right x v (node ul false k ur) p g f _
        (after_recolor fuel t c d right x v ul ur p g k f))
      (insert_loop_lem fuel t' c (node ul true k ur) (sided d x true p v) g (suc m)
        (recolor-Focus t c d right x v ul ur p g k f)
        (
          (m, refl, hul, hur),
          black-sided d x p v m (hl, hr, bl, br) hv,
          refl,
          is_black-sided d x true p v,
        )
        hc (omega arith))
