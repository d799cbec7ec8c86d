-- ===== src/Rbtree/Erase/Round.antt =====
-- One round of the loop of `__rb_erase_color`, and its last one, in which a red nephew ends it.
use rpi_os_cfs_ext.Base.{
  ℕ, suc, ◌+◌, ◌%◌, ◌≡◌, ◌≢◌, refl, arith, Bool, true, false, Option, some, ◌==◌, ap, ◌∙◌,
  if◌then◌else◌, not, pure, ◌>>=◌, and_then,
}
use rpi_os_cfs_ext.Rbtree.{Rb, Side, left, right, other, child, M, load, null_or_black}
use rpi_os_cfs_ext.Rbtree.Shape.{
  Tree, leaf, node, addr, is_black, paint, cell, sided, addr-sided, occurs-sided, Rep, addr-absent,
  once_self, Spine, up, plug, inorder,
}
use rpi_os_cfs_ext.Rbtree.Shape.Writes.{on, load-on, child-cell, address_ne}
use rpi_os_cfs_ext.Rbtree.Shape.Balance.{IsBalanced, inorder-rotated, inorder-plug}
use rpi_os_cfs_ext.Rbtree.Insert.Cases.{Rebalanced, retarget}
use rpi_os_cfs_ext.Rbtree.Insert.Round.{rb_is_black-on, rb_is_red-on, near_side}
use rpi_os_cfs_ext.Rbtree.Erase.{push_up, finish, rotate_parent, rotate_sibling, erase_color}
use rpi_os_cfs_ext.Rbtree.Erase.Pivot.{IsPivot}
use rpi_os_cfs_ext.Rbtree.Erase.Rotations.{blackened}
use rpi_os_cfs_ext.Rbtree.Erase.Nephew.{IsNephew, turned, turn_sibling_run, turned-IsPivot}
use rpi_os_cfs_ext.Rbtree.Erase.Push.{Rep-unsided}
use rpi_os_cfs_ext.Rbtree.Erase.Settle.{IsUnder, parent-Rebalanced, inorder-far}

-- A round once the sibling is black.
abbrev pub settle : ℕ → Side → (parent sibling : ℕ) → M (Unit {0})
settle fuel near parent sibling = do
  s ← load sibling
  let tmp1 = child (other near) s
  let tmp2 = child near s
  black1 ← null_or_black tmp1
  black2 ← (if black1 then null_or_black tmp2 else pure false)
  if black2
      then (do
        above ← push_up parent sibling
        if above == 0 then pure tt else erase_color fuel parent above)
      else finish near parent sibling tmp1 tmp2 black1

null_or_black-on :
    (t : Rb) (q : ℕ) (u : Tree)
    → q % 4 ≡ 0
    → Rep t.nodes q u
    → null_or_black (addr u) t ≡ some (is_black u, t)
unfolding null_or_black
null_or_black-on t q leaf hq r = refl
null_or_black-on t q (node l b a y) hq (h, e, _, _) =
    rw (address_ne a h) (rb_is_black-on t a q left b (addr l) (addr y) h hq e)

module _ (fuel : ℕ) (t : Rb) (c : Spine) (d : Side) (p k : ℕ) (x y z : Tree) (b : Bool)
    (o : IsPivot t t.nodes c d p k x y z b (p + 1) k k k) (r : Option (Unit {0} × Rb)) where
  pub settle_push :
      is_black z ≡ true
      → is_black y ≡ true
      → and_then (push_up p k t) (λ above. if above == 0 then pure tt else erase_color fuel p above)
        ≡ r
      → settle fuel d p k t ≡ r
  settle_push bz by done =
      rw
        (
          load-on t t.nodes k o.address.1,
          o.at_k,
          (child-cell d (p + 1) (addr y) (addr z)).1,
          (child-cell d (p + 1) (addr y) (addr z)).0,
          null_or_black-on t k z o.address.1.1 o.rep_z,
          bz,
          null_or_black-on t k y o.address.1.1 o.rep_y,
          by,
        )
        done

  pub settle_turn :
      is_black z ≡ true
      → is_black y ≡ false
      → finish d p k (addr z) (addr y) true t ≡ r
      → settle fuel d p k t ≡ r
  settle_turn bz by done =
      rw
        (
          load-on t t.nodes k o.address.1,
          o.at_k,
          (child-cell d (p + 1) (addr y) (addr z)).1,
          (child-cell d (p + 1) (addr y) (addr z)).0,
          null_or_black-on t k z o.address.1.1 o.rep_z,
          bz,
          null_or_black-on t k y o.address.1.1 o.rep_y,
          by,
        )
        done

  pub settle_rotate :
      is_black z ≡ false → finish d p k (addr z) (addr y) false t ≡ r → settle fuel d p k t ≡ r
  settle_rotate bz done =
      rw
        (
          load-on t t.nodes k o.address.1,
          o.at_k,
          (child-cell d (p + 1) (addr y) (addr z)).1,
          (child-cell d (p + 1) (addr y) (addr z)).0,
          null_or_black-on t k z o.address.1.1 o.rep_z,
          bz,
        )
        done

-- A round below a node with a sibling of the colour `bk`.
pub round :
    (fuel : ℕ) (t : Rb) (c : Spine) (d : Side) (p k : ℕ) (x y z : Tree) (b bk : Bool)
    → IsPivot t t.nodes c d p k x y z b (p + paint bk) k k k
    → (r : Option (Unit {0} × Rb))
    → ((if not bk then rotate_sibling d p k else pure k) >>= settle fuel d p) t ≡ r
    → erase_color (suc fuel) (addr x) p t ≡ r
unfolding erase_color
round fuel t c d p k x y z b bk o r done =
    let apart = λ (e : addr x ≡ k).
      addr-absent k x o.address.1.0 (omega (arith, o.distinct k, once_self k)) e in
    rw
      (
        load-on t t.nodes p o.address.0,
        o.at_p,
        near_side d (addr x) (up c + paint b) k apart,
        (child-cell d (up c + paint b) (addr x) k).1,
        rb_is_red-on t k p d bk (addr y) (addr z) o.address.1 o.address.0.1 o.at_k,
      )
      done

IsNephew-intro :
    (t : Rb) (c : Spine) (d : Side) (p k w : ℕ) (x a e z : Tree) (b : Bool)
    → IsPivot t t.nodes c d p k x (sided d a false w e) z b (p + 1) k k k
    → is_black e ≡ true
    → IsNephew t t.nodes c d p k w x a e z b
IsNephew-intro t c d p k w x a e z b o be =
    let (hw, at_w, ra, re) = Rep-unsided t.nodes k d a false w e o.rep_y in
    record {
      address = (o.address.0, o.address.1, hw);
      at_p = o.at_p;
      at_k = o.at_k ∙ ap (λ (n : ℕ). cell d (p + 1) n (addr z)) (addr-sided d a false w e);
      at_w = at_w;
      rep_x = o.rep_x;
      rep_a = ra;
      rep_e = re;
      rep_z = o.rep_z;
      spine = o.spine;
      black_e = be;
      distinct = λ q. omega (arith, o.distinct q, occurs-sided q d a false w e);
    }

-- Case 3, then case 4.
finish_turn :
    (t : Rb) (c : Spine) (d : Side) (p k w : ℕ) (x a e z : Tree) (b : Bool)
    → (o : IsNephew t t.nodes c d p k w x a e z b)
    → finish d p k (addr z) (addr (sided d a false w e)) true t
      ≡ rotate_parent d p w
          (addr (sided d e true k z))
          (on t (turned t t.nodes c d p k w x a e z b o))
unfolding finish
finish_turn t c d p k w x a e z b o =
    rw
      (
        addr-sided d a false w e,
        turn_sibling_run t t.nodes c d p k w x a e z b o,
        addr-sided d e true k z,
      )
      refl

pub sided-address :
    (d : Side) (x : Tree) (b : Bool) (a : ℕ) (y : Tree) → a ≢ 0 → addr (sided d x b a y) ≢ 0
sided-address left x b a y h = h
sided-address right x b a y h = h

blackened-sided :
    (d : Side) (x : Tree) (a : ℕ) (y : Tree) (m : ℕ)
    → IsBalanced x m
    → IsBalanced y m
    → IsBalanced (blackened (sided d x true a y)) (suc m)
blackened-sided left x a y m hx hy = (m, refl, hx, hy)
blackened-sided right x a y m hx hy = (m, refl, hy, hx)

pub turn-Rebalanced :
    (t : Rb) (c : Spine) (d : Side) (p k w m : ℕ) (x a e z : Tree) (b : Bool)
    → IsPivot t t.nodes c d p k x (sided d a false w e) z b (p + 1) k k k
    → is_black e ≡ true
    → IsUnder b c m
    → IsBalanced x m
    → IsBalanced a m
    → IsBalanced e m
    → IsBalanced z m
    → Rebalanced t
        (inorder (plug c (sided d x b p (sided d (sided d a false w e) true k z))))
        (finish d p k (addr z) (addr (sided d a false w e)) true t)
turn-Rebalanced t c d p k w m x a e z b o be u hx ha he hz =
    let n = IsNephew-intro t c d p k w x a e z b o be in
    let s = turned t t.nodes c d p k w x a e z b n in
    retarget t t _ _ _ _ refl
      (inorder-plug c _ _
        (inorder-far d x _ _ b b p (inorder-rotated d a e z false false true true w k)))
      (finish_turn t c d p k w x a e z b n)
      (parent-Rebalanced t s c d b false p w m x a (sided d e true k z) (k + 0) w w p
        (turned-IsPivot t t.nodes c d p k w x a e z b n) n.address.2.1
        (sided-address d e true k z n.address.1.0) u hx ha (blackened-sided d e k z m he hz))
