-- ===== src/Rbtree/Insert.antt =====
-- `__rb_insert` and `rb_insert_color_cached` of src/rbtree.c.
pub mod Rotate
pub mod Turn
pub mod Cases
pub mod Recolor
pub mod Round
pub mod Ends
pub mod Loop
use rpi_os_cfs_ext.Base.{ℕ, zero, suc, Bool, ◌==◌, if◌then◌else◌, pure, fault, ◌>>=◌, ◌>>◌}
use rpi_os_cfs_ext.Rbtree.{
  M, Side, left, right, other, child, set_child, red, black, load, rb_parent, rb_is_black,
  rb_red_parent, exists_red, unless_null, rb_set_parent_color, rotate_set_parents,
}

-- Case 1, a red uncle: recolour, and go on from the grandparent, which comes with its parent.
unfoldable pub recolor : (uncle parent gparent : ℕ) → M (ℕ × ℕ)
unfolding rb_set_parent_color rb_parent
recolor tmp parent gparent = do
  rb_set_parent_color tmp gparent black
  rb_set_parent_color parent gparent black
  above ← rb_parent gparent
  rb_set_parent_color gparent above red
  pure (gparent, above)

-- Case 2, the node is a far child: it takes its parent's place. The result is the new parent and
-- its far child.
unfoldable pub turn : Side → (node parent : ℕ) → M (ℕ × ℕ)
unfolding load set_child rb_set_parent_color
turn near node parent = do
  n ← load node
  let tmp = child near n
  set_child (other near) parent tmp
  set_child near node parent
  unless_null tmp (rb_set_parent_color tmp parent black)
  rb_set_parent_color parent node red
  n ← load node
  pure (node, child (other near) n)

-- Case 3: the parent takes the grandparent's place.
unfoldable pub rotate : Side → (parent tmp gparent : ℕ) → M (Unit {0})
unfolding set_child rb_set_parent_color rotate_set_parents
rotate near parent tmp gparent = do
  set_child near gparent tmp
  set_child (other near) parent gparent
  unless_null tmp (rb_set_parent_color tmp gparent black)
  rotate_set_parents gparent parent red

-- Case 2 where it applies, then case 3.
unfoldable pub restructure : Side → (node parent gparent : ℕ) → M (Unit {0})
unfolding load turn rotate
restructure near node parent gparent = do
  p ← load parent
  let far = child (other near) p
  (parent', tmp) ← (if node == far then turn near node parent else pure (parent, far))
  rotate near parent' tmp gparent

-- The loop; it faults when the fuel ends.
unfoldable pub insert_loop : ℕ → (node parent : ℕ) → M (Unit {0})
unfolding load rb_is_black rb_red_parent exists_red rb_set_parent_color recolor restructure
insert_loop zero node parent = fault
insert_loop (suc fuel) node parent = if parent == 0 then rb_set_parent_color node 0 black else do
  done ← rb_is_black parent
  if done then pure tt else do
    gparent ← rb_red_parent parent
    g ← load gparent
    let near = if parent == g.right then right else left
    let uncle = child (other near) g
    again ← exists_red uncle
    if again
        then (do (node', parent') ← recolor uncle parent gparent; insert_loop fuel node' parent')
        else restructure near node parent gparent

unfoldable pub rb_insert : ℕ → ℕ → M (Unit {0})
unfolding rb_red_parent insert_loop
rb_insert fuel node = do parent ← rb_red_parent node; insert_loop fuel node parent

unfoldable pub rb_insert_color_cached : ℕ → ℕ → Bool → M (Unit {0})
unfolding rb_insert
rb_insert_color_cached fuel node leftmost t =
    rb_insert fuel node (if leftmost then record t { leftmost = node } else t)
