-- ===== src/Rbtree/Erase.antt =====
-- `__rb_erase_augmented`, `__rb_erase_color` and `rb_erase_cached` of src/rbtree.c.
pub mod Pivot
pub mod Rotations
pub mod Nephew
pub mod Push
pub mod Settle
pub mod Round
pub mod Black
pub mod Loop
pub mod Unlink
pub mod First
use rpi_os_cfs_ext.Base.{
  ℕ, zero, suc, Bool, false, not, ◌==◌, if◌then◌else◌, pure, fault, ◌>>=◌, ◌>>◌, when,
}
use rpi_os_cfs_ext.Rbtree.{
  M, Side, left, right, other, child, set_child, set_left, set_right, red, black, load, color_of,
  parent_of, rb_parent, rb_is_black, rb_is_red, null_or_black, unless_null, set_parent_color,
  rb_set_black, rb_set_parent, rb_set_parent_color, rotate_set_parents, change_child, rb_next,
  set_leftmost,
}

-- Case 1: at most a right child, which takes the node's place. The result is where to rebalance.
unfoldable pub unlink_leaf : (node right_child : ℕ) → M ℕ
unfolding load change_child set_parent_color rb_is_black
unlink_leaf node right_child = do
  n ← load node
  let pc = n.parent_color
  let parent = parent_of pc
  change_child node right_child parent
  if not (right_child == 0)
      then (do set_parent_color right_child pc; pure 0)
      else do b ← rb_is_black node; pure (if b then parent else 0)

-- A left child only.
unfoldable pub unlink_left : (node tmp : ℕ) → M ℕ
unfolding load change_child set_parent_color
unlink_left node tmp = do
  n ← load node
  let pc = n.parent_color
  change_child node tmp (parent_of pc)
  set_parent_color tmp pc
  pure 0

-- The loop of case 3: the leftmost node under `tmp`, with its parent.
unfoldable pub find_successor : ℕ → (parent successor tmp : ℕ) → M (ℕ × ℕ)
unfolding load
find_successor zero parent successor tmp = fault
find_successor (suc fuel) parent successor tmp =
    if tmp == 0
    then pure (parent, successor)
    else do t ← load tmp; find_successor fuel successor tmp t.left

-- The successor of a node with two children, its parent, and its right child. In case 3 the
-- successor is unhooked.
unfoldable pub take_successor : ℕ → (right_child : ℕ) → M (ℕ × ℕ × ℕ)
unfolding load find_successor set_left set_right rb_set_parent
take_successor fuel right_child = do
  c ← load right_child
  if c.left == 0 then pure (right_child, right_child, c.right) else do
    (parent, successor) ← find_successor fuel right_child right_child c.left
    s ← load successor
    let child2 = s.right
    set_left parent child2
    set_right successor right_child
    rb_set_parent right_child successor
    pure (successor, parent, child2)

-- Cases 2 and 3: the successor takes the node's place.
unfoldable pub unlink_both : ℕ → (node right_child : ℕ) → M ℕ
unfolding load take_successor set_left rb_set_parent change_child set_parent_color
    rb_set_parent_color
unlink_both fuel node right_child = do
  (successor, parent, child2) ← take_successor fuel right_child
  n ← load node
  set_left successor n.left
  rb_set_parent n.left successor
  let pc = n.parent_color
  change_child node successor (parent_of pc)
  if not (child2 == 0)
      then (do set_parent_color successor pc; rb_set_parent_color child2 parent black; pure 0)
      else (do
        s ← load successor
        let pc2 = s.parent_color
        set_parent_color successor pc
        pure (if color_of pc2 == black then parent else 0))

unfoldable pub rb_erase_augmented : ℕ → ℕ → M ℕ
unfolding load unlink_leaf unlink_left unlink_both
rb_erase_augmented fuel node = do
  n ← load node
  if n.left == 0
      then unlink_leaf node n.right
      else if n.right == 0
      then unlink_left node n.left
      else unlink_both fuel node n.right

-- Case 1 of the rebalancing: a red sibling. The result is the new sibling.
unfoldable pub rotate_sibling : Side → (parent sibling : ℕ) → M ℕ
unfolding load set_child rb_set_parent_color rotate_set_parents
rotate_sibling near parent sibling = do
  s ← load sibling
  let tmp1 = child near s
  set_child (other near) parent tmp1
  set_child near sibling parent
  rb_set_parent_color tmp1 parent black
  rotate_set_parents parent sibling red
  pure tmp1

-- Case 3: the sibling's near child `tmp2` is red. The result is the new sibling and its far child.
unfoldable pub turn_sibling : Side → (parent sibling tmp2 : ℕ) → M (ℕ × ℕ)
unfolding load set_child rb_set_parent_color
turn_sibling near parent sibling tmp2 = do
  t ← load tmp2
  let tmp1 = child (other near) t
  set_child near sibling tmp1
  set_child (other near) tmp2 sibling
  set_child (other near) parent tmp2
  unless_null tmp1 (rb_set_parent_color tmp1 sibling black)
  pure (tmp2, sibling)

-- Case 4: the sibling's far child `tmp1` is red.
unfoldable pub rotate_parent : Side → (parent sibling tmp1 : ℕ) → M (Unit {0})
unfolding load set_child rb_set_parent_color rb_set_parent rotate_set_parents
rotate_parent near parent sibling tmp1 = do
  s ← load sibling
  let tmp2 = child near s
  set_child (other near) parent tmp2
  set_child near sibling parent
  rb_set_parent_color tmp1 sibling black
  unless_null tmp2 (rb_set_parent tmp2 parent)
  rotate_set_parents parent sibling black

-- Case 2: both children of the sibling are black. The result is the next parent, or NULL at the
-- end of the loop.
unfoldable pub push_up : (parent sibling : ℕ) → M ℕ
unfolding rb_set_parent_color rb_is_red rb_set_black rb_parent
push_up parent sibling = do
  rb_set_parent_color sibling parent red
  r ← rb_is_red parent
  if r then (do rb_set_black parent; pure 0) else rb_parent parent

-- Cases 3 and 4.
unfoldable pub finish : Side → (parent sibling tmp1 tmp2 : ℕ) → Bool → M (Unit {0})
unfolding turn_sibling rotate_parent
finish near parent sibling tmp1 tmp2 black1 =
    if black1
    then (do
      (sibling, tmp1) ← turn_sibling near parent sibling tmp2
      rotate_parent near parent sibling tmp1)
    else rotate_parent near parent sibling tmp1

-- The loop; `node` is the doubly black child of `parent`. It faults when the fuel ends.
unfoldable pub erase_color : ℕ → (node parent : ℕ) → M (Unit {0})
unfolding load rb_is_red rotate_sibling null_or_black push_up finish
erase_color zero node parent = fault
erase_color (suc fuel) node parent = do
  p ← load parent
  let near = if node == p.right then right else left
  let sibling = child (other near) p
  r ← rb_is_red sibling
  sibling ← (if r then rotate_sibling near parent sibling else pure sibling)
  s ← load sibling
  let tmp1 = child (other near) s
  let tmp2 = child near s
  black1 ← null_or_black tmp1
  black2 ← (if black1 then null_or_black tmp2 else pure false)
  if black2
      then (do
        above ← push_up parent sibling
        if above == 0 then pure tt else erase_color fuel parent above)
      else finish near parent sibling tmp1 tmp2 black1

unfoldable pub rb_erase_cached : ℕ → ℕ → M (Unit {0})
unfolding rb_next rb_erase_augmented erase_color
rb_erase_cached fuel node t =
    (do
      next ← (if t.leftmost == node then rb_next fuel node else pure t.leftmost)
      set_leftmost next
      rebalance ← rb_erase_augmented fuel node
      when (not (rebalance == 0)) (erase_color fuel 0 rebalance))
      t
