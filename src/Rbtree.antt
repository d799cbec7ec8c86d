-- ===== src/Rbtree.antt =====
-- src/rbtree.c and include/rbtree.h over a store of nodes. A node's address is a number, 0 is
-- NULL, and a read or write through NULL is a fault.
pub mod Shape
pub mod Insert
pub mod Erase
use rpi_os_cfs_ext.Base.{
  ℕ, zero, suc, ◌+◌, ◌-◌, ◌*◌, ◌%◌, Bool, true, false, not, ◌&&◌, Option, none, some, ◌==◌,
  if◌then◌else◌, bit_or, update, Run, pure, fault, ◌>>=◌, ◌>>◌, when,
}

-- `struct rb_node`; the low bit of the first word is the colour, the rest the parent's address.
pub record RbNode : Type 0 where
  pub parent_color : ℕ
  pub right : ℕ
  pub left : ℕ

-- `struct rb_root_cached`, and the nodes of the memory.
pub record Rb : Type 0 where
  pub nodes : ℕ → RbNode
  pub root : ℕ
  pub leftmost : ℕ

abbrev pub M : Type 0 → Type 0
M A = Run Rb A

abbrev pub red : ℕ
red = 0

abbrev pub black : ℕ
black = 1

unfoldable pub load : ℕ → M RbNode
load p t = if p == 0 then none else some (t.nodes p, t)

unfoldable pub store : ℕ → RbNode → M (Unit {0})
store p n t = if p == 0 then none else some (tt, record t { nodes = update t.nodes p n })

unfoldable pub set_parent_color : ℕ → ℕ → M (Unit {0})
unfolding load store
set_parent_color p pc = do n ← load p; store p (record n { parent_color = pc })

unfoldable pub set_left : ℕ → ℕ → M (Unit {0})
unfolding load store
set_left p q = do n ← load p; store p (record n { left = q })

unfoldable pub set_right : ℕ → ℕ → M (Unit {0})
unfolding load store
set_right p q = do n ← load p; store p (record n { right = q })

-- The two halves of the balancing code are one another's mirror image; they are written once,
-- over the side `near` on which the node stands.
pub data Side : Type 0 where
  left right : Side

abbrev pub other : Side → Side
other left = right
other right = left

abbrev pub child : Side → RbNode → ℕ
child left n = n.left
child right n = n.right

unfoldable pub set_child : Side → ℕ → ℕ → M (Unit {0})
unfolding set_left set_right
set_child left p q = set_left p q
set_child right p q = set_right p q

abbrev pub get_root : M ℕ
get_root t = some (t.root, t)

abbrev pub set_root : ℕ → M (Unit {0})
set_root p t = some (tt, record t { root = p })

abbrev pub set_leftmost : ℕ → M (Unit {0})
set_leftmost p t = some (tt, record t { leftmost = p })

-- `pc & 1` and `pc & ~3`
abbrev pub color_of : ℕ → ℕ
color_of pc = pc % 2

abbrev pub parent_of : ℕ → ℕ
parent_of pc = pc - pc % 4

unfoldable pub rb_color : ℕ → M ℕ
unfolding load
rb_color p = do n ← load p; pure (color_of n.parent_color)

unfoldable pub rb_is_black : ℕ → M Bool
unfolding rb_color
rb_is_black p = do c ← rb_color p; pure (c == black)

unfoldable pub rb_is_red : ℕ → M Bool
unfolding rb_color
rb_is_red p = do c ← rb_color p; pure (c == red)

unfoldable pub rb_parent : ℕ → M ℕ
unfolding load
rb_parent p = do n ← load p; pure (parent_of n.parent_color)

unfoldable pub rb_set_black : ℕ → M (Unit {0})
unfolding load set_parent_color
rb_set_black p = do n ← load p; set_parent_color p (bit_or n.parent_color black)

unfoldable pub rb_set_parent : ℕ → ℕ → M (Unit {0})
unfolding rb_color set_parent_color
rb_set_parent p parent = do c ← rb_color p; set_parent_color p (bit_or c parent)

unfoldable pub rb_set_parent_color : ℕ → ℕ → ℕ → M (Unit {0})
unfolding set_parent_color
rb_set_parent_color p parent color = set_parent_color p (bit_or parent color)

-- The parent of a red node is its whole first word.
unfoldable pub rb_red_parent : ℕ → M ℕ
unfolding load
rb_red_parent p = do n ← load p; pure n.parent_color

-- `p && rb_is_red(p)` and `!p || rb_is_black(p)`
unfoldable pub exists_red : ℕ → M Bool
unfolding rb_is_red
exists_red p = if p == 0 then pure false else rb_is_red p

unfoldable pub null_or_black : ℕ → M Bool
unfolding rb_is_black
null_or_black p = if p == 0 then pure true else rb_is_black p

-- `if(p) m;`
abbrev pub unless_null : ℕ → M (Unit {0}) → M (Unit {0})
unless_null p m = when (not (p == 0)) m

unfoldable pub change_child : ℕ → ℕ → ℕ → M (Unit {0})
unfolding load set_left set_right
change_child old new parent =
    if parent == 0
    then set_root new
    else do n ← load parent; if n.left == old then set_left parent new else set_right parent new

unfoldable pub rotate_set_parents : ℕ → ℕ → ℕ → M (Unit {0})
unfolding load rb_parent set_parent_color rb_set_parent_color change_child
rotate_set_parents old new color = do
  parent ← rb_parent old
  n ← load old
  set_parent_color new n.parent_color
  rb_set_parent_color old new color
  change_child old new parent

-- `struct rb_node **`: the root's field or a child field of a node.
pub data Link : Type 0 where
  root_link : Link
  left_link : ℕ → Link
  right_link : ℕ → Link

unfoldable pub read_link : Link → M ℕ
unfolding load
read_link root_link = get_root
read_link (left_link p) = do n ← load p; pure n.left
read_link (right_link p) = do n ← load p; pure n.right

unfoldable pub write_link : Link → ℕ → M (Unit {0})
unfolding set_left set_right
write_link root_link q = set_root q
write_link (left_link p) q = set_left p q
write_link (right_link p) q = set_right p q

unfoldable pub rb_link_node : ℕ → ℕ → Link → M (Unit {0})
unfolding store write_link
rb_link_node node parent link = do
  store node (record { parent_color = parent; right = 0; left = 0 })
  write_link link node

-- The loops of `rb_next`: down to the left, and up while the node is a right child. Both fault
-- when the fuel ends.
unfoldable pub go_left : ℕ → ℕ → M ℕ
unfolding load
go_left zero node = fault
go_left (suc fuel) node = do
  n ← load node
  let rest = go_left fuel n.left
  if n.left == 0 then pure node else rest

unfoldable pub go_up : ℕ → ℕ → M ℕ
unfolding load rb_parent
go_up zero node = fault
go_up (suc fuel) node = do
  parent ← rb_parent node
  let rest = go_up fuel parent
  if parent == 0 then pure 0 else do p ← load parent; if p.right == node then rest else pure parent

unfoldable pub rb_next : ℕ → ℕ → M ℕ
unfolding load go_left go_up
rb_next fuel node = do
  n ← load node
  if n.parent_color == node
      then pure 0
      else if not (n.right == 0)
      then go_left fuel n.right
      else go_up fuel node
