-- ===== src/Rbtree/Shape/Hole.antt =====
-- The nodes on the two sides of a hole, the way down to it, and a new node in it.
use mathlib.Core.List.{append_assoc, append-nil}
use rpi_os_cfs_ext.Base.{
  Bool-cases, ==_iff, ◌==◌, ℕ, ◌+◌, ◌≤◌, ◌≡◌, ◌⊎◌, inl, inr, refl, arith, Bool, true, false, some,
  List, [], ◌∷◌, ◌++◌, ap, ◌∙◌, sym, update, length, length-append,
}
use rpi_os_cfs_ext.Rbtree.{
  Rb, RbNode, left, right, Link, root_link, left_link, right_link, read_link, write_link,
  rb_link_node, set_child,
}
use rpi_os_cfs_ext.Rbtree.Shape.{
  Tree, leaf, node, addr, is_black, cell, paint, inorder, once, Spine, top, step, up, plug,
  occurs_spine, Focus, IsAddress, RepSpine-frame, RepSpine,
}
use rpi_os_cfs_ext.Rbtree.Shape.Writes.{on, load-on, store-on, set_near, update-at, update-else}
use rpi_os_cfs_ext.Rbtree.Shape.Graft.{graft, graft-else, graft-RepSpine}
use rpi_os_cfs_ext.Rbtree.Shape.Balance.{under_black}
use rpi_os_cfs_ext.Rbtree.Insert.Round.{steps}

abbrev pub befores : Spine → List ℕ
befores top = []
befores (step left b a y c) = befores c
befores (step right b a y c) = befores c ++ (inorder y ++ a ∷ [])

abbrev pub afters : Spine → List ℕ
afters top = []
afters (step left b a y c) = a ∷ inorder y ++ afters c
afters (step right b a y c) = afters c

pub inorder-around :
    (c : Spine) (x : Tree) → inorder (plug c x) ≡ befores c ++ (inorder x ++ afters c)
inorder-around top x = sym (append-nil (inorder x))
inorder-around (step left b a y c) x = simp (inorder-around c (node x b a y), append_assoc)
inorder-around (step right b a y c) x = simp (inorder-around c (node y b a x), append_assoc)

steps-le_sum : (c : Spine) → steps c ≤ length (befores c) + length (afters c)
steps-le_sum top = omega arith
steps-le_sum (step left b a y c) =
    omega (arith, steps-le_sum c, length-append {0} (inorder y) (afters c))
steps-le_sum (step right b a y c) = omega (
  arith,
  steps-le_sum c,
  length-append {0} (befores c) (inorder y ++ a ∷ []),
  length-append {0} (inorder y) (a ∷ []),
)

pub steps-le : (c : Spine) → steps c ≤ length (befores c ++ afters c)
steps-le c = omega (arith, steps-le_sum c, length-append {0} (befores c) (afters c))

abbrev pub link_of : Spine → Link
link_of top = root_link
link_of (step left b a y c) = left_link a
link_of (step right b a y c) = right_link a

pub read_link-at :
    (t : Rb) (c : Spine) (x : Tree) → Focus t c x → read_link (link_of c) t ≡ some (addr x, t)
unfolding read_link
read_link-at t top x f = ap (λ (a : ℕ). some (a, t)) f.rep_spine
read_link-at t (step left b a y c) x f = rw (load-on t t.nodes a f.rep_spine.0, f.rep_spine.1) refl
read_link-at t (step right b a y c) x f = rw (load-on t t.nodes a f.rep_spine.0, f.rep_spine.1) refl

pub Focus-left :
    (t : Rb) (c : Spine) (l r : Tree) (b : Bool) (a : ℕ)
    → Focus t c (node l b a r)
    → Focus t (step left b a r c) l
Focus-left t c l r b a f = record {
  rep = f.rep.2;
  rep_spine = (f.rep.0, f.rep.1, f.rep.3, f.rep_spine);
  distinct = λ p. omega (arith, f.distinct p);
}

pub Focus-right :
    (t : Rb) (c : Spine) (l r : Tree) (b : Bool) (a : ℕ)
    → Focus t c (node l b a r)
    → Focus t (step right b a l c) r
Focus-right t c l r b a f = record {
  rep = f.rep.3;
  rep_spine = (f.rep.0, f.rep.1, f.rep.2, f.rep_spine);
  distinct = λ p. omega (arith, f.distinct p);
}

-- Whether a red node may stand at the hole: the tree there is black, or the node above it is.
abbrev pub IsFree : Tree → Spine → Type 0
IsFree x c = (is_black x ≡ true) ⊎ (under_black c ≡ true)

write_link-at :
    (t : Rb) (c : Spine) (h p : ℕ)
    → RepSpine t.nodes t.root c h
    → write_link (link_of c) p t ≡ some (tt, graft c p t)
unfolding write_link set_child
write_link-at t top h p r = refl
write_link-at t (step left b a y c) h p (ha, e, _, _) =
    set_near t t.nodes a ha left (up c + paint b) h (addr y) e p
write_link-at t (step right b a y c) h p (ha, e, _, _) =
    set_near t t.nodes a ha right (up c + paint b) h (addr y) e p

blank-RepSpine :
    (t : Rb) (c : Spine) (p h : ℕ) (n : RbNode)
    → RepSpine t.nodes t.root c h
    → occurs_spine p c ≡ 0
    → RepSpine (update t.nodes p n) t.root c h
blank-RepSpine t c p h n r fresh =
    RepSpine-frame t.nodes (update t.nodes p n) t.root c h
      (λ a lt.
        update-else t.nodes p a n
          (λ z. absurd (omega (arith, fresh, ap (λ q. occurs_spine q c) z))))
      r

-- The new node written, and the state after `rb_link_node`.
abbrev pub blank : Rb → Spine → ℕ → Rb
blank t c p = on t (update t.nodes p (record { parent_color = up c; right = 0; left = 0 }))

abbrev pub linked : Rb → Spine → ℕ → Rb
linked t c p = graft c p (blank t c p)

pub rb_link_node_lem :
    (t : Rb) (c : Spine) (p : ℕ)
    → Focus t c leaf
    → IsAddress p
    → occurs_spine p c ≡ 0
    → rb_link_node p (up c) (link_of c) t ≡ some (tt, linked t c p)
unfolding rb_link_node write_link
rb_link_node_lem t c p f h fresh =
    rw (store-on t t.nodes p h (record { parent_color = up c; right = 0; left = 0 }))
      (write_link-at (blank t c p) c 0 p (blank-RepSpine t c p 0 _ f.rep_spine fresh))

new-distinct :
    (a p : ℕ) (c : Spine)
    → occurs_spine p c ≡ 0
    → occurs_spine a c ≤ 1
    → once a p + occurs_spine a c ≤ 1
new-distinct a p c fresh one = elim (Bool-cases (p == a)) [
  | inl e ↦ rw e (omega (arith, ap (λ q. occurs_spine q c) (sym ((==_iff p a).0 e)) ∙ fresh))
  | inr e ↦ rw e (omega (arith, one))
]

pub linked-Focus :
    (t : Rb) (c : Spine) (p : ℕ)
    → Focus t c leaf
    → IsAddress p
    → occurs_spine p c ≡ 0
    → Focus (linked t c p) c (node leaf false p leaf)
linked-Focus t c p f h fresh =
    let t1 = blank t c p in
    record {
      rep = (
        h,
        graft-else t1 c p p fresh
            ∙ update-at t.nodes p _
            ∙ ap (λ (q : ℕ). cell left q 0 0) (omega arith),
        tt,
        tt,
      );
      rep_spine =
          graft-RepSpine t1 c 0 p (λ a. omega (arith, f.distinct a))
            (blank-RepSpine t c p 0 _ f.rep_spine fresh);
      distinct = λ a. omega (arith, new-distinct a p c fresh (omega (arith, f.distinct a)));
    }
