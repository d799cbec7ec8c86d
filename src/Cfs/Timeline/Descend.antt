-- ===== src/Cfs/Timeline/Descend.antt =====
-- The descent of `__enqueue_entity` of src/fair.c to the place of a new entity.
use mathlib.Core.List.{append_assoc}
use rpi_os_cfs_ext.Base.{
  ℕ, zero, suc, ◌^◌, ◌≤◌, ◌<◌, ◌≡◌, ◌↔◌, inl, inr, refl, arith, Bool, true, false, Option, some,
  if◌then◌else◌, List, [], ◌∷◌, ◌++◌, sub64, length, length-append, subst, ◌∙◌, Bool-cases,
}
use rpi_os_cfs_ext.Base.Ordered.{
  is_nil-end, is_nil, All, All-append, append-All, All-imp, IsOrdered, IsOrdered-parts,
  IsOrdered-before,
}
use rpi_os_cfs_ext.Rbtree.{Link, left, right, left_link, right_link, read_link}
use rpi_os_cfs_ext.Rbtree.Shape.{Tree, leaf, node, addr, inorder, Spine, step, up, Focus}
use rpi_os_cfs_ext.Rbtree.Shape.Writes.{address_ne}
use rpi_os_cfs_ext.Rbtree.Shape.Balance.{IsBalanced, IsBalancedAround}
use rpi_os_cfs_ext.Rbtree.Shape.Hole.{
  befores, afters, link_of, read_link-at, Focus-left, Focus-right, IsFree,
}
use rpi_os_cfs_ext.Cfs.Vruntime.{IsWithin, entity_before, entity_before_iff}
use rpi_os_cfs_ext.Cfs.State.{Kernel, on_tree}
use rpi_os_cfs_ext.Cfs.Queue.{find_link}
use rpi_os_cfs_ext.Cfs.Queue.Accounting.{load_se-some}
use rpi_os_cfs_ext.Cfs.Timeline.{vruntime_of, distance}

not_before : (b : Bool) (x y : ℕ) → (b ≡ true) ↔ (x < y) → b ≡ false → y ≤ x
not_before b x y h e = ground (arith, h.1)

module _ (k : Kernel) (base v : ℕ) where
  -- The tasks before the hole are not later than `v`, and those after it are.
  pub record IsPlace (c : Spine) (first : Bool) : Type 0 where
    pub lower : All (λ p. distance k base p ≤ sub64 v base) (befores c)
    pub upper : All (λ p. sub64 v base < distance k base p) (afters c)
    pub leftmost : is_nil (befores c) ≡ first

  -- A run that finds the place, a hole of the same tree.
  pub record Found (nodes : List ℕ) (r : Option ((Link × ℕ × Bool) × Kernel)) : Type 0 where
    pub hole : Spine
    pub first : Bool
    pub run : r ≡ some ((link_of hole, up hole, first), k)
    pub focus : Focus k.timeline hole leaf
    pub around : befores hole ++ afters hole ≡ nodes
    pub place : IsPlace hole first
    pub balanced : IsBalancedAround hole 0
    pub free : IsFree leaf hole

  on_tree-read :
      (c : Spine) (x : Tree)
      → Focus k.timeline c x
      → on_tree (λ _. read_link (link_of c)) k ≡ some (addr x, k)
  unfolding on_tree
  on_tree-read c x f = rw (on_tree, read_link-at k.timeline c x f) refl

  -- The same place, reached by another run, and the nodes written in another way.
  Found-along :
      (xs ys : List ℕ) (r r' : Option ((Link × ℕ × Bool) × Kernel))
      → ys ≡ xs
      → r ≡ r'
      → Found ys r'
      → Found xs r
  Found-along xs ys r r' e e' s = record {
    hole = s.hole;
    first = s.first;
    run = e' ∙ s.run;
    focus = s.focus;
    around = s.around ∙ e;
    place = s.place;
    balanced = s.balanced;
    free = s.free;
  }

  descend_run :
      (fuel : ℕ) (c : Spine) (l r : Tree) (b : Bool) (a : ℕ) (first before : Bool)
      → Focus k.timeline c (node l b a r)
      → entity_before v (vruntime_of k a) ≡ before
      → find_link (suc fuel) v (link_of c) (up c) first k
        ≡ find_link fuel v
            (if before then left_link a else right_link a)
            a
            (if before then first else false)
            k
  unfolding find_link
  descend_run fuel c l r b a first before f e =
      rw
        (
          on_tree-read c (node l b a r) f,
          address_ne a f.rep.0,
          load_se-some a k (address_ne a f.rep.0),
          e,
        )
        refl

  -- The colours on the way down.
  child-IsBalanced :
      (b : Bool) (l r : Tree) (a m : ℕ) (c : Spine)
      → IsBalanced (node l b a r) m
      → IsBalancedAround c m
      → IsFree (node l b a r) c
      → (n : ℕ) × (IsBalanced l n
          × IsBalancedAround (step left b a r c) n
          × IsFree l (step left b a r c))
        × (IsBalanced r n × IsBalancedAround (step right b a l c) n × IsFree r (step right b a l c))
  child-IsBalanced true l r a m c (n, e, bl, br) bc fr =
      let bc' = subst (IsBalancedAround c) e bc in
      (n, (bl, (br, bc'), inr refl), (br, (bl, bc'), inr refl))
  child-IsBalanced false l r a m c (bl, br, dl, dr) bc (inl z) = absurd (ground arith)
  child-IsBalanced false l r a m c (bl, br, dl, dr) bc (inr u) =
      (m, (bl, (br, dr, u, bc), inl dl), (br, (bl, dl, u, bc), inl dr))

  pub find_link_lem :
      (fuel : ℕ) (c : Spine) (x : Tree) (first : Bool) (m : ℕ)
      → base < 2 ^ 64
      → IsWithin base v
      → Focus k.timeline c x
      → IsOrdered (distance k base) (inorder x)
      → All (λ p. IsWithin base (vruntime_of k p)) (inorder x)
      → IsPlace c first
      → IsBalanced x m
      → IsBalancedAround c m
      → IsFree x c
      → length (inorder x) < fuel
      → Found (befores c ++ (inorder x ++ afters c)) (find_link fuel v (link_of c) (up c) first k)
  unfolding find_link
  find_link_lem zero c x first m hb hv f o w pl bx bc fr lt = absurd (omega arith)
  find_link_lem (suc fuel) c leaf first m hb hv f o w pl bx bc fr lt = record {
    hole = c;
    first = first;
    run = rw (on_tree-read c leaf f) refl;
    focus = f;
    around = refl;
    place = pl;
    balanced = subst (IsBalancedAround c) bx bc;
    free = fr;
  }
  find_link_lem (suc fuel) c (node l b a r) first m hb hv f o w pl bx bc fr lt =
      let parts = IsOrdered-parts (distance k base) (inorder l) (a ∷ inorder r) o in
      let (wl, (wa, wr)) =
        append-All (λ p. IsWithin base (vruntime_of k p)) (inorder l) (a ∷ inorder r) w in
      let iff = entity_before_iff base hb v (vruntime_of k a) hv wa in
      let (n, (bl, cl, fl), (br, cr, fr')) = child-IsBalanced b l r a m c bx bc fr in
      elim (Bool-cases (entity_before v (vruntime_of k a))) [
        | inl e ↦
            Found-along _ _ _ _ (simp append_assoc) (descend_run fuel c l r b a first true f e) (
              find_link_lem fuel (step left b a r c) l first n hb hv
                (Focus-left k.timeline c l r b a f) parts.0 wl
                (record {
                  lower = pl.lower;
                  upper = (
                    iff.0 e,
                    All-append (λ p. sub64 v base < distance k base p) (inorder r) (afters c)
                        (All-imp (λ p. distance k base a ≤ distance k base p)
                          (λ p. sub64 v base < distance k base p) (inorder r)
                          (λ p h. omega (arith, iff.0 e)) parts.1.0)
                        pl.upper,
                  );
                  leftmost = pl.leftmost;
                })
                bl cl fl (omega (arith, length-append {0} (inorder l) (a ∷ inorder r))))
        | inr e ↦
            Found-along _ _ _ _ (simp append_assoc) (descend_run fuel c l r b a first false f e) (
              find_link_lem fuel (step right b a l c) r false n hb hv
                (Focus-right k.timeline c l r b a f) parts.1.1 wr
                (record {
                  lower =
                      All-append (λ p. distance k base p ≤ sub64 v base) (befores c)
                        (inorder l ++ a ∷ []) pl.lower
                        (All-append (λ p. distance k base p ≤ sub64 v base) (inorder l) (a ∷ [])
                          (All-imp (λ p. distance k base p ≤ distance k base a)
                            (λ p. distance k base p ≤ sub64 v base) (inorder l)
                            (λ p h. omega (arith, not_before _ _ _ iff e))
                            (IsOrdered-before (distance k base) (inorder l) a (inorder r) o))
                          (not_before _ _ _ iff e, tt));
                  upper = pl.upper;
                  leftmost = is_nil-end (befores c) (inorder l) a;
                })
                br cr fr' (omega (arith, length-append {0} (inorder l) (a ∷ inorder r))))
      ]
