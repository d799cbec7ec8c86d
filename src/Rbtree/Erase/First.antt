-- ===== src/Rbtree/Erase/First.antt =====
-- The first node of a tree, and the one after it: `rb_next` of src/rbtree.c.
use mathlib.Core.Bool.{true≢false}
use rpi_os_cfs_ext.Base.{
  ℕ, zero, suc, ◌+◌, ◌%◌, ◌≤◌, ◌<◌, ◌≡◌, ◌≢◌, inl, inr, refl, arith, Bool, true, false, some, ◌==◌,
  List, [], ◌∷◌, ◌++◌, ap, ◌∙◌, sym, subst, length, length-append,
}
use rpi_os_cfs_ext.Base.Ordered.{head, is_nil, is_nil-end}
use rpi_os_cfs_ext.Rbtree.{Rb, left, right, go_left, go_up, rb_next}
use rpi_os_cfs_ext.Rbtree.Shape.{
  Tree, leaf, node, addr, paint, IsAddress, Store, Rep, addr-absent, once_self, Spine, top, step,
  up, plug, inorder, Focus, occurs_spine, RepSpine,
}
use rpi_os_cfs_ext.Rbtree.Shape.Writes.{load-on, address_ne, once_absent}
use rpi_os_cfs_ext.Rbtree.Shape.Graft.{up-aligned, rb_parent-on}
use rpi_os_cfs_ext.Rbtree.Shape.Balance.{IsBalanced, IsBalancedAround}
use rpi_os_cfs_ext.Rbtree.Shape.Hole.{befores, afters, IsFree, Focus-left}
use rpi_os_cfs_ext.Rbtree.Insert.Cases.{is_other}

-- A node without a left child at the left end of the tree.
pub record AtFirst (t : Rb) (nodes : List ℕ) : Type 0 where
  pub spine : Spine
  pub color : Bool
  pub first : ℕ
  pub rest : Tree
  pub focus : Focus t spine (node leaf color first rest)
  pub no_before : befores spine ≡ []
  pub order : inorder (plug spine (node leaf color first rest)) ≡ nodes
  pub height : ℕ
  pub balanced : IsBalanced (node leaf color first rest) height
  pub around : IsBalancedAround spine height
  pub free : IsFree (node leaf color first rest) spine

pub find_first :
    (t : Rb) (c : Spine) (l : Tree) (b : Bool) (a : ℕ) (r : Tree) (m : ℕ)
    → Focus t c (node l b a r)
    → befores c ≡ []
    → IsBalanced (node l b a r) m
    → IsBalancedAround c m
    → IsFree (node l b a r) c
    → AtFirst t (inorder (plug c (node l b a r)))
find_first t c leaf b a r m f e hx hc free = record {
  spine = c;
  color = b;
  first = a;
  rest = r;
  focus = f;
  no_before = e;
  order = refl;
  height = m;
  balanced = hx;
  around = hc;
  free = free;
}
find_first t c (node ll lb la lr) true a r m f e (n, e', hl, hr) hc free =
    find_first t (step left true a r c) ll lb la lr n (Focus-left t c (node ll lb la lr) r true a f)
      e hl (hr, subst (IsBalancedAround c) e' hc) (inr refl)
find_first t c (node ll lb la lr) false a r m f e (hl, hr, bl, br) hc (inl z) =
    absurd (ground arith)
find_first t c (node ll lb la lr) false a r m f e (hl, hr, bl, br) hc (inr u) =
    find_first t (step left false a r c) ll lb la lr m
      (Focus-left t c (node ll lb la lr) r false a f) e hl (hr, br, u, hc) (inl bl)

head-append :
    (xs ys : List ℕ) (x : ℕ) (zs : List ℕ) → head ((xs ++ x ∷ zs) ++ ys) ≡ head (xs ++ x ∷ zs)
head-append [] ys x zs = refl
head-append (y ∷ xs) ys x zs = refl

go_left_lem :
    (fuel : ℕ) (t : Rb) (q : ℕ) (l : Tree) (b : Bool) (a : ℕ) (r : Tree)
    → Rep t.nodes q (node l b a r)
    → length (inorder (node l b a r)) ≤ fuel
    → go_left fuel a t ≡ some (head (inorder (node l b a r)), t)
unfolding go_left
go_left_lem zero t q l b a r (h, e, rl, rr) lt =
    absurd (omega (arith, length-append {0} (inorder l) (a ∷ inorder r)))
go_left_lem (suc fuel) t q leaf b a r (h, e, rl, rr) lt = rw (load-on t t.nodes a h, e) refl
go_left_lem (suc fuel) t q (node ll lb la lr) b a r (h, e, rl, rr) lt =
    rw (load-on t t.nodes a h, e, address_ne la rl.0)
      (go_left_lem fuel t a ll lb la lr rl
          (omega (arith, length-append {0} (inorder (node ll lb la lr)) (a ∷ inorder r)))
        ∙ ap (λ (n : ℕ). some (n, t))
            (sym (head-append (inorder ll) (a ∷ inorder r) la (inorder lr))))

not_nil : (xs ys : List ℕ) (a : ℕ) → xs ++ (ys ++ a ∷ []) ≢ []
not_nil xs ys a e = absurd (true≢false (sym (ap is_nil e) ∙ is_nil-end xs ys a))

go_up_lem :
    (fuel : ℕ) (t : Rb) (c : Spine) (b : Bool) (n : ℕ) (r : Tree)
    → Focus t c (node leaf b n r)
    → befores c ≡ []
    → go_up (suc fuel) n t ≡ some (head (afters c), t)
unfolding go_up
go_up_lem fuel t top b n r f e =
    rw (rb_parent-on t t.nodes n 0 left b 0 (addr r) f.rep.0 refl f.rep.1) refl
go_up_lem fuel t (step right b' p v c) b n r f e = absurd (not_nil (befores c) (inorder v) p e)
go_up_lem fuel t (step left b' p v c) b n r f e =
    let (hp, at_p, rv, rc) = f.rep_spine in
    rw
      (
        rb_parent-on t t.nodes n p left b 0 (addr r) f.rep.0 hp.1 f.rep.1,
        address_ne p hp,
        load-on t t.nodes p hp,
        at_p,
        is_other (addr v) n (addr-absent n v f.rep.0.0 (omega (arith, f.distinct n, once_self n))),
      )
      refl

-- A node's word is not its own address.
not_itself : (q n : ℕ) (b : Bool) → IsAddress n → q % 4 ≡ 0 → q ≢ n → (q + paint b == n) ≡ false
not_itself q n true (h, e) hq ne = ground (arith, e, hq)
not_itself q n false h hq ne = ground (arith, ne)

up-other :
    (s : Store) (root : ℕ) (n : ℕ) (c : Spine) (h : ℕ)
    → RepSpine s root c h
    → n ≢ 0
    → occurs_spine n c ≡ 0
    → up c ≢ n
up-other s root n top h r hn e z = hn (sym z)
up-other s root n (step d b a y c) h r hn e z = once_absent a n (omega (arith, e)) z

word_other :
    (t : Rb) (c : Spine) (b : Bool) (n : ℕ) (r : Tree)
    → Focus t c (node leaf b n r)
    → (up c + paint b == n) ≡ false
word_other t c b n r f =
    not_itself (up c) n b f.rep.0 (up-aligned t.nodes t.root c n f.rep_spine) (
      up-other t.nodes t.root n c n f.rep_spine f.rep.0.0
        (omega (arith, f.distinct n, once_self n)))

pub rb_next-first :
    (fuel : ℕ) (t : Rb) (c : Spine) (b : Bool) (n : ℕ) (r : Tree)
    → Focus t c (node leaf b n r)
    → befores c ≡ []
    → length (inorder r) < fuel
    → rb_next fuel n t ≡ some (head (inorder r ++ afters c), t)
unfolding rb_next
rb_next-first zero t c b n r f e lt = absurd (omega arith)
rb_next-first (suc fuel) t c b n leaf f e lt =
    rw (load-on t t.nodes n f.rep.0, f.rep.1, word_other t c b n leaf f)
      (go_up_lem fuel t c b n leaf f e)
rb_next-first (suc fuel) t c b n (node l bk k r) f e lt =
    rw
      (
        load-on t t.nodes n f.rep.0,
        f.rep.1,
        word_other t c b n (node l bk k r) f,
        address_ne k f.rep.3.0,
      )
      (go_left_lem (suc fuel) t n l bk k r f.rep.3 (omega arith)
        ∙ ap (λ (m : ℕ). some (m, t)) (sym (head-append (inorder l) (afters c) k (inorder r))))
