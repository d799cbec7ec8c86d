-- ===== src/Rbtree/Shape/Writes.antt =====
-- What the writes of src/rbtree.c do to a store whose nodes are known.
use rpi_os_cfs_ext.Base.{
  ℕ, ◌+◌, ◌%◌, ◌≤◌, ◌≡◌, ◌≢◌, refl, arith, Bool, true, false, some, ◌==◌, update, ◌∙◌, sym, Run,
  and_then, bit_or,
}
use rpi_os_cfs_ext.Base.Flags.{bit_or-zero, bit_or-one}
use rpi_os_cfs_ext.Rbtree.{
  Rb, RbNode, Side, left, right, other, child, load, store, set_left, set_right, set_child,
  set_parent_color, rb_set_parent_color, unless_null, black, parent_of,
}
use rpi_os_cfs_ext.Rbtree.Shape.{
  Tree, leaf, node, addr, is_black, paint, cell, IsAddress, Store, Rep, occurs, once, Rep-frame,
}

abbrev pub on : Rb → Store → Rb
on t s = record t { nodes = s }

pub bind_run :
    {A B : Type 0} (m : Run Rb A) (k : A → Run Rb B) (t t' : Rb) (a : A)
    → m t ≡ some (a, t')
    → and_then (m t) k ≡ k a t'
bind_run m k t t' a e = rw e

pub address_ne : (a : ℕ) → IsAddress a → (a == 0) ≡ false
address_ne a (ne, _) = ground (arith, ne)

pub flagged : (a : ℕ) (b : Bool) → a % 4 ≡ 0 → bit_or a (paint b) ≡ a + paint b
flagged a true h = bit_or-one a (omega arith)
flagged a false h = bit_or-zero a ∙ (omega arith)

pub parent_of_flagged : (a : ℕ) (b : Bool) → a % 4 ≡ 0 → parent_of (a + paint b) ≡ a
parent_of_flagged a true h = omega arith
parent_of_flagged a false h = omega arith

pub child-cell :
    (d : Side) (pc n f : ℕ) → (child d (cell d pc n f) ≡ n) × (child (other d) (cell d pc n f) ≡ f)
child-cell left pc n f = (refl, refl)
child-cell right pc n f = (refl, refl)

module _ (t : Rb) (s : Store) (p : ℕ) (h : IsAddress p) where
  pub load-on : load p (on t s) ≡ some (s p, on t s)
  unfolding load
  load-on = rw (address_ne p h)

  pub store-on : (n : RbNode) → store p n (on t s) ≡ some (tt, on t (update s p n))
  unfolding store
  store-on n = rw (address_ne p h)

  pub set_near :
      (d : Side) (pc n f : ℕ)
      → s p ≡ cell d pc n f
      → (q : ℕ) → set_child d p q (on t s) ≡ some (tt, on t (update s p (cell d pc q f)))
  unfolding set_child set_left set_right
  set_near left pc n f e q = rw (load-on, e) (store-on (cell left pc q f))
  set_near right pc n f e q = rw (load-on, e) (store-on (cell right pc q f))

  pub set_far :
      (d : Side) (pc n f : ℕ)
      → s p ≡ cell d pc n f
      → (q : ℕ) → set_child (other d) p q (on t s) ≡ some (tt, on t (update s p (cell d pc n q)))
  set_far left pc n f e q = set_near right pc f n e q
  set_far right pc n f e q = set_near left pc f n e q

  pub set_word :
      (d : Side) (pc n f : ℕ)
      → s p ≡ cell d pc n f
      → (q : ℕ) → set_parent_color p q (on t s) ≡ some (tt, on t (update s p (cell d q n f)))
  unfolding set_parent_color
  set_word left pc n f e q = rw (load-on, e) (store-on (cell left q n f))
  set_word right pc n f e q = rw (load-on, e) (store-on (cell right q n f))

  pub set_word_flagged :
      (d : Side) (pc n f : ℕ)
      → s p ≡ cell d pc n f
      → (q : ℕ) (b : Bool) → q % 4 ≡ 0
      → rb_set_parent_color p q (paint b) (on t s)
        ≡ some (tt, on t (update s p (cell d (q + paint b) n f)))
  unfolding rb_set_parent_color
  set_word_flagged d pc n f e q b hq = rw (flagged q b hq) (set_word d pc n f e (q + paint b))

pub update-at : (s : Store) (a : ℕ) (n : RbNode) → update s a n a ≡ n
update-at s a n = ground arith

pub update-else : (s : Store) (a p : ℕ) (n : RbNode) → p ≢ a → update s a n p ≡ s p
update-else s a p n h = ground (arith, h)

pub once_at : (a p : ℕ) → p ≡ a → once p a ≡ 1
once_at a p h = ground arith

pub once_absent : (a p : ℕ) → once p a ≡ 0 → a ≢ p
once_absent a p h e = absurd (ground arith)

-- The store after the root of a tree, if there is one, was made the child of `g`.
abbrev pub adopt : Store → ℕ → Tree → Store
adopt s g leaf = s
adopt s g (node l b a r) = update s a (cell left (g + paint b) (addr l) (addr r))

pub adopt-else : (s : Store) (g p : ℕ) (x : Tree) → occurs p x ≡ 0 → adopt s g x p ≡ s p
adopt-else s g p leaf h = refl
adopt-else s g p (node l b a r) h = update-else s a p _ (λ z. once_absent a p (omega arith) (sym z))

pub painted-Rep :
    (s : Store) (q g : ℕ) (l : Tree) (b b' : Bool) (a : ℕ) (r : Tree)
    → ((p : ℕ) → occurs p (node l b a r) ≤ 1)
    → Rep s q (node l b a r)
    → Rep (adopt s g (node l b' a r)) g (node l b' a r)
painted-Rep s q g l b b' a r one (h, e, rl, rr) = (
  h,
  update-at s a _,
  Rep-frame s (adopt s g (node l b' a r)) a l
      (λ p lt. update-else s a p _ λ z. absurd (omega (arith, one p, once_at a p z))) rl,
  Rep-frame s (adopt s g (node l b' a r)) a r
      (λ p lt. update-else s a p _ λ z. absurd (omega (arith, one p, once_at a p z))) rr,
)

pub adopt-Rep :
    (s : Store) (q g : ℕ) (x : Tree)
    → ((p : ℕ) → occurs p x ≤ 1)
    → Rep s q x
    → Rep (adopt s g x) g x
adopt-Rep s q g leaf one r = tt
adopt-Rep s q g (node l b a r) one rep = painted-Rep s q g l b b a r one rep

pub adopt_lem :
    (t : Rb) (s : Store) (q g : ℕ) (x : Tree)
    → Rep s q x
    → is_black x ≡ true
    → g % 4 ≡ 0
    → unless_null (addr x) (rb_set_parent_color (addr x) g black) (on t s)
      ≡ some (tt, on t (adopt s g x))
adopt_lem t s q g leaf r b hg = refl
adopt_lem t s q g (node l c a y) (h, e, rl, rr) b hg =
    rw (address_ne a h)
      (rw b (set_word_flagged t s a h left (q + paint c) (addr l) (addr y) e g true hg))
