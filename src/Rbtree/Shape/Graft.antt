-- ===== src/Rbtree/Shape/Graft.antt =====
-- Another node at the hole of a path: `__rb_change_child` and `__rb_rotate_set_parents`.
use rpi_os_cfs_ext.Base.{
  ℕ, ◌+◌, ◌%◌, ◌≤◌, ◌<◌, ◌≡◌, ◌≢◌, refl, arith, Bool, true, false, some, ◌==◌, update, ap, ◌∙◌, sym,
}
use rpi_os_cfs_ext.Rbtree.{
  Rb, Side, left, right, set_child, rb_parent, change_child, rotate_set_parents,
}
use rpi_os_cfs_ext.Rbtree.Shape.{
  addr, paint, cell, IsAddress, Store, occurs, Spine, top, step, up, RepSpine, occurs_spine,
  Rep-frame, RepSpine-frame, addr-absent,
}
use rpi_os_cfs_ext.Rbtree.Shape.Writes.{
  on, load-on, set_near, set_word, set_word_flagged, update-at, update-else, once_at, once_absent,
  parent_of_flagged, address_ne,
}

-- The hole of the path points to `h`.
abbrev pub graft : Spine → ℕ → Rb → Rb
graft top h t = record t { root = h }
graft (step d b a y c) h t = on t (update t.nodes a (cell d (up c + paint b) h (addr y)))

pub up-aligned : (s : Store) (root : ℕ) (c : Spine) (h : ℕ) → RepSpine s root c h → up c % 4 ≡ 0
up-aligned s root top h r = refl
up-aligned s root (step d b a y c) h r = r.0.1

pub graft-else :
    (t : Rb) (c : Spine) (h p : ℕ) → occurs_spine p c ≡ 0 → (graft c h t).nodes p ≡ t.nodes p
graft-else t top h p absent = refl
graft-else t (step d b a y c) h p absent =
    update-else t.nodes a p _ (λ z. once_absent a p (omega arith) (sym z))

pub graft-leftmost : (t : Rb) (c : Spine) (h : ℕ) → (graft c h t).leftmost ≡ t.leftmost
graft-leftmost t top h = refl
graft-leftmost t (step d b a y c) h = refl

pub graft-RepSpine :
    (t : Rb) (c : Spine) (old h : ℕ)
    → ((p : ℕ) → occurs_spine p c ≤ 1)
    → RepSpine t.nodes t.root c old
    → RepSpine (graft c h t).nodes (graft c h t).root c h
graft-RepSpine t top old h one r = refl
graft-RepSpine t (step d b a y c) old h one (ha, e, ry, rc) =
    let same = λ (p : ℕ) (lt : 0 < occurs p y + occurs_spine p c).
      update-else t.nodes a p (cell d (up c + paint b) h (addr y))
        λ z. absurd (omega (arith, one p, once_at a p z)) in
    (
      ha,
      update-at t.nodes a _,
      Rep-frame t.nodes _ a y (λ p lt. same p (omega arith)) ry,
      RepSpine-frame t.nodes _ t.root c a (λ p lt. same p (omega arith)) rc,
    )

test_false : (p q : ℕ) → p ≢ q → (p == q) ≡ false
test_false p q h = ground (arith, h)

test_true : (p : ℕ) → (p == p) ≡ true
test_true p = ground arith

pub change_child_lem :
    (t : Rb) (c : Spine) (old h : ℕ)
    → old ≢ 0
    → occurs_spine old c ≡ 0
    → RepSpine t.nodes t.root c old
    → change_child old h (up c) t ≡ some (tt, graft c h t)
unfolding change_child set_child
change_child_lem t top old h ne absent r = refl
change_child_lem t (step left b a y c) old h ne absent (ha, e, ry, rc) =
    rw (address_ne a ha, load-on t t.nodes a ha, e, test_true old)
      (set_near t t.nodes a ha left (up c + paint b) old (addr y) e h)
change_child_lem t (step right b a y c) old h ne absent (ha, e, ry, rc) =
    rw
      (
        address_ne a ha,
        load-on t t.nodes a ha,
        e,
        test_false (addr y) old (addr-absent old y ne (omega arith)),
      )
      (set_near t t.nodes a ha right (up c + paint b) old (addr y) e h)

pub word-cell : (d : Side) (pc n f : ℕ) → (cell d pc n f).parent_color ≡ pc
word-cell left pc n f = refl
word-cell right pc n f = refl

pub rb_parent-on :
    (t : Rb) (s : Store) (p q : ℕ) (d : Side) (b : Bool) (n f : ℕ)
    → IsAddress p
    → q % 4 ≡ 0
    → s p ≡ cell d (q + paint b) n f
    → rb_parent p (on t s) ≡ some (q, on t s)
unfolding rb_parent
rb_parent-on t s p q d b n f h hq e =
    rw (load-on t s p h, e, word-cell d (q + paint b) n f)
      (ap (λ (r : ℕ). some (r, on t s)) (parent_of_flagged q b hq))

pub rotate_set_parents_lem :
    (t : Rb) (s : Store) (c : Spine) (old new : ℕ) (d e : Side) (b b' : Bool) (pc n f n' f' : ℕ)
    → IsAddress old
    → IsAddress new
    → new ≢ old
    → occurs_spine old c ≡ 0
    → occurs_spine new c ≡ 0
    → RepSpine s t.root c old
    → s old ≡ cell d (up c + paint b) n f
    → s new ≡ cell e pc n' f'
    → rotate_set_parents old new (paint b') (on t s)
      ≡ some (
        tt,
        graft c new (
            on t (
              update
                (update s new (cell e (up c + paint b) n' f'))
                old
                (cell d (new + paint b') n f))),
      )
unfolding rotate_set_parents rb_parent
rotate_set_parents_lem t s c old new d e b b' pc n f n' f' ho hn ne absent absent' r eo en =
    let aligned = up-aligned s t.root c old r in
    let s1 = update s new (cell e (up c + paint b) n' f') in
    let s2 = update s1 old (cell d (new + paint b') n f) in
    let same = λ (p : ℕ) (lt : 0 < occurs_spine p c).
      update-else s1 old p (cell d (new + paint b') n f)
        (λ z. absurd (omega (arith, absent, ap (λ q. occurs_spine q c) z)))
      ∙ update-else s new p (cell e (up c + paint b) n' f')
          (λ z. absurd (omega (arith, absent', ap (λ q. occurs_spine q c) z))) in
    rw
      (
        rb_parent-on t s old (up c) d b n f ho aligned eo,
        load-on t s old ho,
        eo,
        word-cell d (up c + paint b) n f,
        set_word t s new hn e pc n' f' en (up c + paint b),
        set_word_flagged t s1 old ho d (up c + paint b) n f
            (update-else s new old _ (λ z. ne (sym z)) ∙ eo) new b' hn.1,
      )
      (change_child_lem (on t s2) c old new ho.0 absent (RepSpine-frame s s2 t.root c old same r))
