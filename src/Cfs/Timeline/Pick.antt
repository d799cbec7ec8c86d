-- ===== src/Cfs/Timeline/Pick.antt =====
-- `pick_next_entity` of src/fair.c on a timeline.
use rpi_os_cfs_ext.Base.{
  ℕ, ◌^◌, ◌≤◌, ◌<◌, ◌≡◌, ◌≢◌, ◌⊎◌, inl, inr, refl, arith, false, some, ◌==◌, if◌then◌else◌, List,
  [], ◌∷◌, ap, subst, ◌∙◌, Bool-cases,
}
use rpi_os_cfs_ext.Base.Ordered.{All}
use rpi_os_cfs_ext.Cfs.Vruntime.{IsWithin, entity_before, entity_before_iff}
use rpi_os_cfs_ext.Cfs.State.{Kernel}
use rpi_os_cfs_ext.Cfs.Queue.{pick_next_entity}
use rpi_os_cfs_ext.Cfs.Queue.Accounting.{load_se-some}
use rpi_os_cfs_ext.Cfs.Timeline.{vruntime_of, distance, IsTimeline}

-- `r` is the running entity or the queue's first one, and neither the running entity nor one of the
-- queue is before it.
pub record IsEarliest (k : Kernel) (curr x : ℕ) (xs : List ℕ) (r : ℕ) : Type 0 where
  pub source : ((r ≡ curr) × (curr ≢ 0)) ⊎ (r ≡ x)
  pub not_curr : curr ≢ 0 → entity_before (vruntime_of k curr) (vruntime_of k r) ≡ false
  pub not_queued : All (λ p. entity_before (vruntime_of k p) (vruntime_of k r) ≡ false) (x ∷ xs)

module _ (k : Kernel) (base : ℕ) (hb : base < 2 ^ 64) where
  not_before :
      (p r : ℕ)
      → IsWithin base (vruntime_of k p)
      → IsWithin base (vruntime_of k r)
      → distance k base r ≤ distance k base p
      → entity_before (vruntime_of k p) (vruntime_of k r) ≡ false
  not_before p r hp hr le =
      ground (arith, entity_before_iff base hb (vruntime_of k p) (vruntime_of k r) hp hr)

  none_before :
      (r : ℕ) (xs : List ℕ)
      → IsWithin base (vruntime_of k r)
      → All (λ p. IsWithin base (vruntime_of k p)) xs
      → All (λ p. distance k base r ≤ distance k base p) xs
      → All (λ p. entity_before (vruntime_of k p) (vruntime_of k r) ≡ false) xs
  none_before r [] hr w le = tt
  none_before r (x ∷ xs) hr (w, ws) (le, les) = (not_before x r w hr le, none_before r xs hr ws les)

  through :
      (r x : ℕ) (xs : List ℕ)
      → distance k base r ≤ distance k base x
      → All (λ p. distance k base x ≤ distance k base p) xs
      → All (λ p. distance k base r ≤ distance k base p) xs
  through r x [] le les = tt
  through r x (y ∷ xs) le (h, les) = (omega arith, through r x xs le les)

-- The choice of the code.
abbrev pub choice : Kernel → ℕ → ℕ → ℕ
choice k curr x =
    if curr == 0
    then x
    else if entity_before (vruntime_of k curr) (vruntime_of k x)
    then curr
    else x

pick_run :
    (k : Kernel) (curr : ℕ)
    → (k.timeline.leftmost == 0) ≡ false
    → pick_next_entity curr k ≡ some (choice k curr k.timeline.leftmost, k)
unfolding pick_next_entity
pick_run k curr hx = elim (Bool-cases (curr == 0)) [
  | inl z ↦ rw (hx, z) refl
  | inr z ↦ rw (hx, z, load_se-some curr k z, load_se-some k.timeline.leftmost k hx) refl
]

pub pick_first :
    (k : Kernel) (curr x : ℕ)
    → k.timeline.leftmost ≡ x
    → (x == 0) ≡ false
    → pick_next_entity curr k ≡ some (choice k curr x, k)
pick_first k curr x first hx =
    subst (λ (y : ℕ). pick_next_entity curr k ≡ some (choice k curr y, k)) first
      (pick_run k curr (ap (λ (y : ℕ). y == 0) first ∙ hx))

pub not_zero : (a : ℕ) → a ≢ 0 → (a == 0) ≡ false
not_zero a h = ground (arith, h)

-- `pick_next_entity` on a queue with an entity `x` as its first one, and with a running entity or
-- none, gives one of the two, and there is no entity before it, neither the running one nor any
-- of the queue. It changes nothing.
pub pick_next_entity-IsEarliest :
    (k : Kernel) (base curr x : ℕ) (xs : List ℕ)
    → base < 2 ^ 64
    → IsTimeline k base (x ∷ xs)
    → x ≢ 0
    → (curr ≢ 0 → IsWithin base (vruntime_of k curr))
    → (r : ℕ) × (pick_next_entity curr k ≡ some (r, k)) × IsEarliest k curr x xs r
pick_next_entity-IsEarliest k base curr x xs hb q hx hc =
    let run = pick_first k curr x q.first (not_zero x hx) in
    let wx = q.within.0 in
    let queued = none_before k base hb x (x ∷ xs) wx q.within (omega arith, q.sorted.0) in
    elim (Bool-cases (curr == 0)) [
      | inl z ↦ (
        x,
        run ∙ (rw z refl),
        record { source = inr refl; not_curr = λ ne. absurd (ground arith); not_queued = queued },
      )
      | inr z ↦
          let ne : curr ≢ 0 = λ e. absurd (ground arith) in
          let wc = hc ne in
          elim (Bool-cases (entity_before (vruntime_of k curr) (vruntime_of k x))) [
            | inl b ↦
                let lt =
                  (entity_before_iff base hb (vruntime_of k curr) (vruntime_of k x) wc wx).0 b in
                (
                  curr,
                  run ∙ (rw (z, b) refl),
                  record {
                    source = inl (refl, ne);
                    not_curr = λ _. not_before k base hb curr curr wc wc (omega arith);
                    not_queued = none_before k base hb curr (x ∷ xs) wc q.within (
                      omega (arith, lt),
                      through k base hb curr x xs (omega (arith, lt)) q.sorted.0,
                    );
                  },
                )
            | inr b ↦ (
              x,
              run ∙ (rw (z, b) refl),
              record { source = inr refl; not_curr = λ _. b; not_queued = queued },
            )
          ]
    ]
