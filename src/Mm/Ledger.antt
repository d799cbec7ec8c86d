-- ===== src/Mm/Ledger.antt =====
-- Who holds which page: runs of `get_free_page` and `free_page` of src/mm.c with the list of the
-- pages that are held.
use mathlib.Core.Option.{some-injective}
use rpi_os_cfs_ext.Base.{
  ℕ, zero, suc, ◌+◌, ◌≤◌, ◌<◌, ◌≡◌, ◌⊎◌, inl, inr, refl, ap, subst, sym, ◌∙◌, arith, some, ◌==◌,
  Bool-cases, ==_iff, update, List, [], ◌∷◌, ◌++◌, length, length-append, count, count-middle,
}
use rpi_os_cfs_ext.Mm.{Memory, map_size, page_of, va_start, mark_page, get_free_page, free_page}
use rpi_os_cfs_ext.Mm.Pages.{
  IsFirstFree, clear_page, get_free_page_cases, handed_out, free_page_lem,
}

pub record Ledger : Type 0 where
  pub memory : Memory
  pub held : List ℕ

-- A page is handed out and held; one that is held is given back, by its physical address or by the
-- kernel's; or other code writes to memory and leaves `mem_map` alone.
pub data Step : Ledger → Ledger → Type 0 where
  alloc :
      (m m' : Memory) (held : List ℕ) (p : ℕ)
      → get_free_page m ≡ some (p, m')
      → Step (record { memory = m; held = held }) (record { memory = m'; held = p ∷ held })
  release :
      (m m' : Memory) (xs ys : List ℕ) (p : ℕ)
      → free_page p m ≡ some (tt, m')
      → Step (record { memory = m; held = xs ++ p ∷ ys }) (record { memory = m'; held = xs ++ ys })
  release_kernel :
      (m m' : Memory) (xs ys : List ℕ) (p : ℕ)
      → free_page (p + va_start) m ≡ some (tt, m')
      → Step (record { memory = m; held = xs ++ p ∷ ys }) (record { memory = m'; held = xs ++ ys })
  other :
      (m m' : Memory) (held : List ℕ)
      → ((i : ℕ) → m'.mem_map i ≡ m.mem_map i)
      → Step (record { memory = m; held = held }) (record { memory = m'; held = held })

pub data Reach (s : Ledger) : Ledger → Type 0 where
  here : Reach s s
  next : {t u : Ledger} → Reach s t → Step t u → Reach s u

-- How many of the first `n` entries are set.
unfoldable pub total : (ℕ → ℕ) → ℕ → ℕ
total f zero = 0
total f (suc n) = f n + total f n

-- The entries of `mem_map` count the holders of each page, which is 0 or 1, and nothing but pages
-- is held.
pub record IsSound (s : Ledger) : Type 0 where
  pub counts : (i : ℕ) → i < map_size → count (page_of i) s.held ≡ s.memory.mem_map i
  pub single : (i : ℕ) → i < map_size → s.memory.mem_map i ≤ 1
  pub pages : (p : ℕ) → 0 < count p s.held → (i : ℕ) × (i < map_size) × (p ≡ page_of i)
  pub sum : length s.held ≡ total s.memory.mem_map map_size

total-cong : (f g : ℕ → ℕ) (n : ℕ) → ((i : ℕ) → i < n → g i ≡ f i) → total g n ≡ total f n
unfolding total
total-cong f g zero h = refl
total-cong f g (suc n) h =
    omega (arith, h n (omega arith), total-cong f g n λ i lt. h i (omega arith))

-- The sum after a store.
total-outside : (f : ℕ → ℕ) (k v n : ℕ) → n ≤ k → total (update f k v) n ≡ total f n
unfolding total
total-outside f k v zero h = refl
total-outside f k v (suc n) h = ground (arith, total-outside f k v n (omega arith))

pub total-update : (f : ℕ → ℕ) (k v n : ℕ) → k < n → total (update f k v) n + f k ≡ total f n + v
unfolding total
total-update f k v zero h = absurd (omega arith)
total-update f k v (suc n) h = elim (Bool-cases (n == k)) [
  | inl e ↦
      let same : n ≡ k = (==_iff n k).0 e in
      rw same (ground (arith, total-outside f k v k (omega arith)))
  | inr e ↦ ground (arith, total-update f k v n (ground arith))
]

abbrev pub at : Memory → List ℕ → Ledger
at m held = record { memory = m; held = held }

mark_page-IsSound :
    (m : Memory) (held : List ℕ) (i : ℕ)
    → IsSound (at m held)
    → IsFirstFree m.mem_map 0 i
    → IsSound (at (mark_page i m) (page_of i ∷ held))
unfolding mark_page
mark_page-IsSound m held i s first = record {
  counts = λ j h. ground (arith, s.counts j h, first.is_free);
  single = λ j h. ground (arith, s.single j h);
  pages = λ p h. elim (Bool-cases (page_of i == p)) [
    | inl e ↦ (i, first.inside, sym ((==_iff (page_of i) p).0 e))
    | inr e ↦ s.pages p (ground arith)
  ];
  sum = omega (arith, s.sum, first.is_free, total-update m.mem_map i 1 map_size first.inside);
}

clear_page-IsSound :
    (m : Memory) (xs ys : List ℕ) (i : ℕ)
    → i < map_size
    → IsSound (at m (xs ++ page_of i ∷ ys))
    → IsSound (at (clear_page i m) (xs ++ ys))
unfolding clear_page
clear_page-IsSound m xs ys i hi s = record {
  counts =
      λ j h. ground (arith, s.counts j h, s.single j h, count-middle (page_of j) (page_of i) xs ys);
  single = λ j h. ground (arith, s.single j h);
  pages = λ p h. s.pages p (omega (arith, count-middle p (page_of i) xs ys));
  sum = ground (
    arith,
    s.sum,
    length-append xs ys,
    length-append xs (page_of i ∷ ys),
    s.counts i hi,
    s.single i hi,
    count-middle (page_of i) (page_of i) xs ys,
    total-update m.mem_map i 0 map_size hi,
  );
}

-- A page that is held is one of `mem_map`.
pub held_page :
    (m : Memory) (xs ys : List ℕ) (p : ℕ)
    → IsSound (at m (xs ++ p ∷ ys))
    → (i : ℕ) × (i < map_size) × (p ≡ page_of i)
held_page m xs ys p s = s.pages p (ground (arith, count-middle p p xs ys))

alloc-IsSound :
    (m m' : Memory) (held : List ℕ) (p : ℕ)
    → get_free_page m ≡ some (p, m')
    → IsSound (at m held)
    → IsSound (at m' (p ∷ held)) × (count p held ≡ 0)
alloc-IsSound m m' held p e s =
    let (i, first, page, same) = handed_out m m' p e in
    (
      rw (page, same) (mark_page-IsSound m held i s first),
      rw page (s.counts i first.inside ∙ first.is_free),
    )

-- Both addresses of a held page clear the same entry.
pub released :
    (m m' : Memory) (p i : ℕ)
    → i < map_size
    → p ≡ page_of i
    → (free_page p m ≡ some (tt, m')) ⊎ (free_page (p + va_start) m ≡ some (tt, m'))
    → clear_page i m ≡ m'
released m m' p i hi same (inl e) =
    ap (λ r. r.1)
      (some-injective _ _
        (sym (free_page_lem m i hi).0 ∙ subst (λ q. free_page q m ≡ some (tt, m')) same e))
released m m' p i hi same (inr e) =
    ap (λ r. r.1)
      (some-injective _ _ (
        sym (free_page_lem m i hi).1
        ∙ subst (λ q. free_page (q + va_start) m ≡ some (tt, m')) same e))

release-IsSound :
    (m m' : Memory) (xs ys : List ℕ) (p : ℕ)
    → (free_page p m ≡ some (tt, m')) ⊎ (free_page (p + va_start) m ≡ some (tt, m'))
    → IsSound (at m (xs ++ p ∷ ys))
    → IsSound (at m' (xs ++ ys))
release-IsSound m m' xs ys p e s =
    let (i, hi, same) = held_page m xs ys p s in
    let held = subst (λ q. IsSound (at m (xs ++ q ∷ ys))) same s in
    subst (λ r. IsSound (at r (xs ++ ys))) (released m m' p i hi same e)
      (clear_page-IsSound m xs ys i hi held)

other-IsSound :
    (m m' : Memory) (held : List ℕ)
    → ((i : ℕ) → m'.mem_map i ≡ m.mem_map i)
    → IsSound (at m held)
    → IsSound (at m' held)
other-IsSound m m' held e s = record {
  counts = λ i h. s.counts i h ∙ sym (e i);
  single = λ i h. omega (arith, s.single i h, e i);
  pages = s.pages;
  sum = s.sum ∙ sym (total-cong m.mem_map m'.mem_map map_size λ i h. e i);
}

Step-IsSound : {s t : Ledger} → Step s t → IsSound s → IsSound t
Step-IsSound (alloc m m' held p e) s = (alloc-IsSound m m' held p e s).0
Step-IsSound (release m m' xs ys p e) s = release-IsSound m m' xs ys p (inl e) s
Step-IsSound (release_kernel m m' xs ys p e) s = release-IsSound m m' xs ys p (inr e) s
Step-IsSound (other m m' held e) s = other-IsSound m m' held e s

-- Along every run the ledger stays sound: the pages that are held are pages of `mem_map`, each
-- held once, exactly those whose entry is 1, and as many as entries are 1.
pub Reach-IsSound : {s t : Ledger} → IsSound s → Reach s t → IsSound t
Reach-IsSound h here = h
Reach-IsSound h (next r st) = Step-IsSound st (Reach-IsSound h r)

-- Nothing is held at the start, when `mem_map` is all 0.
pub start-IsSound : (m : Memory) → ((i : ℕ) → m.mem_map i ≡ 0) → IsSound (at m [])
unfolding total
start-IsSound m z = record {
  counts = λ i h. sym (z i);
  single = λ i h. omega (arith, z i);
  pages = λ p h. absurd (omega arith);
  sum = sym (none_set map_size);
}
  where
    none_set : (n : ℕ) → total m.mem_map n ≡ 0
    none_set zero = refl
    none_set (suc n) = omega (arith, z n, none_set n)

pub full_total : (f : ℕ → ℕ) (n : ℕ) → ((i : ℕ) → i < n → 0 < f i) → n ≤ total f n
unfolding total
full_total f zero h = omega arith
full_total f (suc n) h = omega (arith, h n (omega arith), full_total f n λ i lt. h i (omega arith))

-- In a run from an empty ledger `get_free_page` hands out a page that nobody holds, as long as
-- fewer than 10000 are held.
pub get_free_page-available :
    (m m₁ : Memory) (held : List ℕ)
    → ((i : ℕ) → m.mem_map i ≡ 0)
    → Reach (at m []) (at m₁ held)
    → length held < map_size
    → (i : ℕ) × (get_free_page m₁ ≡ some (page_of i, mark_page i m₁)) × (count (page_of i) held ≡ 0)
get_free_page-available m m₁ held z r h =
    let s = Reach-IsSound (start-IsSound m z) r in
    elim (get_free_page_cases m₁) [
      | inl (i, first, run) ↦ (i, run, s.counts i first.inside ∙ first.is_free)
      | inr (full, run) ↦
          absurd
            (omega (arith, s.sum, full_total m₁.mem_map map_size λ i lt. full i (omega arith) lt))
    ]
