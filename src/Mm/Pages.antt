-- ===== src/Mm/Pages.antt =====
-- What `get_free_page` and `free_page` of src/mm.c do to `mem_map` and to the page.
use mathlib.Core.Option.{some-injective, none-ne-some}
use rpi_os_cfs_ext.Base.{
  ℕ, zero, suc, ◌+◌, ◌/◌, ◌≤◌, ◌<◌, ◌≡◌, ◌≢◌, refl, ◌⊎◌, inl, inr, ap, subst, sym, ◌∙◌, arith, none,
  some, ◌==◌, leb, lt→ltb, leb→le, Bool-cases, ==_iff, update, u32, sub64,
}
use rpi_os_cfs_ext.Mm.{
  Memory, map_size, page_size, low_memory, va_start, paging_pages, page_of, scan_map, take_page,
  memzero, mark_page, get_free_page, free_page,
}

-- Entry `i` is the first one from `k` on that is 0.
pub record IsFirstFree (map : ℕ → ℕ) (k i : ℕ) : Type 0 where
  pub after : k ≤ i
  pub inside : i < map_size
  pub is_free : map i ≡ 0
  pub before : (j : ℕ) → k ≤ j → j < i → 0 < map j

abbrev pub IsFull : (ℕ → ℕ) → ℕ → Type 0
IsFull map k = (j : ℕ) → k ≤ j → j < map_size → 0 < map j

module _ (map : ℕ → ℕ) where
  -- A positive entry in front of a stretch of positive ones.
  extend :
      (k hi : ℕ)
      → 0 < map k
      → ((j : ℕ) → suc k ≤ j → j < hi → 0 < map j)
      → (j : ℕ) → k ≤ j
      → j < hi
      → 0 < map j
  extend k hi h rest j lo lt = elim (Bool-cases (k == j)) [
    | inl e ↦ subst (λ x. 0 < map x) ((==_iff k j).0 e) h
    | inr e ↦ rest j (ground arith) lt
  ]

  scan_map_lem :
      (n k : ℕ)
      → map_size < k + n
      → k ≤ map_size
      → ((i : ℕ) × (scan_map map k n ≡ some (some i)) × IsFirstFree map k i)
        ⊎ ((scan_map map k n ≡ none) × IsFull map k)
  unfolding scan_map
  scan_map_lem zero k hn hk = absurd (omega arith)
  scan_map_lem (suc n) k hn hk = elim (Bool-cases (leb map_size k)) [
    | inl e ↦ inr (rw e, λ j lo hi. absurd (omega (arith, leb→le map_size k e)))
    | inr e ↦ elim (Bool-cases (map k == 0)) [
      | inl z ↦ inl (
        k,
        rw (e, z),
        record {
          after = omega arith;
          inside = ground arith;
          is_free = (==_iff _ _).0 z;
          before = λ j lo hi. absurd (omega arith);
        },
      )
      | inr z ↦ elim (scan_map_lem n (suc k) (omega arith) (ground arith)) [
        | inl (i, found, first) ↦ inl (
          i,
          rw (e, z, found),
          record {
            after = omega (arith, first.after);
            inside = first.inside;
            is_free = first.is_free;
            before = extend k i (ground arith) first.before;
          },
        )
        | inr (none_left, full) ↦ inr (rw (e, z, none_left), extend k map_size (ground arith) full)
      ]
    ]
  ]

pub get_free_page_cases :
    (m : Memory)
    → ((i : ℕ) × IsFirstFree m.mem_map 0 i × (get_free_page m ≡ some (page_of i, mark_page i m)))
      ⊎ (IsFull m.mem_map 0 × (get_free_page m ≡ none))
unfolding get_free_page take_page
get_free_page_cases m = elim (scan_map_lem m.mem_map paging_pages 0 (omega arith) (omega arith)) [
  | inl (i, found, first) ↦ inl (i, first, rw found)
  | inr (overrun, full) ↦ inr (full, rw overrun)
]

-- Page `i` is handed out: its entry is 1 and its page zeroed, and nothing else is changed.
pub record IsHandedOut (m : Memory) (i : ℕ) (m' : Memory) : Type 0 where
  pub entry : m'.mem_map i ≡ 1
  pub other_entries : (j : ℕ) → j ≢ i → m'.mem_map j ≡ m.mem_map j
  pub zeroed : (a : ℕ) → page_of i ≤ a → a < page_of i + page_size → m'.words a ≡ 0
  pub other_words : (a : ℕ) → (a < page_of i) ⊎ (page_of i + page_size ≤ a) → m'.words a ≡ m.words a
  pub same_mm : m'.mm ≡ m.mm
  pub same_current : m'.current ≡ m.current
  pub same_ind : m'.ind ≡ m.ind

pub mark_page-IsHandedOut : (m : Memory) (i : ℕ) → IsHandedOut m i (mark_page i m)
unfolding mark_page memzero
mark_page-IsHandedOut m i = record {
  entry = ground arith;
  other_entries = λ j ne. ground (arith, ne);
  zeroed = λ a lo hi. ground (arith, lo, hi);
  other_words = λ a out. ground (arith, out);
  same_mm = refl;
  same_current = refl;
  same_ind = refl;
}

-- `get_free_page` takes the first page whose entry is 0, sets the entry to 1, zeroes the words of
-- the page and changes nothing else; where no entry is 0 it reads past the end of `mem_map`. It
-- never gets to its `return 0`.
pub get_free_page_lem :
    (m : Memory)
    → ((i : ℕ) × (m' : Memory) × IsFirstFree m.mem_map 0 i
        × (get_free_page m ≡ some (page_of i, m'))
        × IsHandedOut m i m')
      ⊎ (IsFull m.mem_map 0 × (get_free_page m ≡ none))
get_free_page_lem m = elim (get_free_page_cases m) [
  | inl (i, first, run) ↦ inl (i, mark_page i m, first, run, mark_page-IsHandedOut m i)
  | inr (full, run) ↦ inr (full, run)
]

-- The same from the result: the page that was handed out is the first free one.
pub handed_out :
    (m m' : Memory) (p : ℕ)
    → get_free_page m ≡ some (p, m')
    → (i : ℕ) × IsFirstFree m.mem_map 0 i × (p ≡ page_of i) × (m' ≡ mark_page i m)
handed_out m m' p e = elim (get_free_page_cases m) [
  | inl (i, first, run) ↦
      let same = some-injective _ _ (sym e ∙ run) in
      (i, first, ap (λ r. r.0) same, ap (λ r. r.1) same)
  | inr (full, run) ↦ absurd (none-ne-some _ (sym run ∙ e))
]

free_index : (i : ℕ) → i < map_size → u32 (sub64 (page_of i) low_memory / page_size) ≡ i
free_index i h = omega arith

-- The address that `allocate_kernel_page` gives has the same low 32 bits of the quotient.
free_index_kernel :
    (i : ℕ) → i < map_size → u32 (sub64 (page_of i + va_start) low_memory / page_size) ≡ i
free_index_kernel i h = omega arith

unfoldable pub clear_page : ℕ → Memory → Memory
clear_page i m = record m { mem_map = update m.mem_map i 0 }

-- `free_page` of a page clears its entry and nothing else, also when it is given the kernel's
-- address of the page.
pub free_page_lem :
    (m : Memory) (i : ℕ)
    → i < map_size
    → (free_page (page_of i) m ≡ some (tt, clear_page i m))
      × (free_page (page_of i + va_start) m ≡ some (tt, clear_page i m))
unfolding free_page clear_page
free_page_lem m i h =
    (rw (free_index i h, lt→ltb i map_size h), rw (free_index_kernel i h, lt→ltb i map_size h))
