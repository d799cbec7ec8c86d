-- ===== src/Mm/Tables/Walk.antt =====
-- The page tables of src/mm.c as the processor walks them.
use rpi_os_cfs_ext.Base.{
  ℕ, ◌+◌, ◌*◌, ◌≤◌, ◌<◌, ◌≡◌, ◌≢◌, ◌⊎◌, inl, inr, refl, ap, subst, sym, ◌∙◌, arith, Bool, ◌&&◌,
  true, false, some, ◌==◌, ltb, update, List, [], ◌∷◌, bit_or,
}
use rpi_os_cfs_ext.Base.Tables.{holds_below, from_table}
use rpi_os_cfs_ext.Mm.{Memory, map_size, page_of, memzero, mark_page, get_free_page}
use rpi_os_cfs_ext.Mm.Pages.{IsFirstFree, get_free_page_cases}
use rpi_os_cfs_ext.Mm.Ledger.{total, total-update, full_total}
use rpi_os_cfs_ext.Mm.Tables.{table_index, page_mask, mm_type_page_table, map_table}

link_entry : ℕ → Bool
link_entry i =
    let e = bit_or (page_of i) mm_type_page_table in ltb 0 e && (page_mask e == page_of i)

link_table : holds_below link_entry map_size ≡ true
unfolding holds_below link_entry
link_table = refl

-- The entry of a child table is not 0, and its masked address is the child's.
pub link :
    (i : ℕ)
    → i < map_size
    → (0 < bit_or (page_of i) mm_type_page_table)
      × (page_mask (bit_or (page_of i) mm_type_page_table) ≡ page_of i)
unfolding link_entry
link i h = ground (arith, from_table link_entry link_table i h)

-- While fewer entries are set than there are pages, a page is handed out.
pub get_free_page-some :
    (m : Memory)
    → total m.mem_map map_size < map_size
    → (i : ℕ) × IsFirstFree m.mem_map 0 i
      × (get_free_page m ≡ some (page_of i, mark_page i m))
      × (total (mark_page i m).mem_map map_size ≡ total m.mem_map map_size + 1)
unfolding mark_page
get_free_page-some m h = elim (get_free_page_cases m) [
  | inl (i, first, run) ↦ (
    i,
    first,
    run,
    omega (arith, first.is_free, total-update m.mem_map i 1 map_size first.inside),
  )
  | inr (full, run) ↦
      absurd (omega (arith, full_total m.mem_map map_size λ i lt. full i (omega arith) lt))
]

-- The `n`-th entry of the table on page `i`.
abbrev pub slot : ℕ → ℕ → ℕ
slot i n = page_of i + 8 * n

module _ (m : Memory) (i n : ℕ) (h : n < 512) where
  mark_page-zeroed : (mark_page i m).words (slot i n) ≡ 0
  unfolding mark_page memzero
  mark_page-zeroed = ground arith

  pub mark_page-keeps : (j : ℕ) → j ≢ i → (mark_page j m).words (slot i n) ≡ m.words (slot i n)
  unfolding mark_page memzero
  mark_page-keeps j ne = ground (arith, ne)

pub mark_page-taken : (m : Memory) (i j : ℕ) → 0 < m.mem_map j → 0 < (mark_page i m).mem_map j
unfolding mark_page
mark_page-taken m i j h = ground arith

pub slot-inj : (i j n k : ℕ) → n < 512 → k < 512 → i ≢ j → slot i n ≢ slot j k
slot-inj i j n k hn hk ne e = ne (omega arith)

-- The entries for `va` that are in use, from the table on page `i` down the levels of `shifts`,
-- lead to pages that are taken, no two of them the same or among `seen`.
unfoldable pub IsPath : (ℕ → ℕ) → (ℕ → ℕ) → ℕ → (ℕ → Type 0) → ℕ → List ℕ → Type 0
IsPath words map va seen i [] = Unit
IsPath words map va seen i (s ∷ ss) =
    let e = words (slot i (table_index va s)) in
    (e ≡ 0)
    ⊎ ((j : ℕ) × (j < map_size)
        × (0 < map j)
        × (0 < e)
        × (page_mask e ≡ page_of j)
        × ((k : ℕ) → seen k → k ≢ j)
        × IsPath words map va (λ k. seen k ⊎ (k ≡ j)) j ss)

-- What `map_table` for the table on page `i` leaves: a child on page `j`, which the entry leads to;
-- the tables seen before are as they were, but for that entry.
pub record Child (m m' : Memory) (va : ℕ) (seen : ℕ → Type 0) (i j s : ℕ) (ss : List ℕ)
    : Type 0 where
  pub inside : j < map_size
  pub taken : 0 < m'.mem_map j
  pub other : (k : ℕ) → seen k → k ≢ j
  pub positive : 0 < m'.words (slot i (table_index va s))
  pub leads : page_mask (m'.words (slot i (table_index va s))) ≡ page_of j
  pub keeps : (k n : ℕ) → seen k → k ≢ i → n < 512 → m'.words (slot k n) ≡ m.words (slot k n)
  pub still : (k : ℕ) → 0 < m.mem_map k → 0 < m'.mem_map k
  pub ind : m'.ind ≡ m.ind
  pub room : total m'.mem_map map_size ≤ total m.mem_map map_size + 1
  pub path : IsPath m'.words m'.mem_map va (λ k. seen k ⊎ (k ≡ j)) j ss

-- The memory after a new table on page `j` is entered at `p`.
abbrev linked : Memory → ℕ → ℕ → Memory
linked m j p = record (mark_page j m) {
  words = update (mark_page j m).words p (bit_or (page_of j) mm_type_page_table);
}

pub index-lt : (va s : ℕ) → table_index va s < 512
index-lt va s = omega arith

pub not_zero : (e : ℕ) → 0 < e → (e == 0) ≡ false
not_zero e h = ground arith

pub linked_at : {A : Type 0} (f : ℕ → A) (p : ℕ) (v : A) → update f p v p ≡ v
linked_at f p v = ground arith

pub linked_else : (f : ℕ → ℕ) (p v q : ℕ) → q ≢ p → update f p v q ≡ f q
linked_else f p v q h = ground (arith, h)

module _ (m : Memory) (va : ℕ) (seen : ℕ → Type 0) (i s : ℕ) (ss : List ℕ) (own : seen i)
    (used : (k : ℕ) → seen k → 0 < m.mem_map k) where
  linked-IsPath :
      (j : ℕ)
      → j ≢ i
      → (let m' = linked m j (slot i (table_index va s)) in
          IsPath m'.words m'.mem_map va (λ k. seen k ⊎ (k ≡ j)) j ss)
  unfolding IsPath
  linked-IsPath j ne =
      elim ss
        as (λ l.
          (let m' = linked m j (slot i (table_index va s)) in
            IsPath m'.words m'.mem_map va (λ k. seen k ⊎ (k ≡ j)) j l)) [
              | [] ↦ tt
              | s' ∷ ss' ↦ inl (
                  linked_else (mark_page j m).words _ _ _
                    (slot-inj j i _ _ (index-lt va s') (index-lt va s) ne)
                  ∙ mark_page-zeroed m j _ (index-lt va s'))
            ]

  linked-Child :
      (j : ℕ)
      → IsFirstFree m.mem_map 0 j
      → total (mark_page j m).mem_map map_size ≡ total m.mem_map map_size + 1
      → Child m (linked m j (slot i (table_index va s))) va seen i j s ss
  unfolding mark_page
  linked-Child j first sum =
      let at =
        linked_at (mark_page j m).words (slot i (table_index va s))
          (bit_or (page_of j) mm_type_page_table) in
      let new = λ (k : ℕ) (h : seen k) (e : k ≡ j).
        absurd (omega (arith, used k h, ap m.mem_map e, first.is_free)) in
      record {
        inside = first.inside;
        taken = ground arith;
        other = new;
        positive = rw at (link j first.inside).0;
        leads = rw at (link j first.inside).1;
        keeps = λ k n h ne hn.
            linked_else (mark_page j m).words _ _ _ (slot-inj k i n _ hn (index-lt va s) ne)
            ∙ mark_page-keeps m k n hn j (λ e. new k h (sym e));
        still = λ k h. ground arith;
        ind = refl;
        room = omega (arith, sum);
        path = linked-IsPath j (λ e. new i own (sym e));
      }

  -- `map_table` of a table on a page, while there are pages left.
  pub map_table-Child :
      total m.mem_map map_size < map_size
      → IsPath m.words m.mem_map va seen i (s ∷ ss)
      → (j new : ℕ) × (m' : Memory) × (map_table (page_of i) s va m ≡ some ((page_of j, new), m'))
        × (m'.mm ≡ m.mm)
        × Child m m' va seen i j s ss
  unfolding map_table mark_page IsPath
  map_table-Child left (inl e) =
      let (j, first, run, sum) = get_free_page-some m left in
      (j, 1, linked m j (slot i (table_index va s)), rw (e, run), refl, linked-Child j first sum)
  map_table-Child left (inr (j, hj, set, pos, leads, fresh, path)) = (
    j,
    0,
    m,
    rw (not_zero (m.words (slot i (table_index va s))) pos, leads),
    refl,
    record {
      inside = hj;
      taken = set;
      other = fresh;
      positive = pos;
      leads = leads;
      keeps = λ k n h ne hn. refl;
      still = λ k h. h;
      ind = refl;
      room = omega arith;
      path = path;
    },
  )

-- The child is taken too.
pub Child-used :
    {m m' : Memory} {va : ℕ} {seen : ℕ → Type 0} {i j s : ℕ} {ss : List ℕ}
    → Child m m' va seen i j s ss
    → ((k : ℕ) → seen k → 0 < m.mem_map k)
    → (k : ℕ) → seen k ⊎ (k ≡ j)
    → 0 < m'.mem_map k
Child-used c used k (inl h) = c.still k (used k h)
Child-used {m' = m'} c used k (inr e) = subst (λ x. 0 < m'.mem_map x) (sym e) c.taken

-- A page that was just handed out is an empty table.
pub mark_page-IsPath :
    (m : Memory) (va : ℕ) (seen : ℕ → Type 0) (i : ℕ) (ss : List ℕ)
    → (0 < (mark_page i m).mem_map i)
      × IsPath (mark_page i m).words (mark_page i m).mem_map va seen i ss
unfolding IsPath mark_page
mark_page-IsPath m va seen i [] = (ground arith, tt)
mark_page-IsPath m va seen i (s ∷ ss) =
    (ground arith, inl (mark_page-zeroed m i (table_index va s) (index-lt va s)))
