-- ===== src/Mm/Tables/Descend.antt =====
-- The part of `map_page` of src/mm.c below the page directory, level by level.
use rpi_os_cfs_ext.Base.{
  ℕ, ◌+◌, ◌*◌, ◌≤◌, ◌<◌, ◌≡◌, ◌≢◌, ◌⊎◌, inl, inr, refl, ap, subst, sym, ◌∙◌, arith, false, Option,
  none, some, ◌==◌, if◌then◌else◌, Bool-cases, update, List, [], ◌∷◌, bit_or, length, ◌>>=◌, ◌>>◌,
  lt→ltb,
}
use rpi_os_cfs_ext.Mm.{Memory, MmStruct, M, map_size, page_of, max_process_pages}
use rpi_os_cfs_ext.Mm.Ledger.{total}
use rpi_os_cfs_ext.Mm.Tables.{
  table_index, page_mask, page_shift, pgd_shift, pud_shift, pmd_shift, mmu_pte_flags,
  map_table_entry, child_table, record_kernel_page, record_user_page, load_mm, store_mm,
}
use rpi_os_cfs_ext.Mm.Tables.Walk.{
  IsPath, Child, Child-used, slot, map_table-Child, linked_at, linked_else, slot-inj, index-lt,
  not_zero,
}

-- The walk of the tables for `va`, as the architecture has it: an entry 0 is a fault, and else
-- the masked entry is the address of the next table; the last table has the page's entry.
unfoldable pub walk : (ℕ → ℕ) → ℕ → ℕ → List ℕ → Option ℕ
walk words table va [] = some (words (table + 8 * table_index va page_shift))
walk words table va (s ∷ ss) =
    let e = words (table + 8 * table_index va s) in
    let rest = walk words (page_mask e) va ss in if e == 0 then none else rest

abbrev pub levels : List ℕ
levels = pgd_shift ∷ pud_shift ∷ pmd_shift ∷ []

-- `v` after at most `n` tables were recorded.
pub record Grown (v w : MmStruct) (n : ℕ) : Type 0 where
  pub pgd : w.pgd ≡ v.pgd
  pub count : w.kernel_pages_count ≤ v.kernel_pages_count + n
  pub more : v.kernel_pages_count ≤ w.kernel_pages_count
  pub first : w.kernel_pages 0 ≡ v.kernel_pages 0
  pub user_count : w.user_pages_count ≡ v.user_pages_count
  pub users : w.user_pages ≡ v.user_pages

same-Grown : {v w : MmStruct} → w ≡ v → Grown v w 1
same-Grown e = record {
  pgd = ap (λ x. x.pgd) e;
  count = omega (arith, ap (λ x. x.kernel_pages_count) e);
  more = omega (arith, ap (λ x. x.kernel_pages_count) e);
  first = ap (λ x. x.kernel_pages 0) e;
  user_count = ap (λ x. x.user_pages_count) e;
  users = ap (λ x. x.user_pages) e;
}

module _ (task va page : ℕ) (real : 0 < task) where
  pub not_null : (task == 0) ≡ false
  not_null = ground (arith, real)

  pub record_kernel_page-Grown :
      (m : Memory) (p : ℕ)
      → (m.mm task).kernel_pages_count + 1 < max_process_pages
      → (f : ℕ → MmStruct) × (record_kernel_page task p m ≡ some (tt, record m { mm = f }))
        × Grown (m.mm task) (f task) 1
        × ((f task).kernel_pages_count ≡ (m.mm task).kernel_pages_count + 1)
  unfolding record_kernel_page load_mm store_mm
  record_kernel_page-Grown m p h =
      let v = m.mm task in
      let w : MmStruct = record v {
        kernel_pages_count = v.kernel_pages_count + 1;
        kernel_pages = update v.kernel_pages (v.kernel_pages_count + 1) p;
      } in
      let same : update m.mm task w task ≡ w = ground arith in
      (
        update m.mm task w,
        rw (not_null, lt→ltb _ _ h, not_null),
        record {
          pgd = ap (λ x. x.pgd) same;
          count = omega (arith, ap (λ x. x.kernel_pages_count) same);
          more = omega (arith, ap (λ x. x.kernel_pages_count) same);
          first =
              ap (λ x. x.kernel_pages 0) same
              ∙ linked_else v.kernel_pages (v.kernel_pages_count + 1) p 0
                  (λ e. absurd (omega arith));
          user_count = ap (λ x. x.user_pages_count) same;
          users = ap (λ x. x.user_pages) same;
        },
        ap (λ x. x.kernel_pages_count) same,
      )

  Child-mm :
      {m m' : Memory} {seen : ℕ → Type 0} {i j s : ℕ} {ss : List ℕ} (f : ℕ → MmStruct)
      → Child m m' va seen i j s ss
      → Child m (record m' { mm = f }) va seen i j s ss
  Child-mm f c = record {
    inside = c.inside;
    taken = c.taken;
    other = c.other;
    positive = c.positive;
    leads = c.leads;
    keeps = c.keeps;
    still = c.still;
    ind = c.ind;
    room = c.room;
    path = c.path;
  }

  -- `map_table` and the record of a new table.
  child_table-Child :
      (m : Memory) (seen : ℕ → Type 0) (i s : ℕ) (ss : List ℕ)
      → seen i
      → ((k : ℕ) → seen k → 0 < m.mem_map k)
      → total m.mem_map map_size < map_size
      → IsPath m.words m.mem_map va seen i (s ∷ ss)
      → (m.mm task).kernel_pages_count + 1 < max_process_pages
      → (j : ℕ) × (m' : Memory) × (child_table task (page_of i) s va m ≡ some (page_of j, m'))
        × Child m m' va seen i j s ss
        × Grown (m.mm task) (m'.mm task) 1
  unfolding child_table
  child_table-Child m seen i s ss own used left path few =
      let (j, new, m', run, mm, c) = map_table-Child m va seen i s ss own used left path in
      elim (Bool-cases (new == 1)) [
        | inl e ↦
            let (f, run', grown, exact) =
              record_kernel_page-Grown m' (page_of j)
                (subst (λ g. (g task).kernel_pages_count + 1 < max_process_pages) (sym mm) few) in
            (
              j,
              record m' { mm = f },
              rw (run, e, run'),
              Child-mm f c,
              subst (λ g. Grown (g task) (f task) 1) mm grown,
            )
        | inr e ↦ (j, m', rw (run, e), c, same-Grown (ap (λ g. g task) mm))
      ]

  -- What `map_page` does below the directory, down the levels of `shifts`.
  unfoldable pub descend : ℕ → List ℕ → M (Unit {0})
  unfolding child_table map_table_entry
  descend table [] = do
    map_table_entry table va page
    record_user_page task (record { phys_addr = page; virt_addr = va })
  descend table (s ∷ ss) = child_table task table s va >>= λ c. descend c ss

  -- What is left when it is done: the walk finds the page, the tables on the way up are as they
  -- were, and the page is the last of the task's user pages.
  pub record Mapped (m m' : Memory) (seen : ℕ → Type 0) (i : ℕ) (ss : List ℕ) : Type 0 where
    pub walks : walk m'.words (page_of i) va ss ≡ some (bit_or page mmu_pte_flags)
    pub keeps : (k n : ℕ) → seen k → k ≢ i → n < 512 → m'.words (slot k n) ≡ m.words (slot k n)
    pub pgd : (m'.mm task).pgd ≡ (m.mm task).pgd
    pub ind : m'.ind ≡ m.ind
    pub more : (m.mm task).kernel_pages_count ≤ (m'.mm task).kernel_pages_count
    pub first : (m'.mm task).kernel_pages 0 ≡ (m.mm task).kernel_pages 0
    pub user_count : (m'.mm task).user_pages_count ≡ (m.mm task).user_pages_count + 1
    pub user :
        (m'.mm task).user_pages (m.mm task).user_pages_count
        ≡ record { phys_addr = page; virt_addr = va }

  pub descend-Mapped :
      (ss : List ℕ) (m : Memory) (seen : ℕ → Type 0) (i : ℕ)
      → seen i
      → ((k : ℕ) → seen k → 0 < m.mem_map k)
      → total m.mem_map map_size + length ss ≤ map_size
      → IsPath m.words m.mem_map va seen i ss
      → (m.mm task).kernel_pages_count + length ss < max_process_pages
      → (m.mm task).user_pages_count < max_process_pages
      → (m' : Memory) × (descend (page_of i) ss m ≡ some (tt, m')) × Mapped m m' seen i ss
  unfolding descend record_user_page load_mm store_mm walk
  descend-Mapped [] m seen i own used left path few room =
      let v = m.mm task in
      let at = page_of i + 8 * table_index va page_shift in
      let w : MmStruct = record v {
        user_pages_count = v.user_pages_count + 1;
        user_pages =
            update v.user_pages v.user_pages_count (record { phys_addr = page; virt_addr = va });
      } in
      let same : update m.mm task w task ≡ w = ground arith in
      (
        record m { words = update m.words at (bit_or page mmu_pte_flags); mm = update m.mm task w },
        rw (not_null, lt→ltb _ _ room, not_null),
        record {
          walks = ap some (linked_at m.words at (bit_or page mmu_pte_flags));
          keeps = λ k n h ne hn.
              linked_else m.words _ _ _ (slot-inj k i n _ hn (index-lt va page_shift) ne);
          pgd = ap (λ x. x.pgd) same;
          ind = refl;
          more = omega (arith, ap (λ x. x.kernel_pages_count) same);
          first = ap (λ x. x.kernel_pages 0) same;
          user_count = ap (λ x. x.user_pages_count) same;
          user =
              ap (λ x. x.user_pages v.user_pages_count) same
              ∙ linked_at v.user_pages v.user_pages_count _;
        },
      )
  descend-Mapped (s ∷ ss) m seen i own used left path few room =
      let (j, m₁, run, c, g) =
        child_table-Child m seen i s ss own used (omega (arith, left)) path (omega (arith, few)) in
      let (m', run', d) =
        descend-Mapped ss m₁ (λ k. seen k ⊎ (k ≡ j)) j (inr refl) (Child-used c used)
          (omega (arith, left, c.room)) c.path (omega (arith, few, g.count))
          (omega (arith, g.user_count, room)) in
      let kept = d.keeps i (table_index va s) (inl own) (c.other i own) (index-lt va s) in
      (
        m',
        rw (run, run'),
        record {
          walks = rw (kept, not_zero _ c.positive, c.leads) d.walks;
          keeps = λ k n h ne hn. d.keeps k n (inl h) (c.other k h) hn ∙ c.keeps k n h ne hn;
          pgd = d.pgd ∙ g.pgd;
          ind = d.ind ∙ c.ind;
          more = omega (arith, d.more, g.more);
          first = d.first ∙ g.first;
          user_count = omega (arith, d.user_count, g.user_count);
          user =
              subst (λ n. (m'.mm task).user_pages n ≡ record { phys_addr = page; virt_addr = va })
                g.user_count d.user;
        },
      )
