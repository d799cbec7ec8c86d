-- ===== src/Mm/Tables/Translate.antt =====
-- `map_page` of src/mm.c: the processor's walk of the tables then finds the page.
use rpi_os_cfs_ext.Base.{
  ℕ, ◌+◌, ◌≤◌, ◌<◌, ◌≡◌, ◌⊎◌, inl, inr, refl, ap, subst, sym, ◌∙◌, arith, some, update, bit_or,
}
use rpi_os_cfs_ext.Mm.{Memory, MmStruct, map_size, page_of, max_process_pages, mark_page}
use rpi_os_cfs_ext.Mm.Ledger.{total}
use rpi_os_cfs_ext.Mm.Tables.{mmu_pte_flags, load_mm, store_mm, get_pgd, map_page}
use rpi_os_cfs_ext.Mm.Tables.Descend.{
  walk, levels, not_null, record_kernel_page-Grown, descend, descend-Mapped,
}
use rpi_os_cfs_ext.Mm.Tables.Walk.{
  IsPath, mark_page-IsPath, get_free_page-some, linked_at, not_zero,
}

-- The tables that the task has for `va`: none yet, or a directory on a page that is taken, whose
-- entries in use lead down to pages that are taken too, no two of them the same.
unfoldable pub HasTables : ℕ → ℕ → Memory → Type 0
HasTables task va m =
    ((m.mm task).pgd ≡ 0)
    ⊎ ((g : ℕ) × ((m.mm task).pgd ≡ page_of g)
        × (0 < m.mem_map g)
        × IsPath m.words m.mem_map va (λ k. k ≡ g) g levels)

-- The page is mapped: the processor's walk from the task's directory finds its entry, and the
-- page is the last of the task's user pages.
pub record IsTranslated (task va page : ℕ) (m m' : Memory) : Type 0 where
  pub walks : walk m'.words (m'.mm task).pgd va levels ≡ some (bit_or page mmu_pte_flags)
  pub first : (m'.mm task).kernel_pages 0 ≡ (m.mm task).kernel_pages 0
  pub tables : (m.mm task).pgd ≡ 0 → 0 < (m'.mm task).kernel_pages_count
  pub user_count : (m'.mm task).user_pages_count ≡ (m.mm task).user_pages_count + 1
  pub user :
      (m'.mm task).user_pages (m.mm task).user_pages_count
      ≡ record { phys_addr = page; virt_addr = va }

mark_page-ind : (m : Memory) (i : ℕ) → (mark_page i m).ind ≡ m.ind
unfolding mark_page
mark_page-ind m i = refl

module _ (task va page : ℕ) (real : 0 < task) where
  -- The memory once the task has a directory on page `g`.
  record Rooted (m m' : Memory) (g : ℕ) : Type 0 where
    pgd : (m'.mm task).pgd ≡ page_of g
    taken : 0 < m'.mem_map g
    path : IsPath m'.words m'.mem_map va (λ k. k ≡ g) g levels
    room : total m'.mem_map map_size ≤ total m.mem_map map_size + 1
    some_table : (m.mm task).pgd ≡ 0 → 0 < (m'.mm task).kernel_pages_count
    count : (m'.mm task).kernel_pages_count ≤ (m.mm task).kernel_pages_count + 1
    ind : m'.ind ≡ m.ind
    first : (m'.mm task).kernel_pages 0 ≡ (m.mm task).kernel_pages 0
    user_count : (m'.mm task).user_pages_count ≡ (m.mm task).user_pages_count

  new-Rooted :
      (m : Memory)
      → (m.mm task).pgd ≡ 0
      → total m.mem_map map_size < map_size
      → (m.mm task).kernel_pages_count + 1 < max_process_pages
      → (g : ℕ) × (m' : Memory) × (get_pgd task m ≡ some (page_of g, m')) × Rooted m m' g
  unfolding get_pgd load_mm store_mm
  new-Rooted m none_yet left few =
      let (g, first, run, sum) = get_free_page-some m left in
      let w : MmStruct = record (m.mm task) { pgd = page_of g } in
      let m₁ : Memory = record (mark_page g m) { mm = update m.mm task w } in
      let same : m₁.mm task ≡ w = linked_at m.mm task w in
      let empty = mark_page-IsPath m va (λ k. k ≡ g) g levels in
      let (f, run', grown, exact) =
        record_kernel_page-Grown task va page real m₁ (page_of g)
          (omega (arith, few, ap (λ x. x.kernel_pages_count) same)) in
      (
        g,
        record m₁ { mm = f },
        rw (
          not_null task va page real,
          none_yet,
          run,
          not_null task va page real,
          not_null task va page real,
          run',
        ),
        record {
          pgd = grown.pgd ∙ ap (λ x. x.pgd) same;
          taken = empty.0;
          path = empty.1;
          room = omega (arith, sum);
          some_table = λ e. omega (arith, exact);
          count = omega (arith, grown.count, ap (λ x. x.kernel_pages_count) same);
          ind = mark_page-ind m g;
          first = grown.first ∙ ap (λ x. x.kernel_pages 0) same;
          user_count = grown.user_count ∙ ap (λ x. x.user_pages_count) same;
        },
      )

  get_pgd-Rooted :
      (m : Memory)
      → HasTables task va m
      → total m.mem_map map_size < map_size
      → (m.mm task).kernel_pages_count + 1 < max_process_pages
      → (g : ℕ) × (m' : Memory) × (get_pgd task m ≡ some (page_of g, m')) × Rooted m m' g
  unfolding get_pgd load_mm HasTables
  get_pgd-Rooted m (inl none_yet) left few = new-Rooted m none_yet left few
  get_pgd-Rooted m (inr (g, pgd, taken, path)) left few = (
    g,
    m,
    rw (not_null task va page real, pgd, not_zero (page_of g) (omega arith)),
    record {
      pgd = pgd;
      taken = taken;
      path = path;
      room = omega arith;
      some_table = λ e. absurd (omega (arith, e, pgd));
      count = omega arith;
      ind = refl;
      first = refl;
      user_count = refl;
    },
  )

  -- `map_page` for a task whose tables for `va` are in order, while four pages and room for four
  -- tables and a user page are left: it returns, and `va` is mapped to the page.
  pub map_page-IsTranslated :
      (m : Memory)
      → HasTables task va m
      → total m.mem_map map_size + 4 ≤ map_size
      → (m.mm task).kernel_pages_count + 4 < max_process_pages
      → (m.mm task).user_pages_count < max_process_pages
      → (m' : Memory) × (map_page task va page m ≡ some (tt, m'))
        × IsTranslated task va page m m'
        × (m'.ind ≡ m.ind)
  unfolding map_page descend
  map_page-IsTranslated m tables left few room =
      let (g, m₁, run, r) = get_pgd-Rooted m tables (omega (arith, left)) (omega (arith, few)) in
      let (m', run', d) =
        descend-Mapped task va page real levels m₁ (λ k. k ≡ g) g refl
          (λ k e. subst (λ x. 0 < m₁.mem_map x) (sym e) r.taken) (omega (arith, left, r.room))
          r.path (omega (arith, few, r.count)) (omega (arith, room, r.user_count)) in
      (
        m',
        rw run run',
        record {
          walks = rw (d.pgd, r.pgd) d.walks;
          first = d.first ∙ r.first;
          tables = λ e. omega (arith, d.more, r.some_table e);
          user_count = d.user_count ∙ ap (λ n. n + 1) r.user_count;
          user =
              subst (λ n. (m'.mm task).user_pages n ≡ record { phys_addr = page; virt_addr = va })
                r.user_count d.user;
        },
        d.ind ∙ r.ind,
      )
