-- ===== src/Mm/Tables/Exit.antt =====
-- `exit_process` of src/sched.c after `map_page` of src/mm.c: the element of `kernel_pages` that
-- no table is recorded in.
use rpi_os_cfs_ext.Base.{
  ℕ, zero, suc, ◌+◌, ◌≤◌, ◌<◌, ◌≡◌, refl, arith, ◌∙◌, inl, false, none, some, ◌==◌,
}
use rpi_os_cfs_ext.Mm.{Memory, map_size, max_process_pages, free_page}
use rpi_os_cfs_ext.Mm.Ledger.{total}
use rpi_os_cfs_ext.Mm.Tables.{load_mm, free_pages_from, exit_pages, map_page}
use rpi_os_cfs_ext.Mm.Tables.Translate.{HasTables, map_page-IsTranslated}

free_page-null : (m : Memory) → free_page 0 m ≡ none
unfolding free_page
free_page-null m = refl

free_pages-null :
    (pages : ℕ → ℕ) (n : ℕ) (m : Memory) → 0 < n → pages 0 ≡ 0 → free_pages_from pages 0 n m ≡ none
unfolding free_pages_from
free_pages-null pages zero m h e = absurd (omega arith)
free_pages-null pages (suc n) m h e = rw (e, free_page-null m)

exit_pages-null :
    (task : ℕ) (m : Memory)
    → 0 < task
    → 0 < (m.mm task).kernel_pages_count
    → (m.mm task).kernel_pages 0 ≡ 0
    → exit_pages task m ≡ none
unfolding exit_pages load_mm
exit_pages-null task m real some_table e =
    let not_null : (task == 0) ≡ false = ground arith in
    rw (
      not_null,
      free_pages-null (m.mm task).kernel_pages (m.mm task).kernel_pages_count m some_table e,
    )

-- A new task, with no page directory yet and a zeroed `kernel_pages`, gets its first page mapped, and then
-- its exit frees the address 0, which is a write outside `mem_map`.
pub exit_pages-map_page :
    (task va page : ℕ) (m : Memory)
    → 0 < task
    → (m.mm task).pgd ≡ 0
    → (m.mm task).kernel_pages 0 ≡ 0
    → total m.mem_map map_size + 4 ≤ map_size
    → (m.mm task).kernel_pages_count + 4 < max_process_pages
    → (m.mm task).user_pages_count < max_process_pages
    → (m' : Memory) × (map_page task va page m ≡ some (tt, m')) × (exit_pages task m' ≡ none)
unfolding HasTables
exit_pages-map_page task va page m real fresh e left few room =
    let (m', run, t, ind) = map_page-IsTranslated task va page real m (inl fresh) left few room in
    (m', run, exit_pages-null task m' real (t.tables fresh) (t.first ∙ e))
