-- ===== src/Mm/Tables/Fault.antt =====
-- `do_mem_abort` of src/mm.c: a page for the address of a translation fault.
use mathlib.Core.Bool.{true≢false}
use rpi_os_cfs_ext.Base.{
  ℕ, ◌+◌, ◌-◌, ◌^◌, ◌≤◌, ◌<◌, ◌≡◌, ◌⊎◌, inl, inr, refl, sym, ap, ◌∙◌, arith, some, ◌==◌, ltb, ◌&&◌,
  u32, if◌then◌else◌, Bool-cases, ==_iff, List, [], ◌∷◌, bit_and,
}
use rpi_os_cfs_ext.Mm.{Memory, ind_start, map_size, max_process_pages, page_of, mark_page}
use rpi_os_cfs_ext.Mm.Pages.{IsFirstFree, IsHandedOut, mark_page-IsHandedOut}
use rpi_os_cfs_ext.Mm.Ledger.{total}
use rpi_os_cfs_ext.Mm.Tables.{page_mask, table_index, do_mem_abort}
use rpi_os_cfs_ext.Mm.Tables.Walk.{
  IsPath, get_free_page-some, mark_page-keeps, mark_page-taken, not_zero, index-lt,
}
use rpi_os_cfs_ext.Mm.Tables.Descend.{levels}
use rpi_os_cfs_ext.Mm.Tables.Translate.{HasTables, IsTranslated, map_page-IsTranslated}

-- A page that is handed out is none of a task's tables, and they stay in order.
mark_page-IsPath_kept :
    (m : Memory) (va i : ℕ) (seen : ℕ → Type 0) (k : ℕ) (ss : List ℕ)
    → m.mem_map i ≡ 0
    → 0 < m.mem_map k
    → IsPath m.words m.mem_map va seen k ss
    → IsPath (mark_page i m).words (mark_page i m).mem_map va seen k ss
unfolding IsPath
mark_page-IsPath_kept m va i seen k [] free taken path = tt
mark_page-IsPath_kept m va i seen k (s ∷ ss) free taken path =
    let kept =
      mark_page-keeps m k (table_index va s) (index-lt va s) i
        (λ e. absurd (omega (arith, ap m.mem_map e, free, taken))) in
    elim path [
      | inl e ↦ inl (kept ∙ e)
      | inr (j, hj, set, pos, leads, fresh, rest) ↦ inr (
        j,
        hj,
        mark_page-taken m i j set,
        rw kept pos,
        rw kept leads,
        fresh,
        mark_page-IsPath_kept m va i (λ k. seen k ⊎ (k ≡ j)) j ss free set rest,
      )
    ]

-- `do_mem_abort` sees a translation fault.
abbrev pub IsTranslationFault : ℕ → Type 0
IsTranslationFault esr = bit_and (bit_and esr 0b111111) 0b111100 ≡ 0b100

-- The page of `addr` is mapped for the current task, after `served` translation faults since the
-- start; the result is 0 for the first one and -1 for every later one.
pub record IsServed (addr served : ℕ) (m : Memory) (r : ℕ) (m' : Memory) : Type 0 where
  pub page : ℕ
  pub marked : Memory
  pub first : IsFirstFree m.mem_map 0 page
  pub handed_out : IsHandedOut m page marked
  pub translated : IsTranslated m.current (page_mask addr) (page_of page) marked m'
  pub ind : m'.ind ≡ ind_start + (served + 1)
  pub first_result : served ≡ 0 → r ≡ 0
  pub later_result : 0 < served → r ≡ 2 ^ 32 - 1

marked-HasTables :
    (task va i : ℕ) (m : Memory)
    → m.mem_map i ≡ 0
    → HasTables task va m
    → HasTables task va (mark_page i m)
unfolding HasTables mark_page
marked-HasTables task va i m free (inl e) = inl e
marked-HasTables task va i m free (inr (g, pgd, taken, path)) = inr (
  g,
  pgd,
  mark_page-taken m i g taken,
  mark_page-IsPath_kept m va i (λ k. k ≡ g) g levels free taken path,
)

counted :
    {task va page : ℕ} {m m' : Memory} (n : ℕ)
    → IsTranslated task va page m m'
    → IsTranslated task va page m (record m' { ind = n })
counted n t = record {
  walks = t.walks;
  first = t.first;
  tables = t.tables;
  user_count = t.user_count;
  user = t.user;
}

-- What the code answers for its counter.
answer : ℕ → ℕ
answer ind = if ltb 2 ind && ltb ind (2 ^ 31) then 2 ^ 32 - 1 else 0

answer-first : (n : ℕ) → n ≡ 2 → answer n ≡ 0
unfolding answer
answer-first n e = ground (arith, e)

answer-later : (n : ℕ) → 2 < n → n < 2 ^ 31 → answer n ≡ 2 ^ 32 - 1
unfolding answer
answer-later n lo hi = ground (arith, lo, hi)

-- Every branch of `do_mem_abort` for a task that is not NULL, while five pages and room for four
-- tables and a user page are left, the tables of the task for the address are in order, and the
-- counter stands at its start value and the number of translation faults served since, fewer than
-- 2 ^ 31 - 2: another fault is refused with -1 and changes nothing; a translation fault is served
-- by the first free page, zeroed and mapped at the page of the address, and counted, and the result
-- is 0 for the first one since the start and -1 for every later one.
pub do_mem_abort_lem :
    (addr esr served : ℕ) (m : Memory)
    → m.ind ≡ ind_start + served
    → served + 2 < 2 ^ 31
    → 0 < m.current
    → HasTables m.current (page_mask addr) m
    → total m.mem_map map_size + 5 ≤ map_size
    → (m.mm m.current).kernel_pages_count + 4 < max_process_pages
    → (m.mm m.current).user_pages_count < max_process_pages
    → ((¬ IsTranslationFault esr) × (do_mem_abort addr esr m ≡ some (2 ^ 32 - 1, m)))
      ⊎ ((r : ℕ) × (m' : Memory) × (do_mem_abort addr esr m ≡ some (r, m'))
          × IsTranslationFault esr
          × IsServed addr served m r m')
unfolding do_mem_abort mark_page answer
do_mem_abort_lem addr esr served m counter small real tables left few room =
    elim (Bool-cases (bit_and (bit_and esr 0b111111) 0b111100 == 0b100)) [
      | inl e ↦
          let (i, first, run, sum) = get_free_page-some m (omega (arith, left)) in
          let (m', run', t, ind) =
            map_page-IsTranslated m.current (page_mask addr) (page_of i) real (mark_page i m)
              (marked-HasTables m.current (page_mask addr) i m first.is_free tables)
              (omega (arith, sum, left)) few room in
          inr (
            answer (u32 (m.ind + 1)),
            record m' { ind = u32 (m.ind + 1) },
            elim (Bool-cases (ltb 2 (u32 (m.ind + 1)) && ltb (u32 (m.ind + 1)) (2 ^ 31))) [
              | inl c ↦ rw (e, run, not_zero (page_of i) (omega arith), run', ind, c)
              | inr c ↦ rw (e, run, not_zero (page_of i) (omega arith), run', ind, c)
            ],
            (==_iff _ _).0 e,
            record {
              page = i;
              marked = mark_page i m;
              first = first;
              handed_out = mark_page-IsHandedOut m i;
              translated = counted (u32 (m.ind + 1)) t;
              ind = omega (arith, counter, small);
              first_result = λ z. answer-first (u32 (m.ind + 1)) (omega (arith, counter, z));
              later_result = λ z.
                  answer-later (u32 (m.ind + 1)) (omega (arith, counter, z, small))
                    (omega (arith, counter, small));
            },
          )
      | inr e ↦ inl (λ y. true≢false (sym ((==_iff _ _).1 y) ∙ e), rw e refl)
    ]
