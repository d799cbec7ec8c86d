-- ===== src/Mm/Tables.antt =====
-- Page tables: `map_table_entry`, `map_table`, `map_page` and their callers in src/mm.c.
pub mod Walk
pub mod Descend
pub mod Translate
pub mod Fault
pub mod Exit
use rpi_os_cfs_ext.Base.{
  u32, ◌&&◌, ℕ, zero, suc, ◌+◌, ◌-◌, ◌*◌, ◌/◌, ◌%◌, ◌^◌, ◌<◌, Bool, Option, none, some, ◌==◌, leb,
  ltb, if◌then◌else◌, u64, update, bit_and, bit_or, Run, pure, fault, ◌>>=◌, ◌>>◌, when,
}
use rpi_os_cfs_ext.Mm.{
  Memory, MmStruct, UserPage, M, va_start, page_size, max_process_pages, get_free_page, free_page,
}

-- `index & (PTRS_PER_TABLE - 1)` and `entry & PAGE_MASK`, as remainders of powers of two.
abbrev pub table_index : ℕ → ℕ → ℕ
table_index va shift = va / 2 ^ shift % 512

abbrev pub page_mask : ℕ → ℕ
page_mask entry = entry / 4096 * 4096

abbrev pub page_shift : ℕ
page_shift = 12

abbrev pub pgd_shift : ℕ
pgd_shift = page_shift + 3 * 9

abbrev pub pud_shift : ℕ
pud_shift = page_shift + 2 * 9

abbrev pub pmd_shift : ℕ
pmd_shift = page_shift + 9

abbrev pub mm_type_page_table : ℕ
mm_type_page_table = 3

-- `MM_TYPE_PAGE | (MT_NORMAL_NC << 2) | MM_ACCESS | MM_ACCESS_PERMISSION`
abbrev pub mmu_pte_flags : ℕ
mmu_pte_flags = bit_or (bit_or (bit_or 3 (1 * 2 ^ 2)) (1 * 2 ^ 10)) (1 * 2 ^ 6)

abbrev pub load_word : ℕ → M ℕ
load_word a m = some (m.words a, m)

abbrev pub store_word : ℕ → ℕ → M (Unit {0})
store_word a v m = some (tt, record m { words = update m.words a v })

unfoldable pub map_table_entry : ℕ → ℕ → ℕ → M (Unit {0})
map_table_entry pte va pa =
    store_word (pte + 8 * table_index va page_shift) (bit_or pa mmu_pte_flags)

-- The child's address, and what `*new_table` is set to.
unfoldable pub map_table : ℕ → ℕ → ℕ → M (ℕ × ℕ)
unfolding get_free_page
map_table table shift va = do
  let slot = table + 8 * table_index va shift
  entry ← load_word slot
  if entry == 0
      then (do
        next_level_table ← get_free_page
        store_word slot (bit_or next_level_table mm_type_page_table)
        pure (next_level_table, 1))
      else pure (page_mask entry, 0)

unfoldable pub load_mm : ℕ → M MmStruct
load_mm task m = if task == 0 then none else some (m.mm task, m)

unfoldable pub store_mm : ℕ → MmStruct → M (Unit {0})
store_mm task v m = if task == 0 then none else some (tt, record m { mm = update m.mm task v })

-- `task->mm.kernel_pages[++task->mm.kernel_pages_count] = page`
unfoldable pub record_kernel_page : ℕ → ℕ → M (Unit {0})
unfolding load_mm store_mm
record_kernel_page task page = do
  v ← load_mm task
  let n = v.kernel_pages_count + 1
  if ltb n max_process_pages
      then store_mm task
          (record v { kernel_pages_count = n; kernel_pages = update v.kernel_pages n page })
      else fault

-- `task->mm.user_pages[task->mm.user_pages_count++] = p`
unfoldable pub record_user_page : ℕ → UserPage → M (Unit {0})
unfolding load_mm store_mm
record_user_page task p = do
  v ← load_mm task
  let n = v.user_pages_count
  if ltb n max_process_pages
      then store_mm task
          (record v { user_pages_count = n + 1; user_pages = update v.user_pages n p })
      else fault

-- `if (!task->mm.pgd) { ... }` and `pgd = task->mm.pgd`
unfoldable pub get_pgd : ℕ → M ℕ
unfolding load_mm store_mm get_free_page record_kernel_page
get_pgd task = do
  v ← load_mm task
  if v.pgd == 0
      then (do
        page ← get_free_page
        w ← load_mm task
        store_mm task (record w { pgd = page })
        record_kernel_page task page
        pure page)
      else pure v.pgd

-- A call of `map_table` and the test of `new_table` behind it.
unfoldable pub child_table : ℕ → ℕ → ℕ → ℕ → M ℕ
unfolding map_table record_kernel_page
child_table task table shift va = do
  r ← map_table table shift va
  when (r.1 == 1) (record_kernel_page task r.0)
  pure r.0

unfoldable pub map_page : ℕ → ℕ → ℕ → M (Unit {0})
unfolding get_pgd child_table map_table_entry record_user_page
map_page task va page = do
  pgd ← get_pgd task
  pud ← child_table task pgd pgd_shift va
  pmd ← child_table task pud pud_shift va
  pte ← child_table task pmd pmd_shift va
  map_table_entry pte va page
  record_user_page task (record { phys_addr = page; virt_addr = va })

unfoldable pub allocate_user_page : ℕ → ℕ → M ℕ
unfolding get_free_page map_page
allocate_user_page task va = do
  page ← get_free_page
  if page == 0 then pure 0 else (do map_page task va page; pure (u64 (page + va_start)))

-- `do_mem_abort`; 2 ^ 32 - 1 is -1.
unfoldable pub do_mem_abort : ℕ → ℕ → M ℕ
unfolding get_free_page map_page
do_mem_abort addr esr = do
  let dfs = bit_and esr 0b111111
  if bit_and dfs 0b111100 == 0b100
      then (do
        page ← get_free_page
        if page == 0 then pure (2 ^ 32 - 1) else (do
          task ← (λ m. some (m.current, m))
          map_page task (page_mask addr) page
          ind ← (λ m. some (u32 (m.ind + 1), record m { ind = u32 (m.ind + 1) }))
          if ltb 2 ind && ltb ind (2 ^ 31) then pure (2 ^ 32 - 1) else pure 0))
      else pure (2 ^ 32 - 1)

-- The loops of `exit_process` (src/sched.c) from page `i` with `n` pages to go.
unfoldable pub free_pages_from : (ℕ → ℕ) → ℕ → ℕ → M (Unit {0})
unfolding free_page
free_pages_from pages i zero = pure tt
free_pages_from pages i (suc n) = free_page (pages i) >> free_pages_from pages (suc i) n

-- What `exit_process` gives back of a task's memory.
unfoldable pub exit_pages : ℕ → M (Unit {0})
unfolding load_mm free_pages_from
exit_pages tsk = do
  v ← load_mm tsk
  free_pages_from v.kernel_pages 0 v.kernel_pages_count
  free_pages_from (λ i. (v.user_pages i).phys_addr) 0 v.user_pages_count

-- The loop of `copy_virt_memory` from page `i` with `n` pages to go. `translate words pgd va` is
-- the physical address at which the processor finds `va` under the page directory `pgd`.
module _ (translate : (ℕ → ℕ) → ℕ → ℕ → ℕ) where
  -- `memcpy` of src/mm.S, by words: the target is a kernel address, the source one of the user.
  unfoldable pub copy_words : ℕ → ℕ → ℕ → ℕ → (ℕ → ℕ) → ℕ → ℕ
  copy_words pgd dst va zero words = words
  copy_words pgd dst va (suc n) words =
      copy_words pgd (dst + 8) (va + 8) n (update words dst (words (translate words pgd va)))

  unfoldable pub copy_pages : ℕ → ℕ → ℕ → ℕ → M ℕ
  unfolding load_mm allocate_user_page copy_words
  copy_pages dst src i zero = pure 0
  copy_pages dst src i (suc n) =
      let rest = copy_pages dst src (suc i) n in
      do
        v ← load_mm src
        let va = (v.user_pages i).virt_addr
        kernel_va ← allocate_user_page dst va
        if kernel_va == 0 then pure (2 ^ 32 - 1) else (do
          (λ m.
              some
                (tt, record m { words = copy_words v.pgd (kernel_va - va_start) va 512 m.words }))
          rest)

  -- The count is read again in each round; only the target's changes, and the source is another
  -- task.
  unfoldable pub copy_virt_memory : ℕ → M ℕ
  unfolding load_mm copy_pages
  copy_virt_memory dst = do
    src ← (λ m. some (m.current, m))
    v ← load_mm src
    copy_pages dst src 0 v.user_pages_count
