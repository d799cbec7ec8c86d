-- ===== src/Mm.antt =====
-- Physical pages and page tables: src/mm.c, include/mm.h, `memzero` of src/mm.S and
-- `struct mm_struct` of include/sched.h. The kernel sees the physical address a at a + VA_START;
-- the words below are at physical addresses.
pub mod Pages
pub mod Ledger
pub mod Refine
pub mod Tables
use rpi_os_cfs_ext.Base.{
  ℕ, zero, suc, ◌+◌, ◌-◌, ◌*◌, ◌/◌, ◌%◌, ◌^◌, Bool, ◌&&◌, Option, none, some, ◌==◌, leb, ltb,
  if◌then◌else◌, u32, u64, sub64, update, bit_and, bit_or, Run, pure, fault, ◌>>=◌, ◌>>◌,
}

abbrev pub va_start : ℕ
va_start = 0xffff000000000000

abbrev pub page_size : ℕ
page_size = 4096

abbrev pub low_memory : ℕ
low_memory = 2 * 2 ^ 21

abbrev pub paging_pages : ℕ
paging_pages = (0x3f000000 - low_memory) / page_size

-- The entries that `mem_map` really has.
abbrev pub map_size : ℕ
map_size = 10000

abbrev pub max_process_pages : ℕ
max_process_pages = 16

-- `struct user_page`
pub record UserPage : Type 0 where
  pub phys_addr : ℕ
  pub virt_addr : ℕ

-- `struct mm_struct`; the two arrays have 16 elements.
pub record MmStruct : Type 0 where
  pub pgd : ℕ
  pub user_pages_count : ℕ
  pub user_pages : ℕ → UserPage
  pub kernel_pages_count : ℕ
  pub kernel_pages : ℕ → ℕ

-- The value that `ind` starts with.
abbrev pub ind_start : ℕ
ind_start = 1

-- The memory's state: `mem_map`, the 64-bit words of the physical memory, the `mm` of the task at
-- each address, `current`, and the counter `ind` of `do_mem_abort`, the bit pattern of an `int`.
pub record Memory : Type 0 where
  pub mem_map : ℕ → ℕ
  pub words : ℕ → ℕ
  pub mm : ℕ → MmStruct
  pub current : ℕ
  pub ind : ℕ

abbrev pub M : Type 0 → Type 0
M A = Run Memory A

-- The address of page `i`.
abbrev pub page_of : ℕ → ℕ
page_of i = low_memory + i * page_size

unfoldable pub memzero : (ℕ → ℕ) → ℕ → ℕ → ℕ → ℕ
memzero words src n a = if leb src a && ltb a (src + n) then 0 else words a

-- The loop of `get_free_page` from entry `i` with `n` entries to go: `none` is a read past the
-- end of `mem_map`, `some none` the end of the loop.
unfoldable pub scan_map : (ℕ → ℕ) → ℕ → ℕ → Option (Option ℕ)
scan_map map i zero = some none
scan_map map i (suc n) =
    let rest = scan_map map (suc i) n in
    if leb map_size i then none else if map i == 0 then some (some i) else rest

-- Entry `i` set and its page zeroed.
unfoldable pub mark_page : ℕ → Memory → Memory
unfolding memzero
mark_page i m = record m {
  mem_map = update m.mem_map i 1;
  words = memzero m.words (page_of i) page_size;
}

unfoldable pub take_page : Option (Option ℕ) → M ℕ
unfolding mark_page
take_page none m = none
take_page (some none) m = some (0, m)
take_page (some (some i)) m = some (page_of i, mark_page i m)

unfoldable pub get_free_page : M ℕ
unfolding scan_map take_page
get_free_page m = take_page (scan_map m.mem_map 0 paging_pages) m

-- `n` is an `int`: the low 32 bits of the quotient, negative from 2 ^ 31 on; a write outside the
-- array is a fault.
unfoldable pub free_page : ℕ → M (Unit {0})
free_page p m =
    let n = u32 (sub64 p low_memory / page_size) in
    if ltb n map_size then some (tt, record m { mem_map = update m.mem_map n 0 }) else none

unfoldable pub allocate_kernel_page : M ℕ
unfolding get_free_page
allocate_kernel_page = do
  page ← get_free_page
  if page == 0 then pure 0 else pure (u64 (page + va_start))
