-- ===== src/Tests/Paging.antt =====
-- The page allocator and the page tables on an empty memory.
use rpi_os_cfs_ext.Base.{
  ℕ, ◌^◌, ◌≡◌, ◌⊎◌, inl, refl, arith, none, some, ◌-◌, update, count, [], ◌∷◌,
}
use mathlib.Core.Option
use rpi_os_cfs_ext.Mm.{
  Memory, ind_start, MmStruct, map_size, page_of, mark_page, get_free_page, free_page,
}
use rpi_os_cfs_ext.Mm.Pages.{IsFirstFree, IsFull, IsHandedOut, clear_page, get_free_page_lem}
use rpi_os_cfs_ext.Mm.Ledger.{
  Step, Reach, IsSound, alloc, release_kernel, here, next, at, total, Reach-IsSound, start-IsSound,
  get_free_page-available,
}
use rpi_os_cfs_ext.Mm.Refine.{Allocator, event, free_pages, Step-refines}
use rpi_os_cfs_ext.Mm.Tables.{map_page, do_mem_abort, exit_pages}
use rpi_os_cfs_ext.Mm.Tables.Translate.{HasTables, IsTranslated, map_page-IsTranslated}
use rpi_os_cfs_ext.Mm.Tables.Fault.{IsServed, IsTranslationFault, do_mem_abort_lem}
use rpi_os_cfs_ext.Mm.Tables.Exit.{exit_pages-map_page}

abbrev no_pages : MmStruct
no_pages = record {
  pgd = 0;
  user_pages_count = 0;
  user_pages = λ _. record { phys_addr = 0; virt_addr = 0 };
  kernel_pages_count = 0;
  kernel_pages = λ _. 0;
}

abbrev start : Memory
start = record {
  mem_map = λ _. 0;
  words = λ a. a;
  mm = λ _. no_pages;
  current = 64;
  ind = ind_start;
}

-- Three pages are handed out, and the second is given back.
abbrev one : Memory
unfolding mark_page
one = mark_page 0 start

abbrev two : Memory
unfolding mark_page
two = mark_page 1 one

abbrev back : Memory
unfolding clear_page
back = clear_page 1 two

run_two : Reach (at start []) (at two (page_of 1 ∷ page_of 0 ∷ []))
unfolding get_free_page mark_page
run_two =
    next (next here (alloc start one [] (page_of 0) refl))
      (alloc one two (page_of 0 ∷ []) (page_of 1) refl)

give_back : Step (at two (page_of 1 ∷ page_of 0 ∷ [])) (at back (page_of 0 ∷ []))
unfolding free_page clear_page
give_back = release_kernel two back [] (page_of 0 ∷ []) (page_of 1) refl

no_pages-IsSound : IsSound (at start [])
no_pages-IsSound = start-IsSound start λ _. refl

get_free_page_lem_example :
    ((i : ℕ) × (m' : Memory) × IsFirstFree one.mem_map 0 i
      × (get_free_page one ≡ some (page_of i, m'))
      × IsHandedOut one i m')
    ⊎ (IsFull one.mem_map 0 × (get_free_page one ≡ none))
get_free_page_lem_example = get_free_page_lem one

Reach-IsSound_example : IsSound (at back (page_of 0 ∷ []))
Reach-IsSound_example = Reach-IsSound no_pages-IsSound (next run_two give_back)

get_free_page-available_example :
    (i : ℕ) × (get_free_page back ≡ some (page_of i, mark_page i back))
    × (count (page_of i) (page_of 0 ∷ []) ≡ 0)
get_free_page-available_example =
    get_free_page-available start back (page_of 0 ∷ []) (λ _. refl) (next run_two give_back)
      (omega arith)

Step-refines_example : Allocator (event give_back) (free_pages two) (free_pages back)
Step-refines_example = Step-refines give_back (Reach-IsSound no_pages-IsSound run_two)

start-total : total start.mem_map map_size ≡ 0
unfolding total
start-total = refl

map_page_example :
    (m' : Memory) × (map_page 64 0x7000 (page_of 9) start ≡ some (tt, m'))
    × IsTranslated 64 0x7000 (page_of 9) start m'
    × (m'.ind ≡ start.ind)
unfolding HasTables
map_page_example =
    map_page-IsTranslated 64 0x7000 (page_of 9) (omega arith) start (inl refl)
      (omega (arith, start-total)) (omega arith) (omega arith)

-- A translation fault of level 3 at an address inside a page.
do_mem_abort_lem_example :
    ((¬ IsTranslationFault 0x92000007)
      × (do_mem_abort 0x7123 0x92000007 start ≡ some (2 ^ 32 - 1, start)))
    ⊎ ((r : ℕ) × (m' : Memory) × (do_mem_abort 0x7123 0x92000007 start ≡ some (r, m'))
        × IsTranslationFault 0x92000007
        × IsServed 0x7123 0 start r m')
unfolding HasTables
do_mem_abort_lem_example =
    do_mem_abort_lem 0x7123 0x92000007 0 start refl (omega arith) (omega arith) (inl refl)
      (omega (arith, start-total)) (omega arith) (omega arith)

exit_pages-map_page_example :
    (m' : Memory) × (map_page 64 0x7000 (page_of 9) start ≡ some (tt, m'))
    × (exit_pages 64 m' ≡ none)
exit_pages-map_page_example =
    exit_pages-map_page 64 0x7000 (page_of 9) start (omega arith) refl refl
      (omega (arith, start-total)) (omega arith) (omega arith)

-- A run of `map_page` from no tables: the four tables are on the first four pages.
map_page-run :
    Option.map (λ r. r.1.mm 64) (map_page 64 0x7000 (page_of 9) start)
    ≡ some (record {
      pgd = page_of 0;
      user_pages_count = 1;
      user_pages =
          update no_pages.user_pages 0 (record { phys_addr = page_of 9; virt_addr = 0x7000 });
      kernel_pages_count = 4;
      kernel_pages =
          update
            (update
              (update (update no_pages.kernel_pages 1 (page_of 0)) 2 (page_of 1))
              3
              (page_of 2))
            4
            (page_of 3);
    })
unfolding map_page
map_page-run = refl
