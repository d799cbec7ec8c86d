-- ===== src/Mm/Refine.antt =====
-- The page allocator of src/mm.c against a set of free pages.
use mathlib.Core.Path.{fun_ext}
use rpi_os_cfs_ext.Base.{
  count-middle, ℕ, ◌+◌, ◌<◌, ◌≡◌, ◌⊎◌, inl, inr, subst, arith, Bool, true, false, some, ◌==◌, ltb,
  ◌&&◌, update, List, ◌∷◌, ◌++◌,
}
use rpi_os_cfs_ext.Mm.{Memory, map_size, page_of, va_start, mark_page, get_free_page, free_page}
use rpi_os_cfs_ext.Mm.Pages.{clear_page, handed_out}
use rpi_os_cfs_ext.Mm.Ledger.{
  Ledger, Step, IsSound, at, held_page, released, alloc, release, release_kernel, other,
}

-- What a call does, for a caller.
pub data Event : Type 0 where
  takes : ℕ → Event
  gives : ℕ → Event
  idles : Event

-- The specification: a set of free pages by their number; some free page is taken, any one; a page
-- that is given back is free again; and nothing else changes the set.
pub data Allocator : Event → (ℕ → Bool) → (ℕ → Bool) → Type 0 where
  take :
      (free : ℕ → Bool) (i : ℕ)
      → free i ≡ true
      → Allocator (takes (page_of i)) free (update free i false)
  give :
      (free : ℕ → Bool) (i : ℕ)
      → free i ≡ false
      → i < map_size
      → Allocator (gives (page_of i)) free (update free i true)
  idle : (free : ℕ → Bool) → Allocator idles free free

abbrev pub event : {s t : Ledger} → Step s t → Event
event (alloc m m' held p e) = takes p
event (release m m' xs ys p e) = gives p
event (release_kernel m m' xs ys p e) = gives p
event (other m m' held e) = idles

-- The abstraction: which entries of `mem_map` are 0.
abbrev pub free_pages : Memory → ℕ → Bool
free_pages m i = ltb i map_size && (m.mem_map i == 0)

view-mark_page :
    (m : Memory) (i : ℕ) → i < map_size → free_pages (mark_page i m) ≡ update (free_pages m) i false
unfolding mark_page
view-mark_page m i h = fun_ext λ j. ground arith

view-clear_page :
    (m : Memory) (i : ℕ) → i < map_size → free_pages (clear_page i m) ≡ update (free_pages m) i true
unfolding clear_page
view-clear_page m i h = fun_ext λ j. ground arith

view-other : (m m' : Memory) → ((i : ℕ) → m'.mem_map i ≡ m.mem_map i) → free_pages m' ≡ free_pages m
view-other m m' e = fun_ext λ j. ground (arith, e j)

-- A page that is held is not free.
held-not_free :
    (m : Memory) (xs ys : List ℕ) (i : ℕ)
    → i < map_size
    → IsSound (at m (xs ++ page_of i ∷ ys))
    → free_pages m i ≡ false
held-not_free m xs ys i h s =
    ground (arith, s.counts i h, count-middle (page_of i) (page_of i) xs ys)

alloc-refines :
    (m m' : Memory) (p : ℕ)
    → get_free_page m ≡ some (p, m')
    → Allocator (takes p) (free_pages m) (free_pages m')
alloc-refines m m' p e =
    let (i, first, page, same) = handed_out m m' p e in
    rw (page, same, view-mark_page m i first.inside)
      (take (free_pages m) i (ground (arith, first.inside, first.is_free)))

release-refines :
    (m m' : Memory) (xs ys : List ℕ) (p : ℕ)
    → (free_page p m ≡ some (tt, m')) ⊎ (free_page (p + va_start) m ≡ some (tt, m'))
    → IsSound (at m (xs ++ p ∷ ys))
    → Allocator (gives p) (free_pages m) (free_pages m')
release-refines m m' xs ys p e s =
    let (i, hi, same) = held_page m xs ys p s in
    let held = subst (λ q. IsSound (at m (xs ++ q ∷ ys))) same s in
    rw (same, ← released m m' p i hi same e, view-clear_page m i hi)
      (give (free_pages m) i (held-not_free m xs ys i hi held) hi)

-- Each step of the allocator of src/mm.c from a sound ledger is one that the specification allows.
pub Step-refines :
    {s t : Ledger} (st : Step s t)
    → IsSound s
    → Allocator (event st) (free_pages s.memory) (free_pages t.memory)
Step-refines (alloc m m' held p e) s = alloc-refines m m' p e
Step-refines (release m m' xs ys p e) s = release-refines m m' xs ys p (inl e) s
Step-refines (release_kernel m m' xs ys p e) s = release-refines m m' xs ys p (inr e) s
Step-refines (other m m' held e) s = rw (view-other m m' e) (idle (free_pages m))
