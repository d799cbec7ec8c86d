-- ===== src/Shell/Line/Words.antt =====
-- The words of a line, and that `seperate_string` finds them.
use rpi_os_cfs_ext.Base.{
  ℕ, zero, suc, ◌+◌, ◌≤◌, ◌<◌, ◌≡◌, ◌≢◌, refl, arith, Bool, true, false, ◌&&◌, some, ◌==◌,
  if◌then◌else◌, not, update, Bool-cases, inl, inr, sym, ◌∙◌, ap,
}
use native.Mathlib.Numerals.{unary_clauses}
use rpi_os_cfs_ext.Base.Bytes.{Bytes}
use rpi_os_cfs_ext.Str.{isspace}
use rpi_os_cfs_ext.Str.Length.{IsString}
use rpi_os_cfs_ext.Shell.Line.{Args, seperate_string}

-- Whether the character at an offset is the first of the line or follows a space.
unfoldable pub after_space : Bytes → ℕ → Bool
unfolding isspace
after_space line zero = true
after_space line (suc i) = isspace (line i)

unfoldable pub starts_word : Bytes → ℕ → Bool
unfolding isspace after_space
starts_word line i = not (isspace (line i)) && after_space line i

-- How many words start in the first `n` characters.
unfoldable pub words_before : Bytes → ℕ → ℕ
unfolding starts_word
words_before line zero = 0
words_before line (suc n) = (if starts_word line n then 1 else 0) + words_before line n

abbrev cleared : Bytes → ℕ → ℕ
cleared line j = if isspace (line j) then 0 else line j

==→≡ : (a b : ℕ) → (a == b) ≡ true → a ≡ b
==→≡ a b h = ground arith

nonzero : (a : ℕ) → a ≢ 0 → (a == 0) ≡ false
nonzero a h = ground (arith, h)

-- The scan of the first `i` characters is done.
record Scanned (line : Bytes) (i prev count : ℕ) (buf : Bytes) (ptrs : ℕ → ℕ) : Type 0 where
  done : (j : ℕ) → j < i → buf j ≡ cleared line j
  left : (j : ℕ) → i ≤ j → buf j ≡ line j
  last : (prev == 0) ≡ after_space line i
  counted : count ≡ words_before line i
  found : (j : ℕ) → j < i → starts_word line j ≡ true → ptrs (words_before line j) ≡ j

-- The words of a line of `n` characters: the spaces are NULs, and the word that starts at `j` is
-- the argument whose number is the number of words before it.
pub record IsSeparated (line : Bytes) (n : ℕ) (args : Args) : Type 0 where
  pub argc_words : args.argc ≡ words_before line n
  pub argv_starts :
      (j : ℕ) → j < n → starts_word line j ≡ true → args.argv (words_before line j) ≡ j
  pub buf_cleared : (j : ℕ) → j < n → args.buf j ≡ (if isspace (line j) then 0 else line j)

words_before-start :
    (line : Bytes) (j : ℕ)
    → starts_word line j ≡ true
    → words_before line (suc j) ≡ suc (words_before line j)
unfolding words_before
words_before-start line j h = ground (arith, h)

words_before_mono : (line : Bytes) (j i : ℕ) → j ≤ i → words_before line j ≤ words_before line i
unfolding words_before
words_before_mono line j zero h = ground arith
words_before_mono line j (suc i) h = elim (Bool-cases (j == suc i)) [
  | inl e ↦ ground arith
  | inr ne ↦ ground (arith, words_before_mono line j i (ground arith))
]

words_before-lt :
    (line : Bytes) (j i : ℕ)
    → j < i
    → starts_word line j ≡ true
    → words_before line j < words_before line i
words_before-lt line j i h s =
    omega (arith, words_before-start line j s, words_before_mono line (suc j) i h)

module _ (line : Bytes) (i prev count : ℕ) (buf : Bytes) (ptrs : ℕ → ℕ) where
  scan_space :
      Scanned line i prev count buf ptrs
      → isspace (line i) ≡ true
      → Scanned line (i + 1) 0 count (update buf i 0) ptrs
  unfolding after_space starts_word words_before
  scan_space s h = record {
    done = λ j lt. ground (arith, h, s.done j);
    left = λ j le. ground (arith, s.left j);
    last = simp unary_clauses (sym h);
    counted = ground (arith, h, s.counted);
    found = λ j lt start. ground (arith, h, start, s.found j);
  }

  scan_start :
      Scanned line i prev count buf ptrs
      → isspace (line i) ≡ false
      → (prev == 0) ≡ true
      → (line i == 0) ≡ false
      → Scanned line (i + 1) (line i) (count + 1) buf (update ptrs count i)
  unfolding after_space starts_word words_before
  scan_start s h p ne = record {
    done = λ j lt. ground (arith, h, s.done j, s.left j);
    left = λ j le. ground (arith, s.left j);
    last = simp unary_clauses (ne ∙ sym h);
    counted = ground (arith, h, s.counted, s.last);
    found = λ j lt start. elim (Bool-cases (j == i)) [
      | inl e ↦ ground (arith, s.counted, ap (words_before line) (==→≡ j i e))
      | inr _ ↦ ground (arith, start, s.counted, s.found j, words_before-lt line j i)
    ];
  }

  scan_inside :
      Scanned line i prev count buf ptrs
      → isspace (line i) ≡ false
      → (prev == 0) ≡ false
      → (line i == 0) ≡ false
      → Scanned line (i + 1) (line i) count buf ptrs
  unfolding after_space starts_word words_before
  scan_inside s h p ne = record {
    done = λ j lt. ground (arith, h, s.done j, s.left j);
    left = λ j le. ground (arith, s.left j);
    last = simp unary_clauses (ne ∙ sym h);
    counted = ground (arith, h, s.counted, s.last);
    found = λ j lt start. elim (Bool-cases (j == i)) [
      | inl e ↦ absurd (ground (arith, start, s.last, ap (starts_word line) (==→≡ j i e)))
      | inr _ ↦ ground (arith, start, s.found j)
    ];
  }

seperate_from :
    (fuel : ℕ) (line : Bytes) (n i prev count : ℕ) (buf : Bytes) (ptrs : ℕ → ℕ)
    → IsString line n
    → Scanned line i prev count buf ptrs
    → i ≤ n
    → n < i + fuel
    → (args : Args) × (seperate_string fuel i prev count buf ptrs ≡ some args)
      × IsSeparated line n args
unfolding seperate_string
seperate_from zero line n i prev count buf ptrs h s lo hi = absurd (omega arith)
seperate_from (suc fuel) line n i prev count buf ptrs h s lo hi = elim (Bool-cases (i == n)) [
  | inl e ↦ (
    record { argc = count; buf = buf; argv = ptrs },
    ground (arith, h.ends, s.left i),
    record {
      argc_words = s.counted ∙ ap (words_before line) (==→≡ i n e);
      argv_starts = λ j lt. s.found j (ground arith);
      buf_cleared = λ j lt. s.done j (ground arith);
    },
  )
  | inr ne ↦
      let at = s.left i (omega arith) in
      let inside = nonzero (line i) (h.inside i (ground arith)) in
      elim (Bool-cases (isspace (line i))) [
        | inl space ↦
            let next =
              seperate_from fuel line n (i + 1) 0 count (update buf i 0) ptrs h
                (scan_space line i prev count buf ptrs s space) (ground arith) (omega arith) in
            rw (at, inside, space) next
        | inr word ↦ elim (Bool-cases (prev == 0)) [
          | inl first ↦
              let next =
                seperate_from fuel line n (i + 1) (line i) (count + 1) buf (update ptrs count i) h
                  (scan_start line i prev count buf ptrs s word first inside) (ground arith)
                  (omega arith) in
              rw (at, inside, word, first) next
          | inr later ↦
              let next =
                seperate_from fuel line n (i + 1) (line i) count buf ptrs h
                  (scan_inside line i prev count buf ptrs s word later inside) (ground arith)
                  (omega arith) in
              rw (at, inside, word, later) next
        ]
      ]
]

start : (line : Bytes) (ptrs : ℕ → ℕ) → Scanned line 0 0 0 line ptrs
unfolding after_space words_before
start line ptrs = record {
  done = λ j lt. absurd (omega arith);
  left = λ j le. refl;
  last = refl;
  counted = refl;
  found = λ j lt. absurd (omega arith);
}

-- `seperate_string` of a line of `n` characters ends within `n + 1` rounds. `argc` is the number
-- of its words, the word that starts at an offset is the argument whose number is the number of
-- words before it, and the buffer is the line with a NUL for each space.
pub seperate_string-IsSeparated :
    (fuel : ℕ) (line : Bytes) (n : ℕ) (ptrs : ℕ → ℕ)
    → IsString line n
    → n < fuel
    → (args : Args) × (seperate_string fuel 0 0 0 line ptrs ≡ some args) × IsSeparated line n args
seperate_string-IsSeparated fuel line n ptrs h hf =
    seperate_from fuel line n 0 0 0 line ptrs h (start line ptrs) (omega arith) (omega arith)
