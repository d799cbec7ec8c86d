-- ===== src/Shell/Modes.antt =====
-- The letters that `ls -l` prints for the mode that `chmod` sets: src/ext2_shell.c.
use rpi_os_cfs_ext.Base.{
  ℕ, ◌/◌, ◌%◌, ◌<◌, ◌≡◌, refl, arith, Bool, true, false, inl, inr, ap, sym, ◌∙◌, Bool-cases, ◌==◌,
  if◌then◌else◌, List, [], ◌∷◌, ◌++◌, ==_iff,
}
use rpi_os_cfs_ext.Base.Tables.{holds_below, from_table}
use rpi_os_cfs_ext.Shell.List.{ShellEntry}
use rpi_os_cfs_ext.Shell.Listing.{print_groups, print_per}

-- `rwx` for a digit, with a dash for each right that is missing.
abbrev pub letters : ℕ → List ℕ
letters d =
    (if d / 4 % 2 == 1 then 114 else 45)
    ∷ (if d / 2 % 2 == 1 then 119 else 45)
    ∷ (if d % 2 == 1 then 120 else 45)
    ∷ []

-- The same list, as a test.
same : List ℕ → List ℕ → Bool
same [] [] = true
same [] (y ∷ ys) = false
same (x ∷ xs) [] = false
same (x ∷ xs) (y ∷ ys) = let rest = same xs ys in if x == y then rest else false

same-eq : (xs ys : List ℕ) → same xs ys ≡ true → xs ≡ ys
unfolding same
same-eq [] [] h = refl
same-eq [] (y ∷ ys) h = absurd (ground arith)
same-eq (x ∷ xs) [] h = absurd (ground arith)
same-eq (x ∷ xs) (y ∷ ys) h = elim (Bool-cases (x == y)) [
  | inl e ↦
      let same_rest : same (x ∷ xs) (y ∷ ys) ≡ same xs ys = rw e refl in
      let rest : same xs ys ≡ true = sym same_rest ∙ h in
      rw ((==_iff x y).0 e, same-eq xs ys rest) refl
  | inr e ↦ absurd (ground (arith, h, e))
]

mode_entry : ℕ → Bool
unfolding same print_groups
mode_entry m = same (print_groups 3 m) (letters (m / 64) ++ letters (m / 8 % 8) ++ letters (m % 8))

mode_table : holds_below mode_entry 512 ≡ true
unfolding holds_below mode_entry
mode_table = refl

-- `print_per` prints the rights of the three octal digits of a mode, `rwx` each with a dash for a
-- right that is missing, behind the letter of a directory.
pub print_per-letters :
    (entry : ShellEntry)
    → entry.permition < 512
    → print_per entry
      ≡ (if entry.is_directory == 0 then 45 else 100)
        ∷ (letters (entry.permition / 64)
            ++ letters (entry.permition / 8 % 8)
            ++ letters (entry.permition % 8))
unfolding print_per mode_entry
print_per-letters entry h =
    let m = entry.permition in
    ap (λ l. (if entry.is_directory == 0 then 45 else 100) ∷ l)
      (same-eq (print_groups 3 m) (letters (m / 64) ++ letters (m / 8 % 8) ++ letters (m % 8))
        (from_table mode_entry mode_table m h))
