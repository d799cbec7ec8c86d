-- ===== src/Tests/Strings.antt =====
-- src/string.c on short strings.
use rpi_os_cfs_ext.Base.{◌≡◌, refl, arith, ◌==◌, if◌then◌else◌, some}
use rpi_os_cfs_ext.Base.Bytes.{Bytes, zeros}
use rpi_os_cfs_ext.Str.{strcmp, atoi}
use rpi_os_cfs_ext.Str.Length.{IsString}
use rpi_os_cfs_ext.Str.Compare.{Compared, strcmp_lem}
use rpi_os_cfs_ext.Shell.Line.{Args, seperate_string}
use rpi_os_cfs_ext.Shell.Line.Words.{words_before, IsSeparated, seperate_string-IsSeparated}

-- "42"
abbrev digits : Bytes
digits a = if a == 0 then 52 else if a == 1 then 50 else 0

digits-IsString : IsString digits 2
digits-IsString = record { ends = refl; inside = λ i h. ground arith }

atoi-digits : atoi 3 0 0 digits ≡ some 42
unfolding atoi
atoi-digits = refl

strcmp_lem_example : Compared digits zeros 0 2 (strcmp 256 0 digits zeros)
strcmp_lem_example =
    strcmp_lem digits zeros 2 digits-IsString (λ i. ground arith) (λ i. ground arith) 256
      (omega arith)

-- "4 2"
abbrev two_words : Bytes
two_words a = if a == 0 then 52 else if a == 1 then 32 else if a == 2 then 50 else 0

two_words-IsString : IsString two_words 3
two_words-IsString = record { ends = refl; inside = λ i h. ground arith }

words_before-two_words : words_before two_words 3 ≡ 2
unfolding words_before
words_before-two_words = refl

seperate_string-IsSeparated_example :
    (args : Args) × (seperate_string 1000 0 0 0 two_words zeros ≡ some args)
    × IsSeparated two_words 3 args
seperate_string-IsSeparated_example =
    seperate_string-IsSeparated 1000 two_words 3 zeros two_words-IsString (omega arith)
