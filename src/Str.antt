-- ===== src/Str.antt =====
-- src/string.c, on buffers of unsigned characters. A loop that has not met its end within `fuel`
-- rounds gives `none`.
pub mod Length
pub mod Compare
pub mod Copy
use rpi_os_cfs_ext.Base.{
  ℕ, zero, suc, ◌+◌, ◌-◌, ◌*◌, ◌%◌, ◌^◌, Bool, true, false, ◌&&◌, ◌||◌, Option, none, some, ◌==◌,
  if◌then◌else◌, u32, sub32, update,
}
use rpi_os_cfs_ext.Base.Bytes.{Bytes}

unfoldable pub isspace : ℕ → Bool
isspace ch = (ch == 10 || ch == 32) || ch == 9

-- The result is the bit pattern of an `int`.
unfoldable pub strcmp : (fuel i : ℕ) → Bytes → Bytes → Option ℕ
strcmp zero i str1 str2 = none
strcmp (suc fuel) i str1 str2 =
    let rest = strcmp fuel (i + 1) str1 str2 in
    if str1 i == 0 && str2 i == 0
    then some 0
    else if str1 i == str2 i
    then rest
    else some (sub32 (str1 i) (str2 i))

unfoldable pub strlen : (fuel i : ℕ) → Bytes → Option ℕ
strlen zero i str = none
strlen (suc fuel) i str = let rest = strlen fuel (i + 1) str in if str i == 0 then some i else rest

-- Into `str1` at offset `o`.
unfoldable pub strcpy : (fuel i : ℕ) → Bytes → ℕ → Bytes → Option Bytes
strcpy zero i str1 o str2 = none
strcpy (suc fuel) i str1 o str2 =
    let rest = strcpy fuel (i + 1) (update str1 (o + i) (str2 i)) o str2 in
    if str2 i == 0 then some (update str1 (o + i) 0) else rest

unfoldable pub atoi : (fuel tot : ℕ) → ℕ → Bytes → Option ℕ
atoi zero tot i str = none
atoi (suc fuel) tot i str =
    let rest = atoi fuel (sub32 (tot * 10 + str i) 48) (i + 1) str in
    if str i == 0 then some tot else rest
