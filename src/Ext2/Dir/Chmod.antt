-- ===== src/Ext2/Dir/Chmod.antt =====
-- The digits that `ext2_chmod` takes its number apart into.
use rpi_os_cfs_ext.Base.{
  ℕ, ◌+◌, ◌-◌, ◌*◌, ◌/◌, ◌%◌, ◌<◌, ◌≡◌, arith, ◌||◌, none, some, ◌==◌, leb, if◌then◌else◌, bit_and,
}
use rpi_os_cfs_ext.Ext2.Dir.{change_mode}

-- The digits of 100u + 10g + o, as the function finds them.
digits_of :
    (u g o : ℕ)
    → u < 10
    → g < 10
    → o < 10
    → ((100 * u + 10 * g + o) / 100 ≡ u)
      × ((100 * u + 10 * g + o) % 10 ≡ o)
      × ((if u == 0 then (100 * u + 10 * g + o) / 10 else (100 * u + 10 * g + o - u * 100) / 10)
          ≡ g)
digits_of u g o hu hg ho = (omega arith, omega arith, ground arith)

-- For three decimal digits u, g and o, `ext2_chmod` with the number that they spell refuses it if
-- one of them is 8 or 9, and else gives a mode with the octal digits u, g and o under the bits
-- from 9 on of the old mode.
pub change_mode_lem :
    (mode u g o : ℕ)
    → u < 10
    → g < 10
    → o < 10
    → change_mode mode (100 * u + 10 * g + o) ≡ (
        if (leb 8 u || leb 8 g) || leb 8 o
        then none
        else some (bit_and mode 0xFE00 + (64 * u + 8 * g + o)))
unfolding change_mode
change_mode_lem mode u g o hu hg ho =
    let e = digits_of u g o hu hg ho in rw (e.0, e.1, e.2) (ground arith)
