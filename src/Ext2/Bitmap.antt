-- ===== src/Ext2/Bitmap.antt =====
-- `set_block_bitmap` and `set_inode_bitmap` of src/ext2.c. A status is `true` for EXT2_SUCCESS.
pub mod Laws
use rpi_os_cfs_ext.Base.{
  ℕ, ◌+◌, ◌-◌, ◌*◌, ◌/◌, ◌%◌, Bool, true, false, Option, none, some, ◌==◌, ltb, if◌then◌else◌,
  sub32, update,
}
use rpi_os_cfs_ext.Base.Bytes.{Bytes, zeros}
use rpi_os_cfs_ext.Base.Bits.{set_bit, clear_bit}
use rpi_os_cfs_ext.Disk.{Disk, block_read, block_write, number_of_groups}
use rpi_os_cfs_ext.Ext2.Layout.{gdt_block_count, number_of_inodes, get_inode_group}

-- The new value of the byte, if `number` is 0 or 1.
unfoldable pub change_bit : ℕ → ℕ → ℕ → Option ℕ
change_bit number byte k =
    if number == 1
    then some (set_bit byte k)
    else if number == 0
    then some (clear_bit byte k)
    else none

-- Bit `n` of the bitmap in block `block` of a group.
unfoldable pub set_bitmap : Disk → ℕ → ℕ → ℕ → ℕ → Bool × Disk
unfolding change_bit
set_bitmap d group bitmap n number =
    let block = block_read d group bitmap zeros in
    elim (change_bit number (block (n / 8)) (n % 8)) [
      | none ↦ (false, d)
      | some byte ↦ (true, block_write d group bitmap (update block (n / 8) byte))
    ]

unfoldable pub set_block_bitmap : Disk → ℕ → ℕ → ℕ → Bool × Disk
unfolding set_bitmap
set_block_bitmap d group block_num number =
    set_bitmap d group (1 + gdt_block_count) block_num number

unfoldable pub set_inode_bitmap : Disk → ℕ → ℕ → Bool × Disk
unfolding set_bitmap
set_inode_bitmap d inode_num number =
    let group = get_inode_group inode_num in
    let per_group = number_of_inodes / number_of_groups in
    let n = if ltb per_group inode_num then sub32 inode_num (group * per_group) else inode_num in
    set_bitmap d group (1 + gdt_block_count + 1) (sub32 n 1) number
