-- ===== src/Ext2/Inodes.antt =====
-- `get_inode` and `set_inode` of src/ext2.c, and what they call nowhere else.
pub mod Slots
use rpi_os_cfs_ext.Base.{ℕ, ◌+◌, ◌*◌, ◌/◌, ◌%◌, sub32}
use rpi_os_cfs_ext.Base.Bytes.{Bytes, zeros, from, memcpy}
use rpi_os_cfs_ext.Disk.{Disk, block_read, block_write, max_block_size}
use rpi_os_cfs_ext.Ext2.Layout.{gdt_block_count, get_inode_group}
use rpi_os_cfs_ext.Ext2.SuperBlock
use rpi_os_cfs_ext.Ext2.Inode

-- The block of its group that holds inode `inode`, and its place in the block.
unfoldable pub inode_block : Bytes → ℕ → ℕ
inode_block sb inode =
    let per_block = max_block_size / SuperBlock.inode_structure_size sb in
    let in_group = sub32 inode 1 % SuperBlock.inode_per_group sb in
    1 + gdt_block_count + 1 + 1 + in_group / per_block

unfoldable pub inode_slot : Bytes → ℕ → ℕ
inode_slot sb inode = sub32 inode 1 % (max_block_size / SuperBlock.inode_structure_size sb)

-- Inode `slot` of a block of the inode table, read and written.
unfoldable pub read_slot : Disk → Bytes → ℕ → ℕ → ℕ → Bytes
read_slot d buf group block slot =
    memcpy buf 0 (from (block_read d group block zeros) (slot * Inode.size_of)) Inode.size_of

unfoldable pub write_slot : Disk → Bytes → ℕ → ℕ → ℕ → Disk
write_slot d buf group block slot =
    block_write d group block
      (memcpy (block_read d group block zeros) (slot * Inode.size_of) buf Inode.size_of)

unfoldable pub get_inode : Disk → Bytes → ℕ → Bytes → Bytes
unfolding inode_block inode_slot read_slot
get_inode d sb inode buf =
    let group = sub32 inode 1 / SuperBlock.inode_per_group sb in
    read_slot d buf group (inode_block sb inode) (inode_slot sb inode)

unfoldable pub set_inode : Disk → Bytes → ℕ → Bytes → Disk
unfolding inode_block inode_slot write_slot
set_inode d sb inode buf =
    write_slot d buf (get_inode_group inode) (inode_block sb inode) (inode_slot sb inode)
