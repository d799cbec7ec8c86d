-- ===== src/Ext2/Format.antt =====
-- `ext2_format` of src/ext2.c: `fill_super_block`, `fill_descriptor_block` and `create_root`.
-- What a local structure held before its fields are set is the parameter `stack`.
pub mod Table
pub mod Root
pub mod Mount
use rpi_os_cfs_ext.Base.{
  ℕ, zero, suc, ◌+◌, ◌-◌, ◌*◌, ◌/◌, ◌%◌, ◌^◌, ◌==◌, ltb, if◌then◌else◌, u16, u32, sub32,
}
use rpi_os_cfs_ext.Base.Bytes.{Bytes, zeros, memcpy, put8, put16, put32, u32_at}
use rpi_os_cfs_ext.Disk.{
  Disk, block_read, block_write, max_block_size, number_of_sectors, number_of_groups,
}
use rpi_os_cfs_ext.Ext2.Layout.{gdt_block_count, inodetable_block_count, number_of_inodes}
use rpi_os_cfs_ext.Ext2.SuperBlock
use rpi_os_cfs_ext.Ext2.GroupDescriptor
use rpi_os_cfs_ext.Ext2.Inode
use rpi_os_cfs_ext.Ext2.DirEntry
use rpi_os_cfs_ext.Ext2.Inodes.{set_inode}
use rpi_os_cfs_ext.Ext2.Bitmap.{set_block_bitmap, set_inode_bitmap}

-- The blocks of a group before its data, and the blocks of the disk.
abbrev pub blocks_in_use : ℕ
blocks_in_use = 1 + gdt_block_count + 1 + 1 + inodetable_block_count

abbrev pub total_blocks : ℕ
total_blocks = (number_of_sectors - 2) / 2

-- `strcpy(&sb->volume_name, "NC 19th")`
abbrev volume_label : Bytes → Bytes
volume_label b =
    let b = put8 (put8 (put8 (put8 b 70 78) 71 67) 72 32) 73 49 in
    put8 (put8 (put8 (put8 b 74 57) 75 116) 76 104) 77 0

-- The blocks are of 1024 bytes, so the first of the four cases applies. Fields that are set to 0
-- are 0 already.
unfoldable pub fill_super_block : Bytes
fill_super_block =
    let b = put32 zeros 0 number_of_inodes in
    let b = put32 b 4 total_blocks in
    let b = put32 b 12 (total_blocks - blocks_in_use * number_of_groups) in
    let b = put32 b 16 (number_of_inodes - 10) in
    let b = put32 b 32 (total_blocks / number_of_groups) in
    let b = put32 b 40 (number_of_inodes / number_of_groups) in
    let b = put16 b 48 0xEF53 in
    let b = put16 b 50 0x0001 in
    let b = put32 b 58 11 in
    let b = put16 b 62 128 in let b = put16 b 64 0 in volume_label (put32 b 66 blocks_in_use)

unfoldable pub fill_descriptor_block : Bytes → Bytes
fill_descriptor_block sb =
    let b = put32 zeros 0 (1 + gdt_block_count) in
    let b = put32 b 4 (1 + gdt_block_count + 1) in
    let b = put32 b 8 (1 + gdt_block_count + 1 + 1) in
    let b = put32 b 12 (u16 (SuperBlock.free_block_count sb / number_of_groups)) in
    put32 b 16 (u16 (sub32 (u32 (SuperBlock.free_inode_count sb + 10) / number_of_groups) 10))

-- The super block goes to block 0 of each group; its own group number is set after the write.
unfoldable pub write_super_blocks : ℕ → ℕ → Bytes → Disk → Bytes × Disk
write_super_blocks zero g sb d = (sb, d)
write_super_blocks (suc left) g sb d =
    let d = block_write d g 0 (memcpy zeros 0 sb SuperBlock.size) in
    write_super_blocks left (g + 1) (put16 sb 64 g) d

-- `for(gn = 0; gn < NUMBER_OF_GROUPS; gn++) block_write(disk, gn, b, block);` from group `g`
unfoldable pub write_groups : ℕ → ℕ → ℕ → Bytes → Disk → Disk
write_groups zero g b block d = d
write_groups (suc left) g b block d = write_groups left (g + 1) b block (block_write d g b block)

-- `gd` with its counts for group `g`: only group 0 has reserved inodes, the last group has the
-- remainders.
unfoldable pub adjust : Bytes → ℕ → Bytes → Bytes
adjust sb g gd =
    let gd = if g == 1 then put32 gd 16 (u32 (u32_at gd 16 + 10)) else gd in
    if g == number_of_groups - 1
    then put32 (put32 gd 16 (u32 (u32_at gd 16 + number_of_inodes % number_of_groups))) 12
        (u32 (u32_at gd 12 + u16 (SuperBlock.free_block_count sb % number_of_groups)))
    else gd

-- The descriptors that fit in block `i` of the table, from group `g_num`, with the number of
-- groups left; `g_num` is the function's static variable.
unfoldable pub fill_table : ℕ → ℕ → Bytes → ℕ → Bytes → Bytes → ℕ × Bytes × Bytes
unfolding adjust
fill_table zero i sb g_num gd block = (g_num, gd, block)
fill_table (suc left) i sb g_num gd block =
    let gd' = adjust sb g_num gd in
    let block' = memcpy block (g_num * GroupDescriptor.size) gd' GroupDescriptor.size in
    let rest = fill_table left i sb (g_num + 1) gd' block' in
    if ltb ((i + 1) * max_block_size) ((g_num + 1) * GroupDescriptor.size)
    then (g_num, gd, block)
    else rest

-- The blocks of the table from block `i`, each written to every group.
unfoldable pub write_tables : ℕ → ℕ → Bytes → ℕ → Bytes → Disk → ℕ × Bytes × Disk
unfolding fill_table write_groups
write_tables zero i sb g_num gd d = (g_num, gd, d)
write_tables (suc left) i sb g_num gd d =
    let (g_num', gd', block) = fill_table (number_of_groups - g_num) i sb g_num gd zeros in
    write_tables left (i + 1) sb g_num' gd' (write_groups number_of_groups 0 (1 + i) block d)

-- `block[i] = 0xff` up to the last byte, of which only the bits in use are set.
abbrev pub used_blocks : Bytes
used_blocks a =
    if ltb a (blocks_in_use / 8)
    then 0xff
    else if a == blocks_in_use / 8
    then 0xff / 2 ^ (8 - blocks_in_use % 8)
    else 0

abbrev pub reserved_inodes : Bytes
reserved_inodes = put8 (put8 zeros 0 0xff) 1 0x03

-- The inode tables of the groups from `g`, four blocks of zeros each.
unfoldable pub clear_tables : ℕ → ℕ → ℕ → Disk → Disk
clear_tables zero g b d = d
clear_tables (suc left) g b d =
    let d = block_write d g b zeros in
    let d = block_write d g (b + 1) zeros in
    let d = block_write d g (b + 2) zeros in
    clear_tables left (g + 1) b (block_write d g (b + 3) zeros)

-- The root directory's block: `.`, `..`, and the mark of the end.
abbrev pub root_entries : Bytes
root_entries =
    let b = put32 (put8 (put32 zeros 0 2) 4 46) 15 1 in
    put32 (put8 (put8 (put32 b 32 2) 36 46) 37 46) 47 2

unfoldable pub root_inode : Bytes → Bytes → Bytes
root_inode stack sb =
    let inode = Inode.set_mode stack (0x01a4 + 0x4000) in
    let inode = Inode.set_uid inode 0x1234 in
    let inode = Inode.set_size inode (2 * DirEntry.size) in
    let inode = Inode.set_gid inode 0x1234 in
    let inode = Inode.set_blocks inode 1 in
    let inode = Inode.set_block inode 0 (SuperBlock.first_data_block_each_group sb) in
    Inode.set_links_count inode 2

-- The super block that is written is the one before its count is lowered.
unfoldable pub create_root : Bytes → Bytes → Disk → Disk
unfolding set_block_bitmap root_inode set_inode set_inode_bitmap
create_root stack sb d =
    let first = SuperBlock.first_data_block_each_group sb in
    let d = block_write d 0 first root_entries in
    let d = (set_block_bitmap d 0 first 1).1 in
    let d = set_inode d sb 2 (root_inode stack sb) in
    let d = (set_inode_bitmap d 2 1).1 in
    let table = block_read d 0 1 zeros in
    let table = put16 (put32 table 12 (sub32 (u32_at table 12) 1)) 20 1 in
    let d = block_write d 0 1 table in block_write d 0 0 (memcpy zeros 0 sb SuperBlock.size)

-- `g_num` is the value of the static variable, 0 at the first call; the new value is returned.
unfoldable pub ext2_format : Bytes → ℕ → Disk → ℕ × Disk
unfolding fill_super_block fill_descriptor_block write_super_blocks write_tables write_groups
    clear_tables create_root
ext2_format stack g_num d =
    let (sb, d) = write_super_blocks number_of_groups 0 fill_super_block d in
    let (g_num, gd, d) = write_tables gdt_block_count 0 sb g_num (fill_descriptor_block sb) d in
    let b_bitmap = GroupDescriptor.start_block_of_block_bitmap gd in
    let i_bitmap = GroupDescriptor.start_block_of_inode_bitmap gd in
    let d = write_groups number_of_groups 0 b_bitmap used_blocks d in
    let d = block_write d 0 i_bitmap reserved_inodes in
    let d = write_groups (number_of_groups - 1) 1 i_bitmap zeros d in
    let d = clear_tables number_of_groups 0 (u32_at gd 8) d in (g_num, create_root stack sb d)
