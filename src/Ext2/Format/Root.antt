-- ===== src/Ext2/Format/Root.antt =====
-- The group descriptor table and the super block to the end of `ext2_format`.
use rpi_os_cfs_ext.Base.{ℕ, ◌+◌, ◌-◌, ◌%◌, ◌^◌, ◌<◌, ◌≡◌, inl, inr, refl, arith, ◌∙◌}
use rpi_os_cfs_ext.Base.Bytes.{
  Bytes, zeros, memcpy, put8, put16, put32, u32_at, put16_outside, put32_outside,
}
use rpi_os_cfs_ext.Disk.{Disk, block_read, block_write}
use rpi_os_cfs_ext.Disk.Blocks.{AreBytes, AreBytes-block_read, block_read-block_write}
use rpi_os_cfs_ext.Ext2.Alloc.Block.{content}
use rpi_os_cfs_ext.Ext2.Bitmap.{set_block_bitmap, set_inode_bitmap}
use rpi_os_cfs_ext.Ext2.Bitmap.Laws.{OneBit, set_block_bitmap-OneBit, set_inode_bitmap-OneBit}
use rpi_os_cfs_ext.Ext2.Inodes.{inode_block, inode_slot, write_slot, set_inode}
use rpi_os_cfs_ext.Ext2.Format.{
  fill_super_block, fill_descriptor_block, write_super_blocks, write_groups, write_tables,
  fill_table, adjust, clear_tables, used_blocks, reserved_inodes, root_entries, root_inode,
  create_root, ext2_format,
}
use rpi_os_cfs_ext.Ext2.Format.Table.{
  IsSound, HasTable, AreBytes-put8, AreBytes-put16, AreBytes-put32, AreBytes-memcpy, AreBytes-zeros,
  IsSound-block_write, HasTable-block_write, HasTable-write_groups, HasTable-clear_tables,
  HasTable-write_tables, IsSound-write_super_blocks,
}

-- A change of a bit of a bitmap leaves the table.
HasTable-OneBit :
    {d d' : Disk} (b n v : ℕ) → HasTable d → OneBit d d' 0 b n v → 1 < b → b < 30 → HasTable d'
HasTable-OneBit b n v t one lo hi = record {
  sound = record { ready = one.ready; bytes = one.bytes };
  table = λ a ha. one.others 0 1 a (omega arith) (omega arith) (ground arith) ∙ t.table a ha;
}

-- The super block in memory after the loop that writes it to the groups.
abbrev pub final_sb : Bytes
final_sb = put16 (put16 (put16 (put16 fill_super_block 64 0) 64 1) 64 2) 64 3

AreBytes-fill_super_block : AreBytes fill_super_block
unfolding fill_super_block
AreBytes-fill_super_block = AreBytes-put8 _ _ _ (
    AreBytes-put8 _ _ _ (
      AreBytes-put8 _ _ _ (
        AreBytes-put8 _ _ _ (
          AreBytes-put8 _ _ _ (
            AreBytes-put8 _ _ _ (
              AreBytes-put8 _ _ _ (
                AreBytes-put8 _ _ _ (
                  AreBytes-put32 _ _ _ (
                    AreBytes-put16 _ _ _ (
                      AreBytes-put16 _ _ _ (
                        AreBytes-put32 _ _ _ (
                          AreBytes-put16 _ _ _ (
                            AreBytes-put16 _ _ _ (
                              AreBytes-put32 _ _ _ (
                                AreBytes-put32 _ _ _ (
                                  AreBytes-put32 _ _ _ (
                                    AreBytes-put32 _ _ _ (
                                      AreBytes-put32 _ _ _
                                        (AreBytes-put32 _ _ _ AreBytes-zeros)))))))))))))))))))

AreBytes-final_sb : AreBytes final_sb
AreBytes-final_sb =
    AreBytes-put16 _ _ _
      (AreBytes-put16 _ _ _ (AreBytes-put16 _ _ _ (AreBytes-put16 _ _ _ AreBytes-fill_super_block)))

AreBytes-root_inode : (stack sb : Bytes) → AreBytes stack → AreBytes (root_inode stack sb)
unfolding root_inode
AreBytes-root_inode stack sb h = AreBytes-put16 _ _ _ (
    AreBytes-put32 _ _ _ (
      AreBytes-put32 _ _ _ (
        AreBytes-put16 _ _ _
          (AreBytes-put32 _ _ _ (AreBytes-put16 _ _ _ (AreBytes-put16 _ _ _ h))))))

AreBytes-root_entries : AreBytes root_entries
AreBytes-root_entries = AreBytes-put32 _ _ _ (
    AreBytes-put8 _ _ _ (
      AreBytes-put8 _ _ _ (
        AreBytes-put32 _ _ _
          (AreBytes-put32 _ _ _ (AreBytes-put8 _ _ _ (AreBytes-put32 _ _ _ AreBytes-zeros))))))

-- The steps of `create_root`, with the numbers that the super block gives.
root_block : Disk → Disk
root_block d = (set_block_bitmap (block_write d 0 9 root_entries) 0 9 1).1

root_written : Bytes → Disk → Disk
root_written inode d = (set_inode_bitmap (write_slot d inode 0 5 1) 2 1).1

root_counted : Disk → Disk
root_counted d =
    let table = block_read d 0 1 zeros in
    block_write d 0 1 (put16 (put32 table 12 ((u32_at table 12 + 2 ^ 32 - 1) % 2 ^ 32)) 20 1)

create_root-steps :
    (stack : Bytes) (d : Disk)
    → create_root stack final_sb d
      ≡ block_write
          (root_counted (root_written (root_inode stack final_sb) (root_block d)))
          0
          0
          (memcpy zeros 0 final_sb 86)
unfolding create_root set_inode inode_block inode_slot root_counted root_written root_block
    fill_super_block put8 put16 put32
create_root-steps stack d = refl

HasTable-root_block : (d : Disk) → HasTable d → HasTable (root_block d)
unfolding root_block
HasTable-root_block d t =
    let t = HasTable-block_write 0 9 root_entries t (omega arith) AreBytes-root_entries refl in
    HasTable-OneBit 3 9 1 t
      (set_block_bitmap-OneBit t.sound.ready t.sound.bytes 0 9 1 (omega arith) (omega arith)
        (omega arith)).1
      (omega arith) (omega arith)

HasTable-root_written :
    (inode : Bytes) (d : Disk) → AreBytes inode → HasTable d → HasTable (root_written inode d)
unfolding root_written write_slot
HasTable-root_written inode d h t =
    let old = block_read d 0 5 zeros in
    let t =
      HasTable-block_write 0 5 (memcpy old 128 inode 128) t (omega arith)
        (AreBytes-memcpy old 128 inode 128
          (AreBytes-block_read 0 5 t.sound.ready (omega arith) t.sound.bytes) h)
        refl in
    HasTable-OneBit 4 1 1 t
      (set_inode_bitmap-OneBit t.sound.ready t.sound.bytes 2 1 (omega arith) (omega arith)
        (omega arith)).1
      (omega arith) (omega arith)

HasTable-root_counted : (d : Disk) → HasTable d → HasTable (root_counted d)
unfolding root_counted
HasTable-root_counted d t =
    let old = block_read d 0 1 zeros in
    let v = (u32_at old 12 + 2 ^ 32 - 1) % 2 ^ 32 in
    let new = put16 (put32 old 12 v) 20 1 in
    let bytes = AreBytes-block_read 0 1 t.sound.ready (omega arith) t.sound.bytes in
    record {
      sound =
          IsSound-block_write 0 1 new t.sound (omega arith)
            (AreBytes-put16 (put32 old 12 v) 20 1 (AreBytes-put32 old 12 v bytes));
      table = λ a ha. ground (
        arith,
        block_read-block_write 0 1 0 1 a new zeros t.sound.ready (omega arith) (omega arith),
        put16_outside (put32 old 12 v) 20 1 a (inl (omega arith)),
        put32_outside old 12 v a (inl (omega arith)),
        t.table a ha,
      );
    }

-- A disk of which the table and the super block in group 0 are those of `ext2_format`.
pub record IsFormatted (d : Disk) : Type 0 where
  pub has_table : HasTable d
  pub super : (a : ℕ) → a < 1024 → content d 0 0 a ≡ memcpy zeros 0 final_sb 86 a

IsFormatted-create_root :
    (stack : Bytes) (d : Disk)
    → AreBytes stack
    → HasTable d
    → IsFormatted (create_root stack final_sb d)
IsFormatted-create_root stack d h t =
    let inode = root_inode stack final_sb in
    let t = HasTable-root_block d t in
    let t = HasTable-root_written inode (root_block d) (AreBytes-root_inode stack final_sb h) t in
    let t = HasTable-root_counted (root_written inode (root_block d)) t in
    let block = memcpy zeros 0 final_sb 86 in
    rw (create_root-steps stack d) (record {
      has_table =
          HasTable-block_write 0 0 block t (omega arith)
            (AreBytes-memcpy zeros 0 final_sb 86 AreBytes-zeros AreBytes-final_sb) refl;
      super = λ a ha. ground (
        arith,
        block_read-block_write 0 0 0 0 a block zeros t.sound.ready (omega arith) (omega arith) ha,
      );
    })

AreBytes-used_blocks : AreBytes used_blocks
AreBytes-used_blocks a = ground arith

-- The disk before `create_root`.
before_root : Disk → Disk
before_root d =
    let d = (write_super_blocks 4 0 fill_super_block d).1 in
    let d = (write_tables 2 0 final_sb 0 (fill_descriptor_block final_sb) d).2 in
    let d = block_write (write_groups 4 0 3 used_blocks d) 0 4 reserved_inodes in
    clear_tables 4 0 5 (write_groups 3 1 4 zeros d)

ext2_format-steps :
    (stack : Bytes) (d : Disk)
    → (ext2_format stack 0 d).1 ≡ create_root stack final_sb (before_root d)
unfolding ext2_format before_root write_super_blocks write_tables fill_table adjust
    fill_descriptor_block put32
ext2_format-steps stack d = refl

HasTable-before_root : (d : Disk) → IsSound d → HasTable (before_root d)
unfolding before_root
HasTable-before_root d s =
    let s =
      IsSound-write_super_blocks 4 0 fill_super_block s (omega arith) AreBytes-fill_super_block in
    let t = HasTable-write_tables final_sb s in
    let t =
      HasTable-write_groups 4 0 3 used_blocks t (omega arith) (inr (omega arith)) (omega arith)
        AreBytes-used_blocks in
    let t =
      HasTable-block_write 0 4 reserved_inodes t (omega arith)
        (AreBytes-put8 _ _ _ (AreBytes-put8 _ _ _ AreBytes-zeros)) refl in
    let t =
      HasTable-write_groups 3 1 4 zeros t (omega arith) (inr (omega arith)) (omega arith)
        AreBytes-zeros in
    HasTable-clear_tables 4 0 5 t (omega arith) (omega arith) (omega arith)

pub ext2_format-IsFormatted :
    (stack : Bytes) (d : Disk) → AreBytes stack → IsSound d → IsFormatted (ext2_format stack 0 d).1
ext2_format-IsFormatted stack d h s =
    rw (ext2_format-steps stack d)
      (IsFormatted-create_root stack (before_root d) h (HasTable-before_root d s))
