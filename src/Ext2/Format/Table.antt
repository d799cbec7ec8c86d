-- ===== src/Ext2/Format/Table.antt =====
-- The group descriptor table through the writes of `ext2_format` that follow it.
use rpi_os_cfs_ext.Base.{
  ℕ, zero, suc, ◌+◌, ◌-◌, ◌*◌, ◌≤◌, ◌<◌, ◌≡◌, ◌⊎◌, inl, inr, refl, arith, false, ◌&&◌, ◌==◌, ◌∙◌,
}
use rpi_os_cfs_ext.Base.Bytes.{
  Bytes, zeros, memcpy, put8, put16, put32, put32_outside, memcpy_first, memcpy_outside,
}
use rpi_os_cfs_ext.Disk.{Disk, block_write}
use rpi_os_cfs_ext.Disk.Geometry.{IsReady, IsBlock}
use rpi_os_cfs_ext.Disk.Blocks.{
  AreBytes, AreBytes-block_write, block_write-IsReady, block_read-block_write,
}
use rpi_os_cfs_ext.Ext2.Alloc.Block.{content}
use rpi_os_cfs_ext.Ext2.Format.{
  write_super_blocks, write_groups, clear_tables, fill_descriptor_block, fill_table, adjust,
  write_tables,
}

pub AreBytes-put8 : (b : Bytes) (o v : ℕ) → AreBytes b → AreBytes (put8 b o v)
unfolding put8
AreBytes-put8 b o v h a = ground (arith, h a)

pub AreBytes-put16 : (b : Bytes) (o v : ℕ) → AreBytes b → AreBytes (put16 b o v)
unfolding put16
AreBytes-put16 b o v h a = ground (arith, h a)

pub AreBytes-put32 : (b : Bytes) (o v : ℕ) → AreBytes b → AreBytes (put32 b o v)
unfolding put32
AreBytes-put32 b o v h a = ground (arith, h a)

pub AreBytes-memcpy :
    (b : Bytes) (o : ℕ) (s : Bytes) (n : ℕ) → AreBytes b → AreBytes s → AreBytes (memcpy b o s n)
unfolding memcpy
AreBytes-memcpy b o s n h h' a = ground (arith, h a, h' (a - o))

pub AreBytes-zeros : AreBytes zeros
AreBytes-zeros a = omega arith

-- A disk of bytes in the shape that `disksim_init` gives it.
pub record IsSound (d : Disk) : Type 0 where
  pub ready : IsReady d
  pub bytes : AreBytes d.address

pub IsSound-block_write :
    {d : Disk} (g b : ℕ) (src : Bytes)
    → IsSound d
    → IsBlock g b
    → AreBytes src
    → IsSound (block_write d g b src)
IsSound-block_write {d} g b src s h hs = record {
  ready = block_write-IsReady g b src s.ready;
  bytes = AreBytes-block_write g b src s.ready h s.bytes (λ a _. hs a);
}

-- What the first two fields of the table's first descriptor hold.
abbrev pub start : Bytes
start = put32 (put32 zeros 0 3) 4 4

-- The table on the disk begins with those two fields.
pub record HasTable (d : Disk) : Type 0 where
  pub sound : IsSound d
  pub table : (a : ℕ) → a < 8 → content d 0 1 a ≡ start a

pub HasTable-block_write :
    {d : Disk} (g b : ℕ) (src : Bytes)
    → HasTable d
    → IsBlock g b
    → AreBytes src
    → ((g == 0) && (b == 1)) ≡ false
    → HasTable (block_write d g b src)
HasTable-block_write {d} g b src t h hs ne = record {
  sound = IsSound-block_write g b src t.sound h hs;
  table = λ a ha. ground (
    arith,
    block_read-block_write g b 0 1 a src zeros t.sound.ready h (omega arith) (omega arith),
    t.table a ha,
  );
}

pub HasTable-write_groups :
    (left g b : ℕ) (src : Bytes) {d : Disk}
    → HasTable d
    → g + left ≤ 4
    → (0 < g) ⊎ (1 < b)
    → b < 30
    → AreBytes src
    → HasTable (write_groups left g b src d)
unfolding write_groups
HasTable-write_groups zero g b src t h lo hi hs = t
HasTable-write_groups (suc left) g b src t h lo hi hs =
    HasTable-write_groups left (g + 1) b src
      (HasTable-block_write g b src t (omega arith) hs (ground arith)) (omega arith) (ground arith)
      hi hs

pub HasTable-clear_tables :
    (left g b : ℕ) {d : Disk}
    → HasTable d
    → g + left ≤ 4
    → 1 < b
    → b < 27
    → HasTable (clear_tables left g b d)
unfolding clear_tables
HasTable-clear_tables zero g b t h lo hi = t
HasTable-clear_tables (suc left) g b t h lo hi =
    let t = HasTable-block_write g b zeros t (omega arith) AreBytes-zeros (ground arith) in
    let t = HasTable-block_write g (b + 1) zeros t (omega arith) AreBytes-zeros (ground arith) in
    let t = HasTable-block_write g (b + 2) zeros t (omega arith) AreBytes-zeros (ground arith) in
    let t = HasTable-block_write g (b + 3) zeros t (omega arith) AreBytes-zeros (ground arith) in
    HasTable-clear_tables left (g + 1) b t (omega arith) lo hi

pub IsSound-write_super_blocks :
    (left g : ℕ) (sb : Bytes) {d : Disk}
    → IsSound d
    → g + left ≤ 4
    → AreBytes sb
    → IsSound (write_super_blocks left g sb d).1
unfolding write_super_blocks
IsSound-write_super_blocks zero g sb s h hs = s
IsSound-write_super_blocks (suc left) g sb s h hs =
    IsSound-write_super_blocks left (g + 1) (put16 sb 64 g)
      (IsSound-block_write g 0 (memcpy zeros 0 sb 86) s (omega arith)
        (AreBytes-memcpy zeros 0 sb 86 AreBytes-zeros hs))
      (omega arith) (AreBytes-put16 sb 64 g hs)

AreBytes-adjust : (sb : Bytes) (g : ℕ) (gd : Bytes) → AreBytes gd → AreBytes (adjust sb g gd)
unfolding adjust put32
AreBytes-adjust sb g gd h a = ground (arith, h a)

pub fill_table-AreBytes :
    (left i : ℕ) (sb : Bytes) (g : ℕ) (gd block : Bytes)
    → AreBytes gd
    → AreBytes block
    → AreBytes (fill_table left i sb g gd block).2
unfolding fill_table
fill_table-AreBytes zero i sb g gd block h h' = h'
fill_table-AreBytes (suc left) i sb g gd block h h' =
    let gd' = adjust sb g gd in
    let block' = memcpy block (g * 32) gd' 32 in
    let hg = AreBytes-adjust sb g gd h in
    λ a. ground (
      arith,
      h' a,
      fill_table-AreBytes left i sb (g + 1) gd' block' hg
          (AreBytes-memcpy block (g * 32) gd' 32 h' hg) a,
    )

-- The first block of the table, as it is written.
pub first_table : Bytes → Bytes
first_table sb = (fill_table 4 0 sb 0 (fill_descriptor_block sb) zeros).2

-- The descriptors of the later groups go behind the first.
fill_table-later :
    (left i : ℕ) (sb : Bytes) (g : ℕ) (gd block : Bytes) (a : ℕ)
    → 0 < g
    → a < 32
    → (fill_table left i sb g gd block).2 a ≡ block a
unfolding fill_table
fill_table-later zero i sb g gd block a h ha = refl
fill_table-later (suc left) i sb g gd block a h ha =
    let gd' = adjust sb g gd in
    let block' = memcpy block (g * 32) gd' 32 in
    ground (
      arith,
      fill_table-later left i sb (g + 1) gd' block' a (omega arith) ha,
      memcpy_outside block (g * 32) gd' 32 a (inl (omega arith)),
    )

descriptor-start : (sb : Bytes) (a : ℕ) → a < 8 → fill_descriptor_block sb a ≡ start a
unfolding fill_descriptor_block
descriptor-start sb a h =
    put32_outside _ 16 _ a (inl (omega arith))
    ∙ put32_outside _ 12 _ a (inl (omega arith))
    ∙ put32_outside _ 8 _ a (inl (omega arith))

first_table-start : (sb : Bytes) (a : ℕ) → a < 8 → first_table sb a ≡ start a
unfolding first_table fill_table adjust
first_table-start sb a h =
    let gd = fill_descriptor_block sb in
    fill_table-later 3 0 sb 1 gd (memcpy zeros 0 gd 32) a (omega arith) (omega arith)
    ∙ memcpy_first zeros gd 32 a (omega arith)
    ∙ descriptor-start sb a h

AreBytes-fill_descriptor_block : (sb : Bytes) → AreBytes (fill_descriptor_block sb)
unfolding fill_descriptor_block put32
AreBytes-fill_descriptor_block sb a = ground arith

pub AreBytes-first_table : (sb : Bytes) → AreBytes (first_table sb)
unfolding first_table
AreBytes-first_table sb =
    fill_table-AreBytes 4 0 sb 0 (fill_descriptor_block sb) zeros
      (AreBytes-fill_descriptor_block sb) AreBytes-zeros

-- Writing the first block of the table to group 0 puts the two fields there.
HasTable-first : (sb : Bytes) {d : Disk} → IsSound d → HasTable (block_write d 0 1 (first_table sb))
HasTable-first sb {d} s = record {
  sound = IsSound-block_write 0 1 (first_table sb) s (omega arith) (AreBytes-first_table sb);
  table = λ a ha. ground (
    arith,
    block_read-block_write 0 1 0 1 a (first_table sb) zeros s.ready (omega arith) (omega arith),
    first_table-start sb a ha,
  );
}

pub HasTable-write_tables :
    (sb : Bytes) {d : Disk}
    → IsSound d
    → HasTable (write_tables 2 0 sb 0 (fill_descriptor_block sb) d).2
unfolding write_tables fill_table write_groups first_table
HasTable-write_tables sb s =
    HasTable-write_groups 4 0 2 zeros
      (HasTable-write_groups 3 1 1 (first_table sb) (HasTable-first sb s) (omega arith)
        (inl (omega arith)) (omega arith) (AreBytes-first_table sb))
      (omega arith) (inr (omega arith)) (omega arith) AreBytes-zeros
