-- ===== src/Ext2/Inodes/Slots.antt =====
-- Where an inode lies, and that the inodes 1 to 700 do not overlap one another.
use rpi_os_cfs_ext.Base.{
  ℕ, ◌+◌, ◌-◌, ◌*◌, ◌/◌, ◌%◌, ◌≤◌, ◌<◌, ◌≡◌, arith, ◌==◌, ◌&&◌, if◌then◌else◌, ltb, leb, sub32,
}
use rpi_os_cfs_ext.Base.Bytes.{Bytes, zeros, memcpy}
use rpi_os_cfs_ext.Disk.{Disk, block_read, block_write}
use rpi_os_cfs_ext.Disk.Geometry.{IsReady, IsBlock}
use rpi_os_cfs_ext.Disk.Blocks.{block_read-block_write}
use rpi_os_cfs_ext.Ext2.SuperBlock
use rpi_os_cfs_ext.Ext2.Inodes.{
  inode_block, inode_slot, read_slot, write_slot, get_inode, set_inode,
}

cong₃ :
    {A B C D : Type 0} (f : A → B → C → D) {a a' : A} {b b' : B} {c c' : C}
    → a ≡ a'
    → b ≡ b'
    → c ≡ c'
    → f a b c ≡ f a' b' c'
cong₃ f p q r = cc

-- The two fields of the super block that place an inode, as `fill_super_block` sets them.
pub record IsLaidOut (sb : Bytes) : Type 0 where
  pub per_group : SuperBlock.inode_per_group sb ≡ 175
  pub structure_size : SuperBlock.inode_structure_size sb ≡ 128

abbrev pub IsInode : ℕ → Type 0
IsInode i = (0 < i) × (i ≤ 700)

group_of : ℕ → ℕ
group_of i = (i - 1) / 175

block_of : ℕ → ℕ
block_of i = 5 + (i - 1) % 175 / 8

slot_of : ℕ → ℕ
slot_of i = (i - 1) % 8

inode_block_with :
    (p s i : ℕ)
    → p ≡ 175
    → s ≡ 128
    → IsInode i
    → 1 + 2 + 1 + 1 + sub32 i 1 % p / (1024 / s) ≡ 5 + (i - 1) % 175 / 8
inode_block_with p s i ep es h = rw (ep, es) (omega arith)

inode_slot_with : (s i : ℕ) → s ≡ 128 → IsInode i → sub32 i 1 % (1024 / s) ≡ (i - 1) % 8
inode_slot_with s i es h = rw es (omega arith)

inode_group_with : (p i : ℕ) → p ≡ 175 → IsInode i → sub32 i 1 / p ≡ (i - 1) / 175
inode_group_with p i ep h = rw ep (omega arith)

module _ (sb : Bytes) (l : IsLaidOut sb) where
  inode_block_lem : (i : ℕ) → IsInode i → inode_block sb i ≡ block_of i
  unfolding inode_block block_of
  inode_block_lem i h =
      inode_block_with (SuperBlock.inode_per_group sb) (SuperBlock.inode_structure_size sb) i
        l.per_group l.structure_size h

  inode_slot_lem : (i : ℕ) → IsInode i → inode_slot sb i ≡ slot_of i
  unfolding inode_slot slot_of
  inode_slot_lem i h = inode_slot_with (SuperBlock.inode_structure_size sb) i l.structure_size h

  get_inode-eq-read_slot :
      (d : Disk) (i : ℕ) (buf : Bytes)
      → IsInode i
      → get_inode d sb i buf ≡ read_slot d buf (group_of i) (block_of i) (slot_of i)
  unfolding get_inode group_of
  get_inode-eq-read_slot d i buf h =
      cong₃ (read_slot d buf) (inode_group_with (SuperBlock.inode_per_group sb) i l.per_group h)
        (inode_block_lem i h) (inode_slot_lem i h)

  set_inode-eq-write_slot :
      (d : Disk) (i : ℕ) (buf : Bytes)
      → IsInode i
      → set_inode d sb i buf ≡ write_slot d buf (group_of i) (block_of i) (slot_of i)
  unfolding set_inode group_of
  set_inode-eq-write_slot d i buf h =
      cong₃ (write_slot d buf) (omega arith) (inode_block_lem i h) (inode_slot_lem i h)

-- Two inodes that share their group, their block and their place in it are the same.
same_place :
    (i j : ℕ)
    → IsInode i
    → IsInode j
    → ((group_of i == group_of j) && (block_of i == block_of j)) && (slot_of i == slot_of j)
      ≡ (i == j)
unfolding group_of block_of slot_of
same_place i j hi hj = ground arith

read_slot-write_slot :
    {d : Disk} (g b s g' b' s' a : ℕ) (x buf : Bytes)
    → IsReady d
    → IsBlock g b
    → IsBlock g' b'
    → s < 8
    → s' < 8
    → a < 128
    → read_slot (write_slot d x g b s) buf g' b' s' a
      ≡ (if ((g == g') && (b == b')) && (s == s') then x a else read_slot d buf g' b' s' a)
unfolding read_slot write_slot memcpy
read_slot-write_slot {d} g b s g' b' s' a x buf r h h' hs hs' ha =
    let old = block_read d g b zeros in
    ground (
      arith,
      block_read-block_write g b g' b' (s' * 128 + a) (memcpy old (s * 128) x 128) zeros r h h'
          (omega arith),
    )

IsBlock-of : (i : ℕ) → IsInode i → IsBlock (group_of i) (block_of i) × (slot_of i < 8)
unfolding group_of block_of slot_of
IsBlock-of i h = omega arith

module _ {d : Disk} (sb : Bytes) (l : IsLaidOut sb) (r : IsReady d) where
  -- After `set_inode` of inode `i` with the bytes `x`, `get_inode` of inode `j` reads `x` if `j`
  -- is `i`, and what it read before if it is another of the inodes 1 to 700.
  pub get_inode-set_inode :
      (i j a : ℕ) (x buf : Bytes)
      → IsInode i
      → IsInode j
      → a < 128
      → get_inode (set_inode d sb i x) sb j buf a ≡ (if i == j then x a else get_inode d sb j buf a)
  get_inode-set_inode i j a x buf hi hj ha =
      let pi = IsBlock-of i hi in
      let pj = IsBlock-of j hj in
      let g' = group_of j in
      let b' = block_of j in
      let s' = slot_of j in
      rw
        (
          set_inode-eq-write_slot sb l d i x hi,
          get_inode-eq-read_slot sb l d j buf hj,
          get_inode-eq-read_slot sb l (write_slot d x (group_of i) (block_of i) (slot_of i)) j buf
              hj,
        )
        (ground (
          arith,
          read_slot-write_slot (group_of i) (block_of i) (slot_of i) g' b' s' a x buf r pi.0 pj.0
              pi.1 pj.1 ha,
          same_place i j hi hj,
        ))

  content-write_slot :
      (g b s g' b' a : ℕ) (x : Bytes)
      → IsBlock g b
      → IsBlock g' b'
      → s < 8
      → a < 1024
      → block_read (write_slot d x g b s) g' b' zeros a ≡ (
          if ((g == g') && (b == b')) && (leb (s * 128) a && ltb a (s * 128 + 128))
          then x (a - s * 128)
          else block_read d g' b' zeros a)
  unfolding write_slot memcpy
  content-write_slot g b s g' b' a x h h' hs ha =
      let old = block_read d g b zeros in
      ground
        (arith, block_read-block_write g b g' b' a (memcpy old (s * 128) x 128) zeros r h h' ha)

  -- `set_inode` of one of the first 32 inodes of a group leaves every data block of the disk, the
  -- blocks from 9 on, as it was.
  pub set_inode-keeps_data :
      (i g b a : ℕ) (x : Bytes)
      → IsInode i
      → (i - 1) % 175 < 32
      → IsBlock g b
      → 9 ≤ b
      → a < 1024
      → block_read (set_inode d sb i x) g b zeros a ≡ block_read d g b zeros a
  unfolding block_of
  set_inode-keeps_data i g b a x hi early h hb ha =
      let p = IsBlock-of i hi in
      rw (set_inode-eq-write_slot sb l d i x hi) (
        ground
          (arith, content-write_slot (group_of i) (block_of i) (slot_of i) g b a x p.0 h p.1 ha))

  -- `set_inode` of any later inode of a group writes into the data area: the bytes go to data
  -- block `9 + k / 8` of the group, where `k` is how far the inode lies behind the first 32.
  pub set_inode-overruns :
      (i a : ℕ) (x : Bytes)
      → IsInode i
      → 32 ≤ (i - 1) % 175
      → a < 128
      → block_read
          (set_inode d sb i x)
          ((i - 1) / 175)
          (9 + ((i - 1) % 175 - 32) / 8)
          zeros
          ((i - 1) % 8 * 128 + a)
        ≡ x a
  unfolding group_of block_of slot_of
  set_inode-overruns i a x hi late ha =
      let p = IsBlock-of i hi in
      rw (set_inode-eq-write_slot sb l d i x hi) (
        ground (
          arith,
          content-write_slot (group_of i) (block_of i) (slot_of i) ((i - 1) / 175)
              (9 + ((i - 1) % 175 - 32) / 8) ((i - 1) % 8 * 128 + a) x p.0 (omega arith) p.1
              (omega arith),
        ))

  -- A write of a data block leaves the first 32 inodes of every group as they were.
  pub get_inode-block_write :
      (i g b a : ℕ) (src buf : Bytes)
      → IsInode i
      → (i - 1) % 175 < 32
      → IsBlock g b
      → 9 ≤ b
      → a < 128
      → get_inode (block_write d g b src) sb i buf a ≡ get_inode d sb i buf a
  unfolding read_slot memcpy block_of
  get_inode-block_write i g b a src buf hi early h hb ha =
      let p = IsBlock-of i hi in
      rw
        (
          get_inode-eq-read_slot sb l d i buf hi,
          get_inode-eq-read_slot sb l (block_write d g b src) i buf hi,
        )
        (ground (
          arith,
          block_read-block_write g b (group_of i) (block_of i) (slot_of i * 128 + a) src zeros r h
              p.0 (omega arith),
        ))
