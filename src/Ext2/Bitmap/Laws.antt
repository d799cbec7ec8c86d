-- ===== src/Ext2/Bitmap/Laws.antt =====
-- A change of a bitmap changes one bit of one block and nothing else on the disk.
use rpi_os_cfs_ext.Base.{
  ℕ, ◌-◌, ◌*◌, ◌/◌, ◌%◌, ◌≤◌, ◌<◌, ◌≡◌, inl, inr, refl, arith, true, false, some, ◌==◌, ◌&&◌,
  if◌then◌else◌, update, Bool-cases, ap, subst, sym, ◌∙◌, ltb, sub32,
}
use rpi_os_cfs_ext.Base.Bytes.{Bytes, zeros}
use rpi_os_cfs_ext.Base.Bits.{
  bit_at, bitmap_at, set_bit, clear_bit, bit_at-set_bit, bit_at-clear_bit,
}
use rpi_os_cfs_ext.Disk.{Disk, block_read, block_write}
use rpi_os_cfs_ext.Disk.Geometry.{IsReady, IsBlock}
use rpi_os_cfs_ext.Disk.Blocks.{
  AreBytes, AreBytes-block_read, AreBytes-block_write, block_write-IsReady, block_read-block_write,
}
use rpi_os_cfs_ext.Ext2.Bitmap.{change_bit, set_bitmap, set_block_bitmap, set_inode_bitmap}
use rpi_os_cfs_ext.Ext2.Layout.{get_inode_group}

-- The byte that `change_bit` gives.
change_bit_lem :
    (number byte k : ℕ)
    → number < 2
    → byte < 256
    → k < 8
    → (v : ℕ) × (change_bit number byte k ≡ some v)
      × (v < 256)
      × ((j : ℕ) → j < 8 → bit_at v j ≡ (if j == k then number else bit_at byte j))
unfolding change_bit
change_bit_lem number byte k hn hb hk = elim (Bool-cases (number == 1)) [
  | inl e ↦ (
    set_bit byte k,
    rw e,
    (bit_at-set_bit byte k 0 hb hk (omega arith)).1,
    λ j hj. ground (arith, bit_at-set_bit byte k j hb hk hj),
  )
  | inr e ↦ (
    clear_bit byte k,
    ground arith,
    (bit_at-clear_bit byte k 0 hb hk (omega arith)).1,
    λ j hj. ground (arith, bit_at-clear_bit byte k j hb hk hj),
  )
]

bitmap_at-update :
    (b : Bytes) (n m v number : ℕ)
    → ((j : ℕ) → j < 8 → bit_at v j ≡ (if j == n % 8 then number else bit_at (b (n / 8)) j))
    → bitmap_at (update b (n / 8) v) m ≡ (if m == n then number else bitmap_at b m)
bitmap_at-update b n m v number h = ground (arith, h (m % 8) (omega arith))

-- What `set_bitmap` leaves of a disk: it is still a disk of bytes, and of the bits of all its
-- blocks exactly bit `n` of block `block` in group `group` is now `number`.
pub record OneBit (d d' : Disk) (group block n number : ℕ) : Type 0 where
  pub ready : IsReady d'
  pub bytes : AreBytes d'.address
  pub bits :
      (g b m : ℕ)
      → IsBlock g b
      → m < 8192
      → bitmap_at (block_read d' g b zeros) m ≡ (
          if ((group == g) && (block == b)) && (m == n)
          then number
          else bitmap_at (block_read d g b zeros) m)
  pub others :
      (g b a : ℕ)
      → IsBlock g b
      → a < 1024
      → ((group == g) && (block == b)) ≡ false
      → block_read d' g b zeros a ≡ block_read d g b zeros a

inode_bit :
    (inode : ℕ)
    → 0 < inode
    → inode ≤ 700
    → sub32 (if ltb 175 inode then sub32 inode (get_inode_group inode * 175) else inode) 1
      ≡ (inode - 1) % 175
inode_bit inode lo hi = ground arith

set_inode_bitmap-eq-set_bitmap :
    (d : Disk) (inode number : ℕ)
    → 0 < inode
    → inode ≤ 700
    → set_inode_bitmap d inode number
      ≡ set_bitmap d ((inode - 1) / 175) 4 ((inode - 1) % 175) number
unfolding set_inode_bitmap
set_inode_bitmap-eq-set_bitmap d inode number lo hi =
    let g : get_inode_group inode ≡ (inode - 1) / 175 = omega arith in
    ap (λ n. set_bitmap d (get_inode_group inode) 4 n number) (inode_bit inode lo hi)
    ∙ ap (λ k. set_bitmap d k 4 ((inode - 1) % 175) number) g

module _ {d : Disk} (r : IsReady d) (bytes : AreBytes d.address) where
  OneBit-block_write :
      (group block n number v : ℕ)
      → IsBlock group block
      → n < 8192
      → v < 256
      → ((j : ℕ)
          → j < 8
          → bit_at v j
            ≡ (if j == n % 8 then number else bit_at (block_read d group block zeros (n / 8)) j))
      → OneBit d
          (block_write d group block (update (block_read d group block zeros) (n / 8) v))
          group
          block
          n
          number
  OneBit-block_write group block n number v h hn hb change =
      let old = block_read d group block zeros in
      let new = update old (n / 8) v in
      record {
        ready = block_write-IsReady group block new r;
        bytes =
            AreBytes-block_write group block new r h bytes
              (λ a ha. ground (arith, AreBytes-block_read group block r h bytes a));
        bits = λ g b m hb hm. ground (
          arith,
          block_read-block_write group block g b (m / 8) new zeros r h hb (omega arith),
          bitmap_at-update old n m v number change,
        );
        others = λ g b a hb ha ne.
            ground (arith, block_read-block_write group block g b a new zeros r h hb ha);
      }

  pub set_bitmap_lem :
      (group block n number : ℕ)
      → IsBlock group block
      → n < 8192
      → number < 2
      → ((set_bitmap d group block n number).0 ≡ true)
        × OneBit d (set_bitmap d group block n number).1 group block n number
  unfolding set_bitmap
  set_bitmap_lem group block n number h hn hv =
      let old = block_read d group block zeros in
      let (v, e, hb, change) =
        change_bit_lem number (old (n / 8)) (n % 8) hv
          (AreBytes-block_read group block r h bytes (n / 8)) (omega arith) in
      rw (e, set_bitmap) (refl, OneBit-block_write group block n number v h hn hb change)

  -- `set_block_bitmap` with 0 or 1 succeeds, and of all the bits on the disk it changes exactly
  -- bit `n` of the block bitmap of the group.
  pub set_block_bitmap-OneBit :
      (group n number : ℕ)
      → group < 4
      → n < 8192
      → number < 2
      → ((set_block_bitmap d group n number).0 ≡ true)
        × OneBit d (set_block_bitmap d group n number).1 group 3 n number
  unfolding set_block_bitmap
  set_block_bitmap-OneBit group n number hg hn hv =
      set_bitmap_lem group 3 n number (omega arith) hn hv

  -- `set_inode_bitmap` with 0 or 1 succeeds on the inodes 1 to 700, and of all the bits on the
  -- disk it changes exactly the one of that inode: bit `(inode - 1) % 175` of the inode bitmap of
  -- group `(inode - 1) / 175`.
  pub set_inode_bitmap-OneBit :
      (inode number : ℕ)
      → 0 < inode
      → inode ≤ 700
      → number < 2
      → ((set_inode_bitmap d inode number).0 ≡ true)
        × OneBit d
            (set_inode_bitmap d inode number).1
            ((inode - 1) / 175)
            4
            ((inode - 1) % 175)
            number
  set_inode_bitmap-OneBit inode number lo hi hv =
      subst (λ p. (p.0 ≡ true) × OneBit d p.1 ((inode - 1) / 175) 4 ((inode - 1) % 175) number)
        (sym (set_inode_bitmap-eq-set_bitmap d inode number lo hi))
        (set_bitmap_lem ((inode - 1) / 175) 4 ((inode - 1) % 175) number (omega arith) (omega arith)
          hv)

-- With any other number both fail and change nothing.
pub set_bitmap_error :
    (d : Disk) (group inode n number : ℕ)
    → 1 < number
    → (set_block_bitmap d group n number ≡ (false, d))
      × (set_inode_bitmap d inode number ≡ (false, d))
unfolding set_block_bitmap set_inode_bitmap change_bit
set_bitmap_error d group inode n number h = (ground arith, ground arith)
