-- ===== src/Ext2/Release/Blocks.antt =====
-- `release_block` of src/ext2.c on a file whose blocks have direct pointers.
use rpi_os_cfs_ext.Base.{
  ℕ, zero, suc, ◌+◌, ◌-◌, ◌*◌, ◌/◌, ◌%◌, ◌^◌, ◌≤◌, ◌<◌, ◌≡◌, inl, inr, refl, ◌∙◌, arith, Bool, true,
  false, some, ◌==◌, ltb, ◌&&◌, ◌||◌, if◌then◌else◌, u32, sub32, update,
}
use rpi_os_cfs_ext.Base.Bytes.{Bytes, zeros, put32_outside, u32_at-put32, u32_at-cong}
use rpi_os_cfs_ext.Base.Bits.{bitmap_at}
use rpi_os_cfs_ext.Disk.{block_read}
use rpi_os_cfs_ext.Disk.Geometry.{IsReady, IsBlock}
use rpi_os_cfs_ext.Disk.Blocks.{AreBytes}
use rpi_os_cfs_ext.Ext2.Op.{Fs}
use rpi_os_cfs_ext.Ext2.Inode
use rpi_os_cfs_ext.Ext2.Mounted.{IsMounted}
use rpi_os_cfs_ext.Ext2.Bitmap.{set_block_bitmap}
use rpi_os_cfs_ext.Ext2.Bitmap.Laws.{set_block_bitmap-OneBit}
use rpi_os_cfs_ext.Ext2.Release.{free_blocks, free_level, free_levels, release_block}

-- One more block that is released.
bit_step :
    (number g b m new mid old : ℕ) (rest : Bool)
    → new ≡ (if (b == 3) && (ltb m 30 && rest) then 0 else mid)
    → mid ≡ (if ((number / 30 == g) && (3 == b)) && (m == number % 30) then 0 else old)
    → new ≡ (if (b == 3) && (ltb m 30 && ((number == g * 30 + m) || rest)) then 0 else old)
bit_step number g b m new mid old true p q = ground (arith, p, q)
bit_step number g b m new mid old false p q = ground (arith, p, q)

sum_step :
    (number g before mid after rest n : ℕ)
    → mid ≡ (if g == number / 30 then u32 (before + 1) else before)
    → before + suc n < 2 ^ 32
    → after ≡ mid + rest
    → after ≡ before + ((if number / 30 == g then 1 else 0) + rest)
sum_step number g before mid after rest n p h q = ground (arith, p, q, h)

module _ (b_num : ℕ → ℕ) (blocks : ℕ) where
  -- `x` is the number of one of the file's blocks `blocks - i` to `blocks - i - n + 1`.
  unfoldable pub is_released : ℕ → ℕ → ℕ → Bool
  is_released i zero x = false
  is_released i (suc n) x = (b_num (sub32 blocks i) == x) || is_released (i + 1) n x

  -- How many of them lie in group `g`.
  unfoldable pub released_in : ℕ → ℕ → ℕ → ℕ
  released_in i zero g = 0
  released_in i (suc n) g =
      (if b_num (sub32 blocks i) / 30 == g then 1 else 0) + released_in (i + 1) n g

  -- Of all the bits on the disk the ones of these blocks in the block bitmaps are now 0, and
  -- nothing else has changed.
  pub record Freed (i n : ℕ) (fs fs' : Fs) : Type 0 where
    pub ready : IsReady fs'.disk
    pub bytes : AreBytes fs'.disk.address
    pub sb : fs'.sb ≡ fs.sb
    pub gd : fs'.gd ≡ fs.gd
    pub bits :
        (g b m : ℕ)
        → IsBlock g b
        → m < 8192
        → bitmap_at (block_read fs'.disk g b zeros) m ≡ (
            if (b == 3) && (ltb m 30 && is_released i n (g * 30 + m))
            then 0
            else bitmap_at (block_read fs.disk g b zeros) m)
    pub others :
        (g b a : ℕ)
        → IsBlock g b
        → a < 1024
        → (b == 3) ≡ false
        → block_read fs'.disk g b zeros a ≡ block_read fs.disk g b zeros a

  free_blocks-Freed :
      (n i : ℕ) (group : ℕ → ℕ) (fs : Fs)
      → IsReady fs.disk
      → AreBytes fs.disk.address
      → 0 < i
      → i + n ≤ blocks + 1
      → blocks < 2 ^ 32
      → ((j : ℕ) → j < blocks → b_num j < 120)
      → ((g : ℕ) → group g + n < 2 ^ 32)
      → (fs' : Fs) × (group' : ℕ → ℕ) × (free_blocks 30 blocks b_num i n group fs
          ≡ (some group', fs'))
        × Freed i n fs fs'
        × ((g : ℕ) → group' g ≡ group g + released_in i n g)
  unfolding free_blocks is_released released_in
  free_blocks-Freed zero i group fs r bytes hi hn hb on_disk small = (
    fs,
    group,
    refl,
    record {
      ready = r;
      bytes = bytes;
      sb = refl;
      gd = refl;
      bits = λ g b m h hm. ground arith;
      others = λ g b a h ha e. refl;
    },
    λ g. omega arith,
  )
  free_blocks-Freed (suc n) i group fs r bytes hi hn hb on_disk small =
      let number = b_num (sub32 blocks i) in
      let inside : number < 120 = on_disk (sub32 blocks i) (omega (arith, hi, hn, hb)) in
      let one =
        (set_block_bitmap-OneBit r bytes (number / 30) (number % 30) 0 (omega (arith, inside))
          (omega arith) (omega arith)).1 in
      let d = (set_block_bitmap fs.disk (number / 30) (number % 30) 0).1 in
      let counted = update group (number / 30) (u32 (group (number / 30) + 1)) in
      let counted_lem : (g : ℕ)
          → counted g ≡ (if g == number / 30 then u32 (group g + 1) else group g) =
        λ g. ground arith in
      let (fs', group', run, freed, sums) =
        free_blocks-Freed n (i + 1) counted (record fs { disk = d }) one.ready one.bytes
          (omega arith) (omega (arith, hn)) hb on_disk (λ g. ground (arith, small g)) in
      (
        fs',
        group',
        run,
        record {
          ready = freed.ready;
          bytes = freed.bytes;
          sb = freed.sb;
          gd = freed.gd;
          bits = λ g b m h hm.
              bit_step number g b m _ _ _ (is_released (i + 1) n (g * 30 + m))
                (freed.bits g b m h hm) (one.bits g b m h hm);
          others =
              λ g b a h ha e. freed.others g b a h ha e ∙ one.others g b a h ha (ground (arith, e));
        },
        λ g.
            sum_step number g (group g) (counted g) (group' g) (released_in (i + 1) n g) n
              (counted_lem g) (small g) (sums g),
      )

  -- The inode with the pointers of these blocks set to 0.
  unfoldable cleared : ℕ → ℕ → Bytes → Bytes
  cleared i zero inode = inode
  cleared i (suc n) inode = cleared (i + 1) n (Inode.set_block inode (sub32 blocks i) 0)

  free_levels-direct :
      (n i : ℕ) (inode : Bytes) (group : ℕ → ℕ) (fs : Fs)
      → blocks ≤ 12
      → 0 < i
      → i + n ≤ blocks + 1
      → free_levels 30 blocks i n inode group fs ≡ (some (cleared i n inode, group), fs)
  unfolding free_levels free_level cleared
  free_levels-direct zero i inode group fs few hi hn = refl
  free_levels-direct (suc n) i inode group fs few hi hn =
      let direct : free_level 30 (sub32 blocks i) inode group fs
          ≡ (some (Inode.set_block inode (sub32 blocks i) 0, group), fs) =
        direct_level in
      rw direct (
        free_levels-direct n (i + 1) (Inode.set_block inode (sub32 blocks i) 0) group fs few
          (omega arith) (omega (arith, hn)))
    where
      direct_level :
          free_level 30 (sub32 blocks i) inode group fs
          ≡ (some (Inode.set_block inode (sub32 blocks i) 0, group), fs)
      direct_level =
          let j : sub32 blocks i ≡ blocks - i = omega (arith, few, hi, hn) in
          rw j (ground (arith, few, hi, hn))

  -- The fields in front of the pointers, and the pointers in front of the released ones.
  cleared-before :
      (n i : ℕ) (inode : Bytes) (a : ℕ)
      → blocks ≤ 12
      → 0 < i
      → i + n ≤ blocks + 1
      → a < 40 + 4 * (blocks + 1 - i - n)
      → cleared i n inode a ≡ inode a
  unfolding cleared
  cleared-before zero i inode a few hi hn ha = refl
  cleared-before (suc n) i inode a few hi hn ha =
      cleared-before n (i + 1) (Inode.set_block inode (sub32 blocks i) 0) a few (omega arith)
        (omega (arith, hn)) (omega (arith, ha))
      ∙ put32_outside inode (40 + 4 * sub32 blocks i) 0 a (inl (omega (arith, few, hi, hn, ha)))

  -- What is left of the inode.
  pub record Shortened (n : ℕ) (inode inode' : Bytes) : Type 0 where
    pub blocks_left : Inode.blocks inode' ≡ blocks - n
    pub pointers : (k : ℕ) → k < blocks - n → Inode.block inode' k ≡ Inode.block inode k

  cleared-Shortened :
      (n : ℕ) (inode : Bytes)
      → blocks ≤ 12
      → n ≤ blocks
      → Inode.blocks inode ≡ blocks
      → let x = cleared 1 n inode in
        Shortened n inode (Inode.set_blocks x (sub32 (Inode.blocks x) n))
  cleared-Shortened n inode few hn e =
      let x = cleared 1 n inode in
      let before = λ (a : ℕ) (ha : a < 40 + 4 * (blocks + 1 - 1 - n)).
        cleared-before n 1 inode a few (omega arith) (omega (arith, hn)) ha in
      let number : Inode.blocks x ≡ blocks =
        u32_at-cong x inode 28 (λ a l h. before a (omega arith)) ∙ e in
      record {
        blocks_left = u32_at-put32 x 28 (sub32 (Inode.blocks x) n) ∙ omega (arith, number, few, hn);
        pointers = λ k hk.
            u32_at-cong (Inode.set_blocks x (sub32 (Inode.blocks x) n)) inode (40 + 4 * k) λ a l h.
              put32_outside x 28 (sub32 (Inode.blocks x) n) a (inr (omega arith))
              ∙ before a (omega (arith, hk));
      }

  -- `release_block` of the last `n` blocks of a file of at most 12 on a mounted file system:
  -- it succeeds; of all the bits on the disk exactly those of these blocks in the block bitmaps
  -- are cleared; `group` counts them by group; and the inode has the blocks and the pointers
  -- in front of them.
  pub release_block_lem :
      (fs : Fs) (inode : Bytes) (n : ℕ)
      → IsMounted fs
      → Inode.blocks inode ≡ blocks
      → blocks ≤ 12
      → n ≤ blocks
      → ((j : ℕ) → j < blocks → b_num j < 120)
      → (fs' : Fs) × (group : ℕ → ℕ) × (inode' : Bytes) × (release_block inode b_num n (λ _. 0) fs
          ≡ (some (inode', group), fs'))
        × Freed 1 n fs fs'
        × ((g : ℕ) → group g ≡ released_in 1 n g)
        × Shortened n inode inode'
  unfolding release_block
  release_block_lem fs inode n m e few hn on_disk =
      let (fs', group, run, freed, sums) =
        free_blocks-Freed n 1 (λ _. 0) fs m.ready m.bytes (omega arith) (omega (arith, hn))
          (omega (arith, few)) on_disk λ g. omega (arith, few, hn) in
      let x = cleared 1 n inode in
      (
        fs',
        group,
        Inode.set_blocks x (sub32 (Inode.blocks x) n),
        rw
            (
              m.block_per_group,
              e,
              run,
              free_levels-direct n 1 inode group fs' few (omega arith) (omega (arith, hn)),
            )
            refl,
        freed,
        (λ g. omega (arith, sums g)),
        cleared-Shortened n inode few hn e,
      )
