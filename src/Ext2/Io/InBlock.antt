-- ===== src/Ext2/Io/InBlock.antt =====
-- `ext2_write` and `ext2_read` of src/ext2.c within one block that the file has.
use rpi_os_cfs_ext.Base.{
  ℕ, ◌+◌, ◌*◌, ◌/◌, ◌%◌, ◌^◌, ◌≤◌, ◌<◌, ◌≡◌, ◌≢◌, ◌⊎◌, refl, ap, ◌∙◌, arith, true, false, some,
  ◌==◌, ltb, ◌&&◌, if◌then◌else◌, u32, u64, lt→ltb,
}
use rpi_os_cfs_ext.Base.Bytes.{
  Bytes, zeros, from, u32_at-cong, memcpy_inside, memcpy_first, memcpy_outside,
}
use rpi_os_cfs_ext.Disk.{block_read}
use rpi_os_cfs_ext.Disk.Geometry.{IsBlock}
use rpi_os_cfs_ext.Disk.Blocks.{block_read-block_write}
use rpi_os_cfs_ext.Ext2.Op.{Fs}
use rpi_os_cfs_ext.Ext2.Mounted.{IsMounted}
use rpi_os_cfs_ext.Ext2.SuperBlock
use rpi_os_cfs_ext.Ext2.Inode
use rpi_os_cfs_ext.Ext2.Inodes.{set_inode}
use rpi_os_cfs_ext.Ext2.Inodes.Slots.{
  IsLaidOut, get_inode-set_inode, set_inode-keeps_data, get_inode-block_write,
}
use rpi_os_cfs_ext.Ext2.FileBlocks.{get_data_block_at_inode}
use rpi_os_cfs_ext.Ext2.FileBlocks.Direct.{inode_of, get_inode_block-direct}
use rpi_os_cfs_ext.Ext2.Io.{copied, copy, append_blocks, extend_file, ext2_write, ext2_read}
use rpi_os_cfs_ext.Ext2.Io.OneBlock.{
  IsInBlock, sized, sized-size, sized-field, copied-enough, no_missing, not_below,
  set_inode-IsReady, changed, write_data-one, read-one,
}

self : (i : ℕ) → (i == i) ≡ true
self i = ground arith

different : (n g b : ℕ) → b < 30 → n ≢ g * 30 + b → ((n / 30 == g) && (n % 30 == b)) ≡ false
different n g b hb ne = ground (arith, ne)

module _ (fs : Fs) (i offset length : ℕ) (buffer : Bytes) (m : IsMounted fs)
    (h : IsInBlock fs i offset length) where
  extended : Fs
  extended = record fs {
    disk = set_inode fs.disk fs.sb i (sized (inode_of fs i) (offset + length));
  }

  last-lt : offset + length < 12288
  last-lt = omega (arith, h.present, h.few, h.within)

  extend_file-InBlock : extend_file i offset length fs ≡ (some tt, extended)
  unfolding extend_file append_blocks extended
  extend_file-InBlock =
      let last : u64 (offset + length) ≡ offset + length = omega (arith, last-lt) in
      let block : (offset + length) / 1024 % 2 ^ 32 < Inode.blocks (inode_of fs i) =
        omega (arith, last-lt, h.present, h.within) in
      rw (
        not_below (Inode.size (inode_of fs i)) offset h.inside,
        last,
        no_missing (Inode.blocks (inode_of fs i)) ((offset + length) / 1024 % 2 ^ 32)
            (u32 (offset % 1024 + length) % 1024) block,
      )

  laid_out : IsLaidOut fs.sb
  laid_out = record { per_group = m.inode_per_group; structure_size = m.inode_structure_size }

  extended-inode :
      (a : ℕ) → a < 128 → inode_of extended i a ≡ sized (inode_of fs i) (offset + length) a
  unfolding extended
  extended-inode a ha =
      get_inode-set_inode fs.sb laid_out m.ready i i a (sized (inode_of fs i) (offset + length))
        zeros h.inode h.inode ha
      ∙ rw (self i) refl

  -- The file of `g` has its blocks, and as its size the larger of the old one and the end.
  record IsExtended (g : Fs) : Type 0 where
    blocks : Inode.blocks (inode_of g i) ≡ Inode.blocks (inode_of fs i)
    number :
        Inode.block (inode_of g i) (offset / 1024) ≡ Inode.block (inode_of fs i) (offset / 1024)
    size : Inode.size (inode_of g i) ≡ (
        if ltb (Inode.size (inode_of fs i)) (offset + length)
        then offset + length
        else Inode.size (inode_of fs i))

  IsExtended-inode :
      (g : Fs)
      → ((a : ℕ) → a < 128 → inode_of g i a ≡ sized (inode_of fs i) (offset + length) a)
      → IsExtended g
  IsExtended-inode g same =
      let word = λ (o : ℕ) (ho : o + 4 ≤ 128).
        u32_at-cong (inode_of g i) (sized (inode_of fs i) (offset + length)) o
          (λ a l lt. same a (omega arith)) in
      record {
        blocks =
            word 28 (omega arith) ∙ sized-field (inode_of fs i) (offset + length) 28 (omega arith);
        number =
            word (40 + 4 * (offset / 1024)) (omega (arith, h.present, h.few))
            ∙ sized-field (inode_of fs i) (offset + length) (40 + 4 * (offset / 1024))
                (omega arith);
        size =
            word 4 (omega arith)
            ∙ sized-size (inode_of fs i) (offset + length) (omega (arith, last-lt));
      }

  -- The number that the array of block numbers has for the block.
  number_at :
      (g : Fs) (stack : ℕ → ℕ)
      → IsExtended g
      → (get_data_block_at_inode g i stack).1 (offset / 1024)
        ≡ Inode.block (inode_of fs i) (offset / 1024)
  unfolding get_data_block_at_inode
  number_at g stack e =
      rw
        (let r : ltb (offset / 1024) (Inode.blocks (inode_of g i)) ≡ true =
            lt→ltb _ _ (omega (arith, e.blocks, h.present)) in
          r)
        (get_inode_block-direct g.disk g.sb i (offset / 1024) (omega (arith, h.present, h.few))
          ∙ e.number)

  place :
      IsBlock
        (Inode.block (inode_of fs i) (offset / 1024) / 30)
        (Inode.block (inode_of fs i) (offset / 1024) % 30)
  place = record { group = omega (arith, h.on_disk); block = omega arith }

  written : Fs
  written =
      changed extended 30 (Inode.block (inode_of fs i) (offset / 1024)) (offset % 1024) buffer
        length

  ext2_write-InBlock : ext2_write i offset length buffer fs ≡ some (some tt, written)
  unfolding ext2_write written extended
  ext2_write-InBlock =
      let numbers = (get_data_block_at_inode extended i zeros).1 in
      let number = number_at extended zeros (IsExtended-inode extended extended-inode) in
      rw extend_file-InBlock (
        write_data-one extended (SuperBlock.block_per_group fs.sb) offset length numbers buffer
          h.within h.rounded
        ∙ rw (number, m.block_per_group) refl)

  written-IsExtended : IsExtended written
  unfolding written changed extended
  written-IsExtended = IsExtended-inode written λ a ha.
      let number = Inode.block (inode_of fs i) (offset / 1024) in
      get_inode-block_write fs.sb laid_out (set_inode-IsReady _ fs.sb i _ m.ready) i (number / 30)
        (number % 30) a
        (copy (block_read extended.disk (number / 30) (number % 30) zeros) (offset % 1024) buffer
          length)
        zeros h.inode h.early place h.in_data ha
      ∙ extended-inode a ha

  -- A byte of a data block after the write.
  written-byte :
      (g b a : ℕ)
      → IsBlock g b
      → 9 ≤ b
      → a < 1024
      → let number = Inode.block (inode_of fs i) (offset / 1024) in
        block_read written.disk g b zeros a ≡ (
          if (number / 30 == g) && (number % 30 == b)
          then copy
              (block_read extended.disk (number / 30) (number % 30) zeros)
              (offset % 1024)
              buffer
              length
              a
          else block_read fs.disk g b zeros a)
  unfolding written changed extended
  written-byte g b a hb late ha =
      let number = Inode.block (inode_of fs i) (offset / 1024) in
      let new =
        copy (block_read extended.disk (number / 30) (number % 30) zeros) (offset % 1024) buffer
          length in
      let x = sized (inode_of fs i) (offset + length) in
      block_read-block_write (number / 30) (number % 30) g b a new zeros
        (set_inode-IsReady fs.disk fs.sb i x m.ready) place hb ha
      ∙ ap (λ v. if (number / 30 == g) && (number % 30 == b) then new a else v)
          (set_inode-keeps_data fs.sb laid_out m.ready i g b a x h.inode h.early hb late ha)

  written-per : SuperBlock.block_per_group written.sb ≡ 30
  unfolding written changed extended
  written-per = m.block_per_group

  -- What a read of the range then gives.
  read_back :
      (out : Bytes) (stack : ℕ → ℕ)
      → (r : Bytes) × (ext2_read i offset length out stack written ≡ (some r, written))
        × ((a : ℕ) → a < length → r a ≡ buffer a)
  unfolding copy
  read_back out stack =
      let number = Inode.block (inode_of fs i) (offset / 1024) in
      let e = written-IsExtended in
      let at = number_at written stack e in
      let larger : offset ≤ Inode.size (inode_of written i) = ground (arith, e.size, h.inside) in
      (
        copy out 0
            (from (block_read written.disk (number / 30) (number % 30) zeros) (offset % 1024))
            length,
        read-one written i offset length out stack larger h.within ∙ rw (at, written-per) refl,
        λ a ha.
            let enough : a < copied length = omega (arith, copied-enough length, ha) in
            memcpy_first out
              (from (block_read written.disk (number / 30) (number % 30) zeros) (offset % 1024))
              (copied length) a enough
            ∙ written-byte (number / 30) (number % 30) (offset % 1024 + a) place h.in_data
                (omega (arith, h.within, ha))
            ∙ rw (self (number / 30), self (number % 30))
                (memcpy_inside (block_read extended.disk (number / 30) (number % 30) zeros)
                  (offset % 1024) buffer (copied length) a enough),
      )

  other_block :
      (g b a : ℕ)
      → IsBlock g b
      → 9 ≤ b
      → a < 1024
      → Inode.block (inode_of fs i) (offset / 1024) ≢ g * 30 + b
      → block_read written.disk g b zeros a ≡ block_read fs.disk g b zeros a
  other_block g b a hb late ha ne =
      let number = Inode.block (inode_of fs i) (offset / 1024) in
      let apart : ((number / 30 == g) && (number % 30 == b)) ≡ false =
        different number g b hb.block ne in
      written-byte g b a hb late ha ∙ rw apart refl

  rest_of_block :
      (a : ℕ)
      → a < 1024
      → (a < offset % 1024) ⊎ (offset % 1024 + copied length ≤ a)
      → let number = Inode.block (inode_of fs i) (offset / 1024) in
        block_read written.disk (number / 30) (number % 30) zeros a
        ≡ block_read fs.disk (number / 30) (number % 30) zeros a
  unfolding copy extended
  rest_of_block a ha out =
      let number = Inode.block (inode_of fs i) (offset / 1024) in
      let x = sized (inode_of fs i) (offset + length) in
      written-byte (number / 30) (number % 30) a place h.in_data ha
      ∙ rw (self (number / 30), self (number % 30))
          (memcpy_outside (block_read extended.disk (number / 30) (number % 30) zeros)
              (offset % 1024) buffer (copied length) a out
            ∙ set_inode-keeps_data fs.sb laid_out m.ready i (number / 30) (number % 30) a x h.inode
                h.early place h.in_data ha)

  -- On a mounted file system, for an inode from 1 to 700 that is one of the first 32 of its group
  -- and has at most 12 blocks: `ext2_write` from an offset that is at most the file's size, of bytes that lie in one
  -- block the file has, a data block of the disk, that end before the last byte of the block, and
  -- that rounded up to a multiple of eight do not pass its end, succeeds; `ext2_read` of the same
  -- range, into any buffer, then gives them back; the file's size is the larger of the old one and
  -- the end of the range; and of the data area nothing else is changed but the bytes that
  -- `memcpy` moves beyond the range to a multiple of eight.
  pub ext2_read-ext2_write :
      (fs' : Fs) × (ext2_write i offset length buffer fs ≡ some (some tt, fs'))
      × ((out : Bytes) (stack : ℕ → ℕ)
          → (r : Bytes) × (ext2_read i offset length out stack fs' ≡ (some r, fs'))
            × ((a : ℕ) → a < length → r a ≡ buffer a))
      × (Inode.size (inode_of fs' i) ≡ (
          if ltb (Inode.size (inode_of fs i)) (offset + length)
          then offset + length
          else Inode.size (inode_of fs i)))
      × ((g b a : ℕ)
          → IsBlock g b
          → 9 ≤ b
          → a < 1024
          → Inode.block (inode_of fs i) (offset / 1024) ≢ g * 30 + b
          → block_read fs'.disk g b zeros a ≡ block_read fs.disk g b zeros a)
      × ((a : ℕ)
          → a < 1024
          → (a < offset % 1024) ⊎ (offset % 1024 + copied length ≤ a)
          → let number = Inode.block (inode_of fs i) (offset / 1024) in
            block_read fs'.disk (number / 30) (number % 30) zeros a
            ≡ block_read fs.disk (number / 30) (number % 30) zeros a)
  ext2_read-ext2_write =
      (written, ext2_write-InBlock, read_back, written-IsExtended.size, other_block, rest_of_block)
