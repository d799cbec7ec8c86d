-- ===== src/Ext2/FileBlocks/Direct.antt =====
-- `set_inode_block` on a file that has a free direct pointer.
use rpi_os_cfs_ext.Base.{
  ℕ, ◌+◌, ◌*◌, ◌^◌, ◌≤◌, ◌<◌, ◌≡◌, ◌≢◌, arith, true, some, ◌==◌, ltb, if◌then◌else◌, u32, bit_and,
  ◌∙◌, sym,
}
use rpi_os_cfs_ext.Base.Bytes.{Bytes, zeros, u32_at, put32, u32_at-put32, u32_at-cong}
use rpi_os_cfs_ext.Disk.{Disk}
use rpi_os_cfs_ext.Ext2.Op.{Fs}
use rpi_os_cfs_ext.Ext2.Mounted.{IsMounted}
use rpi_os_cfs_ext.Ext2.Inode
use rpi_os_cfs_ext.Ext2.DirEntry
use rpi_os_cfs_ext.Ext2.Inodes.{get_inode, set_inode}
use rpi_os_cfs_ext.Ext2.Inodes.Slots.{IsLaidOut, IsInode, get_inode-set_inode}
use rpi_os_cfs_ext.Ext2.FileBlocks.{get_inode_block, grow_inode, set_inode_block}

-- Inode `i` as the file system reads it.
abbrev pub inode_of : Fs → ℕ → Bytes
inode_of fs i = get_inode fs.disk fs.sb i zeros

-- The inode with one more block, which has the number `b`.
grown : Bytes → ℕ → Bytes
grown inode b =
    let inode = Inode.set_block inode (Inode.blocks inode) b in
    let inode = Inode.set_blocks inode (u32 (Inode.blocks inode + 1)) in
    if bit_and (Inode.mode inode) 0x4000 == 0
    then inode
    else Inode.set_size inode (u32 (Inode.size inode + DirEntry.size))

abbrev after : Fs → ℕ → ℕ → Fs
after fs i b = record fs { disk = set_inode fs.disk fs.sb i (grown (inode_of fs i) b) }

set_inode_block-direct :
    (fs : Fs) (i b : ℕ)
    → ltb (Inode.blocks (inode_of fs i)) 12 ≡ true
    → set_inode_block i b fs ≡ (some tt, after fs i b)
unfolding set_inode_block grow_inode grown
set_inode_block-direct fs i b few = rw few

pub get_inode_block-direct :
    (d : Disk) (sb : Bytes) (i k : ℕ)
    → k < 12
    → get_inode_block d sb i k ≡ Inode.block (get_inode d sb i zeros) k
unfolding get_inode_block
get_inode_block-direct d sb i k h = ground arith

grown-blocks :
    (x : Bytes) (b : ℕ) → Inode.blocks x < 12 → Inode.blocks (grown x b) ≡ Inode.blocks x + 1
unfolding grown put32
grown-blocks x b few = ground arith

grown-tail : (x : Bytes) (b a : ℕ) → 40 ≤ a → grown x b a ≡ put32 x (40 + 4 * Inode.blocks x) b a
unfolding grown put32
grown-tail x b a h = ground arith

grown-block : (x : Bytes) (b : ℕ) → b < 2 ^ 32 → Inode.block (grown x b) (Inode.blocks x) ≡ b
grown-block x b hb =
    let o = 40 + 4 * Inode.blocks x in
    u32_at-cong (grown x b) (put32 x o b) o (λ a l h. grown-tail x b a (omega arith))
    ∙ u32_at-put32 x o b
    ∙ omega arith

grown-others :
    (x : Bytes) (b k : ℕ) → k < Inode.blocks x → Inode.block (grown x b) k ≡ Inode.block x k
unfolding grown put32
grown-others x b k hk = ground arith

module _ (fs : Fs) (i b : ℕ) (m : IsMounted fs) (h : IsInode i) where
  laid_out : IsLaidOut fs.sb
  laid_out = record { per_group = m.inode_per_group; structure_size = m.inode_structure_size }

  same_byte : (a : ℕ) → a < 128 → inode_of (after fs i b) i a ≡ grown (inode_of fs i) b a
  same_byte a ha = ground (
    arith,
    get_inode-set_inode fs.sb laid_out m.ready i i a (grown (inode_of fs i) b) zeros h h ha,
  )

  same_word :
      (o : ℕ)
      → o + 4 ≤ 128
      → u32_at (inode_of (after fs i b) i) o ≡ u32_at (grown (inode_of fs i) b) o
  same_word o ho =
      u32_at-cong (inode_of (after fs i b) i) (grown (inode_of fs i) b) o
        λ a l h. same_byte a (omega arith)

  get_inode_block-after :
      (k : ℕ)
      → k < 12
      → get_inode_block (after fs i b).disk fs.sb i k ≡ Inode.block (grown (inode_of fs i) b) k
  get_inode_block-after k hk =
      get_inode_block-direct (after fs i b).disk fs.sb i k hk ∙ same_word (40 + 4 * k) (omega arith)

  -- For a file of fewer than 12 blocks on a mounted file system, `set_inode_block` succeeds. The
  -- file then has one block more, whose number `get_inode_block` reads back; the numbers of its
  -- other blocks are as before, and so is every other of the inodes 1 to 700.
  pub set_inode_block-get_inode_block :
      Inode.blocks (inode_of fs i) < 12
      → b < 2 ^ 32
      → (fs' : Fs) × (set_inode_block i b fs ≡ (some tt, fs'))
        × (Inode.blocks (inode_of fs' i) ≡ Inode.blocks (inode_of fs i) + 1)
        × (get_inode_block fs'.disk fs'.sb i (Inode.blocks (inode_of fs i)) ≡ b)
        × ((k : ℕ)
            → k < Inode.blocks (inode_of fs i)
            → get_inode_block fs'.disk fs'.sb i k ≡ get_inode_block fs.disk fs.sb i k)
        × ((j a : ℕ) → IsInode j → i ≢ j → a < 128 → inode_of fs' j a ≡ inode_of fs j a)
  set_inode_block-get_inode_block few hb =
      let x = inode_of fs i in
      (
        after fs i b,
        set_inode_block-direct fs i b (ground arith),
        same_word 28 (omega arith) ∙ grown-blocks x b few,
        get_inode_block-after (Inode.blocks x) few ∙ grown-block x b hb,
        (λ k hk.
            get_inode_block-after k (omega arith)
            ∙ grown-others x b k hk
            ∙ sym (get_inode_block-direct fs.disk fs.sb i k (omega arith))),
        (λ j a hj ne ha.
            ground
              (arith, get_inode-set_inode fs.sb laid_out m.ready i j a (grown x b) zeros h hj ha)),
      )
