-- ===== src/Ext2/Alloc/Groups.antt =====
-- The loop over the groups, by which every caller of `alloc_free_block` finds a block.
use rpi_os_cfs_ext.Base.{ℕ, ◌+◌, ◌%◌, ◌<◌, ◌≡◌, not, Option, some, ◌==◌, if◌then◌else◌}
use rpi_os_cfs_ext.Ext2.Op.{Fs, Op, pure}
use rpi_os_cfs_ext.Ext2.Alloc.{alloc_free_block, alloc_from}
use rpi_os_cfs_ext.Ext2.Alloc.Block.{IsFull, Granted}

-- The `k` groups from `start` on, round the end, are full.
abbrev pub AreFull : Fs → ℕ → ℕ → Type 0
AreFull fs start k = (j : ℕ) → j < k → IsFull fs.disk ((start + j) % 4)

-- The first group from `start` on that is not full, and the block that it gives.
pub record FoundBlock (fs : Fs) (start : ℕ) (r : Option (ℕ × ℕ) × Fs) : Type 0 where
  pub rounds : ℕ
  pub few : rounds < 4
  pub earlier : AreFull fs start rounds
  pub granted : Granted fs ((start + rounds) % 4) (alloc_free_block ((start + rounds) % 4) fs)
  pub result :
      r
      ≡ (some ((start + rounds) % 4, granted.block), (alloc_free_block ((start + rounds) % 4) fs).1)

abbrev pub Exhausted : Fs → ℕ → Option (ℕ × ℕ) × Fs → Type 0
Exhausted fs start r = (r ≡ (some (start, 0), fs)) × AreFull fs start 4

-- What follows a round: the block is taken, or the next group is tried.
after_round : ℕ → ℕ → ℕ → ℕ → Op (ℕ × ℕ)
after_round left start g b =
    let g' = (g + 1) % 4 in
    let rest = alloc_from left start g' in
    if not (b == 0) then pure (g, b) else if g' == start then pure (g', 0) else rest
