-- ===== src/Cfs/Timeline.antt =====
-- The run queue's tree of src/fair.c, `tasks_timeline`, as a list in the order of virtual run times.
pub mod Descend
pub mod Enqueue
pub mod Pick
pub mod Dequeue
pub mod SetNext
pub mod Next
pub mod Put
use rpi_os_cfs_ext.Base.{
  ℕ, ◌+◌, ◌^◌, ◌≤◌, ◌<◌, ◌≡◌, ◌≢◌, refl, arith, Bool, true, false, ◌==◌, List, [], ◌∷◌, ◌++◌, sub64,
  count,
}
use rpi_os_cfs_ext.Base.Ordered.{head, All, IsOrdered}
use rpi_os_cfs_ext.Rbtree.Shape.{Tree, inorder, top, Focus}
use rpi_os_cfs_ext.Rbtree.Shape.Balance.{IsRedBlack}
use rpi_os_cfs_ext.Cfs.Vruntime.{IsWithin}
use rpi_os_cfs_ext.Cfs.State.{Kernel}

abbrev pub vruntime_of : Kernel → ℕ → ℕ
vruntime_of k p = (k.tasks p).se.vruntime

-- How far a task's virtual run time lies behind the base.
abbrev pub distance : Kernel → ℕ → ℕ → ℕ
distance k base p = sub64 (vruntime_of k p) base

-- The tree is a red-black tree of the tasks `xs` in order of their virtual run times, all of which
-- lie less than half the clock behind the base, and the first one is cached.
pub record IsTimeline (k : Kernel) (base : ℕ) (xs : List ℕ) : Type 0 where
  pub tree : Tree
  pub focus : Focus k.timeline top tree
  pub order : inorder tree ≡ xs
  pub red_black : IsRedBlack tree
  pub sorted : IsOrdered (distance k base) xs
  pub within : All (λ p. IsWithin base (vruntime_of k p)) xs
  pub first : k.timeline.leftmost ≡ head xs
