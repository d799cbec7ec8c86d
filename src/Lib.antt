-- ===== src/Lib.antt =====
-- Verification of rpi-os-cfs-ext2: a small kernel for the Raspberry Pi with a completely fair
-- scheduler and an ext2-like file system on a disk in memory.
--
-- The parts and their files:
--   * Base: shared notation. Base/Tests the Boolean tests, Base/Words wrapping machine words,
--     Base/Bytes memory as a function from offsets to bytes and little-endian fields, Base/Bits
--     bits of bytes, Base/Fault a state monad in which `none` is an access through a null or
--     dangling pointer, Base/Flags `|` with a flag, Base/Ordered ordered lists.
--   * Str models src/string.c: strcmp, strlen, strcpy, atoi and isspace.
--   * Disk models src/disksim.c and the sector and block layer of src/ext2.c: `Disk` is
--     DISK_OPERATIONS with its memory, `block_read` and `block_write` the functions of the same
--     names.
--   * Ext2 models src/ext2.c on top of Disk. Ext2/Layout has the constants of include/ext2.h;
--     Ext2/SuperBlock, Ext2/GroupDescriptor, Ext2/Inode and Ext2/DirEntry the packed structures,
--     which are buffers with a getter and a setter per field; Ext2/Op the mounted file system and
--     operations that may return EXT2_ERROR, after which what they wrote stays written;
--     Ext2/Bitmap, Ext2/Inodes and Ext2/Alloc the bitmaps, the inode table and the allocation of
--     blocks and inodes; Ext2/FileBlocks the direct and indirect blocks of a file; Ext2/Dir
--     mounting, lookup, listing, chmod and the insertion of entries; Ext2/Create files and
--     directories; Ext2/Format the formatting of a disk; Ext2/Io reading and writing files;
--     Ext2/Release the release of blocks, inodes and directory entries.
--   * Rbtree models src/rbtree.c and include/rbtree.h: a store of nodes with parent and colour in
--     one word. The source writes each case of a rotation twice, mirrored; here it is written once
--     over a `Side`. Rbtree/Shape has the tree that a store holds and the path to a hole in it,
--     Rbtree/Shape/Writes and Rbtree/Shape/Graft what the writes do to them, Rbtree/Shape/Balance
--     the colours, Rbtree/Shape/Hole a new node; Rbtree/Insert/Recolor, Turn and Rotate the three
--     cases of an insertion, Rbtree/Insert/Cases, Round, Ends and Loop the whole of it. For a
--     removal, Rbtree/Erase/Pivot is the node whose sides differ, Rotations, Nephew and Push the
--     cases of the rebalancing, Settle, Round, Black and Loop the loop, Unlink the node taken out
--     where it has no left child, and Rbtree/Erase/First the first node and the one after it. Of
--     nodes with a left child the removal is modelled and nothing is proved.
--   * Cfs models src/fair.c, src/sched.c and the part of include/sched.h that they use. Cfs/Load is
--     the arithmetic of load weights, Cfs/Vruntime the comparisons of virtual run times, Cfs/State
--     the tasks and the run queue, Cfs/Queue the operations on the queue, Cfs/Slice the time
--     slices, Cfs/Tick the tick and the fork, Cfs/Schedule initialisation and switching.
--     Cfs/Timeline is the tree of the queue as a list in order, Cfs/Timeline/Descend and
--     Cfs/Timeline/Enqueue the insertion of a task, Cfs/Timeline/Dequeue the removal of the first
--     one, Cfs/Timeline/Pick the choice of the next one, Cfs/Timeline/Put the running task put
--     back, Cfs/Timeline/SetNext the next one started, and Cfs/Timeline/Next the whole turn of
--     `pick_next_task_fair`.
--   * Mm models src/mm.c, `memzero` and `memcpy` of src/mm.S and the pages that `exit_process` of
--     src/sched.c gives back. `Memory` holds `mem_map`, the words of the physical memory and the
--     `mm` of each task. Mm/Pages is what the allocator does, Mm/Ledger who holds which page in its
--     runs, Mm/Refine the allocator against a set of free pages. Mm/Tables has the page tables and
--     their callers; Mm/Tables/Walk one table, Mm/Tables/Descend the levels below the directory,
--     Mm/Tables/Translate the whole of `map_page` against the walk of the processor,
--     Mm/Tables/Fault data aborts and Mm/Tables/Exit the exit after `map_page`.
--   * Shell models src/entrylist.c and src/ext2_shell.c, the file operations of the shell.
--     Shell/List is the list of entries as linked items, Shell/List/Contents what it holds,
--     Shell/List/Add and Shell/List/Swap what its operations do; Shell/Sort the three sorts,
--     Shell/Sort/Bubble the sort on lists of addresses and Shell/Sort/Refine the linked items
--     sorted; Shell/Files the file operations and Shell/Listing mounting and what is printed;
--     Shell/Modes the letters of a mode. Shell/Line and Shell/Commands model src/shell.c, the words
--     of a command line and the commands, Shell/Commands/Contents those on files,
--     Shell/Commands/Directories those on directories; Shell/Line/Words is what the words of a line
--     are.
--   * Tests has runs of the definitions and the theorems at concrete inputs.
--
-- How they interact: the scheduler keeps its entities in the red-black tree by `on_tree`, and a
-- task, its entity and its node share one address, since `container_of` takes one to the other.
-- The file operations of the shell take the pages of their items from the page allocator.
-- The file system reaches the disk by `block_read` and `block_write` only.
--
-- Bounds and fuel: a machine word is a number with its wrap-around written out. `calc_delta` makes
-- at most 32 rounds of its shift loop, which is enough for a product of two 32-bit numbers. Loops
-- over the groups make four rounds, which is all of them. The string functions take the number of
-- rounds, and the theorems say which number is enough. The walks of the tree take the fuel of the
-- kernel's state.
--
-- A read or a write outside `mem_map`, `user_pages` or `kernel_pages` is a fault, and so is a write
-- of `ext2_write` behind its local array of one block. `memcpy` moves eight bytes at a time. The loop of
-- `get_free_page` takes the number of rounds that the source gives it. Where the kernel copies from
-- a user's address, the translation of the processor is a parameter.
--
-- Not modelled: the assembly but for `memzero` and `memcpy`, the console, timer and interrupt
-- registers, printf (a third-party library), the creation of processes, the rest of their exit,
-- the loop of the command shell with its commands that only print or forward, and what the others
-- print. `argv` of the command shell has no bound in the model.
pub mod Base
pub mod Str
pub mod Disk
pub mod Ext2
pub mod Rbtree
pub mod Cfs
pub mod Mm
pub mod Shell
pub mod Tests
