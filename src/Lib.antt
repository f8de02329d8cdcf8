-- ===== src/Lib.antt =====
-- A model of the parts of the kernel that decide: the allocators of physical and virtual memory
-- (kernel/mem), the scheduler (kernel/proc), the FAT file system (drivers/fat) and the layer of
-- iterators and files above it (kernel/fs), and the C library functions under them (kstdlib).
--
-- The kernel takes physical pages from a tree of bitmaps and address ranges from a buddy tree; the
-- scheduler hands processes and times to the kernel's main loop, which reports how each one went. A FAT
-- file walks the chain of its clusters through the tables on the disk.
--
-- - Common: lists, options and Boolean tests over the native numbers.
-- - Mem.PhTree: kernel/mem/phmem_allocator.hh. A tree of depth d stands for the template with the
--   parameter d + 3, down to the words of 64 pages. View reads a tree as a set of pages in use.
-- - Mem.Buddy: kernel/mem/vmem_allocator.hh. `maxdepth` is kept as a rank, maxdepth + 1, so that -1
--   is 0. View reads a tree as a set of pages in use. Ranges are bounded by 2 ^ 64, depths by 18, the
--   depth that the kernel uses, so that a block is at most 2 ^ 30 bytes and `1 << depth + 12` fits an
--   int.
-- - Sched.Isqrt, Sched.Weights, Sched.Dfs, Sched.Cycle: kernel/proc/sched.cpp. The ready queue is a
--   list of nodes and a pointer into it a position. The loops of `isqrt` end after 6 rounds, so their
--   7 rounds of fuel are enough. The search takes fuel for the heights of the trees of edges; that it
--   is enough is part of its theorem.
-- - Cstring: kstdlib/cstring.cc, over memory as a function from addresses to bytes. A search for a
--   terminator takes fuel, and a theorem about it asks for more than the length of the string.
-- - Fat: drivers/fat/fat_fs.cc (Table, Free, Mount) and drivers/fat/fat_file.cc (File). Disk is the
--   file handler below, as bytes with a position. Table has the entries of the tables and the addresses
--   of clusters, Free the search for a free cluster, Mount the constructor, File `seek` and `read`. The
--   loops of File take fuel, one more than the size that they have to cover, which is enough since a
--   round takes a cluster off; that is part of their theorems. Content has the
--   clusters and the bytes that a read takes. Masks and shifts are remainders and quotients.
-- - Fat.Dir: drivers/fat/fat_dir_iterator.cc. push, open_file and list search a directory in six copies
--   of one loop, which differ in a few checks; the model has the loop once, with the checks as an
--   argument. A directory in clusters is walked on fuel for its clusters: a search that ends in the first
--   one needs one, and the theorems about the whole walk ask that the chain ends within the fuel
--   (Ends). Iterator has the stack and the methods, Listing `list`; create_file is left out.
-- - Fs: kernel/fs. Coherent is the wrapper `coh_dit` of templates.hh, over a record of the operations of
--   the iterator that it wraps; Fat.Dir.Paths fills that record with the FAT iterator. MemFile is the
--   file in memory of memf.hh under the wrapper `perm_fh`. Rootfs is rootfs.cc, with the mounted file
--   systems, which it calls through virtual functions, as parameters. An exception is a value.
-- - Gpt: the class `raw_partition` of drivers/gpt/gpt.cc, a window on the disk that the driver found. Its sums and
--   products wrap at 2 ^ 64.
-- - Heap: kstdlib/new.cc, `operator new` and `operator delete`. The page mapping below is a parameter, the
--   address of the new pages; the loops over a bitmap take fuel 503, one more than its slots, of which
--   each round takes one off.
-- - Map: kstdlib/map.hh, on the pointers of the nodes: a field of the nodes is a function of the address.
--   Shape reads the nodes as a tree and what is above a place in it, in order of the keys, which are
--   numbers; Balance has the red-black conditions. RotateLeft to Fixup follow `insert_fixup`, Place, Grown,
--   Insert, Find and Index are `insert`, `find_node` and the operations of `map`; Erase has `erase` and
--   `clear`, Clear, Transplant, Spot and EraseOne what is known of them.
--   The loops take fuel, of which the height of the tree and one more is enough, and the height is at most
--   twice the logarithm of the number of nodes; both are part of the theorems. A null pointer that the
--   source follows, in `erase_fixup`, reads the fields at the address 0.
-- - Paging: kernel/mem/utils.cc, the walk of the page tables. The reads of physical memory are a parameter.
--   Walk compares it with a walk of the processor that honours large pages, and BitOr has the bitwise or.
-- - Cstdio: `print_number` of kstdlib/cstdio.cc, for a type of w bits. The loop that finds the first digit
--   takes fuel w; that it is enough is part of its theorem. The negation of the least number has no result.
-- - Examples: runs of the model on small inputs.
--
-- Not modelled: the changes of the page tables (kernel/mem/phmem_manager.cc); links in the root file
-- system, whose target the source reads from an uninitialised variable; devfs; `create_file`; device
-- registers and ports (drivers/ahci, drivers/pci, drivers/serial, drivers/vga_text), assembly (x86),
-- start-up (boot, kernel/kernel.cpp), and the example programs (userspace). Concurrency is left out:
-- the code runs with one processor, and the lock of the file system is a parameter of `read` of a
-- file, which takes it twice, and not modelled elsewhere. Allocation of list and tree nodes by the
-- kernel heap is taken to succeed; `operator new[]` and `delete[]`, which keep the length in front
-- of the block, are left out.
pub mod Common
pub mod Mem
pub mod Cstring
pub mod Sched
pub mod Fat
pub mod Fs
pub mod Gpt
pub mod Heap
pub mod Map
pub mod Paging
pub mod Cstdio
pub mod Examples
