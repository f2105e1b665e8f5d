-- ===== src/Lib.antt =====
-- Verification of parts of AmitX, a hobby operating system for x86 in C, over its 64-bit build.
--
-- The parts and how they meet. The physical frame allocator (mm/pmm.c) hands out 4 KiB frames. The
-- kernel heap (mm/heap.c) takes frames one at a time and maps them behind a fixed arena; malloc and
-- its kin cut that arena into blocks. The mapping window (mm/vmm.c) gives out runs of virtual pages
-- for device memory. SmKFS, the file system, reads and writes its blocks through a write-back cache
-- (fs/smkfs/bcache.c, fs/smkfs/block.c), and guards its structures by a header with a CRC32C
-- checksum (fs/smkfs/checksum.c); its table of records (fs/smkfs/mrt.c) lies in such blocks. The
-- subsystems start in the order that a registry of them (kernel/kscope.c) finds by their
-- dependencies.
--
-- The files:
--   Prelude      names of the libraries, Boolean tests, C arrays as lists, word sizes, orders
--   Bitmap       bitmaps over bytes, as mm/pmm.c and mm/vmm.c both keep them; bits of words,
--                exclusive or, masks and alignment
--   Pmm          mm/pmm.c: record Pmm for its static variables; alloc_frame, alloc_frames,
--                alloc_aligned, alloc_at, free_frame, free_frames, reserve_region,
--                unreserve_region, is_region_free and get_stats for the functions pmm_*
--   Heap         mm/heap.c: record Heap for head, heap_break and heap_end, with the blocks in the
--                order of their next pointers, and the memory as the owners of the blocks write it, without the
--                bytes of the headers; sbrk stands for
--                sbrk_locked, commit_to for heap_commit_to, and malloc, calloc, realloc and free
--                for the functions of these names. The calls of mm/pmm.c and mm/paging.c are the
--                interface Frames
--   Vmm          mm/vmm.c: record Vmm for window_bitmap; map_physical and unmap_physical for
--                vmm_map_physical and vmm_unmap_physical. The page tables are the interface Paging
--   Checksum     fs/smkfs/checksum.c: checksum_compute, header_init, header_validate,
--                header_checksum_update and header_checksum_verify over the bytes of a block
--   BlockCache   fs/smkfs/bcache.c and the calls read_block and write_block of fs/smkfs/block.c:
--                record Mount for the slots of a mount. The disk below is the interface Disk, with
--                laws (DiskLaws) for blocks below a limit and buffers of 4096 bytes; it is filled,
--                with the limit 2 ^ 29, by disk_read_block and disk_write_block of fs/smkfs/block.c
--                in BlockCache.Sectors, over the interface Drive for the 512-byte sectors of
--                hw/ide.c. BlockCache.Platter is a drive in memory
--   Kscope       kernel/kscope.c: record Kscope for registry and the states of the nodes; register,
--                mark_failed, topo_sort, probe_all and shutdown_all for the functions kscope_*.
--                The functions init and shutdown of the nodes are parameters
--   Strings      lib/string.c and lib/ctype.c, by the names of the source, over a memory of bytes.
--                strdup and strdup_n are left out
--   Mrt          fs/smkfs/mrt.c: record Mrt for the fields of the superblock, and the functions by their
--                names. The block calls and the log of the journal are the interface Calls, whose
--                laws (CallsLaws) are those of BlockCache over entries in place of bytes; Mrt.Blocks
--                fills it with read_block and write_block of BlockCache, with the fields of an
--                entry in little-endian bytes. The log of the journal stays a parameter
-- Tests modules hold runs on small inputs and instances of the theorems.
--
-- How the code is read. A function that changes state takes the state and returns the new one; the
-- functions under a lock are one step each. Native numbers stand for words, with the remainder by
-- 2 ^ w written where C wraps. The 64-bit address types are used throughout. A missing answer,
-- PFN_T -1 or NULL, is `none` or 0 as the comments of each file say. Messages to the console are
-- left out.
--
-- Bounds and fuel. The loops modelled here run over a range or a list that is known before they
-- start, and each is a structural recursion on the rounds left. Three run on fuel. The search of
-- pmm_alloc_aligned is given one round more than there are frames, each round moves past at least
-- one frame, and its theorem holds of the function with that fuel. The loop over the stack in
-- kscope_topo_sort is given 33 * 34 rounds, since each round takes an index off a stack of at most
-- 32 or visits one of 32 nodes for the first time; kscope_mark_failed calls itself at most once
-- more than there are nodes, since each call takes a registered node away. Both are enough. The
-- functions on strings run on a fuel that the caller gives, and their theorems say that any fuel
-- above the length of the string is enough. The theorems about malloc ask for a size of at most 2 ^
-- 46, since ALIGN16 wraps near 2 ^ 64; the arena has 2 ^ 25 bytes.
--
-- What is not modelled: boot code (pmm_init, heap_init, vmm_init, the creation of the cache),
-- output, drivers and assembly; of SmKFS the layers above the cache and the table of records; the
-- scheduler and the locks; lib/math.c; the parts of the registry that print or name its nodes;
-- ACPICA, a library that the repository holds a copy of.
pub mod Prelude
pub mod Bitmap
pub mod Pmm
pub mod Heap
pub mod Vmm
pub mod Checksum
pub mod BlockCache
pub mod Kscope
pub mod Strings
pub mod Mrt
