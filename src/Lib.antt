-- ===== src/Lib.antt =====
-- hmalloc: a model of the allocator, and the theorems about it.
--
-- The program serves small requests from pages of blocks of one size, which the heap of a thread
-- takes from segments of 4 MiB, and large requests from regions of their own. All memory comes
-- from the OS layer, and every region of either kind is entered in a registry, which answers
-- whether an address belongs to the allocator.
--
-- Common.antt            helpers: lists, bits, words of 64 bits, lists compared by count
-- Constants.antt         src/constants.h: the geometry
-- SizeClass.antt         src/size_class.h: the tables as build_size_classes fills them, size_class,
--                        class_to_size, size_class_round; Table.antt evaluates the tables once
-- Segment.antt           src/segment.h: the records Segment, Page and LargeHeader, region_base,
--                        segment_of, page_index_of, page_of
-- Page.antt              src/heap.cpp, src/heap.h: the free lists of one page: page_collect,
--                        page_extend, page_make_available, page_pop, the free by the owner
--                        (local_free, the first branch of heap_free) and by another thread
--                        (remote_free, heap_free_remote)
-- Os.antt                src/os.cpp: os_alloc_aligned, os_free, os_purge, os_stats and the counters
-- Registry.antt          src/region_registry.cpp: region_register, region_unregister, region_owns and
--                        the loops and the growth below them
-- Central.antt           src/central.cpp: the lists of segments, the return of a page to its segment
--                        (pool_return), central_release_page, central_abandon_page
-- Central/Acquire.antt   src/central.cpp: sweep_abandoned, map_segment, central_acquire_page
-- Central/Pool.antt      the invariant IsPool of the central heap, over the pages that heaps have: the
--                        lists of segments, pools and abandoned pages, and where every page is;
--                        Give, Unmap and Return (pool_return), Leave (central_abandon_page), Take
--                        and Hand (a page of a pool), Unhook and Sweep (sweep_abandoned), Fill and
--                        Enter and Entered (map_segment), Obtain (central_acquire_page) and Calls
--                        (sequences of calls) of the same folder follow it through the functions they
--                        name; Remotes says of which pages the lists of remote frees end
-- Run.antt               the results of code that may read a null pointer or outlast its fuel
-- Heap.antt              src/heap.h, src/heap.cpp: the heap of a thread: heap_create, heap_malloc,
--                        heap_malloc_slow, heap_rotate_to_front, heap_free, heap_on_page_empty
-- Heap/Exit.antt         src/heap.cpp: heap_destroy, the thread's exit, heap_global_counts
-- Remote.antt            src/heap.cpp: heap_free_remote of many threads and page_collect of the
--                        owner, as steps that interleave
-- Large.antt             src/hmalloc.cpp: alloc_large, free_large, hm_usable_size of a large region,
--                        and the search of hm_aligned_alloc for a size class
-- Api.antt               src/hmalloc.cpp: the public functions, hm_malloc to hm_stats
-- Override.antt          src/override.cpp: the standard entry points and operator new, over the
--                        public functions and the next allocator
--
-- A pointer is its address and 0 is the null pointer. The memory that a part writes is a function
-- from addresses (the links of free blocks in Page.antt, the headers of large regions in
-- Large.antt) or the list of the cells of an array (the table in Registry.antt). Central.antt
-- keeps the records of segments and of pages by address. The links of free blocks and the bytes
-- of the program (Api.antt) are separate functions, so the write of a link changes no byte there.
-- Counters keep their wrap-around at 2 ^ 32 or 2 ^ 64, except cap, size and tombs of the registry, which
-- are natural numbers whose decrements stop at 0: IsTable of Registry/Table.antt, which every operation
-- keeps, bounds them by the cells of the table. The kernel (mmap, munmap, madvise, sysconf) is a parameter, the record Kernel, and
-- IsKernel says of it that a region that mmap returns lies in the address space.
--
-- Fuel: the walk over a page's remote frees has fuel for 65536 blocks, more than a page of 64 KiB
-- holds, and gives none where it goes on: page_collect_run and collect_locked are then none, and
-- page_collect, which the heap uses for a page of its own, leaves the page as it is; the loops of the registry have fuel for every cell of the table once, those over the
-- segments and the abandoned pages for every entry that is counted, and return none where the
-- source would go on.
--
-- In the invariants of lists, the members stand as a list beside the memory that links them. A page is
-- in use from the call that hands it out to the one that takes it back; the pages in use are such a
-- list, and between the calls heaps write those pages as they like, except for their areas. A mapped
-- segment is a new one if the kernel gives a region that is not registered: that is a hypothesis on it.
--
-- An operation of the registry or of the central heap is one step, under its lock. A page is used by
-- its owner, except for the list of remote frees: Remote.antt has one step for each access to it, by
-- any number of threads. Heap.antt, Api.antt and Override.antt run one thread's call at a time;
-- there a remote free is one step, which Remote/Safety.antt justifies. Remote.antt follows a page
-- while one heap owns it: giving the page back or abandoning it is no step there. Its steps interleave
-- on one memory, and a compare-exchange may fail at any time; run_alone of Remote/Progress.antt is the
-- run of one thread alone in which it fails only where the list has changed. The orders given to the atomic accesses (acquire, release, relaxed) are not modelled.
--
-- The search for a page and the loop over the pages of a class have fuel for every page in use, and
-- the loops over the list of heaps for as many heaps as the address space holds. Where the source
-- would read through a null pointer, the result is fault, and where the fuel ends, running.
--
-- The next allocator that the override finds by dlsym is a parameter, with a state of its own. Not
-- modelled: the interleavings of the atomic counters, which only statistics read; t_guard.armed, which
-- is only written; the contents of
-- the allocator's own records as bytes; the table of the Mach-O interposition and the report at
-- exit (src/override.cpp); the tests and the benchmarks, which only call the library.
pub mod Common
pub mod Constants
pub mod SizeClass
pub mod Segment
pub mod Page
pub mod Os
pub mod Registry
pub mod Large
pub mod Central
pub mod Run
pub mod Heap
pub mod Api
pub mod Override
pub mod Remote
