-- ===== src/Heap/Tests.antt =====
-- A heap with three pages of 4096-byte blocks in the segment at 2 ^ 32, first none of their blocks carved.
use hmalloc.Common.{
  ℕ, ◌+◌, ◌*◌, ◌^◌, ◌≤◌, ◌≡◌, refl, inr, true, [], ◌∷◌, ◌++◌, arith, ◌==◌, if◌then◌else◌, replicate,
}
use hmalloc.Run.{done, fault}
use hmalloc.Common.Word.{align_up}
use hmalloc.SizeClass.{size_class, class_to_size, k_table}
use hmalloc.Segment.{Page, page_at}
use hmalloc.Page.Invariant.{IsPage, blocks}
use hmalloc.Page.Allocate.{Allocated}
use hmalloc.Os.{Kernel, os_alloc_aligned, os_page_size, accepts, is_pow2, raw_mmap}
use hmalloc.Central.Acquire.{new_segment, blank_page}
use hmalloc.Heap.{Build, Process, view, head_of, heap_bytes, heap_malloc, heap_free}
use hmalloc.Registry.Tests.{one_base}
use hmalloc.Common.{◌++◌, List}
use hmalloc.Heap.Exit.{heap_at, remove_heap}
use hmalloc.Heap.Exit.Removal.{Removed, remove_heap-Removed}
use hmalloc.Heap.Malloc.{HasRoom, heap_malloc-Allocated, heap_malloc-fault}
use hmalloc.Heap.Free.{Stands, Left, heap_free-IsPage}

abbrev pub build : Build
build = record { stats = true; empty_page = 1024; abandon_tag = 1025 }

abbrev pub failing : Kernel
failing = record { sysconf_page_size = 4096; mmap = λ log n. 0; madvise = λ p n. true }

abbrev pub page_1 : ℕ
page_1 = page_at (2 ^ 32) 1

abbrev page_2 : ℕ
page_2 = page_at (2 ^ 32) 2

abbrev page_3 : ℕ
page_3 = page_at (2 ^ 32) 3

abbrev own_page : ℕ → ℕ → ℕ → Page
own_page i next prev = record blank_page {
  capacity = 16;
  block_size = 4096;
  size_class = 27;
  in_use = true;
  owner = 8192;
  next = next;
  prev = prev;
  area = 2 ^ 32 + i * 65536;
}

abbrev pub three_pages : Process
three_pages = record {
  world = record {
    g = record {
      segments = 2 ^ 32;
      avail = 2 ^ 32;
      abandoned = 0;
      num_segments = 1;
      free_segments = 0;
      free_page_count = 60;
      pages_in_use = 3;
      abandoned_count = 0;
    };
    seg = λ p. record new_segment { free_list = page_at (2 ^ 32) 63; free_count = 60 };
    page = λ p.
        if p == page_1
        then own_page 1 page_2 0
        else if p == page_2
        then own_page 2 page_3 page_1
        else if p == page_3
        then own_page 3 0 page_2
        else blank_page;
    link = λ p. 0;
    os = record {
      stats = record { bytes_mapped = 0; peak_mapped = 0; map_calls = 0; unmap_calls = 0 };
      log = [];
    };
    registry = record { slots = 0; cells = []; cap = 0; size = 0; tombs = 0 };
  };
  heaps = λ h. record {
    pages = replicate 27 1024 ++ (page_1 ∷ replicate 8 1024);
    n_malloc = 0;
    n_fast = 0;
    n_slow = 0;
    reg_next = 0;
  };
  g_registry = 8192;
  t_heap = 8192;
}

-- All blocks of the first two pages are handed out.
abbrev two_full : Process
two_full = record three_pages {
  world = record three_pages.world {
    page = λ p.
        if p == page_3
        then three_pages.page p
        else record (three_pages.page p) { used = 16; reserved = 16 };
  };
}

abbrev live_of : ℕ → List ℕ
live_of p =
    if p == page_3
    then []
    else if p == page_2
    then blocks (2 ^ 32 + 2 * 65536) 4096 16
    else blocks (2 ^ 32 + 65536) 4096 16

abbrev with_registry : Process
with_registry = record three_pages { world = record three_pages.world { registry = one_base } }

abbrev three_heaps : Process
three_heaps = record three_pages {
  heaps = λ h. record (three_pages.heaps h) {
    reg_next = if h == 8192 then 16384 else if h == 16384 then 24576 else 0;
  };
}

remove_heap-Removed_example :
    (s' : Process) × (remove_heap 3 0 16384 three_heaps ≡ done s')
    × Removed 0 16384 (8192 ∷ 16384 ∷ 24576 ∷ []) three_heaps s'
unfolding heap_at
remove_heap-Removed_example =
    remove_heap-Removed 3 0 16384 (8192 ∷ 16384 ∷ 24576 ∷ []) three_heaps (omega arith)
      (refl, omega arith, (refl, omega arith, (refl, omega arith, refl))) (λ a. ground arith)

-- A page of the list, before any of its blocks is carved.
owned-IsPage : IsPage (view page_1 three_pages) [] [] []
owned-IsPage = record {
  sized = omega arith;
  aligned = refl;
  room = refl;
  started = omega arith;
  placed = omega arith;
  area_aligned = refl;
  area_fits = omega arith;
  local_chain = refl;
  remote_chain = refl;
  counted = refl;
  total = refl;
  split = λ a. refl;
}

pub class_of : size_class 4000 ≡ 27
unfolding size_class k_table
class_of = refl

pub size_of : class_to_size 27 ≡ 4096
unfolding class_to_size k_table
size_of = refl

pub has_room : HasRoom build 8192 27 page_1 [] three_pages
has_room = record {
  some_heap = omega arith;
  active = refl;
  real = omega arith;
  some_page = omega arith;
  owns_pages = omega arith;
  remote = [];
  local = [];
  page = owned-IsPage;
  room = omega arith;
}

heap_malloc-Allocated_example :
    let p = head_of 8192 (size_class 4000) three_pages in
    (blk : ℕ) × (s' : Process) × (heap_malloc failing build 4000 three_pages ≡ done (blk, s'))
    × Allocated (view p three_pages) [] (blk, view p s')
    × (4000 ≤ (three_pages.page p).block_size)
heap_malloc-Allocated_example =
    heap_malloc-Allocated failing build 4000 [] three_pages (omega arith) (omega arith)
      (rw class_of has_room) (rw (class_of, size_of) refl)

abbrev no_heap : Process
no_heap = record three_pages { t_heap = 0 }

heap_malloc-fault_example : heap_malloc failing build 4000 no_heap ≡ fault
unfolding os_alloc_aligned os_page_size accepts is_pow2 raw_mmap heap_bytes align_up
heap_malloc-fault_example = heap_malloc-fault failing build 4000 no_heap refl refl

-- The first page after one block of it was handed out.
abbrev first : ℕ
first = 2 ^ 32 + 65536

abbrev one_live : Process
one_live = record three_pages {
  world = record three_pages.world {
    page = λ p. record (own_page 1 page_2 0) { used = 1; reserved = 1 };
  };
}

one_live-IsPage : IsPage (view page_1 one_live) (first ∷ []) [] []
one_live-IsPage = record {
  sized = omega arith;
  aligned = refl;
  room = refl;
  started = omega arith;
  placed = omega arith;
  area_aligned = refl;
  area_fits = omega arith;
  local_chain = refl;
  remote_chain = refl;
  counted = refl;
  total = refl;
  split = λ a. omega arith;
}

one_live-Stands : Stands (2 ^ 32) 1 (view page_1 one_live)
one_live-Stands = record {
  aligned = refl;
  usable = omega arith;
  inside = omega arith;
  fits = omega arith;
  area = refl;
}

heap_free-IsPage_example : Left page_1 first one_live (first ∷ []) [] [] (heap_free first one_live)
heap_free-IsPage_example =
    heap_free-IsPage (2 ^ 32) 1 first one_live (first ∷ []) [] [] one_live-Stands one_live-IsPage
      (omega arith) (inr refl)
