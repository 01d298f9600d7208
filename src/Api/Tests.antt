-- ===== src/Api/Tests.antt =====
-- Calls of the public functions, by a thread with the three pages of Heap/Tests.antt.
use hmalloc.Common.{
  ℕ, ◌+◌, ◌%◌, ◌^◌, ◌≤◌, ◌≡◌, refl, ◌&&◌, some, [], arith, ltb, leb, if◌then◌else◌,
}
use hmalloc.Run.{done}
use hmalloc.SizeClass.{size_class, class_to_size, k_table, num_size_classes}
use hmalloc.Large.{aligned_block, aligned_class, no_header}
use hmalloc.Heap.Tests.{build, failing, three_pages, has_room, class_of, size_of}
use hmalloc.Api.{Api, hm_calloc, hm_aligned_alloc}
use hmalloc.Api.Small.{
  CanServe, Serves, hm_calloc-Refused, hm_calloc-Zeroed, hm_aligned_alloc-Aligned,
}

abbrev pub start : Api
start = record {
  process = three_pages;
  headers = λ p. no_header;
  large_count = 0;
  large_bytes = 0;
  bytes = λ a. 7;
}

start-CanServe : CanServe build 4000 [] start
start-CanServe = record { room = rw class_of has_room; sized = rw (class_of, size_of) refl }

class_of_block : size_class 4096 ≡ 27
unfolding size_class k_table
class_of_block = refl

start-CanServe_block : CanServe build 4096 [] start
start-CanServe_block = record {
  room = rw class_of_block has_room;
  sized = rw (class_of_block, size_of) refl;
}

hm_calloc-Refused_example : hm_calloc failing build (2 ^ 40) (2 ^ 30) start ≡ done (0, start)
hm_calloc-Refused_example = hm_calloc-Refused failing build (2 ^ 40) (2 ^ 30) start (omega arith)

hm_calloc-Zeroed_example :
    (blk : ℕ) × (s' : Api) × (hm_calloc failing build 4 1000 start ≡ done (blk, s'))
    × Serves 4000 [] start blk s'
    × ((a : ℕ) → s'.bytes a ≡ (if leb blk a && ltb a (blk + 4000) then 0 else start.bytes a))
hm_calloc-Zeroed_example =
    hm_calloc-Zeroed failing build 4 1000 [] start (omega arith) (omega arith) start-CanServe

block_of_page : aligned_block (2 ^ 12) 3000 ≡ some 4096
unfolding aligned_block aligned_class size_class class_to_size k_table num_size_classes
block_of_page = refl

hm_aligned_alloc-Aligned_example :
    (blk : ℕ) × (s' : Api) × (hm_aligned_alloc failing build (2 ^ 12) 3000 start ≡ done (blk, s'))
    × (blk % 2 ^ 12 ≡ 0)
    × (3000 ≤ 4096)
    × Serves 4096 [] start blk s'
hm_aligned_alloc-Aligned_example =
    hm_aligned_alloc-Aligned failing build 12 3000 4096 [] start (omega arith) (omega arith)
      (omega arith) (omega arith) block_of_page start-CanServe_block
