-- ===== src/Segment/Tests.antt =====
-- The recovery of page 3 from a pointer into it.
use hmalloc.Common.{◌+◌, ◌*◌, ◌^◌, ◌≤◌, ◌≡◌, refl, arith}
use hmalloc.Constants.{page_size}
use hmalloc.Segment.Recovery.{region_base-add, page_of-add}
use hmalloc.Segment.{large_offset, region_base, segment_of, page_index_of, page_of, page_at}

large_offset_runs : large_offset ≡ 32
unfolding large_offset
large_offset_runs = refl

page_index_of_runs : page_index_of (2 ^ 30 + 3 * page_size + 480) ≡ 3
unfolding page_index_of
page_index_of_runs = refl

region_base-add_example : region_base (2 ^ 30 + 32) ≡ 2 ^ 30
region_base-add_example = region_base-add (2 ^ 30) 32 (omega arith) (omega arith) (omega arith)

page_of-add_example :
    (segment_of (2 ^ 30 + 3 * page_size + 480) ≡ 2 ^ 30)
    × (page_of (segment_of (2 ^ 30 + 3 * page_size + 480)) (2 ^ 30 + 3 * page_size + 480)
        ≡ page_at (2 ^ 30) 3)
    × (page_at (2 ^ 30) 3 + 128 ≤ 2 ^ 30 + page_size)
page_of-add_example =
    page_of-add (2 ^ 30) 3 480 (omega arith) (omega arith) (omega arith) (omega arith) (omega arith)
