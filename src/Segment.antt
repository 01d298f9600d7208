-- ===== src/Segment.antt =====
-- src/segment.h: the records of a segment, its pages and a large region, and the way from a pointer
-- to the record that owns it. A pointer is its address, 0 is the null pointer. The records of the
-- pages stand in the segment's header, `sizeof(Page)` = 128 bytes each, from byte 64 on, as the
-- alignment to cache lines lays them out for 64-bit pointers.
pub mod Recovery
mod Tests
use hmalloc.Common.{ℕ, ◌+◌, ◌-◌, ◌*◌, ◌/◌, ◌^◌, Bool, bit_and}
use hmalloc.Common.Word.{bit_not, shr}
use hmalloc.Constants.{segment_mask, page_shift, pages_per_segment, first_usable_page, alloc_align}

pub data SegmentKind : Type 0 where
  small large : SegmentKind

-- `std::uint32_t` fields hold numbers below 2 ^ 32.
pub record Page : Type 0 where
  pub free : ℕ
  pub used : ℕ
  pub capacity : ℕ
  pub reserved : ℕ
  pub block_size : ℕ
  pub size_class : ℕ
  pub in_use : Bool
  pub owner : ℕ
  pub next : ℕ
  pub prev : ℕ
  pub area : ℕ
  pub thread_free : ℕ

abbrev pub usable_pages_per_segment : ℕ
usable_pages_per_segment = pages_per_segment - first_usable_page

-- The header but for the array of pages, which the memory keeps by address.
pub record Segment : Type 0 where
  pub kind : SegmentKind
  pub page_count : ℕ
  pub mmap_size : ℕ
  pub next : ℕ
  pub free_list : ℕ
  pub free_count : ℕ
  pub avail_prev : ℕ
  pub avail_next : ℕ
  pub in_avail : Bool

pub record LargeHeader : Type 0 where
  pub kind : SegmentKind
  pub mmap_size : ℕ
  pub offset : ℕ
  pub req_size : ℕ

abbrev pub sizeof_page : ℕ
sizeof_page = 128

abbrev pub pages_offset : ℕ
pages_offset = 64

abbrev pub sizeof_large_header : ℕ
sizeof_large_header = 32

unfoldable pub large_offset : ℕ
large_offset = bit_and (sizeof_large_header + (alloc_align - 1)) (bit_not (alloc_align - 1))

unfoldable pub region_base : ℕ → ℕ
region_base p = bit_and p (bit_not segment_mask)

unfoldable pub segment_of : ℕ → ℕ
segment_of p = region_base p

unfoldable pub page_index_of : ℕ → ℕ
page_index_of p = shr (bit_and p segment_mask) page_shift

-- `&s->pages[i]`
abbrev pub page_at : ℕ → ℕ → ℕ
page_at s i = s + pages_offset + i * sizeof_page

unfoldable pub page_of : ℕ → ℕ → ℕ
page_of s p = page_at s (page_index_of p)
