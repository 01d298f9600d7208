-- ===== src/Constants.antt =====
-- src/constants.h: the geometry of segments, pages and small objects.
use hmalloc.Common.{ℕ, ◌-◌, ◌*◌, ◌/◌, ◌^◌}

abbrev pub segment_shift : ℕ
segment_shift = 22

abbrev pub segment_size : ℕ
segment_size = 2 ^ 22

abbrev pub segment_mask : ℕ
segment_mask = segment_size - 1

abbrev pub page_shift : ℕ
page_shift = 16

abbrev pub page_size : ℕ
page_size = 2 ^ 16

abbrev pub pages_per_segment : ℕ
pages_per_segment = segment_size / page_size

abbrev pub first_usable_page : ℕ
first_usable_page = 1

abbrev pub alloc_align : ℕ
alloc_align = 16

abbrev pub small_size_max : ℕ
small_size_max = 16 * 1024
