-- ===== src/Segment/Recovery.antt =====
-- From an address back to the records that own it, by one mask and one shift.
use hmalloc.Common.{ℕ, ◌+◌, ◌*◌, ◌/◌, ◌%◌, ◌≤◌, ◌<◌, ◌≡◌, ap, arith}
use hmalloc.Common.Word.{word}
use hmalloc.Common.Bits.{bit_and_low_mask, bit_and_high_mask}
use hmalloc.Constants.{segment_size, page_size, pages_per_segment}
use hmalloc.Segment.{region_base, segment_of, page_index_of, page_of, page_at, ℕ}

pub region_base-floor : (p : ℕ) → p < word → region_base p ≡ p / segment_size * segment_size
unfolding region_base
region_base-floor p h = bit_and_high_mask 42 22 p (omega arith)

pub page_index_of-floor : (p : ℕ) → page_index_of p ≡ p % segment_size / page_size
unfolding page_index_of
page_index_of-floor p = ap (λ t. t / page_size) (bit_and_low_mask 22 p)

-- Masking any address of a region's first segment gives the region's base, if the base is aligned to
-- the segment size.
pub region_base-add :
    (base offset : ℕ)
    → base % segment_size ≡ 0
    → offset < segment_size
    → base + offset < word
    → region_base (base + offset) ≡ base
region_base-add base offset aligned inside fits = rw (region_base-floor _ fits) (omega arith)

pub page_index_of-add :
    (s i r : ℕ)
    → s % segment_size ≡ 0
    → i < pages_per_segment
    → r < page_size
    → page_index_of (s + i * page_size + r) ≡ i
page_index_of-add s i r aligned hi hr = rw (page_index_of-floor) (omega arith)

-- From any address inside page `i` of a segment, the mask and the shift find the segment and the
-- record of page `i` in its header, and that record stands in page 0, which serves no blocks.
pub page_of-add :
    (s i r : ℕ)
    → s % segment_size ≡ 0
    → 0 < i
    → i < pages_per_segment
    → r < page_size
    → s + segment_size ≤ word
    → (segment_of (s + i * page_size + r) ≡ s)
      × (page_of (segment_of (s + i * page_size + r)) (s + i * page_size + r) ≡ page_at s i)
      × (page_at s i + 128 ≤ s + page_size)
unfolding segment_of page_of
page_of-add s i r aligned pos hi hr fits =
    let base : region_base (s + i * page_size + r) ≡ s =
      rw (region_base-floor (s + i * page_size + r) (omega arith)) (omega arith) in
    (base, rw (base, page_index_of-add s i r aligned hi hr), omega arith)
