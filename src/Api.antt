-- ===== src/Api.antt =====
-- src/hmalloc.cpp: the public functions. The state joins that of the calling thread's heap with that of
-- the large allocations, and `bytes` holds what the program has written to its blocks.
pub mod Small
pub mod Tests
use hmalloc.Common.{
  ℕ, ◌+◌, ◌-◌, ◌*◌, ◌/◌, bit_and, Bool, true, false, ◌&&◌, ◌||◌, Option, none, some, ltb, leb, ◌==◌,
  ◌!=◌, if◌then◌else◌,
}
use hmalloc.Run.{Run, done, ◌>>=◌, lift}
use hmalloc.Common.Word.{wrap, size_max}
use hmalloc.Constants.{segment_size, alloc_align, small_size_max}
use hmalloc.Segment.{LargeHeader, SegmentKind, small, large, region_base, segment_of, page_of}
use hmalloc.Os.{Kernel}
use hmalloc.Large.{Regions, alloc_large, free_large, large_usable_size, aligned_block}
use hmalloc.Heap.{Build, Process, heap_malloc, heap_free}
use hmalloc.Heap.Exit.{heap_global_counts}

pub record Api : Type 0 where
  pub process : Process
  pub open process use *
  pub headers : ℕ → LargeHeader
  pub large_count : ℕ
  pub large_bytes : ℕ
  pub bytes : ℕ → ℕ

abbrev pub regions : Api → Regions
regions s = record {
  os = s.os;
  registry = s.registry;
  headers = s.headers;
  large_count = s.large_count;
  large_bytes = s.large_bytes;
}

abbrev pub put_regions : Regions → Api → Api
put_regions r s = record {
  process = record s.process {
    world = record s.process.world { os = r.os; registry = r.registry };
  };
  headers = r.headers;
  large_count = r.large_count;
  large_bytes = r.large_bytes;
  bytes = s.bytes;
}

-- `kind_of`: the memory of a region that is not large reads as small, since a mapping comes zeroed.
unfoldable pub kind_of : ℕ → Api → SegmentKind
kind_of p s = (s.headers (region_base p)).kind

abbrev pub is_large : SegmentKind → Bool
is_large small = false
is_large large = true

-- `std::memset(p, 0, n)`
unfoldable pub clear_bytes : ℕ → ℕ → (ℕ → ℕ) → ℕ → ℕ
clear_bytes p n bytes a = if leb p a && ltb a (p + n) then 0 else bytes a

-- `std::memcpy(q, p, n)`
unfoldable pub copy_bytes : ℕ → ℕ → ℕ → (ℕ → ℕ) → ℕ → ℕ
copy_bytes q p n bytes a = if leb q a && ltb a (q + n) then bytes (p + (a - q)) else bytes a

-- `alloc_large`; the kernel hands out zeroed memory, up to the end of the region.
unfoldable pub api_large : Kernel → ℕ → ℕ → Api → Run (ℕ × Api)
api_large k size align s = do
  (p, r) ← lift (alloc_large k size align (regions s))
  let s₁ = put_regions r s
  done (
    p,
    if p == 0 then s₁ else record s₁ { bytes = clear_bytes p (large_usable_size p r) s.bytes },
  )

unfoldable pub api_small : Kernel → Build → ℕ → Api → Run (ℕ × Api)
api_small k b size s = do
  (p, t) ← heap_malloc k b size s.process
  done (p, record s { process = t })

unfoldable pub hm_malloc : Kernel → Build → ℕ → Api → Run (ℕ × Api)
hm_malloc k b size s =
    if size == 0
    then done (0, s)
    else if leb size small_size_max
    then api_small k b size s
    else api_large k size alloc_align s

unfoldable pub hm_free : ℕ → Api → Run Api
hm_free p s =
    if p == 0
    then done s
    else if is_large (kind_of p s)
    then (lift (free_large p (regions s)) >>= λ r. done (put_regions r s))
    else (heap_free p s.process >>= λ t. done (record s { process = t }))

-- `memset` on the block of a small request, where there is one
unfoldable pub zeroed : ℕ → ℕ × Api → ℕ × Api
zeroed total (p, s) = (p, if p != 0 then record s { bytes = clear_bytes p total s.bytes } else s)

unfoldable pub hm_calloc : Kernel → Build → ℕ → ℕ → Api → Run (ℕ × Api)
hm_calloc k b nmemb size s =
    let total = wrap (nmemb * size) in
    if nmemb == 0 || size == 0
    then done (0, s)
    else if ltb (size_max / size) nmemb
    then done (0, s)
    else if leb total small_size_max
    then (api_small k b total s >>= λ r. done (zeroed total r))
    else api_large k total alloc_align s

unfoldable pub hm_usable_size : ℕ → Api → ℕ
hm_usable_size p s =
    if p == 0
    then 0
    else if is_large (kind_of p s)
    then large_usable_size p (regions s)
    else (s.page (page_of (segment_of p) p)).block_size

-- Whether `hm_realloc` leaves the block where it is.
unfoldable pub keeps_block : ℕ → ℕ → Bool
keeps_block old_usable size =
    leb size old_usable && (leb old_usable small_size_max || ltb (old_usable / 2) size)

-- The end of `hm_realloc`: the new block takes the contents of the old one.
unfoldable pub move_block : ℕ → ℕ → ℕ → ℕ × Api → Run (ℕ × Api)
move_block ptr old_usable size (np, s) =
    let n = if ltb size old_usable then size else old_usable in
    if np == 0
    then done (0, s)
    else (hm_free ptr (record s { bytes = copy_bytes np ptr n s.bytes }) >>= λ t. done (np, t))

unfoldable pub hm_realloc : Kernel → Build → ℕ → ℕ → Api → Run (ℕ × Api)
hm_realloc k b ptr size s =
    let old_usable = hm_usable_size ptr s in
    if ptr == 0
    then hm_malloc k b size s
    else if size == 0
    then (hm_free ptr s >>= λ t. done (0, t))
    else if keeps_block old_usable size
    then done (ptr, s)
    else (hm_malloc k b size s >>= move_block ptr old_usable size)

-- The end of `hm_aligned_alloc`, for an alignment above `ALLOC_ALIGN`.
unfoldable pub aligned_large : Kernel → ℕ → ℕ → Api → Run (ℕ × Api)
aligned_large k alignment size s =
    if ltb (segment_size / 2) alignment then done (0, s) else api_large k size alignment s

unfoldable pub aligned_request : Kernel → Build → ℕ → ℕ → Option ℕ → Api → Run (ℕ × Api)
aligned_request k b alignment size none s = aligned_large k alignment size s
aligned_request k b alignment size (some block) s = api_small k b block s

unfoldable pub hm_aligned_alloc : Kernel → Build → ℕ → ℕ → Api → Run (ℕ × Api)
hm_aligned_alloc k b alignment size s =
    if size == 0
    then done (0, s)
    else if alignment == 0 || bit_and alignment (alignment - 1) != 0
    then done (0, s)
    else if leb alignment alloc_align
    then hm_malloc k b size s
    else aligned_request k b alignment size (aligned_block alignment size) s

pub record Stats : Type 0 where
  pub bytes_reserved : ℕ
  pub peak_bytes_reserved : ℕ
  pub segments_mapped : ℕ
  pub pages_in_use : ℕ
  pub pages_free : ℕ
  pub large_allocations : ℕ
  pub large_bytes : ℕ
  pub malloc_count : ℕ
  pub fast_path_count : ℕ
  pub slow_path_count : ℕ

unfoldable pub hm_stats : Api → Run Stats
hm_stats s = do
  n ← heap_global_counts s.process
  done (record {
    bytes_reserved = s.os.bytes_mapped;
    peak_bytes_reserved = s.os.peak_mapped;
    segments_mapped = s.num_segments;
    pages_in_use = s.pages_in_use;
    pages_free = s.free_page_count;
    large_allocations = s.large_count;
    large_bytes = s.large_bytes;
    malloc_count = n.mallocs;
    fast_path_count = n.fast;
    slow_path_count = n.slow;
  })
