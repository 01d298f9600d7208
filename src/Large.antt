-- ===== src/Large.antt =====
-- src/hmalloc.cpp: the large allocations and the search of `hm_aligned_alloc` for a size class.
-- `headers` is the memory at the bases of the regions. The atomic counters are updated one call at
-- a time here, and the calls of the registry are its steps under the lock.
pub mod AlignedBlock
pub mod Geometry
pub mod Served
pub mod Freed
pub mod Fails
mod Tests
use hmalloc.Common.{
  ℕ, zero, suc, ◌+◌, ◌-◌, ◌*◌, ◌/◌, ◌%◌, ◌^◌, ◌≤◌, ◌<◌, min, max, bit_and, ◌≡◌, refl, sym, ap, ap₂,
  subst, ◌∙◌, ◌≢◌, ◌↔◌, ◌⊎◌, inl, inr, Bool, true, false, not, ◌&&◌, ◌||◌, Option, none, some, List,
  [], ◌∷◌, ◌++◌, map, arith, dec_lt, dec_le, ℕ_discrete, ltb, leb, ◌==◌, ◌!=◌, if◌then◌else◌, tests,
  Bool-cases, Option-cases, length, get_or, set, replicate, update,
}
use mathlib.Core.Option
use hmalloc.Common.Word.{wrap, wrap_sub, align_up}
use hmalloc.Constants.{segment_size, alloc_align, small_size_max}
use hmalloc.SizeClass.{size_class, class_to_size, num_size_classes}
use hmalloc.Segment.{LargeHeader, SegmentKind, small, large, large_offset, region_base}
use hmalloc.Os.{Kernel, Os, os_page_size, os_alloc_aligned, os_free}
use hmalloc.Registry.{Registry, region_register, region_unregister, ◌>>=◌}

pub record Regions : Type 0 where
  pub os : Os
  pub registry : Registry
  pub headers : ℕ → LargeHeader
  pub large_count : ℕ
  pub large_bytes : ℕ

-- `offset` of `alloc_large`
unfoldable pub user_offset : ℕ → ℕ
user_offset align = if ltb alloc_align align then align_up large_offset align else large_offset

-- What `alloc_large` does with the region at `mem`.
unfoldable pub front_region : Kernel → ℕ → LargeHeader → Regions → Option (ℕ × Regions)
front_region k mem h s = do
  (registry, os) ← region_register k mem (s.registry, s.os)
  some (
    mem + h.offset,
    record {
      os = os;
      registry = registry;
      headers = update s.headers mem h;
      large_count = wrap (s.large_count + 1);
      large_bytes = wrap (s.large_bytes + h.mmap_size);
    },
  )

unfoldable pub alloc_large : Kernel → ℕ → ℕ → Regions → Option (ℕ × Regions)
alloc_large k size align s =
    let offset = user_offset align in
    let total = wrap (offset + size) in
    let mmap_size = align_up total (os_page_size k) in
    if ltb total size
    then some (0, s)
    else if ltb mmap_size total
    then some (0, s)
    else (let (mem, os) = os_alloc_aligned k mmap_size segment_size s.os in
        if mem == 0
        then some (0, record s { os = os })
        else front_region k mem
            (record { kind = large; mmap_size = mmap_size; offset = offset; req_size = size })
            (record s { os = os }))

-- What a new mapping reads: zeroes. An unmapped region counts as such.
abbrev pub no_header : LargeHeader
no_header = record { kind = small; mmap_size = 0; offset = 0; req_size = 0 }

unfoldable pub free_large : ℕ → Regions → Option Regions
free_large p s =
    let h = region_base p in
    let msz = (s.headers h).mmap_size in
    Option.map
      (λ registry. record s {
        os = os_free h msz s.os;
        registry = registry;
        headers = update s.headers h no_header;
        large_count = wrap_sub s.large_count 1;
        large_bytes = wrap_sub s.large_bytes msz;
      })
      (region_unregister h s.registry)

-- `hm_usable_size` of a large region
unfoldable pub large_usable_size : ℕ → Regions → ℕ
large_usable_size p s = let h = s.headers (region_base p) in wrap_sub h.mmap_size h.offset

-- The loop of `hm_aligned_alloc` from class `c` on, with the classes that are left.
unfoldable pub aligned_class : ℕ → ℕ → ℕ → Option ℕ
aligned_class zero alignment c = none
aligned_class (suc left) alignment c =
    if class_to_size c % alignment == 0 then some c else aligned_class left alignment (c + 1)

-- The block size that `hm_aligned_alloc` asks the heap of the thread for, if it can.
unfoldable pub aligned_block : ℕ → ℕ → Option ℕ
aligned_block alignment size =
    let need = if ltb alignment size then size else alignment in
    let c = size_class need in
    if leb need small_size_max
    then Option.map class_to_size (aligned_class (num_size_classes - c) alignment c)
    else none
