-- ===== src/Central.antt =====
-- src/central.h and src/central.cpp: the segments, their pools of free pages, the list of segments that
-- have one, and the abandoned pages. The records of segments and pages stand in memory by address, and
-- so do the links of the blocks. Each function is one step under the lock. `none` stands for a loop that
-- is still running after its fuel, one round for every entry that the counters promise.
pub mod Acquire
pub mod Balance
pub mod Release
pub mod Avail
pub mod Unlink
pub mod Arith
pub mod Places
pub mod Pool
pub mod Take
pub mod Give
pub mod Unmap
pub mod Return
pub mod Leave
pub mod Hand
pub mod Frame
pub mod Unhook
pub mod Remotes
pub mod Sweep
pub mod Fill
pub mod Enter
pub mod Entered
pub mod Obtain
pub mod Calls
pub mod Account
pub mod Grow
pub mod Map
mod Tests
mod CallTests
use hmalloc.Common.{
  ℕ, zero, suc, ◌+◌, true, false, Option, none, some, ltb, ◌==◌, ◌!=◌, if◌then◌else◌, update,
}
use hmalloc.Common.Word.{wrap, wrap_sub}
use hmalloc.Segment.{Page, Segment, segment_of, usable_pages_per_segment}
use hmalloc.Page.{Links, u32}
use hmalloc.Os.{Os, os_free}
use hmalloc.Registry.{Registry, region_unregister, ◌>>=◌}

abbrev pub segment_cache : ℕ
segment_cache = 1

pub record CentralState : Type 0 where
  pub segments : ℕ
  pub avail : ℕ
  pub abandoned : ℕ
  pub num_segments : ℕ
  pub free_segments : ℕ
  pub free_page_count : ℕ
  pub pages_in_use : ℕ
  pub abandoned_count : ℕ

pub record World : Type 0 where
  pub g : CentralState
  pub open g use *
  pub seg : ℕ → Segment
  pub page : ℕ → Page
  pub link : Links
  pub os : Os
  pub registry : Registry

abbrev pub set_seg : ℕ → Segment → World → World
set_seg s v w = record w { seg = update w.seg s v }

abbrev pub set_page : ℕ → Page → World → World
set_page p v w = record w { page = update w.page p v }

unfoldable pub avail_push : ℕ → World → World
avail_push s w₀ =
    let w₁ = set_seg s (record (w₀.seg s) { avail_prev = 0; avail_next = w₀.avail }) w₀ in
    let w₂ =
      if w₁.avail != 0
      then set_seg w₁.avail (record (w₁.seg w₁.avail) { avail_prev = s }) w₁
      else w₁ in
    let w₃ = record w₂ { g = record w₂.g { avail = s } } in
    set_seg s (record (w₃.seg s) { in_avail = true }) w₃

unfoldable pub avail_remove : ℕ → World → World
avail_remove s w₀ =
    let v = w₀.seg s in
    let w₁ =
      if v.avail_prev != 0
      then set_seg v.avail_prev (record (w₀.seg v.avail_prev) { avail_next = v.avail_next }) w₀
      else record w₀ { g = record w₀.g { avail = v.avail_next } } in
    let n = (w₁.seg s).avail_next in
    let w₂ =
      if n != 0
      then set_seg n (record (w₁.seg n) { avail_prev = (w₁.seg s).avail_prev }) w₁
      else w₁ in
    set_seg s (record (w₂.seg s) { avail_prev = 0; avail_next = 0; in_avail = false }) w₂

-- The loop of `all_remove` from segment `p` on.
unfoldable pub unlink_segment : ℕ → ℕ → ℕ → World → Option World
unlink_segment zero s p w = if p == 0 then some w else none
unlink_segment (suc fuel) s p w =
    let rest = unlink_segment fuel s (w.seg p).next w in
    if p == 0
    then some w
    else if (w.seg p).next == s
    then some (set_seg p (record (w.seg p) { next = (w.seg s).next }) w)
    else rest

unfoldable pub all_remove : ℕ → World → Option World
all_remove s w =
    if w.segments == s
    then some (record w { g = record w.g { segments = (w.seg s).next } })
    else unlink_segment w.num_segments s w.segments w

-- What `pool_return` does with one idle segment too many.
unfoldable pub unmap_segment : ℕ → World → Option World
unmap_segment s w₀ = do
  w₁ ← all_remove s (avail_remove s w₀)
  registry ← region_unregister s w₁.registry
  some (record w₁ {
    g = record w₁.g {
      num_segments = wrap_sub w₁.num_segments 1;
      free_segments = wrap_sub w₁.free_segments 1;
      free_page_count = wrap_sub w₁.free_page_count usable_pages_per_segment;
    };
    registry = registry;
    os = os_free s (w₁.seg s).mmap_size w₁.os;
  })

-- The part of `pool_return` before its test for an idle segment.
unfoldable pub pool_push : ℕ → ℕ → World → World
pool_push pg s w₀ =
    let v = w₀.seg s in
    let w₁ =
      set_page pg
        (record (w₀.page pg) {
          in_use = false;
          owner = 0;
          free = 0;
          block_size = 0;
          prev = 0;
          next = v.free_list;
        })
        w₀ in
    let w₂ = set_seg s (record v { free_list = pg; free_count = u32 (v.free_count + 1) }) w₁ in
    let w₃ = record w₂ { g = record w₂.g { free_page_count = wrap (w₂.free_page_count + 1) } } in
    if v.free_count == 0 then avail_push s w₃ else w₃

unfoldable pub pool_return : ℕ → World → Option World
pool_return pg w₀ =
    let s = segment_of (w₀.page pg).area in
    let w₁ = pool_push pg s w₀ in
    if (w₁.seg s).free_count == usable_pages_per_segment
    then (let w₂ = record w₁ { g = record w₁.g { free_segments = wrap (w₁.free_segments + 1) } } in
        if ltb segment_cache w₂.free_segments then unmap_segment s w₂ else some w₂)
    else some w₁

unfoldable pub central_release_page : ℕ → World → Option World
central_release_page pg w =
    pool_return pg (record w { g = record w.g { pages_in_use = wrap_sub w.pages_in_use 1 } })

-- `owner` is the address of `g_abandon_tag`.
unfoldable pub central_abandon_page : ℕ → ℕ → World → World
central_abandon_page owner pg w = record w {
  page = update w.page pg (record (w.page pg) { owner = owner; prev = 0; next = w.abandoned });
  g = record w.g {
    abandoned = pg;
    abandoned_count = wrap (w.abandoned_count + 1);
    pages_in_use = wrap_sub w.pages_in_use 1;
  };
}
