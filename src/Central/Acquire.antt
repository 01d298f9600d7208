-- ===== src/Central/Acquire.antt =====
-- src/central.cpp: the sweep of the abandoned pages, new segments, and `central_acquire_page`.
use mathlib.Core.Option
use hmalloc.Common.{
  ℕ, zero, suc, ◌+◌, ◌-◌, ◌*◌, ◌/◌, Bool, true, false, Option, none, some, ◌==◌, ◌!=◌,
  if◌then◌else◌, update,
}
use hmalloc.Common.Word.{wrap, wrap_sub}
use hmalloc.Constants.{segment_size, page_size, pages_per_segment, first_usable_page}
use hmalloc.Segment.{Page, Segment, small, page_at, usable_pages_per_segment}
use hmalloc.Page.{u32, u32_sub, last_block, max_blocks, splice}
use hmalloc.Os.{Kernel, os_alloc_aligned}
use hmalloc.Registry.{region_register, ◌>>=◌}
use hmalloc.Central.{World, set_seg, set_page, avail_push, avail_remove, pool_return}

-- None stands for a walk that does not end.
unfoldable pub collect_locked : ℕ → World → Option World
unfolding splice
collect_locked pg w =
    let list = (w.page pg).thread_free in
    if list == 0
    then some w
    else Option.map
        (λ r.
          let v = splice (record { page = w.page pg; link = w.link }) list r in
          record w { page = update w.page pg v.page; link = v.link })
        (last_block max_blocks w.link list 1)

-- `*pp`, where `pp` points at the link of page `at`, or at the head for 0.
unfoldable pub abandoned_at : ℕ → World → ℕ
abandoned_at at w = if at == 0 then w.abandoned else (w.page at).next

unfoldable pub set_abandoned_at : ℕ → ℕ → World → World
set_abandoned_at at pg w =
    if at == 0
    then record w { g = record w.g { abandoned = pg } }
    else set_page at (record (w.page at) { next = pg }) w

-- `*pp = pg->next; --g.abandoned_count; pool_return(g, pg)`
unfoldable pub reclaim : ℕ → ℕ → World → Option World
reclaim at pg w =
    let w₁ = set_abandoned_at at (w.page pg).next w in
    pool_return pg
      (record w₁ { g = record w₁.g { abandoned_count = wrap_sub w₁.abandoned_count 1 } })

-- One round of the loop of `sweep_abandoned` at page `pg`, with the next `pp`.
unfoldable pub sweep_page : ℕ → ℕ → World → Option (ℕ × World)
sweep_page at pg w = collect_locked pg w >>= λ w₁.
    if (w₁.page pg).used == 0 then Option.map (λ w₂. (at, w₂)) (reclaim at pg w₁) else some (pg, w₁)

-- The loop of `sweep_abandoned`.
unfoldable pub sweep_from : ℕ → ℕ → World → Option World
sweep_from zero at w = if abandoned_at at w == 0 then some w else none
sweep_from (suc fuel) at w =
    let pg = abandoned_at at w in
    elim (pg == 0) [ true ↦ some w | false ↦ sweep_page at pg w >>= λ r. sweep_from fuel r.0 r.1 ]

unfoldable pub sweep_abandoned : World → Option World
sweep_abandoned w = sweep_from w.abandoned_count 0 w

-- `new (mem) Segment()`: all its pages, and the rest.
abbrev pub blank_page : Page
blank_page = record {
  free = 0;
  used = 0;
  capacity = 0;
  reserved = 0;
  block_size = 0;
  size_class = 0;
  in_use = false;
  owner = 0;
  next = 0;
  prev = 0;
  area = 0;
  thread_free = 0;
}

unfoldable pub clear_pages : ℕ → ℕ → (ℕ → Page) → ℕ → Page
clear_pages zero s page = page
clear_pages (suc i) s page = update (clear_pages i s page) (page_at s i) blank_page

abbrev pub new_segment : Segment
new_segment = record {
  kind = small;
  page_count = pages_per_segment;
  mmap_size = segment_size;
  next = 0;
  free_list = 0;
  free_count = 0;
  avail_prev = 0;
  avail_next = 0;
  in_avail = false;
}

-- The loop of `map_segment` from page `i` on, with the pages that are left.
unfoldable pub add_pages : ℕ → ℕ → ℕ → World → World
add_pages zero i s w = w
add_pages (suc left) i s w =
    let pg = page_at s i in
    add_pages left (i + 1) s (record w {
      page = update w.page pg (record (w.page pg) {
        area = s + i * page_size;
        in_use = false;
        next = (w.seg s).free_list;
      });
      seg =
          update w.seg s
            (record (w.seg s) { free_list = pg; free_count = u32 ((w.seg s).free_count + 1) });
    })

-- `map_segment` after the call of the kernel.
unfoldable pub enter_segment : Kernel → ℕ → World → Option World
enter_segment k s w₀ =
    let w₁ = record w₀ {
      seg = update w₀.seg s new_segment;
      page = clear_pages pages_per_segment s w₀.page;
    } in
    let w₂ = add_pages (pages_per_segment - first_usable_page) first_usable_page s w₁ in
    let w₃ = set_seg s (record (w₂.seg s) { next = w₂.segments }) w₂ in
    let w₄ = avail_push s (record w₃ {
      g = record w₃.g {
        free_page_count = wrap (w₃.free_page_count + (w₃.seg s).free_count);
        segments = s;
        num_segments = wrap (w₃.num_segments + 1);
        free_segments = wrap (w₃.free_segments + 1);
      };
    }) in
    Option.map (λ e. record w₄ { registry = e.0; os = e.1 })
      (region_register k s (w₄.registry, w₄.os))

unfoldable pub map_segment : Kernel → World → Option (Bool × World)
map_segment k w =
    let (mem, os) = os_alloc_aligned k segment_size segment_size w.os in
    let w₁ = record w { os = os } in
    if mem == 0 then some (false, w₁) else Option.map (λ w₂. (true, w₂)) (enter_segment k mem w₁)

-- What `central_acquire_page` does with the first segment that has a free page.
unfoldable pub take_page : ℕ → ℕ → ℕ → World → ℕ × World
take_page owner cls block_size w₀ =
    let s = w₀.avail in
    let v = w₀.seg s in
    let pg = v.free_list in
    let w₁ =
      set_seg s (record v { free_list = (w₀.page pg).next; free_count = u32_sub v.free_count 1 })
        (record w₀ {
          g = record w₀.g {
            free_segments =
                if v.free_count == usable_pages_per_segment
                then wrap_sub w₀.free_segments 1
                else w₀.free_segments;
            free_page_count = wrap_sub w₀.free_page_count 1;
          };
        }) in
    let w₂ = if (w₁.seg s).free_count == 0 then avail_remove s w₁ else w₁ in
    (
      pg,
      record w₂ {
        g = record w₂.g { pages_in_use = wrap (w₂.pages_in_use + 1) };
        page = update w₂.page pg (record (w₂.page pg) {
          free = 0;
          used = 0;
          capacity = u32 (page_size / block_size);
          reserved = 0;
          block_size = block_size;
          size_class = cls;
          in_use = true;
          owner = owner;
          next = 0;
          prev = 0;
          thread_free = 0;
        });
      },
    )

-- The search for a segment with a free page.
unfoldable pub find_segment : Kernel → World → Option (Bool × World)
find_segment k w =
    if w.avail != 0
    then some (true, w)
    else (sweep_abandoned w >>= λ w₁. if w₁.avail != 0 then some (true, w₁) else map_segment k w₁)

unfoldable pub central_acquire_page : Kernel → ℕ → ℕ → ℕ → World → Option (ℕ × World)
central_acquire_page k owner cls block_size w =
    Option.map (λ r. if r.0 then take_page owner cls block_size r.1 else (0, r.1))
      (find_segment k w)

pub record CentralStats : Type 0 where
  pub segments : ℕ
  pub pages_in_use : ℕ
  pub free_pages : ℕ

unfoldable pub central_stats : World → CentralStats
central_stats w = record {
  segments = w.num_segments;
  pages_in_use = w.pages_in_use;
  free_pages = w.free_page_count;
}
