-- ===== src/Central/Grow.antt =====
-- `map_segment` and the part of `central_acquire_page` that takes a page of a segment.
use hmalloc.Common.{
  ℕ, zero, suc, ◌+◌, ◌*◌, ◌/◌, ◌%◌, ◌^◌, ◌<◌, ◌≡◌, refl, ap, ◌≢◌, true, false, arith, ◌==◌,
  if◌then◌else◌, update,
}
use hmalloc.Common.Word.{wrap_sub}
use hmalloc.Constants.{page_size}
use hmalloc.Segment.{page_at, usable_pages_per_segment}
use hmalloc.Page.{u32, u32_sub}
use hmalloc.Central.{World, set_seg}
use hmalloc.Central.Balance.{Balanced, Keeps-avail_remove, Keeps-if, Keeps-refl}
use hmalloc.Central.Acquire.{add_pages, take_page}

-- The loop that adds pages to the pool of segment `s` counts them and changes no counter.
pub record Added (s n : ℕ) (w w' : World) : Type 0 where
  pub g : w'.g ≡ w.g
  pub os : w'.os ≡ w.os
  pub registry : w'.registry ≡ w.registry
  pub count : (w'.seg s).free_count ≡ (w.seg s).free_count + n

pub add_pages-Added :
    (left i s : ℕ) (w : World)
    → (w.seg s).free_count + left < 2 ^ 32
    → Added s left w (add_pages left i s w)
unfolding add_pages
add_pages-Added zero i s w h = record { g = refl; os = refl; registry = refl; count = omega arith }
add_pages-Added (suc left) i s w h =
    let self : (s == s) ≡ true = ground arith in
    let pg = page_at s i in
    let w₁ = record w {
      page = update w.page pg (record (w.page pg) {
        area = s + i * page_size;
        in_use = false;
        next = (w.seg s).free_list;
      });
      seg =
          update w.seg s
            (record (w.seg s) { free_list = pg; free_count = u32 ((w.seg s).free_count + 1) });
    } in
    let bumped : (w₁.seg s).free_count ≡ (w.seg s).free_count + 1 = rw self (omega arith) in
    let a = add_pages-Added left (i + 1) s w₁ (omega (arith, bumped)) in
    record { g = a.g; os = a.os; registry = a.registry; count = omega (arith, a.count, bumped) }

-- What `central_acquire_page` returns and leaves where some segment has a free page.
pub record Acquired (owner cls block_size : ℕ) (w : World) (pg : ℕ) (w' : World) : Type 0 where
  pub from_pool : pg ≡ (w.seg w.avail).free_list
  pub unused : (w'.page pg).used ≡ 0
  pub uncarved :
      ((w'.page pg).reserved ≡ 0) × ((w'.page pg).free ≡ 0) × ((w'.page pg).thread_free ≡ 0)
  pub sized : ((w'.page pg).block_size ≡ block_size) × ((w'.page pg).size_class ≡ cls)
  pub capacity : (w'.page pg).capacity ≡ page_size / block_size % 2 ^ 32
  pub owned : (w'.page pg).owner ≡ owner
  pub others : (p : ℕ) → p ≢ pg → w'.page p ≡ w.page p
  pub abandoned : w'.abandoned_count ≡ w.abandoned_count
  pub balanced : Balanced w'

pub take_page-Acquired :
    (owner cls block_size : ℕ) (w : World)
    → Balanced w
    → Acquired owner cls block_size w
        (take_page owner cls block_size w).0
        (take_page owner cls block_size w).1
unfolding take_page
take_page-Acquired owner cls block_size w₀ balanced =
    let s = w₀.avail in
    let v = w₀.seg s in
    let pg = v.free_list in
    let self : (pg == pg) ≡ true = ground arith in
    let w₁ =
      set_seg s (record v { free_list = (w₀.page pg).next; free_count = u32_sub v.free_count 1 })
        (record w₀ {
          g = record w₀.g {
            free_segments =
                if v.free_count == usable_pages_per_segment
                then wrap_sub w₀.free_segments 1
                else w₀.free_segments;
            free_page_count = wrap_sub w₀.free_page_count 1;
          };
        }) in
    let k =
      Keeps-if ((w₁.seg s).free_count == 0) w₁ _ w₁ (Keeps-avail_remove s w₁) (Keeps-refl w₁) in
    record {
      from_pool = refl;
      unused = rw self refl;
      uncarved = (rw self refl, rw self refl, rw self refl);
      sized = (rw self refl, rw self refl);
      capacity = rw self refl;
      owned = rw self refl;
      others = λ p ne.
          let miss : (pg == p) ≡ false = ground arith in rw miss (ap (λ f. f p) k.counts.memory);
      abandoned = k.counts.abandoned;
      balanced =
          omega (
            arith, balanced, k.counts.in_use, k.counts.free_pages, k.counts.abandoned, k.counts.num,
          );
    }
