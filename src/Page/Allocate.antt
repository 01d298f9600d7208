-- ===== src/Page/Allocate.antt =====
-- `page_pop`, and the whole way to allocate a block from a page.
use hmalloc.Common.{
  ℕ, ◌+◌, ◌*◌, ◌/◌, ◌%◌, ◌≤◌, ◌<◌, ◌≡◌, sym, ap, subst, ◌≢◌, true, List, [], ◌∷◌, arith, length,
  ◌∙◌, ap₂,
}
use hmalloc.Common.Multiset.{count}
use hmalloc.Page.Chain.{Chain}
use hmalloc.Page.Invariant.{blocks, IsPage, once, capacity-le, blocks_place, capacity-mul}
use hmalloc.Constants.{page_size, alloc_align}
use hmalloc.Page.Available.{page_make_available-Keeps, page_make_available-Available}
use hmalloc.Page.{u32, PageView, page_make_available, page_pop}

-- What `page_pop` gives: the page with one more live block, which was not live before.
pub record Popped (v : PageView) (live remote : List ℕ) (r : ℕ × PageView) : Type 0 where
  pub rest : List ℕ
  pub valid : IsPage r.1 (r.0 ∷ live) remote rest
  pub fresh : count r.0 live ≡ 0
  pub carved : 0 < count r.0 (blocks v.area v.block_size v.reserved)

pub page_pop-Popped :
    (v : PageView) (live remote local : List ℕ)
    → IsPage v live remote local
    → v.free ≢ 0
    → Popped v live remote (page_pop v)
unfolding page_pop
page_pop-Popped v live remote [] w h = absurd (h w.local_chain)
page_pop-Popped v live remote (x ∷ xs) w h =
    let head = w.local_chain.0 in
    let small = capacity-le w in
    let exact : u32 (v.used + 1) ≡ v.used + 1 = omega (arith, w.total, w.started) in
    record {
      rest = xs;
      valid = record {
        sized = w.sized;
        aligned = w.aligned;
        room = w.room;
        started = w.started;
        placed = w.placed;
        area_aligned = w.area_aligned;
        area_fits = w.area_fits;
        local_chain = subst (λ t. Chain v.link (v.link t) xs) (sym head) w.local_chain.2;
        remote_chain = w.remote_chain;
        counted = omega (arith, exact, w.counted);
        total = omega (arith, exact, w.total);
        split = λ a. ground (arith, w.split a);
      };
      fresh = ground (arith, once w v.free);
      carved = ground (arith, w.split v.free);
    }

aligned-add :
    (start i size : ℕ)
    → start % page_size ≡ 0
    → size % alloc_align ≡ 0
    → (start + i * size) % alloc_align ≡ 0
aligned-add start i size hs hz =
    let e : size ≡ size / 16 * 16 = omega arith in omega (arith, ap (λ (t : ℕ). i * t) e)

pub place-le : (i n size limit : ℕ) → i < n → n * size ≤ limit → i * size + size ≤ limit
place-le i n size limit lt h = grind arith

-- A block of a page that the owner can hand out, with the page after it.
pub record Allocated (v : PageView) (live : List ℕ) (r : ℕ × PageView) : Type 0 where
  pub remote : List ℕ
  pub local : List ℕ
  pub valid : IsPage r.1 (r.0 ∷ live) remote local
  pub fresh : count r.0 live ≡ 0
  pub aligned : r.0 % alloc_align ≡ 0
  pub from : v.area ≤ r.0
  pub to : r.0 + v.block_size ≤ v.area + page_size
  pub index : ℕ
  pub place : r.0 ≡ v.area + index * v.block_size

-- While fewer blocks are live than the page has room for, `page_make_available` succeeds, and
-- `page_pop` then returns a block that is not live, is aligned to 16 bytes and lies whole inside the
-- page; the page afterwards accounts for it as live.
pub page_pop-page_make_available :
    (v : PageView) (live remote local : List ℕ)
    → IsPage v live remote local
    → length live < v.capacity
    → ((page_make_available v).0 ≡ true) × Allocated v live (page_pop (page_make_available v).1)
page_pop-page_make_available v live remote local w room =
    let r = page_make_available v in
    let a = page_make_available-Available v live remote local w in
    let k = page_make_available-Keeps v in
    let hit : r.0 ≡ true = ground (arith, a.decided) in
    let p = page_pop-Popped r.1 live a.remote a.local a.valid (a.ready hit) in
    let (i, lt, e) = blocks_place r.1.area r.1.block_size r.1.reserved _ p.carved in
    (
      hit,
      record {
        remote = a.remote;
        local = p.rest;
        valid = p.valid;
        fresh = p.fresh;
        aligned = rw e (aligned-add r.1.area i r.1.block_size a.valid.area_aligned a.valid.aligned);
        from = omega (arith, k.area, e);
        to = omega (
          arith,
          e,
          k.area,
          k.block_size,
          place-le i r.1.capacity r.1.block_size page_size (omega (arith, a.valid.started, lt))
              (capacity-mul a.valid),
        );
        index = i;
        place = e ∙ ap₂ (λ (start size : ℕ). start + i * size) k.area k.block_size;
      },
    )
