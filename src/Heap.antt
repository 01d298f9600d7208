-- ===== src/Heap.antt =====
-- src/heap.h and src/heap.cpp: the heap of a thread over the central heap. `t_heap` is that of the
-- calling thread. The heaps and pages stand in memory by address.
pub mod Exit
pub mod Pages
pub mod Rotate
pub mod Malloc
pub mod Records
pub mod Search
pub mod Refill
pub mod Return
pub mod Free
pub mod Tests
use hmalloc.Common.{
  ℕ, zero, suc, ◌+◌, ◌^◌, Bool, true, false, ◌||◌, List, ◌==◌, ◌!=◌, if◌then◌else◌, get_or, set,
  replicate, update,
}
use hmalloc.Run.{Run, done, fault, running, ◌>>=◌, lift}
use hmalloc.Common.Word.{wrap, align_up}
use hmalloc.SizeClass.{size_class, class_to_size, num_size_classes}
use hmalloc.Segment.{Page, segment_of, page_of}
use hmalloc.Page.{PageView, page_collect, page_make_available, page_pop, local_free, remote_free}
use hmalloc.Os.{Kernel, os_alloc_aligned, os_free, os_page_size}
use hmalloc.Central.{World, set_page, central_release_page, central_abandon_page}
use hmalloc.Central.Acquire.{central_acquire_page}

pub record Heap : Type 0 where
  pub pages : List ℕ
  pub n_malloc : ℕ
  pub n_fast : ℕ
  pub n_slow : ℕ
  pub reg_next : ℕ

-- How the library is built and loaded: whether `HMALLOC_STATS` is defined, and the addresses of
-- `g_empty_page` and `g_abandon_tag`.
pub record Build : Type 0 where
  pub stats : Bool
  pub empty_page : ℕ
  pub abandon_tag : ℕ

pub record Process : Type 0 where
  pub world : World
  pub open world use *
  pub heaps : ℕ → Heap
  pub g_registry : ℕ
  pub t_heap : ℕ

abbrev pub set_heap : ℕ → Heap → Process → Process
set_heap h v s = record s { heaps = update s.heaps h v }

abbrev pub with_page : ℕ → Page → Process → Process
with_page p v s = record s { world = set_page p v s.world }

abbrev pub view : ℕ → Process → PageView
view pg s = record { page = s.page pg; link = s.link }

-- An operation of Page.antt on the page at `pg`.
abbrev pub put_view : ℕ → PageView → Process → Process
put_view pg v s = record s {
  world = record s.world { page = update s.page pg v.page; link = v.link };
}

-- `h->pages[c]`
abbrev pub head_of : ℕ → ℕ → Process → ℕ
head_of h c s = get_or (s.heaps h).pages c 0

abbrev pub set_head : ℕ → ℕ → ℕ → Process → Process
set_head h c p s = set_heap h (record (s.heaps h) { pages = set (s.heaps h).pages c p }) s

unfoldable pub pop_page : ℕ → Process → ℕ × Process
pop_page pg s = let (b, v) = page_pop (view pg s) in (b, put_view pg v s)

-- `if (p->prev != nullptr) p->prev->next = p->next`
unfoldable pub skip_forward : ℕ → Process → Process
skip_forward p s =
    let before = (s.page p).prev in
    if before != 0
    then with_page before (record (s.page before) { next = (s.page p).next }) s
    else s

-- `if (p->next != nullptr) p->next->prev = p->prev`
unfoldable pub skip_backward : ℕ → Process → Process
skip_backward p s =
    let after = (s.page p).next in
    if after != 0 then with_page after (record (s.page after) { prev = (s.page p).prev }) s else s

-- `if (q != nullptr) q->prev = p`
unfoldable pub set_prev : ℕ → ℕ → Process → Process
set_prev q p s = if q != 0 then with_page q (record (s.page q) { prev = p }) s else s

unfoldable pub heap_rotate_to_front : ℕ → ℕ → ℕ → Process → Process
heap_rotate_to_front h c p s₀ =
    let head = head_of h c s₀ in
    let s₁ = skip_backward p (skip_forward p s₀) in
    let s₂ = with_page p (record (s₁.page p) { prev = 0; next = head }) s₁ in
    if p == head then s₀ else set_head h c p (set_prev head p s₂)

-- A heap takes more than 256 bytes of an address space of 2 ^ 64.
abbrev pub max_heaps : ℕ
max_heaps = 2 ^ 56

abbrev pub sizeof_heap : ℕ
sizeof_heap = 320

unfoldable pub heap_bytes : Kernel → ℕ
heap_bytes k = align_up sizeof_heap (os_page_size k)

unfoldable pub heap_create : Kernel → Build → Process → ℕ × Process
heap_create k b s =
    let (mem, os) = os_alloc_aligned k (heap_bytes k) (os_page_size k) s.os in
    let s₁ = record s { world = record s.world { os = os } } in
    if mem == 0 then (0, s₁) else (
      mem,
      record s₁ {
        heaps = update s₁.heaps mem (record {
          pages = replicate num_size_classes b.empty_page;
          n_malloc = 0;
          n_fast = 0;
          n_slow = 0;
          reg_next = s₁.g_registry;
        });
        g_registry = mem;
        t_heap = mem;
      },
    )

unfoldable pub heap_get : Kernel → Build → Process → ℕ × Process
heap_get k b s = if s.t_heap != 0 then (s.t_heap, s) else heap_create k b s

-- The loop of `heap_malloc_slow` from page `p` on: the page that serves, or 0.
unfoldable pub find_page : ℕ → ℕ → Process → Run (ℕ × Process)
find_page zero p s = if p == 0 then done (0, s) else running
find_page (suc fuel) p s =
    let (ok, v) = page_make_available (view p s) in
    let s₁ = put_view p v s in
    elim (p == 0) [
      | true ↦ done (0, s)
      | false ↦ elim ok [ true ↦ done (p, s₁) | false ↦ find_page fuel (s₁.page p).next s₁ ]
    ]

-- The end of `heap_malloc_slow`: the fresh page `np` becomes the head of its list.
unfoldable pub use_page : Build → ℕ → ℕ → ℕ → ℕ → Process → ℕ × Process
use_page b h c head np s₀ =
    let next = if head != b.empty_page then head else 0 in
    let s₁ = with_page np (record (s₀.page np) { prev = 0; next = next }) s₀ in
    let s₂ = set_head h c np (set_prev next np s₁) in
    let (ok, v) = page_make_available (view np s₂) in
    let s₃ = put_view np v s₂ in if ok then pop_page np s₃ else (0, s₃)

unfoldable pub fresh_page : Kernel → Build → ℕ → ℕ → ℕ → Process → Run (ℕ × Process)
fresh_page k b h c head s = do
  (np, w) ← lift (central_acquire_page k h c (class_to_size c) s.world)
  let s₁ = record s { world = w }
  done (if np == 0 then (0, s₁) else use_page b h c head np s₁)

-- A page of the list that can serve moves to its front.
unfoldable pub serve_page : ℕ → ℕ → ℕ → ℕ → Process → ℕ × Process
serve_page h c head p s = pop_page p (if p == head then s else heap_rotate_to_front h c p s)

unfoldable pub search_pages : Build → ℕ → Process → Run (ℕ × Process)
search_pages b head s =
    if head == b.empty_page then done (0, s) else find_page s.pages_in_use head s

unfoldable pub malloc_search : Kernel → Build → ℕ → ℕ → Process → Run (ℕ × Process)
malloc_search k b h c s =
    let head = head_of h c s in
    search_pages b head s >>= λ (r : ℕ × Process).
    if r.0 == 0 then fresh_page k b h c head r.1 else done (serve_page h c head r.0 r.1)

unfoldable pub heap_malloc_slow : Kernel → Build → ℕ → ℕ → Process → Run (ℕ × Process)
heap_malloc_slow k b h c s =
    let v = s.heaps h in
    if h == 0
    then done (0, s)
    else malloc_search k b h c
        (if b.stats then set_heap h (record v { n_slow = wrap (v.n_slow + 1) }) s else s)

-- The fast path of `heap_malloc`, and where it misses.
unfoldable pub malloc_fast : Kernel → Build → ℕ → ℕ → Process → Run (ℕ × Process)
malloc_fast k b h c s =
    let p = head_of h c s in
    let (blk, s₁) = pop_page p s in
    let v = s₁.heaps h in
    if (s.page p).free != 0
    then done
        (blk, if b.stats then set_heap h (record v { n_fast = wrap (v.n_fast + 1) }) s₁ else s₁)
    else heap_malloc_slow k b h c s

-- `heap_malloc` once it has asked for a heap: a read of `h->pages` through a null pointer is a fault.
unfoldable pub malloc_from : Kernel → Build → ℕ → ℕ → Process → Run (ℕ × Process)
malloc_from k b h c s =
    let v = s.heaps h in
    if h == 0
    then fault
    else malloc_fast k b h c
        (if b.stats then set_heap h (record v { n_malloc = wrap (v.n_malloc + 1) }) s else s)

unfoldable pub heap_malloc : Kernel → Build → ℕ → Process → Run (ℕ × Process)
heap_malloc k b size s = let (h, s₁) = heap_get k b s in malloc_from k b h (size_class size) s₁

unfoldable pub heap_on_page_empty : ℕ → Process → Run Process
heap_on_page_empty pg s =
    let v = s.page pg in
    let s₁ = with_page v.prev (record (s.page v.prev) { next = v.next }) s in
    let s₂ = skip_backward pg s₁ in
    if head_of v.owner v.size_class s == pg
    then done s
    else if v.prev == 0
    then fault
    else (do w ← lift (central_release_page pg s₂.world); done (record s₂ { world = w }))

unfoldable pub heap_free : ℕ → Process → Run Process
heap_free p s =
    let pg = page_of (segment_of p) p in
    let s₁ = put_view pg (local_free p (view pg s)) s in
    if (s.page pg).owner == s.t_heap
    then (if (s₁.page pg).used == 0 then heap_on_page_empty pg s₁ else done s₁)
    else done (put_view pg (remote_free p (view pg s)) s)
