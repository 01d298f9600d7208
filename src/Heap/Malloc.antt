-- ===== src/Heap/Malloc.antt =====
-- `heap_malloc` where the active page of the class has room, and where the thread can have no heap.
use hmalloc.Common.{
  ℕ, zero, suc, ◌+◌, ◌≤◌, ◌<◌, ◌≡◌, refl, sym, ap, subst, ◌∙◌, ◌≢◌, inl, inr, Bool, true, false,
  List, arith, ◌==◌, ◌!=◌, if◌then◌else◌, Bool-cases, length, get_or,
}
use hmalloc.Common.{update_self}
use hmalloc.Run.{Run, done, fault}
use hmalloc.Constants.{small_size_max}
use hmalloc.SizeClass.{size_class, class_to_size}
use hmalloc.SizeClass.Least.{size_class-IsLeast}
use hmalloc.Segment.{Page}
use hmalloc.Page.{PageView, page_make_available, page_pop}
use hmalloc.Page.Invariant.{IsPage}
use hmalloc.Page.Allocate.{Allocated, page_pop-page_make_available}
use hmalloc.Os.{Kernel, os_alloc_aligned, os_page_size}
use hmalloc.Heap.{
  Heap, Build, Process, set_heap, view, put_view, head_of, pop_page, heap_bytes, heap_create,
  heap_get, find_page, serve_page, search_pages, malloc_fast, malloc_search, heap_malloc_slow,
  malloc_from, heap_malloc, wrap,
}

pub view-put_view : (p : ℕ) (v : PageView) (s : Process) → view p (put_view p v s) ≡ v
view-put_view p v s =
    ap (λ (q : Page). record { page = q; link = v.link }) (update_self s.page p v.page)

view-pop_page : (p : ℕ) (s : Process) → view p (pop_page p s).1 ≡ (page_pop (view p s)).1
unfolding pop_page
view-pop_page p s = view-put_view p (page_pop (view p s)).1 s

-- A page that has a block at hand serves it at once.
make_available-ready : (v : PageView) → v.free ≢ 0 → page_make_available v ≡ (true, v)
unfolding page_make_available
make_available-ready v some_free = let ready : (v.free != 0) ≡ true = ground arith in rw ready refl

-- The active page `p` of class `c` of heap `h` has room.
pub record HasRoom (b : Build) (h c p : ℕ) (live : List ℕ) (s : Process) : Type 0 where
  pub some_heap : h ≢ 0
  pub active : head_of h c s ≡ p
  pub real : p ≢ b.empty_page
  pub some_page : p ≢ 0
  pub owns_pages : 0 < s.pages_in_use
  pub remote : List ℕ
  pub local : List ℕ
  pub page : IsPage (view p s) live remote local
  pub room : length live < (view p s).capacity

-- The call returns a block of the page, with the page after it.
abbrev pub Gives : ℕ → PageView → List ℕ → Run (ℕ × Process) → Type 0
Gives p v live r =
    (blk : ℕ) × (s' : Process) × (r ≡ done (blk, s')) × Allocated v live (blk, view p s')

-- A step that changes the counters of the heap alone.
HasRoom-count :
    (b : Build) (h c p : ℕ) (live : List ℕ) (s : Process) (v : Heap)
    → v.pages ≡ (s.heaps h).pages
    → HasRoom b h c p live s
    → HasRoom b h c p live (set_heap h v s)
HasRoom-count b h c p live s v e r = record {
  some_heap = r.some_heap;
  active =
      ap (λ (q : Heap). get_or q.pages c 0) (update_self s.heaps h v)
      ∙ ap (λ q. get_or q c 0) e
      ∙ r.active;
  real = r.real;
  some_page = r.some_page;
  owns_pages = r.owns_pages;
  remote = r.remote;
  local = r.local;
  page = r.page;
  room = r.room;
}

-- So it does not matter whether the calls are counted.
Gives-counted :
    (b : Build) (h c p : ℕ) (live : List ℕ) (v : Heap) (x : Bool) (s : Process)
    (f : Process → Run (ℕ × Process))
    → v.pages ≡ (s.heaps h).pages
    → ((t : Process) → HasRoom b h c p live t → Gives p (view p t) live (f t))
    → HasRoom b h c p live s
    → Gives p (view p s) live (f (if x then set_heap h v s else s))
Gives-counted b h c p live v true s f e run r =
    run (set_heap h v s) (HasRoom-count b h c p live s v e r)
Gives-counted b h c p live v false s f e run r = run s r

find_page-first :
    (fuel p : ℕ) (s : Process)
    → 0 < fuel
    → p ≢ 0
    → (page_make_available (view p s)).0 ≡ true
    → find_page fuel p s ≡ done (p, put_view p (page_make_available (view p s)).1 s)
unfolding find_page
find_page-first zero p s pos nz ok = absurd (omega arith)
find_page-first (suc fuel) p s pos nz ok =
    let some_page : (p == 0) ≡ false = ground arith in rw (find_page, some_page, ok) refl

module _ (k : Kernel) (b : Build) (h c p : ℕ) (live : List ℕ) (s : Process)
    (r : HasRoom b h c p live s) where
  popped :
      ((page_make_available (view p s)).0 ≡ true)
      × Allocated (view p s) live (page_pop (page_make_available (view p s)).1)
  popped = page_pop-page_make_available (view p s) live r.remote r.local r.page r.room

  abbrev made : Process
  made = put_view p (page_make_available (view p s)).1 s

  made_page : Allocated (view p s) live ((pop_page p made).0, view p (pop_page p made).1)
  unfolding pop_page
  made_page =
      let e : view p made ≡ (page_make_available (view p s)).1 =
        view-put_view p (page_make_available (view p s)).1 s in
      subst (λ u. Allocated (view p s) live ((page_pop (view p made)).0, u))
        (sym (view-pop_page p made))
        (subst (λ u. Allocated (view p s) live ((page_pop u).0, (page_pop u).1)) (sym e) popped.1)

  malloc_search-Gives : Gives p (view p s) live (malloc_search k b h c s)
  unfolding malloc_search search_pages serve_page
  malloc_search-Gives =
      let real : (p == b.empty_page) ≡ false = ground (arith, r.real) in
      let some_page : (p == 0) ≡ false = ground (arith, r.some_page) in
      let same : (p == p) ≡ true = ground arith in
      let found = find_page-first s.pages_in_use p s r.owns_pages r.some_page popped.0 in
      (
        (pop_page p made).0,
        (pop_page p made).1,
        rw (r.active, real, found, some_page, same) refl,
        made_page,
      )

module _ (k : Kernel) (b : Build) (h c p : ℕ) (live : List ℕ) (s : Process)
    (r : HasRoom b h c p live s) where
  heap_malloc_slow-Gives : Gives p (view p s) live (heap_malloc_slow k b h c s)
  unfolding heap_malloc_slow
  heap_malloc_slow-Gives =
      let some_heap : (h == 0) ≡ false = ground (arith, r.some_heap) in
      rw some_heap (
        Gives-counted b h c p live (record (s.heaps h) { n_slow = wrap ((s.heaps h).n_slow + 1) })
          b.stats s (malloc_search k b h c) refl (malloc_search-Gives k b h c p live) r)

  -- The counter of the fast path leaves the page alone.
  fast_view :
      (x : Bool) (t : Process) (v : Heap) → view p (if x then set_heap h v t else t) ≡ view p t
  fast_view true t v = refl
  fast_view false t v = refl

  malloc_fast-Gives : Gives p (view p s) live (malloc_fast k b h c s)
  unfolding malloc_fast pop_page
  malloc_fast-Gives = elim (Bool-cases ((s.page p).free != 0)) [
    | inl ready ↦
        let t = (pop_page p s).1 in
        let v = record (t.heaps h) { n_fast = wrap ((t.heaps h).n_fast + 1) } in
        let stays = make_available-ready (view p s) (λ e. ground (arith, ready, e)) in
        let a : Allocated (view p s) live (page_pop (view p s)) =
          subst (λ (q : Bool × PageView). Allocated (view p s) live (page_pop q.1)) stays
            (popped k b h c p live s r).1 in
        let seen : view p (if b.stats then set_heap h v t else t) ≡ (page_pop (view p s)).1 =
          fast_view b.stats t v ∙ view-pop_page p s in
        (
          (pop_page p s).0,
          (if b.stats then set_heap h v t else t),
          rw (r.active, ready) refl,
          subst (λ u. Allocated (view p s) live ((page_pop (view p s)).0, u)) (sym seen) a,
        )
    | inr empty ↦ rw (r.active, empty) heap_malloc_slow-Gives
  ]

-- Where the active page of the class has room, a call of `heap_malloc` returns, by the fast path or the
-- slow one: a block of that page that was not live, is aligned to 16 bytes and lies whole inside the
-- page, with at least as many bytes as were asked for, and the page accounts for it as live.
pub heap_malloc-Allocated :
    (k : Kernel) (b : Build) (size : ℕ) (live : List ℕ) (s : Process)
    → 0 < size
    → size ≤ small_size_max
    → HasRoom b s.t_heap (size_class size) (head_of s.t_heap (size_class size) s) live s
    → (s.page (head_of s.t_heap (size_class size) s)).block_size ≡ class_to_size (size_class size)
    → let p = head_of s.t_heap (size_class size) s in
      (blk : ℕ) × (s' : Process) × (heap_malloc k b size s ≡ done (blk, s'))
      × Allocated (view p s) live (blk, view p s')
      × (size ≤ (s.page p).block_size)
unfolding heap_malloc heap_get malloc_from
heap_malloc-Allocated k b size live s pos small r sized =
    let h = s.t_heap in
    let c = size_class size in
    let p = head_of h c s in
    let here : (h != 0) ≡ true = ground (arith, r.some_heap) in
    let some_heap : (h == 0) ≡ false = ground (arith, r.some_heap) in
    let (blk, s', run, a) =
      Gives-counted b h c p live (record (s.heaps h) { n_malloc = wrap ((s.heaps h).n_malloc + 1) })
        b.stats s (malloc_fast k b h c) refl (malloc_fast-Gives k b h c p live) r in
    (
      blk,
      s',
      rw (here, some_heap) run,
      a,
      omega (arith, sized, (size_class-IsLeast size pos small).fits),
    )

-- Where the thread has no heap and the kernel has no memory for one, the call does not return null: it
-- reads through a null pointer.
pub heap_malloc-fault :
    (k : Kernel) (b : Build) (size : ℕ) (s : Process)
    → s.t_heap ≡ 0
    → (os_alloc_aligned k (heap_bytes k) (os_page_size k) s.os).0 ≡ 0
    → heap_malloc k b size s ≡ fault
unfolding heap_malloc heap_get heap_create malloc_from
heap_malloc-fault k b size s no_heap no_memory =
    let none_yet : (s.t_heap != 0) ≡ false = ground arith in
    let failed : ((os_alloc_aligned k (heap_bytes k) (os_page_size k) s.os).0 == 0) ≡ true =
      ground arith in
    rw (none_yet, failed) refl
