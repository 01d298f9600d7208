-- ===== src/Page/Collect.antt =====
-- `page_collect`: the owner takes the blocks that other threads have freed.
use hmalloc.Common.{
  ℕ, ◌+◌, ◌≤◌, ◌≡◌, refl, true, false, List, [], ◌∷◌, ◌++◌, arith, ◌==◌, length, length-append,
  update_ne, subst, ◌<◌, ◌≢◌, some,
}
use hmalloc.Common.Multiset.{count, count-append}
use hmalloc.Page.Chain.{IsLast, last_block-IsLast}
use hmalloc.Page.Invariant.{IsPage, once, capacity-le}
use hmalloc.Page.{PageView, page_collect, max_blocks, splice, u32_sub, page_collect_run}

splice-IsPage :
    (v : PageView) (live local : List ℕ) (x : ℕ) (xs : List ℕ) (r : ℕ × ℕ)
    → IsPage v live (x ∷ xs) local
    → IsLast v.link v.free v.thread_free (x ∷ xs) local 1 r
    → IsPage (splice v v.thread_free r) live [] ((x ∷ xs) ++ local)
unfolding splice
splice-IsPage v live local x xs (tail, n) w l =
    let small : v.used + length local ≤ 4096 = omega (arith, w.total, w.started, capacity-le w) in
    let back : u32_sub v.used n ≡ length live = omega (arith, w.counted, l.counted) in
    record {
      sized = w.sized;
      aligned = w.aligned;
      room = w.room;
      started = w.started;
      placed = w.placed;
      area_aligned = w.area_aligned;
      area_fits = w.area_fits;
      local_chain = l.joined;
      remote_chain = refl;
      counted = omega (arith, back);
      total = omega (arith, back, w.total, w.counted, length-append (x ∷ xs) local);
      split = λ a. omega (arith, w.split a, count-append a (x ∷ xs) local);
    }

-- Where the page invariant holds, collecting ends. It hands every block of the remote list to the local
-- list, loses none and duplicates none, and afterwards `used` counts the live blocks alone.
pub page_collect-IsPage :
    (v : PageView) (live remote local : List ℕ)
    → IsPage v live remote local
    → IsPage (page_collect v) live [] (remote ++ local)
      × ((page_collect v).used ≡ length live)
      × (page_collect_run v ≡ some (page_collect v))
unfolding page_collect page_collect_run
page_collect-IsPage v live [] local w =
    let empty : (v.thread_free == 0) ≡ true = ground (arith, w.remote_chain) in
    rw (empty) (w, omega (arith, w.counted), refl)
page_collect-IsPage v live (x ∷ xs) local w =
    let full : (v.thread_free == 0) ≡ false = ground (arith, w.remote_chain) in
    let small = capacity-le w in
    let (r, run, l) =
      last_block-IsLast max_blocks v.link v.thread_free v.free x xs local 1
        (omega (arith, w.total, w.counted, w.started, small))
        (omega (arith, w.total, w.counted, w.started, small)) (λ a. omega (arith, once w a))
        w.remote_chain w.local_chain in
    let s = splice-IsPage v live local x xs r w l in
    rw (full, run) (s, omega (arith, s.counted), refl)

-- Collecting writes the link of one collected block alone.
pub page_collect-link :
    (v : PageView) (live remote local : List ℕ)
    → IsPage v live remote local
    → (a : ℕ) → 0 < count a live
    → (page_collect v).link a ≡ v.link a
unfolding page_collect page_collect_run splice
page_collect-link v live [] local w a h =
    let empty : (v.thread_free == 0) ≡ true = ground (arith, w.remote_chain) in rw (empty) refl
page_collect-link v live (x ∷ xs) local w a h =
    let full : (v.thread_free == 0) ≡ false = ground (arith, w.remote_chain) in
    let small = capacity-le w in
    let (r, run, l) =
      last_block-IsLast max_blocks v.link v.thread_free v.free x xs local 1
        (omega (arith, w.total, w.counted, w.started, small))
        (omega (arith, w.total, w.counted, w.started, small)) (λ a. omega (arith, once w a))
        w.remote_chain w.local_chain in
    rw (full, run) (update_ne v.link _ a v.free (λ e. tail_apart _ l.inside e))
  where
    tail_apart : (t : ℕ) → 0 < count t (x ∷ xs) → t ≢ a
    tail_apart t inside e = omega (arith, once w a, subst (λ t. 0 < count t (x ∷ xs)) e inside, h)
