-- ===== src/Heap/Exit.antt =====
-- src/heap.cpp: the end of a thread, and the sum of the counters of all heaps.
pub mod Removal
pub mod Pages
use hmalloc.Common.{ℕ, zero, suc, ◌+◌, true, false, ◌||◌, ◌==◌, if◌then◌else◌, update}
use hmalloc.Run.{Run, done, running, ◌>>=◌, lift}
use hmalloc.Common.Word.{wrap}
use hmalloc.SizeClass.{num_size_classes}
use hmalloc.Page.{page_collect_run}
use hmalloc.Os.{Kernel, os_free}
use hmalloc.Central.{World, central_release_page, central_abandon_page}
use hmalloc.Heap.{Build, Process, set_heap, head_of, set_head, max_heaps, heap_bytes}

-- What becomes of page `p`.
unfoldable pub destroy_page : Build → ℕ → World → Run World
destroy_page b p w = lift (page_collect_run (record { page = w.page p; link = w.link })) >>= λ v.
    let w₁ = record w { page = update w.page p v.page; link = v.link } in
    if v.used == 0
    then lift (central_release_page p w₁)
    else done (central_abandon_page b.abandon_tag p w₁)

-- The loop over the pages of one class, from page `p` on.
unfoldable pub destroy_pages : Build → ℕ → ℕ → World → Run World
destroy_pages b zero p w = if p == 0 || p == b.empty_page then done w else running
destroy_pages b (suc fuel) p w = elim (p == 0 || p == b.empty_page) [
  | true ↦ done w
  | false ↦ destroy_page b p w >>= destroy_pages b fuel (w.page p).next
]

-- The loop over the classes from `c` on, with those that are left.
unfoldable pub destroy_classes : Build → ℕ → ℕ → ℕ → Process → Run Process
destroy_classes b zero c h s = done s
destroy_classes b (suc left) c h s =
    let head = head_of h c s in
    destroy_pages b s.pages_in_use head s.world >>= λ w.
    destroy_classes b left (c + 1) h
      (if head == b.empty_page then s else set_head h c b.empty_page (record s { world = w }))

-- `*pp`, where `pp` points at the link of the heap `at`, or at `g_registry` for 0.
unfoldable pub heap_at : ℕ → Process → ℕ
heap_at at s = if at == 0 then s.g_registry else (s.heaps at).reg_next

-- The loop that takes `h` out of the list of heaps.
unfoldable pub remove_heap : ℕ → ℕ → ℕ → Process → Run Process
remove_heap zero at h s = if heap_at at s == 0 then done s else running
remove_heap (suc fuel) at h s =
    let this = heap_at at s in
    let after = (s.heaps h).reg_next in
    elim (this == 0) [
      | true ↦ done s
      | false ↦ elim (this == h) [
        | true ↦ done (
            if at == 0
            then record s { g_registry = after }
            else set_heap at (record (s.heaps at) { reg_next = after }) s)
        | false ↦ remove_heap fuel this h s
      ]
    ]

unfoldable pub heap_destroy : Kernel → Build → ℕ → Process → Run Process
heap_destroy k b h s₀ = do
  s₁ ← destroy_classes b num_size_classes 0 h s₀
  s₂ ← remove_heap max_heaps 0 h s₁
  done (record s₂ { world = record s₂.world { os = os_free h (heap_bytes k) s₂.os } })

-- The destructor that runs when the thread ends.
unfoldable pub thread_exit : Kernel → Build → Process → Run Process
thread_exit k b s =
    if s.t_heap == 0
    then done s
    else heap_destroy k b s.t_heap s >>= λ s₁. done (record s₁ { t_heap = 0 })

pub record Counts : Type 0 where
  pub mallocs : ℕ
  pub fast : ℕ
  pub slow : ℕ

-- The loop over the heaps from `h` on.
unfoldable pub sum_counts : ℕ → ℕ → Counts → Process → Run Counts
sum_counts zero h n s = if h == 0 then done n else running
sum_counts (suc fuel) h n s =
    let v = s.heaps h in
    elim (h == 0) [
      | true ↦ done n
      | false ↦
          sum_counts fuel v.reg_next
            (record {
              mallocs = wrap (n.mallocs + v.n_malloc);
              fast = wrap (n.fast + v.n_fast);
              slow = wrap (n.slow + v.n_slow);
            })
            s
    ]

unfoldable pub heap_global_counts : Process → Run Counts
heap_global_counts s =
    sum_counts max_heaps s.g_registry (record { mallocs = 0; fast = 0; slow = 0 }) s
