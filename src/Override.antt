-- ===== src/Override.antt =====
-- src/override.cpp: the standard entry points. What `dlsym` finds of the next allocator is a parameter:
-- its functions on a state of its own, or nothing.
pub mod Routing
mod Tests
use hmalloc.Common.{ℕ, ◌-◌, bit_and, Bool, ◌||◌, Option, none, some, ltb, ◌==◌, ◌!=◌, if◌then◌else◌}
use hmalloc.Run.{Run, done, ◌>>=◌, lift}
use hmalloc.Segment.{region_base}
use hmalloc.Os.{Kernel, os_page_size}
use hmalloc.Registry.{region_owns}
use hmalloc.Heap.{Build}
use hmalloc.Api.{Api, hm_malloc, hm_free, hm_calloc, hm_realloc, hm_usable_size, hm_aligned_alloc}

-- `real<…>(…)`, for a state `F` of the next allocator
pub record Next (F : Type 0) : Type 0 where
  pub free : Option (ℕ → F → F)
  pub realloc : Option (ℕ → ℕ → F → ℕ × F)
  pub usable : Option (ℕ → F → ℕ)

-- The program's memory of both allocators.
pub record Both (F : Type 0) : Type 0 where
  pub ours : Api
  pub next : F

pub data Status : Type 0 where
  ok einval enomem : Status

-- What `operator new` does.
pub data New : Type 0 where
  block : ℕ → New
  bad_alloc : New

unfoldable pub owns : ℕ → Api → Run Bool
owns p s = lift (region_owns (region_base p) s.registry)

-- An operation of ours leaves the next allocator alone.
abbrev pub keep_next : {F A : Type 0} → F → Run (A × Api) → Run (A × Both F)
keep_next f r = r >>= λ x. done (x.0, record { ours = x.1; next = f })

abbrev pub keep_next_free : {F : Type 0} → F → Run Api → Run (Both F)
keep_next_free f r = r >>= λ s. done (record { ours = s; next = f })

module _ {F : Type 0} where
  abbrev pub next_free : Option (ℕ → F → F) → ℕ → Both F → Both F
  next_free none p s = s
  next_free (some rf) p s = record s { next = rf p s.next }

  abbrev pub next_realloc : Option (ℕ → ℕ → F → ℕ × F) → ℕ → ℕ → Both F → ℕ × Both F
  next_realloc none p size s = (0, s)
  next_realloc (some rr) p size s = let (q, f) = rr p size s.next in (q, record s { next = f })

  abbrev pub next_usable : Option (ℕ → F → ℕ) → ℕ → Both F → ℕ
  next_usable none p s = 0
  next_usable (some ru) p s = ru p s.next

  unfoldable pub checked_free : Next F → ℕ → Both F → Run (Both F)
  checked_free n p s =
      if p == 0
      then done s
      else (owns p s.ours >>= λ own.
          if own then keep_next_free s.next (hm_free p s.ours) else done (next_free n.free p s))

  unfoldable pub checked_realloc : Kernel → Build → Next F → ℕ → ℕ → Both F → Run (ℕ × Both F)
  checked_realloc k b n p size s =
      if p == 0
      then keep_next s.next (hm_malloc k b size s.ours)
      else (owns p s.ours >>= λ own.
          if own
          then keep_next s.next (hm_realloc k b p size s.ours)
          else done (next_realloc n.realloc p size s))

  unfoldable pub checked_usable : Next F → ℕ → Both F → Run ℕ
  checked_usable n p s =
      if p == 0
      then done 0
      else (owns p s.ours >>= λ own.
          done (if own then hm_usable_size p s.ours else next_usable n.usable p s))

-- The end of `do_posix_memalign`: the status, and what `*out` becomes.
abbrev pub memalign_result : Option ℕ → ℕ × Api → Status × Option ℕ × Api
memalign_result old (p, s) = if p == 0 then (enomem, old, s) else (ok, some p, s)

-- `out` is the value of `*out`, or nothing for a null `out`; `sizeof(void *)` is 8.
unfoldable pub do_posix_memalign :
    Kernel → Build → Option ℕ → ℕ → ℕ → Api → Run (Status × Option ℕ × Api)
do_posix_memalign k b none alignment size s = done (einval, none, s)
do_posix_memalign k b (some old) alignment size s =
    if ltb alignment 8 || bit_and alignment (alignment - 1) != 0
    then done (einval, some old, s)
    else (hm_aligned_alloc k b alignment (if size != 0 then size else 1) s >>= λ r.
        done (memalign_result (some old) r))

unfoldable pub do_valloc : Kernel → Build → ℕ → Api → Run (ℕ × Api)
do_valloc k b size s = hm_aligned_alloc k b (os_page_size k) size s

abbrev pub new_result : ℕ × Api → New × Api
new_result (p, s) = (if p == 0 then bad_alloc else block p, s)

unfoldable pub operator_new : Kernel → Build → ℕ → Api → Run (New × Api)
operator_new k b size s =
    hm_malloc k b (if size != 0 then size else 1) s >>= λ r. done (new_result r)

unfoldable pub operator_new_nothrow : Kernel → Build → ℕ → Api → Run (ℕ × Api)
operator_new_nothrow k b size s = hm_malloc k b (if size != 0 then size else 1) s

unfoldable pub operator_new_aligned : Kernel → Build → ℕ → ℕ → Api → Run (New × Api)
operator_new_aligned k b size alignment s =
    hm_aligned_alloc k b alignment (if size != 0 then size else 1) s >>= λ r. done (new_result r)

-- The C entry points of an ELF library that return a pointer. Of the others, `free` and every form of
-- `operator delete` are `checked_free`, `posix_memalign` is `do_posix_memalign`, and
-- `malloc_usable_size` is `checked_usable`.
pub data Call : Type 0 where
  malloc : ℕ → Call
  calloc : ℕ → ℕ → Call
  realloc : ℕ → ℕ → Call
  aligned_alloc : ℕ → ℕ → Call
  memalign : ℕ → ℕ → Call
  valloc : ℕ → Call

unfoldable pub entry : {F : Type 0} → Kernel → Build → Next F → Call → Both F → Run (ℕ × Both F)
entry k b n (malloc size) s = keep_next s.next (hm_malloc k b size s.ours)
entry k b n (calloc nmemb size) s = keep_next s.next (hm_calloc k b nmemb size s.ours)
entry k b n (realloc p size) s = checked_realloc k b n p size s
entry k b n (aligned_alloc alignment size) s =
    keep_next s.next (hm_aligned_alloc k b alignment size s.ours)
entry k b n (memalign alignment size) s =
    keep_next s.next (hm_aligned_alloc k b alignment size s.ours)
entry k b n (valloc size) s = keep_next s.next (do_valloc k b size s.ours)
