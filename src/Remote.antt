-- ===== src/Remote.antt =====
-- src/heap.cpp: the threads that free into one page by `heap_free_remote`, interleaved with each other
-- and with the owner of the page, one access to shared memory at a time.
pub mod Invariant
pub mod Threads
pub mod Owner
pub mod Safety
pub mod Progress
mod Tests
use hmalloc.Common.{
  ℕ, zero, suc, ◌+◌, ◌-◌, ◌*◌, ◌/◌, ◌%◌, ◌^◌, ◌≤◌, ◌<◌, min, max, bit_and, ◌≡◌, refl, sym, ap, ap₂,
  subst, ◌∙◌, ◌≢◌, ◌↔◌, ◌⊎◌, inl, inr, Bool, true, false, not, ◌&&◌, ◌||◌, Option, none, some, List,
  [], ◌∷◌, ◌++◌, map, arith, dec_lt, dec_le, ℕ_discrete, ltb, leb, ◌==◌, ◌!=◌, if◌then◌else◌, tests,
  Bool-cases, Option-cases, length, get_or, set, replicate, update,
}
use hmalloc.Common.Multiset.{count, erase}
use hmalloc.Page.{PageView, page_collect, page_extend, page_pop, local_free}

-- Where a thread stands in `heap_free_remote`, with the block that it frees and `head`.
pub data Pc : Type 0 where
  idle : Pc
  freeing : ℕ → Pc
  loaded : ℕ → ℕ → Pc
  stored : ℕ → ℕ → Pc

-- The block that the thread is freeing, or 0.
abbrev pub block_of : Pc → ℕ
block_of idle = 0
block_of (freeing b) = b
block_of (loaded b head) = b
block_of (stored b head) = b

-- `taken` is what the owner's exchange in `page_collect` has returned and not yet joined to its list, or
-- 0. `live` are the blocks that the program holds, those on their way into the list included.
pub record Shared : Type 0 where
  pub view : PageView
  pub open view use *
  pub taken : ℕ
  pub pc : ℕ → Pc
  pub live : List ℕ

abbrev pub with_list : ℕ → PageView → PageView
with_list t v = record v { page = record v.page { thread_free = t } }

abbrev pub go : ℕ → Pc → Shared → Shared
go i p s = record s { pc = update s.pc i p }

-- `page_collect` after its exchange: the list that it got is `taken`, and the shared list goes on.
unfoldable pub join_taken : Shared → PageView
join_taken s = with_list s.thread_free (page_collect (with_list s.taken s.view))

-- One step of some thread `i`, or of the owner.
pub data Step (s s' : Shared) : Type 0 where
  begin :
      (i b : ℕ)
      → s.pc i ≡ idle
      → 0 < count b s.live
      → ((j : ℕ) → block_of (s.pc j) ≢ b)
      → s' ≡ go i (freeing b) s
      → Step s s'
  load : (i b : ℕ) → s.pc i ≡ freeing b → s' ≡ go i (loaded b s.thread_free) s → Step s s'
  -- `b->next = head`
  store :
      (i b head : ℕ)
      → s.pc i ≡ loaded b head
      → s'
        ≡ go i (stored b head) (record s { view = record s.view { link = update s.link b head } })
      → Step s s'
  -- The compare-exchange succeeds.
  swap :
      (i b head : ℕ)
      → s.pc i ≡ stored b head
      → s.thread_free ≡ head
      → s' ≡ go i idle (record s { view = with_list b s.view; live = erase b s.live })
      → Step s s'
  -- It fails, as a weak one also may with the expected value there, and loads the list again.
  retry : (i b head : ℕ) → s.pc i ≡ stored b head → s' ≡ go i (loaded b s.thread_free) s → Step s s'
  -- The owner: `thread_free.exchange(nullptr)`, and what follows it.
  exchange :
      s.taken ≡ 0 → s' ≡ record s { view = with_list 0 s.view; taken = s.thread_free } → Step s s'
  join : s.taken ≢ 0 → s' ≡ record s { view = join_taken s; taken = 0 } → Step s s'
  extend :
      s.taken ≡ 0
      → s.reserved < s.capacity
      → s' ≡ record s { view = page_extend s.view }
      → Step s s'
  pop :
      s.taken ≡ 0
      → s.free ≢ 0
      → s' ≡ record s { view = (page_pop s.view).1; live = (page_pop s.view).0 ∷ s.live }
      → Step s s'
  own_free :
      (b : ℕ)
      → s.taken ≡ 0
      → 0 < count b s.live
      → ((j : ℕ) → block_of (s.pc j) ≢ b)
      → s' ≡ record s { view = local_free b s.view; live = erase b s.live }
      → Step s s'

pub data Reach (s : Shared) : Shared → Type 0 where
  here : Reach s s
  later : {t u : Shared} → Reach s t → Step t u → Reach s u

-- One choice among the steps of thread `i`: its compare-exchange fails only where the list has changed.
-- `Step.retry` also has the failures that `compare_exchange_weak` is free to give.
unfoldable pub own_step : ℕ → Pc → Shared → Shared
own_step i idle s = s
own_step i (freeing b) s = go i (loaded b s.thread_free) s
own_step i (loaded b head) s =
    go i (stored b head) (record s { view = record s.view { link = update s.link b head } })
own_step i (stored b head) s =
    if s.thread_free == head
    then go i idle (record s { view = with_list b s.view; live = erase b s.live })
    else go i (loaded b s.thread_free) s

unfoldable pub run_alone : ℕ → ℕ → Shared → Shared
run_alone zero i s = s
run_alone (suc n) i s = run_alone n i (own_step i (s.pc i) s)
