-- ===== src/Remote/Tests.antt =====
-- Two threads free the two blocks of a page at once.
use hmalloc.Common.{ℕ, ◌+◌, ◌^◌, ◌≡◌, refl, true, [], ◌∷◌, arith, update}
use hmalloc.Page.{PageView}
use hmalloc.Remote.{
  idle, freeing, loaded, stored, Shared, go, with_list, begin, load, store, swap, retry, Reach,
  here, later, run_alone,
}
use hmalloc.Common.Multiset.{erase}
use hmalloc.Remote.Invariant.{IsShared}
use hmalloc.Remote.Safety.{Reach-IsShared, Freed, Step-Freed}
use hmalloc.Remote.Progress.{run_alone-idle}

abbrev first : ℕ
first = 2 ^ 32 + 2 ^ 16

abbrev second : ℕ
second = first + 4096

abbrev full_page : PageView
full_page = record {
  page = record {
    free = 0;
    used = 2;
    capacity = 16;
    reserved = 2;
    block_size = 4096;
    size_class = 27;
    in_use = true;
    owner = 4096;
    next = 0;
    prev = 0;
    area = first;
    thread_free = 0;
  };
  link = λ _. 0;
}

abbrev start : Shared
start = record { view = full_page; taken = 0; pc = λ _. idle; live = second ∷ first ∷ [] }

start-IsShared : IsShared start
start-IsShared = record {
  remote = [];
  got = [];
  local = [];
  page = record {
    sized = omega arith;
    aligned = refl;
    room = refl;
    started = omega arith;
    placed = omega arith;
    area_aligned = refl;
    area_fits = omega arith;
    local_chain = refl;
    remote_chain = refl;
    counted = refl;
    total = refl;
    split = λ a. omega arith;
  };
  chain = refl;
  held = λ i h. absurd (h refl);
  apart = λ i j ne h. absurd (h refl);
  linked = λ i. tt;
}

-- Both threads load the empty list and link their blocks to it; the first one wins.
abbrev both_begun : Shared
both_begun = go 1 (freeing second) (go 0 (freeing first) start)

abbrev both_loaded : Shared
both_loaded = go 1 (loaded second 0) (go 0 (loaded first 0) both_begun)

abbrev linked_at : ℕ → ℕ → Shared → Shared
linked_at i b s = go i (stored b 0) (record s { view = record s.view { link = update s.link b 0 } })

abbrev both_stored : Shared
both_stored = linked_at 1 second (linked_at 0 first both_loaded)

abbrev first_done : Shared
first_done = go 0 idle (record both_stored {
  view = with_list first both_stored.view;
  live = erase first both_stored.live;
})

abbrev second_again : Shared
second_again = go 1 (loaded second first) first_done

to_both_stored : Reach start both_stored
to_both_stored =
    later
      (later
        (later
          (later
            (later (later here (begin 0 first refl (omega arith) (λ j. omega arith) refl))
              (begin 1 second refl (omega arith) (λ j. ground arith) refl))
            (load 0 first refl refl))
          (load 1 second refl refl))
        (store 0 first 0 refl refl))
      (store 1 second 0 refl refl)

race : Reach start second_again
race = later (later to_both_stored (swap 0 first 0 refl refl refl)) (retry 1 second 0 refl refl)

Reach-IsShared_example : IsShared second_again
Reach-IsShared_example = Reach-IsShared start second_again race start-IsShared

both_stored-IsShared : IsShared both_stored
both_stored-IsShared = Reach-IsShared start both_stored to_both_stored start-IsShared

abbrev swapped_first : Shared
swapped_first = go 0 idle (record both_stored {
  view = with_list first both_stored.view;
  live = erase first both_stored.live;
})

Step-Freed_example : Freed first both_stored swapped_first
Step-Freed_example =
    Step-Freed start both_stored swapped_first 0 first 0 start-IsShared to_both_stored refl
      (swap 0 first 0 refl refl refl) refl

run_alone-idle_example :
    Reach both_stored (run_alone 4 1 both_stored) × ((run_alone 4 1 both_stored).pc 1 ≡ idle)
run_alone-idle_example = run_alone-idle both_stored 1
