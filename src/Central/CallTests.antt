-- ===== src/Central/CallTests.antt =====
-- A run: the first page of a new segment is handed out, and then released, or abandoned and swept.
use hmalloc.Common.{
  ℕ, ◌+◌, ◌^◌, ◌<◌, ◌≡◌, refl, sym, ap, subst, ◌∙◌, ◌≢◌, inr, Bool, true, false, some, List, [],
  ◌∷◌, arith, ◌==◌, ◌!=◌, if◌then◌else◌, length, update_self,
}
use mathlib.Core.Option.{some-injective}
use hmalloc.Common.Multiset.{count, erase}
use hmalloc.Common.Word.{wrap}
use hmalloc.Run.{done}
use hmalloc.Segment.{Page, page_at}
use hmalloc.Page.Chain.{Chain}
use hmalloc.Registry.Table.{IsKey}
use hmalloc.Heap.{Build}
use hmalloc.Heap.Exit.{destroy_pages}
use hmalloc.Heap.Exit.Pages.{Listed, Emptied, destroy_pages-Emptied}
use hmalloc.Central.{World, central_release_page, central_abandon_page}
use hmalloc.Central.Acquire.{
  central_acquire_page, find_segment, map_segment, sweep_abandoned, sweep_from, abandoned_at,
  take_page,
}
use hmalloc.Central.Balance.{Balanced}
use hmalloc.Central.Grow.{Acquired}
use hmalloc.Central.Entered.{Fresh, Mapped, segment_memory, map_segment-Mapped}
use hmalloc.Central.Remotes.{Remotes}
use hmalloc.Central.Pool.{home, records-find, used-place, IsPool, used-ne-null}
use hmalloc.Central.Hand.{Handed, take_page-Handed, central_acquire_page-Handed}
use hmalloc.Central.Leave.{central_abandon_page-IsPool}
use hmalloc.Central.Sweep.{Swept, sweep_abandoned-Swept}
use hmalloc.Central.Obtain.{Serves, Sweepable, Obtained, central_acquire_page-Obtained}
use hmalloc.Central.Account.{central_release_page-Released}
use hmalloc.Central.Calls.{Initial, Reach, start, acquired, initial-IsPool, Reach-IsPool}
use hmalloc.Central.Arith.{==_true, ==_false, not_zero}
use hmalloc.Central.Tests.{kernel, nothing, new_base, new_table}

nothing-Initial : Initial nothing
nothing-Initial = record {
  segments = refl;
  avail = refl;
  abandoned = refl;
  num = refl;
  none_lost = refl;
  table = record { slots = refl; cells = refl; cap = refl; size = refl };
}

some_table : (n : ℕ) → n ≡ 2 ^ 34 → n ≢ 0
some_table n e z = absurd (omega (arith, e, z))

new-IsKey : IsKey (segment_memory kernel nothing).0
new-IsKey = subst IsKey (sym new_base) (omega arith, omega arith)

new-Fresh :
    Fresh kernel
      (segment_memory kernel nothing).0
      (record nothing { os = (segment_memory kernel nothing).1 })
new-Fresh =
    subst (λ s. Fresh kernel s (record nothing { os = (segment_memory kernel nothing).1 }))
      (sym new_base)
      (record {
        key = (omega arith, omega arith);
        aligned = refl;
        fits = omega arith;
        unknown = refl;
        small = omega arith;
        memory = inr (some_table _ new_table);
        room = omega arith;
      })

nothing-Sweepable : Sweepable nothing
nothing-Sweepable xs c = record {
  blocks = λ p. [];
  chain = λ p here. refl;
  short = λ p here. omega arith;
  apart = λ p q a first second other inside. refl;
}

nothing_swept : sweep_abandoned nothing ≡ some nothing
unfolding sweep_abandoned sweep_from abandoned_at
nothing_swept = refl

served : (w : World) → sweep_abandoned nothing ≡ some w → Serves kernel w
served w e = subst (Serves kernel) (some-injective _ _ (sym nothing_swept ∙ e)) (inr new-Fresh)

nothing-IsPool : IsPool [] nothing
nothing-IsPool = initial-IsPool nothing nothing-Initial

central_acquire_page-Obtained_example :
    (pg : ℕ) × (w' : World) × (central_acquire_page kernel 8192 3 64 nothing ≡ some (pg, w'))
    × Obtained [] nothing pg w'
central_acquire_page-Obtained_example =
    central_acquire_page-Obtained kernel 8192 3 64 [] nothing nothing-IsPool nothing-Sweepable
      served

mapped :
    (w' : World) × (map_segment kernel nothing ≡ some (true, w'))
    × Mapped (segment_memory kernel nothing).0 [] nothing-IsPool.all nothing w'
mapped = map_segment-Mapped kernel nothing-IsPool new-Fresh

abbrev one_segment : World
one_segment = mapped.0

one_segment-IsPool : IsPool [] one_segment
one_segment-IsPool = mapped.2.pool

one_segment-Balanced : Balanced one_segment
one_segment-Balanced = mapped.2.balanced refl

one_segment_ready : one_segment.avail ≢ 0
one_segment_ready e = new-IsKey.0 (sym mapped.2.first ∙ e)

abbrev first : ℕ
first = (take_page 8192 3 64 one_segment).0

abbrev in_use : World
in_use = (take_page 8192 3 64 one_segment).1

handed : Handed [] one_segment first in_use
handed = take_page-Handed 8192 3 64 [] one_segment one_segment_ready one_segment-IsPool

ready_test : (a : ℕ) → a ≢ 0 → (a != 0) ≡ true
ready_test a ne = ground arith

obtained : central_acquire_page kernel 8192 3 64 nothing ≡ some (first, in_use)
unfolding central_acquire_page find_segment
obtained = rw (nothing_swept, mapped.1) refl

taken : central_acquire_page kernel 8192 3 64 one_segment ≡ some (first, in_use)
unfolding central_acquire_page find_segment
taken = rw (ready_test one_segment.avail one_segment_ready) refl

central_acquire_page-Handed_example :
    (pg : ℕ) × (w' : World) × (central_acquire_page kernel 8192 3 64 one_segment ≡ some (pg, w'))
    × Acquired 8192 3 64 one_segment pg w'
    × Handed [] one_segment pg w'
central_acquire_page-Handed_example =
    central_acquire_page-Handed kernel 8192 3 64 [] one_segment one_segment_ready one_segment-IsPool
      one_segment-Balanced

in_use-Balanced : Balanced in_use
in_use-Balanced =
    let (pg, w', run, a, h) =
      central_acquire_page-Handed kernel 8192 3 64 [] one_segment one_segment_ready
        one_segment-IsPool one_segment-Balanced in
    subst (λ (r : ℕ × World). Balanced r.1) (some-injective _ _ (sym run ∙ taken)) a.balanced

counted : (a : ℕ) → 0 < count a (a ∷ [])
counted a = ground arith

central_release_page-Released_example :
    (w' : World) × (central_release_page first in_use ≡ some w')
    × IsPool (erase first (first ∷ [])) w'
    × Balanced w'
    × ((a : ℕ) → first ≢ a → w'.page a ≡ in_use.page a)
central_release_page-Released_example =
    central_release_page-Released first (first ∷ []) in_use (counted first) handed.pool
      in_use-Balanced

first_test : (first == 0) ≡ false
first_test = not_zero first (used-ne-null handed.pool first (counted first))

in_use-Reach : Reach (first ∷ []) in_use
in_use-Reach =
    subst (λ (b : Bool). Reach (if b then [] else first ∷ []) in_use) first_test
      (acquired kernel 8192 3 64 first in_use nothing-Sweepable served obtained
        (start nothing-Initial))

Reach-IsPool_example : IsPool (first ∷ []) in_use
Reach-IsPool_example = Reach-IsPool (first ∷ []) in_use in_use-Reach

abbrev left : World
left = central_abandon_page 4096 first in_use

in_use-abandoned : in_use.abandoned_count ≡ 0
in_use-abandoned =
    let (pg, w', run, a, h) =
      central_acquire_page-Handed kernel 8192 3 64 [] one_segment one_segment_ready
        one_segment-IsPool one_segment-Balanced in
    subst (λ (r : ℕ × World). r.1.abandoned_count ≡ 0) (some-injective _ _ (sym run ∙ taken))
      (a.abandoned ∙ mapped.2.abandoned)

none_lost : in_use.abandoned_count + 1 < 2 ^ 64
none_lost = subst (λ n. n + 1 < 2 ^ 64) (sym in_use-abandoned) (omega arith)

left-IsPool : IsPool (erase first (first ∷ [])) left
left-IsPool =
    central_abandon_page-IsPool 4096 first (first ∷ []) in_use (counted first) none_lost handed.pool

only_one : (link : ℕ → ℕ) (p : ℕ) (xs : List ℕ) → length xs ≡ 1 → Chain link p xs → xs ≡ p ∷ []
only_one link p [] e c = absurd (omega (arith, e))
only_one link p (x ∷ []) e c = ap (λ a. a ∷ []) (sym c.0)
only_one link p (x ∷ y ∷ xs) e c = absurd (omega (arith, e))

counted_one : (n : ℕ) → n ≡ 0 → wrap (n + 1) ≡ 1
counted_one n e = omega (arith, e)

left-lost : left-IsPool.lost ≡ first ∷ []
unfolding central_abandon_page
left-lost =
    only_one (λ p. (left.page p).next) first left-IsPool.lost
      (left-IsPool.lost_counted ∙ counted_one in_use.abandoned_count in_use-abandoned)
      left-IsPool.lost_chain

is_first : (p a : ℕ) → 0 < count p (a ∷ []) → p ≡ a
is_first p a here = ground arith

untouched_first : (in_use.page first).thread_free ≡ 0
untouched_first =
    let (pg, w', run, a, h) =
      central_acquire_page-Handed kernel 8192 3 64 [] one_segment one_segment_ready
        one_segment-IsPool one_segment-Balanced in
    subst (λ (r : ℕ × World). (r.1.page r.0).thread_free ≡ 0) (some-injective _ _ (sym run ∙ taken))
      a.uncarved.2

left_first : (left.page first).thread_free ≡ 0
unfolding central_abandon_page
left_first = ap (λ (u : Page). u.thread_free) (update_self in_use.page first _) ∙ untouched_first

no-Remotes : (w : World) → (w.page first).thread_free ≡ 0 → Remotes w (first ∷ [])
no-Remotes w e = record {
  blocks = λ p. [];
  chain = λ p here. subst (λ q. (w.page q).thread_free ≡ 0) (sym (is_first p first here)) e;
  short = λ p here. omega arith;
  apart = λ p q a one two other inside. refl;
}

left-Remotes : Remotes left left-IsPool.lost
left-Remotes = subst (Remotes left) (sym left-lost) (no-Remotes left left_first)

sweep_abandoned-Swept_example :
    (w' : World) × (sweep_abandoned left ≡ some w')
    × Swept (erase first (first ∷ [])) left-IsPool.lost left w'
sweep_abandoned-Swept_example = sweep_abandoned-Swept left-IsPool left-Remotes

-- The thread ends while its heap has that page.
abbrev build : Build
build = record { stats = false; empty_page = 64; abandon_tag = 4096 }

above : (s j : ℕ) → 0 < j → page_at s j ≢ 64
above s j pos e = absurd (omega (arith, e, pos))

not_empty_page : (first == 64) ≡ false
not_empty_page =
    let (j, pos, le, at) =
      records-find 63 (home first) first
        (subst (λ n. 0 < n) (sym (used-place handed.pool first (counted first)).1) (omega arith)) in
    ==_false first 64 (λ e. above (home first) j pos (sym at ∙ e))

alone-Listed : Listed build (λ q. (in_use.page q).next) first (first ∷ [])
unfolding take_page
alone-Listed = (refl, rw (first_test, not_empty_page) refl, rw (==_true first first refl) refl)

add_zero_lem : (n : ℕ) → n ≡ n + 0
add_zero_lem n = omega arith

destroy_pages-Emptied_example :
    (w' : World) × (destroy_pages build 1 first in_use ≡ done w') × Emptied [] 1 in_use w'
destroy_pages-Emptied_example =
    destroy_pages-Emptied build 1 first (first ∷ []) (first ∷ []) [] in_use handed.pool
      (λ a. add_zero_lem (count a (first ∷ []))) alone-Listed (no-Remotes in_use untouched_first)
      (omega arith) none_lost
