-- ===== src/Central/Hand.antt =====
-- `central_acquire_page` hands out a page that no heap has.
use hmalloc.Common.{ℕ, ◌<◌, ◌≡◌, sym, ap, subst, ◌≢◌, List, [], ◌∷◌, arith, length, ◌!=◌, refl}
use hmalloc.Common.Multiset.{count}
use hmalloc.Page.Chain.{Chain}
use hmalloc.Segment.{Segment}
use hmalloc.Central.{World, some, true}
use hmalloc.Central.Avail.{AvailFrom}
use hmalloc.Central.Pool.{IsPool, avail-pool}
use hmalloc.Central.Take
use hmalloc.Os.{Kernel}
use hmalloc.Central.Balance.{Balanced}
use hmalloc.Central.Grow.{Acquired, take_page-Acquired}
use hmalloc.Central.Acquire.{take_page, find_segment, central_acquire_page}
use hmalloc.Central.Arith.{none_of}

-- A list that is not empty has a first element, and its head points there.
avail_head :
    (seg : ℕ → Segment) (p : ℕ) (xs : List ℕ)
    → p ≢ 0
    → AvailFrom seg 0 p xs
    → (ys : List ℕ) × (xs ≡ p ∷ ys)
avail_head seg p [] some_p c = absurd (some_p c)
avail_head seg p (x ∷ xs) some_p c = (xs, ap (λ a. a ∷ xs) (sym c.0))

chain_head :
    (link : ℕ → ℕ) (p : ℕ) (xs : List ℕ)
    → 0 < length xs
    → Chain link p xs
    → (ys : List ℕ) × (xs ≡ p ∷ ys)
chain_head link p [] some_p c = absurd (omega arith)
chain_head link p (x ∷ xs) some_p c = (xs, ap (λ a. a ∷ xs) (sym c.0))

first_counted : (a : ℕ) (xs ys : List ℕ) → xs ≡ a ∷ ys → 0 < count a xs
first_counted a xs ys e = subst (λ zs. 0 < count a zs) (sym e) (self a ys)
  where
    self : (a : ℕ) (ys : List ℕ) → 0 < count a (a ∷ ys)
    self a ys = ground arith

-- The page that a call hands out: no heap had it, and now one has.
pub record Handed (used : List ℕ) (w : World) (pg : ℕ) (w' : World) : Type 0 where
  pub pool : IsPool (pg ∷ used) w'
  pub unused : count pg used ≡ 0
  pub others : (a : ℕ) → pg ≢ a → w'.page a ≡ w.page a

pub take_page-Handed :
    (owner cls block_size : ℕ) (used : List ℕ) (w : World)
    → w.avail ≢ 0
    → IsPool used w
    → Handed used w (take_page owner cls block_size w).0 (take_page owner cls block_size w).1
unfolding take_page
take_page-Handed owner cls block_size used w ready v =
    let (others, e) = avail_head w.seg w.avail v.avail ready v.ready in
    let open_here = avail-pool v w.avail (first_counted w.avail v.avail others e) in
    let (rest, k) =
      chain_head (λ p. (w.page p).next) (w.seg w.avail).free_list (v.pool w.avail) open_here.0
        (v.free w.avail open_here.1) in
    record {
      pool = Take.after-IsPool owner cls block_size v others rest e k;
      unused =
          none_of (count (w.seg w.avail).free_list used) (count (w.seg w.avail).free_list v.lost)
            (Take.place owner cls block_size v others rest e k).3;
      others = Take.page-others owner cls block_size v others rest e k;
    }

ready_test : (a : ℕ) → a ≢ 0 → (a != 0) ≡ true
ready_test a ne = ground arith

-- Where some segment has a free page, every page is in one place and the account is balanced: the call
-- returns the first page of the first such segment, unused and uncarved, for the class asked for and
-- owned by the heap that asked. No heap had it, it is in no pool any more, no other page changes, every
-- page is in one place, and the account stays balanced.
pub central_acquire_page-Handed :
    (k : Kernel) (owner cls block_size : ℕ) (used : List ℕ) (w : World)
    → w.avail ≢ 0
    → IsPool used w
    → Balanced w
    → (pg : ℕ) × (w' : World) × (central_acquire_page k owner cls block_size w ≡ some (pg, w'))
      × Acquired owner cls block_size w pg w'
      × Handed used w pg w'
unfolding central_acquire_page find_segment
central_acquire_page-Handed k owner cls block_size used w ready v balanced =
    let here = ready_test w.avail ready in
    let t = take_page owner cls block_size w in
    (
      t.0,
      t.1,
      rw here refl,
      take_page-Acquired owner cls block_size w balanced,
      take_page-Handed owner cls block_size used w ready v,
    )
