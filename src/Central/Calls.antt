-- ===== src/Central/Calls.antt =====
-- The central heap as its callers see it: every sequence of calls, with the pages that heaps have in
-- between.
use hmalloc.Common.{
  ℕ, ◌+◌, ◌^◌, ◌<◌, ◌≡◌, refl, sym, subst, ◌∙◌, inl, inr, some, List, [], ◌∷◌, arith, ◌==◌,
  if◌then◌else◌,
}
use mathlib.Core.Option.{some-injective}
use hmalloc.Common.Multiset.{count, erase}
use hmalloc.Page.{Links}
use hmalloc.Segment.{Page}
use hmalloc.Os.{Kernel}
use hmalloc.Registry.Set.{Unmapped}
use hmalloc.Page.Chain.{Chain-frame}
use hmalloc.Central.{World, central_release_page, central_abandon_page}
use hmalloc.Central.Frame.{repaged-IsPool}
use hmalloc.Central.Pool.{IsPool, home, used-ne-null, lost-place, pooled-all}
use hmalloc.Central.Return.{central_release_page-IsPool}
use hmalloc.Central.Leave.{central_abandon_page-IsPool}
use hmalloc.Central.Obtain.{Sweepable, Serves, Obtained, central_acquire_page-Obtained}
use hmalloc.Central.Acquire.{central_acquire_page, sweep_abandoned}
use hmalloc.Central.Arith.{==_true, left_zero, not_zero}

-- Before the first call there is no segment, and no table is mapped.
pub record Initial (w : World) : Type 0 where
  pub segments : w.segments ≡ 0
  pub avail : w.avail ≡ 0
  pub abandoned : w.abandoned ≡ 0
  pub num : w.num_segments ≡ 0
  pub none_lost : w.abandoned_count ≡ 0
  pub table : Unmapped w.registry

-- Between the calls heaps write the pages that they have, their areas excepted, and threads write
-- blocks and, of any page, what is not of its place in a list.
pub record Written (used : List ℕ) (w : World) (page : ℕ → Page) : Type 0 where
  pub area : (p : ℕ) → (page p).area ≡ (w.page p).area
  pub next : (p : ℕ) → count p used ≡ 0 → (page p).next ≡ (w.page p).next

-- `used` are the pages that were handed out and have not come back.
pub data Reach : List ℕ → World → Type 0 where
  start : {w : World} → Initial w → Reach [] w
  acquired :
      {used : List ℕ} {w : World} (k : Kernel) (owner cls block_size pg : ℕ) (w' : World)
      → Sweepable w
      → ((w₁ : World) → sweep_abandoned w ≡ some w₁ → Serves k w₁)
      → central_acquire_page k owner cls block_size w ≡ some (pg, w')
      → Reach used w
      → Reach (if pg == 0 then used else pg ∷ used) w'
  released :
      {used : List ℕ} {w : World} (pg : ℕ) (w' : World)
      → 0 < count pg used
      → central_release_page pg w ≡ some w'
      → Reach used w
      → Reach (erase pg used) w'
  abandoned :
      {used : List ℕ} {w : World} (owner pg : ℕ)
      → 0 < count pg used
      → w.abandoned_count + 1 < 2 ^ 64
      → Reach used w
      → Reach (erase pg used) (central_abandon_page owner pg w)
  written :
      {used : List ℕ} {w : World} (page : ℕ → Page) (link : Links)
      → Written used w page
      → Reach used w
      → Reach used (record w { page = page; link = link })

pub initial-IsPool : (w : World) → Initial w → IsPool [] w
initial-IsPool w i = record {
  all = [];
  avail = [];
  lost = [];
  pool = λ s. [];
  chain = i.segments;
  counted = sym i.num;
  sized = omega arith;
  distinct = λ s. omega arith;
  based = λ s here. absurd (omega arith);
  table = inr i.table;
  registered = λ s here. absurd (omega arith);
  ready = i.avail;
  open_lem = λ s. refl;
  free = λ s here. absurd (omega arith);
  free_counted = λ s here. absurd (omega arith);
  homed = λ s p here. absurd (omega arith);
  lost_chain = i.abandoned;
  lost_counted = sym i.none_lost;
  lost_sized = omega arith;
  split = λ p. refl;
  area = λ p here. absurd (omega arith);
}

obtained-IsPool :
    {used : List ℕ} {w : World} (pg : ℕ) (w' : World)
    → IsPool used w
    → Obtained used w pg w'
    → IsPool (if pg == 0 then used else pg ∷ used) w'
obtained-IsPool {used} pg w' v o = elim o.pool [
  | inl (nothing, v') ↦ rw (==_true pg 0 nothing) v'
  | inr (new, v') ↦ rw (not_zero pg (used-ne-null v' pg (first_counted pg used))) v'
]
  where
    first_counted : (a : ℕ) (xs : List ℕ) → 0 < count a (a ∷ xs)
    first_counted a xs = ground arith

pub written-IsPool :
    {used : List ℕ} {w : World} (page : ℕ → Page) (link : Links)
    → Written used w page
    → IsPool used w
    → IsPool used (record w { page = page; link = link })
written-IsPool {used} {w} page link r v =
    (repaged-IsPool used v.lost v page link w.os w.abandoned w.abandoned_count w.free_segments
      w.pages_in_use
      (record {
        chain =
            Chain-frame (λ p. (w.page p).next) (λ p. (page p).next) w.abandoned v.lost
              (λ p here.
                r.next p
                  (left_zero (count p used) (count p (v.pool (home p))) (lost-place v p here).3))
              v.lost_chain;
        counted = v.lost_counted;
        sized = v.lost_sized;
        split = λ p. refl;
        area = r.area;
        kept = λ q p here.
            r.next p (left_zero (count p used) (count p v.lost) (pooled-all v q p here).3);
      })).0

-- After every sequence of calls from the start of the program on, with writes of the heaps in between,
-- every usable page of a segment is in one place: with one heap, on the list of abandoned pages, or in
-- the pool of its segment. The heaps release and abandon pages that they have. Where a segment is asked for,
-- the kernel has none, or gives a region that is not registered and memory for a table of the registry
-- that is due (`Serves`). The remote frees of abandoned pages are lists that end, and the count of abandoned
-- pages fits its word.
pub Reach-IsPool : (used : List ℕ) (w : World) → Reach used w → IsPool used w
Reach-IsPool _ w (start i) = initial-IsPool w i
Reach-IsPool _ _ (acquired {used} {w} k owner cls block_size pg w' sweepable served run before) =
    let v = Reach-IsPool used w before in
    let (p, u, ran, o) =
      central_acquire_page-Obtained k owner cls block_size used w v sweepable served in
    let same = some-injective _ _ (sym ran ∙ run) in
    obtained-IsPool pg w' v (subst (λ (r : ℕ × World). Obtained used w r.0 r.1) same o)
Reach-IsPool _ _ (released {used} {w} pg w' here run before) =
    let (u, ran, v', lost, link, others) =
      central_release_page-IsPool pg used w here (Reach-IsPool used w before) in
    subst (IsPool (erase pg used)) (some-injective _ _ (sym ran ∙ run)) v'
Reach-IsPool _ _ (abandoned {used} {w} owner pg here room before) =
    central_abandon_page-IsPool owner pg used w here room (Reach-IsPool used w before)
Reach-IsPool _ _ (written {used} {w} page link r before) =
    written-IsPool page link r (Reach-IsPool used w before)
