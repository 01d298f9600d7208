-- ===== src/Central/Obtain.antt =====
-- `central_acquire_page` on every path: with a free page at hand, after the sweep, and with a new segment.
use hmalloc.Common.{
  ℕ, ◌≡◌, refl, sym, subst, ◌∙◌, ◌≢◌, ◌⊎◌, inl, inr, Bool, true, false, some, List, ◌∷◌, ◌!=◌,
  Bool-cases,
}
use hmalloc.Common.Multiset.{count}
use hmalloc.Os.{Kernel}
use hmalloc.Page.Chain.{Chain}
use hmalloc.Central.{World}
use hmalloc.Central.Entered.{Fresh, Untouched, segment_memory, kernel-IsPool, map_segment-Mapped}
use hmalloc.Central.Remotes.{Remotes}
use hmalloc.Central.Pool.{IsPool, home, used-place}
use hmalloc.Central.Sweep.{sweep_abandoned-Swept}
use hmalloc.Central.Hand.{take_page-Handed}
use hmalloc.Central.Acquire.{
  take_page, find_segment, central_acquire_page, sweep_abandoned, map_segment,
}
use hmalloc.Central.Arith.{==_true, bool_apart, left_zero, not_both, ready_true}

-- The kernel refuses a region for a segment, or gives a new one.
abbrev pub Serves : Kernel → World → Type 0
Serves k w =
    ((segment_memory k w).0 ≡ 0)
    ⊎ Fresh k (segment_memory k w).0 (record w { os = (segment_memory k w).1 })

-- The remote frees of the abandoned pages are lists that end.
abbrev pub Sweepable : World → Type 0
Sweepable w = (xs : List ℕ) → Chain (λ p. (w.page p).next) w.abandoned xs → Remotes w xs

-- What the search for a segment with a free page leaves: true where there is one.
pub record Found (used : List ℕ) (w : World) (ready : Bool) (w' : World) : Type 0 where
  pub pool : IsPool used w'
  pub untouched : Untouched used w w'
  pub avail : ready ≡ true → w'.avail ≢ 0

map_segment-Found :
    (k : Kernel) {used : List ℕ} {w : World}
    → IsPool used w
    → Serves k w
    → (b : Bool) × (w' : World) × (map_segment k w ≡ some (b, w')) × Found used w b w'
unfolding map_segment
map_segment-Found k {used} {w} v served = elim served [
  | inl refused ↦ (
    false,
    record w { os = (segment_memory k w).1 },
    rw (==_true (segment_memory k w).0 0 refused) refl,
    record {
      pool = (kernel-IsPool (segment_memory k w).1 v).0;
      untouched = λ a here. refl;
      avail = λ e. absurd (bool_apart (sym e));
    },
  )
  | inr fresh ↦
      let (w', run, m) = map_segment-Mapped k v fresh in
      (
        true,
        w',
        run,
        record {
          pool = m.pool;
          untouched = m.untouched;
          avail = λ e none_ready. fresh.key.0 (sym m.first ∙ none_ready);
        },
      )
]

find_segment-Found :
    (k : Kernel) {used : List ℕ} {w : World}
    → IsPool used w
    → Sweepable w
    → ((w₁ : World) → sweep_abandoned w ≡ some w₁ → Serves k w₁)
    → (b : Bool) × (w' : World) × (find_segment k w ≡ some (b, w')) × Found used w b w'
unfolding find_segment
find_segment-Found k {used} {w} v sweepable served = elim (Bool-cases (w.avail != 0)) [
  | inl ready ↦ (
    true,
    w,
    rw ready refl,
    record { pool = v; untouched = λ a here. refl; avail = λ e. ready_true w.avail ready },
  )
  | inr none_ready ↦
      let (w₁, run, swept) = sweep_abandoned-Swept v (sweepable v.lost v.lost_chain) in
      let same : Untouched used w w₁ = λ a here.
        swept.others a
          (left_zero (count a v.lost) (count a (v.pool (home a))) (used-place v a here).3) in
      elim (Bool-cases (w₁.avail != 0)) [
        | inl ready ↦ (
          true,
          w₁,
          rw (none_ready, run, ready) refl,
          record { pool = swept.pool; untouched = same; avail = λ e. ready_true w₁.avail ready },
        )
        | inr still_none ↦
            let (b, w₂, mapped, f) = map_segment-Found k swept.pool (served w₁ run) in
            (
              b,
              w₂,
              rw (none_ready, run, still_none) mapped,
              record {
                pool = f.pool;
                untouched = λ a here. f.untouched a here ∙ same a here;
                avail = f.avail;
              },
            )
      ]
]

-- A call that hands out page `pg`, or none: where it hands one out, no heap had it.
pub record Obtained (used : List ℕ) (w : World) (pg : ℕ) (w' : World) : Type 0 where
  pub pool : (pg ≡ 0 × IsPool used w') ⊎ ((count pg used ≡ 0) × IsPool (pg ∷ used) w')
  pub untouched : Untouched used w w'

-- Where every page is in one place, the remote frees of the abandoned pages are lists that end, and, after
-- the sweep, the kernel has no region for a segment or a new one that can be registered, be it the first:
-- the call returns. A page that it hands out was no heap's before, and no page that a heap has is
-- written, whether the page was free, reclaimed by the sweep or part of a new segment; and again every
-- page is in one place.
pub central_acquire_page-Obtained :
    (k : Kernel) (owner cls block_size : ℕ) (used : List ℕ) (w : World)
    → IsPool used w
    → Sweepable w
    → ((w₁ : World) → sweep_abandoned w ≡ some w₁ → Serves k w₁)
    → (pg : ℕ) × (w' : World) × (central_acquire_page k owner cls block_size w ≡ some (pg, w'))
      × Obtained used w pg w'
unfolding central_acquire_page
central_acquire_page-Obtained k owner cls block_size used w v sweepable served =
    let (b, w₁, run, f) = find_segment-Found k v sweepable served in
    elim (Bool-cases b) [
      | inr nothing ↦ (
        0,
        w₁,
        rw (run, nothing) refl,
        record { pool = inl (refl, f.pool); untouched = f.untouched },
      )
      | inl ready ↦
          let h = take_page-Handed owner cls block_size used w₁ (f.avail ready) f.pool in
          let (pg, w₂) = take_page owner cls block_size w₁ in
          (
            pg,
            w₂,
            rw (run, ready) refl,
            record {
              pool = inr (h.unused, h.pool);
              untouched = λ a here.
                  h.others a
                    (λ e. not_both (count a used) (subst (λ t. count t used ≡ 0) e h.unused) here)
                  ∙ f.untouched a here;
            },
          )
    ]
