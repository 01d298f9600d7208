-- ===== src/Central/Entered.antt =====
-- `map_segment` as a whole: a new segment with its pages enters the pools, the lists and the registry.
use hmalloc.Common.{
  ℕ, ◌+◌, ◌*◌, ◌%◌, ◌^◌, ◌≤◌, ◌<◌, ◌≡◌, refl, sym, ap, subst, ◌∙◌, ◌≢◌, ◌⊎◌, true, ◌||◌, some, List,
  ◌∷◌, ◌==◌,
}
use hmalloc.Common.Multiset.{count}
use hmalloc.Common.Word.{word, size_max}
use hmalloc.Constants.{segment_size}
use hmalloc.Os.{Kernel, Os, os_alloc_aligned}
use hmalloc.Registry.{Registry, alloc_slots}
use hmalloc.Registry.Table.{IsKey}
use hmalloc.Registry.Set.{holds, wanted, region_register-Adds}
use hmalloc.Central.{World, avail_push}
use hmalloc.Central.Avail.Push.{avail_push-os}
use hmalloc.Central.Balance.{Balanced, Keeps-avail_push}
use hmalloc.Central.Map
use hmalloc.Central.Enter
use hmalloc.Central.Frame.{repaged-IsPool}
use hmalloc.Central.Pool.{IsPool, Table, home, records, used-place}
use hmalloc.Central.Arith.{not_both, not_zero, not_zero_of}
use hmalloc.Central.Acquire.{map_segment, enter_segment}

-- The registry has two cells to spare, or the kernel has memory for the table that is wanted.
abbrev pub Roomy : Kernel → Registry → Os → Type 0
Roomy k r os = (r.size + r.tombs + 1 < r.cap) ⊎ ((alloc_slots k (wanted r) os).0 ≢ 0)

-- What the kernel answers where a segment is asked for.
abbrev pub segment_memory : Kernel → World → ℕ × Os
segment_memory k w = os_alloc_aligned k segment_size segment_size w.os

-- A new region for a segment: aligned, inside the address space and not one of those that are registered.
-- It can be registered, and the count of segments fits its word.
pub record Fresh (k : Kernel) (s : ℕ) (w : World) : Type 0 where
  pub key : IsKey s
  pub aligned : s % segment_size ≡ 0
  pub fits : s + segment_size ≤ word
  pub unknown : count s w.registry.cells ≡ 0
  pub small : w.registry.cap * 2 < size_max
  pub memory : Roomy k w.registry w.os
  pub room : w.num_segments + 1 < 2 ^ 64

-- The pages that heaps have stay as they are.
abbrev pub Untouched : List ℕ → World → World → Type 0
Untouched used w w' = (a : ℕ) → 0 < count a used → w'.page a ≡ w.page a

-- What the mapping of segment `s` leaves, where `all` were the segments.
pub record Mapped (s : ℕ) (used all : List ℕ) (w w' : World) : Type 0 where
  pub pool : IsPool used w'
  pub all_lem : pool.all ≡ s ∷ all
  pub pages : pool.pool s ≡ records 63 s
  pub first : w'.avail ≡ s
  pub untouched : Untouched used w w'
  pub abandoned : w'.abandoned_count ≡ w.abandoned_count
  pub balanced : Balanced w → Balanced w'

enter_segment-Mapped :
    (k : Kernel) (s : ℕ) {used : List ℕ} {w : World} (v : IsPool used w)
    → Fresh k s w
    → (w' : World) × (enter_segment k s w ≡ some w') × Mapped s used v.all w w'
unfolding enter_segment
enter_segment-Mapped k s {used} {w} v fresh =
    let entered = avail_push s (Map.listed s w) in
    let kept = Keeps-avail_push s (Map.listed s w) in
    let same : entered.registry ≡ w.registry =
      kept.counts.table ∙ (Map.filled-Added s w).registry in
    let same_os : entered.os ≡ w.os =
      avail_push-os s (Map.listed s w) ∙ (Map.filled-Added s w).os in
    let (r, os, run, store, members) =
      region_register-Adds k entered.registry entered.os s (subst Table (sym same) v.table)
        fresh.key (subst (λ (t : Registry). t.cap * 2 < size_max) (sym same) fresh.small)
        (subst (λ t. Roomy k t entered.os) (sym same)
          (subst (Roomy k w.registry) (sym same_os) fresh.memory)) in
    let members' : (key : ℕ) → IsKey key → holds r key ≡ (key == s || holds w.registry key) =
      subst (λ t. (key : ℕ) → IsKey key → holds r key ≡ (key == s || holds t key)) same members in
    let new =
      not_zero_of (count s w.registry.cells) (count s v.all) fresh.unknown (v.registered s) in
    (
      Enter.after s v fresh.key fresh.aligned fresh.fits new fresh.room r store members' os,
      rw run refl,
      record {
        pool =
            Enter.after-IsPool s v fresh.key fresh.aligned fresh.fits new fresh.room r store
              members' os;
        all_lem =
            Enter.all-kept s v fresh.key fresh.aligned fresh.fits new fresh.room r store members'
              os;
        pages =
            Enter.pool-full s v fresh.key fresh.aligned fresh.fits new fresh.room r store members'
              os;
        first = Map.avail-avail_push s w (Map.listed s w);
        untouched = λ a here.
            Enter.page-others s v fresh.key fresh.aligned fresh.fits new fresh.room r store members'
              os a
              (λ e.
                not_both (count (home a) v.all) (subst (λ t. count t v.all ≡ 0) (sym e) new)
                  (used-place v a here).0);
        abandoned = kept.counts.abandoned ∙ ap (λ g. g.abandoned_count) (Map.filled-Added s w).g;
        balanced = Map.entered-Balanced s w;
      },
    )

pub kernel-IsPool :
    (os : Os) {used : List ℕ} {w : World} (v : IsPool used w)
    → (v' : IsPool used (record w { os = os })) × (v'.lost ≡ v.lost) × (v'.all ≡ v.all)
kernel-IsPool os {used} {w} v =
    repaged-IsPool used v.lost v w.page w.link os w.abandoned w.abandoned_count w.free_segments
      w.pages_in_use
      (record {
        chain = v.lost_chain;
        counted = v.lost_counted;
        sized = v.lost_sized;
        split = λ p. refl;
        area = λ p. refl;
        kept = λ q p here. refl;
      })

pub map_segment-Mapped :
    (k : Kernel) {used : List ℕ} {w : World} (v : IsPool used w)
    → Fresh k (segment_memory k w).0 (record w { os = (segment_memory k w).1 })
    → (w' : World) × (map_segment k w ≡ some (true, w'))
      × Mapped (segment_memory k w).0 used v.all w w'
unfolding map_segment
map_segment-Mapped k {used} {w} v fresh =
    let (mem, os) = segment_memory k w in
    let v₁ = kernel-IsPool os v in
    let (w', run, m) = enter_segment-Mapped k mem v₁.0 fresh in
    (
      w',
      rw (not_zero mem fresh.key.0, run) refl,
      record {
        pool = m.pool;
        all_lem = m.all_lem ∙ ap (λ xs. mem ∷ xs) v₁.2;
        pages = m.pages;
        first = m.first;
        untouched = m.untouched;
        abandoned = m.abandoned;
        balanced = m.balanced;
      },
    )
