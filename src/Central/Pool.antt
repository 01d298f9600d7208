-- ===== src/Central/Pool.antt =====
-- Where every page of every segment is: in use by a heap, abandoned, or in the pool of its segment.
use hmalloc.Common.{
  ℕ, zero, suc, ◌+◌, ◌*◌, ◌/◌, ◌%◌, ◌≤◌, ◌<◌, ◌≡◌, refl, ap, ◌∙◌, List, [], ◌∷◌, arith, ℕ_discrete,
  ltb, if◌then◌else◌, length, subst, ◌^◌, ◌≢◌, ◌⊎◌, inl, inr,
}
use hmalloc.Common.Multiset.{length-le-of-count, count}
use hmalloc.Constants.{segment_size}
use hmalloc.Page.Chain.{Chain}
use hmalloc.Segment.{page_at, segment_of}
use hmalloc.Registry.Table.{IsKey}
use hmalloc.Registry.{Registry}
use hmalloc.Registry.Set.{IsStore, Unmapped}
use hmalloc.Central.{World}
use hmalloc.Central.Avail.{Avail}
use hmalloc.Central.Unlink.{Segments}
use hmalloc.Central.Places.{
  apart_pools, at_most, bounded, flipped, no_null, one_place, selected, selected_bound, swapped,
  turned,
}

-- The records of the first `n` usable pages of the segment at `s`, the last one first.
abbrev pub records : ℕ → ℕ → List ℕ
records zero s = []
records (suc n) s = page_at s (suc n) ∷ records n s

-- The segment in whose header a record stands.
abbrev pub home : ℕ → ℕ
home p = p / segment_size * segment_size

-- `1` for a usable page of one of the segments `all`.
abbrev pub stock : List ℕ → ℕ → ℕ
stock all p = if ltb 0 (count (home p) all) then count p (records 63 (home p)) else 0

-- The registry is in order, or nothing was registered yet.
abbrev pub Table : Registry → Type 0
Table r = IsStore r ⊎ Unmapped r

-- `used` are the pages that heaps have.
pub record IsPool (used : List ℕ) (w : World) : Type 0 where
  pub all : List ℕ
  pub avail : List ℕ
  pub lost : List ℕ
  pub pool : ℕ → List ℕ
  -- The lists of segments and the registry.
  pub chain : Segments w w.segments all
  pub counted : length all ≡ w.num_segments
  pub sized : length all < 2 ^ 64
  pub distinct : (s : ℕ) → count s all ≤ 1
  pub based : (s : ℕ) → 0 < count s all → IsKey s × (s % segment_size ≡ 0)
  pub table : Table w.registry
  pub registered : (s : ℕ) → 0 < count s all → 0 < count s w.registry.cells
  pub ready : Avail w avail
  pub open_lem : (s : ℕ) → count s avail ≡ (if ltb 0 (length (pool s)) then count s all else 0)
  -- The pools and the abandoned pages.
  pub free : (s : ℕ) → 0 < count s all → Chain (λ p. (w.page p).next) (w.seg s).free_list (pool s)
  pub free_counted : (s : ℕ) → 0 < count s all → (w.seg s).free_count ≡ length (pool s)
  pub homed : (s p : ℕ) → 0 < count p (pool s) → home p ≡ s
  pub lost_chain : Chain (λ p. (w.page p).next) w.abandoned lost
  pub lost_counted : length lost ≡ w.abandoned_count
  pub lost_sized : length lost < 2 ^ 64
  -- Every usable page is in one place.
  pub split : (p : ℕ) → count p used + count p lost + count p (pool (home p)) ≡ stock all p
  pub area : (p : ℕ) → 0 < stock all p → segment_of (w.page p).area ≡ home p

pub home-page_at : (s i : ℕ) → s % segment_size ≡ 0 → i < 64 → home (page_at s i) ≡ s
home-page_at s i aligned lt = omega arith

pub records-above : (n s i : ℕ) → n < i → count (page_at s i) (records n s) ≡ 0
records-above zero s i lt = refl
records-above (suc n) s i lt = ground (arith, records-above n s i)

pub records_once : (n s p : ℕ) → count p (records n s) ≤ 1
records_once zero s p = omega arith
records_once (suc n) s p = ground (arith, records-above n s (suc n), records_once n s p)

pub records-ne-null : (n s : ℕ) → count 0 (records n s) ≡ 0
records-ne-null zero s = refl
records-ne-null (suc n) s = ground (arith, records-ne-null n s)

pub length-records : (n s : ℕ) → length (records n s) ≡ n
length-records zero s = refl
length-records (suc n) s = omega (arith, length-records n s)

pub records-home :
    (n s p : ℕ) → s % segment_size ≡ 0 → n < 64 → 0 < count p (records n s) → home p ≡ s
records-home zero s p aligned lt here = absurd (omega arith)
records-home (suc n) s p aligned lt here = elim (ℕ_discrete p (page_at s (suc n))) [
  | yes same ↦ ap home same ∙ home-page_at s (suc n) aligned lt
  | no other ↦ records-home n s p aligned (omega arith) (ground arith)
]

pub stock-le-one : (all : List ℕ) (p : ℕ) → stock all p ≤ 1
stock-le-one all p = ground (arith, records_once 63 (home p) p)

no_cells : (s : ℕ) (cells : List ℕ) → cells ≡ [] → 0 < count s cells → ⊥
no_cells s cells e here = nothing_counted s (subst (λ xs. 0 < count s xs) e here)
  where
    nothing_counted : (s : ℕ) → 0 < count s [] → ⊥
    nothing_counted s here = omega arith

module _ {used : List ℕ} {w : World} (v : IsPool used w) where
  -- Where there is a segment, the registry has its table.
  pub mapped : (s : ℕ) → 0 < count s v.all → IsStore w.registry
  mapped s here = elim v.table [
    | inl store ↦ store
    | inr none_yet ↦ absurd (no_cells s w.registry.cells none_yet.cells (v.registered s here))
  ]

  -- A page in a pool belongs to one of the segments, and is nowhere else.
  pub pooled-all :
      (s p : ℕ)
      → 0 < count p (v.pool s)
      → (0 < count s v.all)
        × (count p (records 63 s) ≡ 1)
        × (count p (v.pool s) ≡ 1)
        × (count p used + count p v.lost ≡ 0)
  pooled-all s p here =
      let at_home = v.homed s p here in
      let e : count p used + count p v.lost + count p (v.pool s)
          ≡ (if ltb 0 (count s v.all) then count p (records 63 s) else 0) =
        subst
          (λ q.
            count p used + count p v.lost + count p (v.pool q)
            ≡ (if ltb 0 (count q v.all) then count p (records 63 q) else 0))
          at_home (v.split p) in
      one_place (count p used) (count p v.lost) (count p (v.pool s)) (count s v.all)
        (count p (records 63 s)) e here (records_once 63 s p)

  pub pool-records : (s p : ℕ) → count p (v.pool s) ≤ count p (records 63 s)
  pool-records s p =
      bounded (count p (v.pool s)) (count p (records 63 s))
        (λ here. let r = pooled-all s p here in (r.1, r.2))

  pub pool_bound : (s : ℕ) → length (v.pool s) ≤ 63
  pool_bound s =
      subst (λ n. length (v.pool s) ≤ n) (length-records 63 s)
        (length-le-of-count (v.pool s) (records 63 s) (pool-records s))

  pub avail_once : (s : ℕ) → count s v.avail ≤ 1
  avail_once s =
      selected_bound (count s v.avail) (count s v.all) (ltb 0 (length (v.pool s))) (v.open_lem s)
        (v.distinct s)

  -- A segment on the list has a page to give.
  pub avail-pool : (s : ℕ) → 0 < count s v.avail → (0 < length (v.pool s)) × (0 < count s v.all)
  avail-pool s here =
      selected (count s v.avail) (count s v.all) (length (v.pool s)) (v.open_lem s) here

  -- A page that a heap has belongs to one of the segments, is one heap's only, and is nowhere else.
  pub used-place :
      (p : ℕ)
      → 0 < count p used
      → (0 < count (home p) v.all)
        × (count p (records 63 (home p)) ≡ 1)
        × (count p used ≡ 1)
        × (count p v.lost + count p (v.pool (home p)) ≡ 0)
  used-place p here =
      one_place (count p v.lost) (count p (v.pool (home p))) (count p used) (count (home p) v.all)
        (count p (records 63 (home p)))
        (turned (count p used) (count p v.lost) (count p (v.pool (home p))) (stock v.all p)
          (v.split p))
        here (records_once 63 (home p) p)

  pub used-ne-null : (p : ℕ) → 0 < count p used → p ≢ 0
  used-ne-null p here e =
      no_null (count 0 (records 63 (home p))) (records-ne-null 63 (home p))
        (subst (λ q. count q (records 63 (home p)) ≡ 1) e (used-place p here).1)

  pub used-pool : (p s : ℕ) → 0 < count p used → count p (v.pool s) ≡ 0
  used-pool p s here =
      apart_pools (count p used) (count p v.lost) (count p (v.pool s)) here
        (λ there. (pooled-all s p there).3)

  -- An abandoned page is on its list once, and nowhere else.
  pub lost-place :
      (p : ℕ)
      → 0 < count p v.lost
      → (0 < count (home p) v.all)
        × (count p (records 63 (home p)) ≡ 1)
        × (count p v.lost ≡ 1)
        × (count p used + count p (v.pool (home p)) ≡ 0)
  lost-place p here =
      one_place (count p used) (count p (v.pool (home p))) (count p v.lost) (count (home p) v.all)
        (count p (records 63 (home p)))
        (swapped (count p used) (count p v.lost) (count p (v.pool (home p))) (stock v.all p)
          (v.split p))
        here (records_once 63 (home p) p)

  pub lost_once : (p : ℕ) → count p v.lost ≤ 1
  lost_once p = at_most (count p v.lost) (λ here. (lost-place p here).2)

  pub lost-pool : (p s : ℕ) → 0 < count p v.lost → count p (v.pool s) ≡ 0
  lost-pool p s here =
      apart_pools (count p v.lost) (count p used) (count p (v.pool s)) here
        (λ there. flipped (count p used) (count p v.lost) (pooled-all s p there).3)

pub records-find :
    (n s p : ℕ) → 0 < count p (records n s) → (j : ℕ) × (0 < j) × (j ≤ n) × (p ≡ page_at s j)
records-find zero s p here = absurd (omega arith)
records-find (suc n) s p here = elim (ℕ_discrete p (page_at s (suc n))) [
  | yes same ↦ (suc n, omega arith, omega arith, same)
  | no other ↦
      let (j, pos, le, at) = records-find n s p (ground arith) in (j, pos, omega (arith, le), at)
]
