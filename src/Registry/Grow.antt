-- ===== src/Registry/Grow.antt =====
-- `grow_locked`: the keys of the old table are all in the new one, and no others.
use hmalloc.Common.{
  ℕ, zero, suc, ◌+◌, ◌^◌, ◌≤◌, ◌<◌, ◌≡◌, refl, sym, ap, subst, ◌∙◌, inl, inr, true, false, ◌&&◌,
  some, List, [], ◌∷◌, arith, ℕ_discrete, ◌==◌, ◌!=◌, if◌then◌else◌, Bool-cases, length, set,
  replicate, ◌⊎◌,
}
use mathlib.Core.Option
use hmalloc.Common.Multiset.{count}
use hmalloc.Common.Word.{size_max}
use hmalloc.Registry.{
  slots_bytes, cell, empty, tomb, free_cell, raw_insert, rehash, index_of, grow_locked, Registry,
  Kernel, Os, alloc_slots, os_free,
}
use hmalloc.Registry.Walk.{round, Stops, next_index-round}
use hmalloc.Registry.Table.{IsKey, home, IsTable}
use hmalloc.Registry.Lookup.{probe, present, start, IsRegistry}
use hmalloc.Registry.Change.{counts, IsTable-write}

module _ (j cap : ℕ) (pow : cap ≡ 2 ^ j) (cells : List ℕ) (key h n : ℕ)
    (w : Stops cells cap key h n) (gap : cell cells (round cap h n) ≡ 0) where
  at_gap : (fuel : ℕ) → free_cell (suc fuel) cells cap (round cap h n) ≡ some (round cap h n)
  unfolding free_cell
  at_gap fuel =
      let here : (cell cells (round cap h n) == empty) ≡ true = ground arith in
      rw (free_cell, here) refl

  free_cell-Stops :
      (fuel d : ℕ)
      → d ≤ n
      → n < d + fuel
      → free_cell fuel cells cap (round cap h d) ≡ some (round cap h n)
  unfolding free_cell
  free_cell-Stops zero d le enough = absurd (omega arith)
  free_cell-Stops (suc fuel) d le enough = elim (ℕ_discrete d n) [
    | yes here ↦ rw here (at_gap fuel)
    | no before ↦
        let full : (cell cells (round cap h d) == empty) ≡ false =
          ground (arith, (w.passed d (omega arith)).0) in
        rw (free_cell, full, next_index-round j cap h d pow)
          (free_cell-Stops fuel (d + 1) (omega arith) (omega arith))
  ]

-- A table without tombstones and with room takes a new key.
raw_insert-IsTable :
    (cells : List ℕ) (cap size key : ℕ)
    → IsTable cells cap size 0
    → IsKey key
    → count key cells ≡ 0
    → size + 1 < cap
    → (cells' : List ℕ) × (raw_insert cells cap key ≡ some cells')
      × IsTable cells' cap (size + 1) 0
      × ((k : ℕ) → IsKey k → count k cells' ≡ count k cells + (if k == key then 1 else 0))
unfolding raw_insert home index_of
raw_insert-IsTable cells cap size key t ok gone spare =
    let (n, w) = probe t key in
    let gap : cell cells (round cap (home cap key) n) ≡ 0 = elim w.stopped [
      | inl z ↦ z
      | inr e ↦ absurd (omega (arith, gone, present t key n e))
    ] in
    let filled = λ (e : ℕ) (before : e < n). (w.passed e before).0 in
    let c = counts t key ok gone n w.inside filled in
    let run : free_cell cap cells cap (home cap key) ≡ some (round cap (home cap key) n) =
      ap (free_cell cap cells cap) (sym (start t key))
      ∙ free_cell-Stops t.exponent cap t.power cells key (home cap key) n w gap cap 0 (omega arith)
          (omega (arith, w.inside)) in
    (
      set cells (round cap (home cap key) n) key,
      ap (Option.map (λ i. set cells i key)) run,
      IsTable-write t key ok gone n w.inside filled (size + 1) 0 (inl gap)
          (ground (arith, c 0, t.gaps)) (ground (arith, c tomb, t.buried)) (omega arith),
      λ k okk. ground (arith, c k),
    )

-- The number of cells that hold a key.
abbrev pub live : List ℕ → ℕ
live [] = 0
live (c ∷ cells) = (if c != empty && c != tomb then 1 else 0) + live cells

live_count : (cells : List ℕ) → live cells + count empty cells + count tomb cells ≡ length cells
live_count [] = omega arith
live_count (c ∷ cells) = ground (arith, live_count cells)

rehash-IsTable :
    (old cells : List ℕ) (cap size : ℕ)
    → IsTable cells cap size 0
    → ((k : ℕ) → IsKey k → count k old + count k cells ≤ 1)
    → size + live old < cap
    → (cells' : List ℕ) × (rehash old cells cap ≡ some cells')
      × IsTable cells' cap (size + live old) 0
      × ((k : ℕ) → IsKey k → count k cells' ≡ count k cells + count k old)
unfolding rehash Option.bind
rehash-IsTable [] cells cap size t once room =
    let e : size + 0 ≡ size = omega arith in (cells, refl, rw e t, λ k okk. omega arith)
rehash-IsTable (c ∷ old) cells cap size t once room = elim (Bool-cases (c != empty && c != tomb)) [
  | inl held ↦
      let ok : IsKey c = (ground arith, ground arith) in
      let one : live (c ∷ old) ≡ 1 + live old = ground arith in
      let gone : count c cells ≡ 0 = ground (arith, once c ok) in
      let (cells₁, run₁, t₁, c₁) =
        raw_insert-IsTable cells cap size c t ok gone (omega (arith, one, room)) in
      let (cells₂, run₂, t₂, c₂) =
        rehash-IsTable old cells₁ cap (size + 1) t₁ (λ k okk. ground (arith, once k okk, c₁ k okk))
          (omega (arith, one, room)) in
      let total : size + 1 + live old ≡ size + live (c ∷ old) = omega (arith, one) in
      (
        cells₂,
        rw (held, run₁) run₂,
        subst (λ z. IsTable cells₂ cap z 0) total t₂,
        λ k okk. ground (arith, c₂ k okk, c₁ k okk),
      )
  | inr skip ↦
      let same : live (c ∷ old) ≡ live old = ground arith in
      let (cells₁, run, t₁, c₁) =
        rehash-IsTable old cells cap size t (λ k okk. ground (arith, once k okk))
          (omega (arith, same, room)) in
      (
        cells₁,
        rw skip run,
        subst (λ z. IsTable cells₁ cap (size + z) 0) (sym same) t₁,
        λ k okk. ground (arith, c₁ k okk, okk),
      )
]

pub count-replicate : (n k : ℕ) → count k (replicate n empty) ≡ (if k == empty then n else 0)
count-replicate zero k = ground arith
count-replicate (suc n) k = ground (arith, count-replicate n k)

length-replicate : (n : ℕ) → length (replicate n empty) ≡ n
length-replicate zero = refl
length-replicate (suc n) = omega (arith, length-replicate n)

pub replicate-IsTable :
    (j cap : ℕ) → cap ≡ 2 ^ j → cap < size_max → 0 < cap → IsTable (replicate cap empty) cap 0 0
replicate-IsTable j cap pow small pos = record {
  exponent = j;
  power = pow;
  small = small;
  width = length-replicate cap;
  gaps = ground (arith, count-replicate cap 0);
  buried = ground (arith, count-replicate cap tomb);
  room = omega arith;
  unique = λ k okk. ground (arith, count-replicate cap k, okk);
  reached = λ k okk h. absurd (ground (arith, count-replicate cap k, okk, h));
}

-- What a growth leaves: the same keys in a table in order, the new one if the kernel has memory for it.
pub record Grown (new_cap fresh : ℕ) (r r' : Registry) : Type 0 where
  pub registry : IsRegistry r'
  pub size : r'.size ≡ r.size
  pub members : (k : ℕ) → IsKey k → count k r'.cells ≡ count k r.cells
  pub table : ((fresh ≡ 0) × (r' ≡ r)) ⊎ ((r'.slots ≡ fresh) × (r'.cap ≡ new_cap) × (r'.tombs ≡ 0))

-- Growing or rehashing a table into one with more cells than there are keys returns; it keeps the keys,
-- no others, in a table in order, and has no tombstones left unless the kernel has no memory, where
-- nothing changes.
pub grow_locked-Grown :
    (k : Kernel) (j new_cap : ℕ) (r : Registry) (s : Os)
    → IsRegistry r
    → new_cap ≡ 2 ^ j
    → new_cap < size_max
    → r.size < new_cap
    → (r' : Registry) × (s' : Os) × (grow_locked k new_cap (r, s) ≡ some (r', s'))
      × Grown new_cap (alloc_slots k new_cap s).0 r r'
unfolding grow_locked
grow_locked-Grown k j new_cap r s (mapped, t) pow small room =
    let (fresh, s') = alloc_slots k new_cap s in
    let keys : 0 + live r.cells ≡ r.size =
      omega (arith, live_count r.cells, t.gaps, t.buried, t.width) in
    let (cells, run, t₁, c) =
      rehash-IsTable r.cells (replicate new_cap empty) new_cap 0
        (replicate-IsTable j new_cap pow small (omega arith))
        (λ k okk. ground (arith, count-replicate new_cap k, okk, t.unique k okk))
        (omega (arith, keys)) in
    elim (Bool-cases (fresh == 0)) [
      | inl failed ↦ (
        r,
        s',
        rw failed refl,
        record {
          registry = (mapped, t);
          size = refl;
          members = λ k okk. refl;
          table = inl (ground arith, refl);
        },
      )
      | inr done ↦ (
        record r { slots = fresh; cells = cells; cap = new_cap; tombs = 0 },
        (if r.slots != 0 then os_free r.slots (slots_bytes k r.cap) s' else s'),
        rw (done, run) refl,
        record {
          registry = (ground arith, subst (λ z. IsTable cells new_cap z 0) keys t₁);
          size = refl;
          members = λ k okk. ground (arith, c k okk, count-replicate new_cap k, okk);
          table = inr (refl, refl, refl);
        },
      )
    ]
