-- ===== src/Registry/Walk.antt =====
-- The probe sequence of a key: where it stops, and what the loops over it compute.
use hmalloc.Common.{
  ℕ, zero, suc, ◌+◌, ◌-◌, ◌%◌, ◌^◌, ◌≤◌, ◌<◌, ◌≡◌, refl, sym, ap, subst, ◌∙◌, ◌≢◌, ◌⊎◌, inl, inr,
  false, Option, none, some, List, arith, ℕ_discrete, ◌==◌, if◌then◌else◌, ◌&&◌, Bool-cases, true,
}
use native.Mathlib.Nat.{mod-add-mod, add-mod-mod, mod-lt, add_assoc}
use hmalloc.Common.Bits.{bit_and_low_mask}
use hmalloc.Registry.{cell, empty, next_index, find_cell, insert_cell, tomb, size_max}

pub next_index-mod : (j cap i : ℕ) → cap ≡ 2 ^ j → next_index cap i ≡ (i + 1) % cap
unfolding next_index
next_index-mod j cap i e = rw e (bit_and_low_mask j (i + 1))

-- The cell that is `e` steps from `h` on, round the table.
abbrev pub round : ℕ → ℕ → ℕ → ℕ
round cap h e = (h + e) % cap

pub next_index-round :
    (j cap h e : ℕ) → cap ≡ 2 ^ j → next_index cap (round cap h e) ≡ round cap h (e + 1)
next_index-round j cap h e p =
    next_index-mod j cap (round cap h e) p
    ∙ mod-add-mod (h + e) cap 1
    ∙ ap (λ t. t % cap) (add_assoc h e 1)

-- The probe for `key` from `h` stops after `n` steps, at the key or at an empty cell.
pub record Stops (cells : List ℕ) (cap key h n : ℕ) : Type 0 where
  pub inside : n < cap
  pub stopped : (cell cells (round cap h n) ≡ 0) ⊎ (cell cells (round cap h n) ≡ key)
  pub passed :
      (e : ℕ) → e < n → (cell cells (round cap h e) ≢ 0) × (cell cells (round cap h e) ≢ key)

mod-self_add : (i cap : ℕ) → i < cap → (i + cap) % cap ≡ i
mod-self_add i cap lt = grind arith

-- Every cell is some steps from `h` on.
round_back : (cap h i : ℕ) → i < cap → h < cap → round cap h ((i + cap - h) % cap) ≡ i
round_back cap h i lt hlt =
    let e : h + (i + cap - h) ≡ i + cap = omega arith in
    add-mod-mod h (i + cap - h) cap ∙ ap (λ t. t % cap) e ∙ mod-self_add i cap lt

one_more : (P : ℕ → Type 0) (d : ℕ) → ((e : ℕ) → e < d → P e) → P d → (e : ℕ) → e < d + 1 → P e
one_more P d below here e lt = elim (ℕ_discrete d e) [
  | yes same ↦ subst P same here
  | no other ↦ below e (omega arith)
]

module _ (cells : List ℕ) (cap key h : ℕ) where
  abbrev at : ℕ → ℕ
  at e = cell cells (round cap h e)

  abbrev Passed : ℕ → Type 0
  Passed e = (at e ≢ 0) × (at e ≢ key)

  stop_from :
      (left d : ℕ)
      → at (d + left) ≡ 0
      → d + left < cap
      → ((e : ℕ) → e < d → Passed e)
      → (n : ℕ) × Stops cells cap key h n
  stop_from zero d gap lt passed =
      let e : d + 0 ≡ d = omega arith in
      (d, record { inside = omega arith; stopped = inl (ap at (sym e) ∙ gap); passed = passed })
  stop_from (suc left) d gap lt passed =
      let e : d + suc left ≡ d + 1 + left = omega arith in
      elim (ℕ_discrete (at d) 0) [
        | yes z ↦ (d, record { inside = omega arith; stopped = inl z; passed = passed })
        | no nz ↦ elim (ℕ_discrete (at d) key) [
          | yes k ↦ (d, record { inside = omega arith; stopped = inr k; passed = passed })
          | no nk ↦
              stop_from left (d + 1) (ap at (sym e) ∙ gap) (omega arith)
                (one_more Passed d passed (nz, nk))
        ]
      ]

  -- A probe stops if some cell of the table is empty.
  pub gap-Stops : (i : ℕ) → i < cap → h < cap → cell cells i ≡ 0 → (n : ℕ) × Stops cells cap key h n
  gap-Stops i lt hlt gap =
      let r = (i + cap - h) % cap in
      let z : 0 + r ≡ r = omega arith in
      let e : at (0 + r) ≡ 0 = ap at z ∙ ap (cell cells) (round_back cap h i lt hlt) ∙ gap in
      stop_from r 0 e (rw z (mod-lt (i + cap - h) (omega arith))) (λ e' lt'. absurd (omega arith))

module _ (j cap : ℕ) (pow : cap ≡ 2 ^ j) (cells : List ℕ) (key h n : ℕ)
    (w : Stops cells cap key h n) where
  -- What `find_cell` returns where the probe stops.
  abbrev pub found_at : Option ℕ
  found_at = if cell cells (round cap h n) == empty then none else some (round cap h n)

  at_stop :
      (fuel : ℕ)
      → (cell cells (round cap h n) ≡ 0) ⊎ (cell cells (round cap h n) ≡ key)
      → find_cell (suc fuel) cells cap key (round cap h n) ≡ some found_at
  unfolding find_cell
  at_stop fuel s = ground arith

  pub find_cell-Stops :
      (fuel d : ℕ)
      → d ≤ n
      → n < d + fuel
      → find_cell fuel cells cap key (round cap h d) ≡ some found_at
  unfolding find_cell
  find_cell-Stops zero d le enough = absurd (omega arith)
  find_cell-Stops (suc fuel) d le enough = elim (ℕ_discrete d n) [
    | yes here ↦ rw here (at_stop fuel w.stopped)
    | no before ↦
        let p = w.passed d (omega arith) in
        let full : (cell cells (round cap h d) == empty) ≡ false = ground arith in
        let miss : (cell cells (round cap h d) == key) ≡ false = ground arith in
        rw (full, miss, next_index-round j cap h d pow)
          (find_cell-Stops fuel (d + 1) (omega arith) (omega arith))
  ]

  -- The tombstone `t` stands on the way.
  abbrev pub TombBefore : ℕ → Type 0
  TombBefore t = (m : ℕ) × (m < n) × (t ≡ round cap h m) × (cell cells (round cap h m) ≡ tomb)

  -- What the loop of `region_register` may find, with `first_tomb` as it came in.
  pub data Ends (first_tomb : ℕ) : ℕ ⊎ (ℕ × ℕ) → Type 0 where
    there : cell cells (round cap h n) ≡ key → Ends first_tomb (inl (round cap h n))
    fresh :
        (t : ℕ)
        → cell cells (round cap h n) ≡ 0
        → (t ≡ first_tomb) ⊎ TombBefore t
        → Ends first_tomb (inr (round cap h n, t))

  later :
      (d first_tomb : ℕ) (x : ℕ ⊎ (ℕ × ℕ))
      → d < n
      → Ends
          (if cell cells (round cap h d) == tomb && first_tomb == size_max
            then round cap h d
            else first_tomb)
          x
      → Ends first_tomb x
  later d ft x lt (there e) = there e
  later d ft x lt (fresh t e (inr m)) = fresh t e (inr m)
  later d ft x lt (fresh t e (inl m)) =
      elim (Bool-cases (cell cells (round cap h d) == tomb && ft == size_max)) [
        | inl seen ↦ fresh t e (inr (d, lt, ground arith, ground arith))
        | inr other ↦ fresh t e (inl (ground arith))
      ]

  abbrev pub Inserts : ℕ → ℕ → ℕ → Type 0
  Inserts fuel d first_tomb =
      (x : ℕ ⊎ (ℕ × ℕ)) × (insert_cell fuel cells cap key (round cap h d) first_tomb ≡ some x)
      × Ends first_tomb x

  insert_stop :
      key ≢ 0
      → (fuel first_tomb : ℕ)
      → (cell cells (round cap h n) ≡ 0) ⊎ (cell cells (round cap h n) ≡ key)
      → Inserts (suc fuel) n first_tomb
  unfolding insert_cell
  insert_stop nonzero fuel ft (inl z) =
      let gap : (cell cells (round cap h n) == empty) ≡ true = ground arith in
      (inr (round cap h n, ft), rw gap, fresh ft z (inl refl))
  insert_stop nonzero fuel ft (inr k) =
      let full : (cell cells (round cap h n) == empty) ≡ false = ground arith in
      let hit : (cell cells (round cap h n) == key) ≡ true = ground arith in
      (inl (round cap h n), rw (full, hit), there k)

  pub insert_cell-Ends :
      key ≢ 0
      → (fuel d first_tomb : ℕ) → d ≤ n
      → n < d + fuel
      → (x : ℕ ⊎ (ℕ × ℕ)) × (insert_cell fuel cells cap key (round cap h d) first_tomb ≡ some x)
        × Ends first_tomb x
  unfolding insert_cell
  insert_cell-Ends nonzero zero d ft le enough = absurd (omega arith)
  insert_cell-Ends nonzero (suc fuel) d ft le enough = elim (ℕ_discrete d n) [
    | yes here ↦ rw here (insert_stop nonzero fuel ft w.stopped)
    | no before ↦
        let p = w.passed d (omega arith) in
        let full : (cell cells (round cap h d) == empty) ≡ false = ground arith in
        let miss : (cell cells (round cap h d) == key) ≡ false = ground arith in
        let ft' =
          if cell cells (round cap h d) == tomb && ft == size_max then round cap h d else ft in
        let (x, run, ends) =
          insert_cell-Ends nonzero fuel (d + 1) ft' (omega arith) (omega arith) in
        (x, rw (full, miss, next_index-round j cap h d pow) run, later d ft x (omega arith) ends)
  ]
