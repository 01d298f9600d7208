-- ===== src/Registry/Lookup.antt =====
-- `region_owns` decides membership.
use hmalloc.Common.{
  ℕ, ◌+◌, ◌%◌, ◌<◌, ◌≡◌, sym, ap, subst, ◌∙◌, ◌≢◌, inl, inr, false, some, List, arith, dec_lt,
  ℕ_discrete, ltb, ◌==◌,
}
use native.Mathlib.Nat.{mod-lt, mod-eq_of_lt}
use hmalloc.Common.Bits.{bit_and_low_mask}
use hmalloc.Common.Multiset.{count}
use hmalloc.Registry.Walk.{round, Stops, gap-Stops, find_cell-Stops, found_at}
use hmalloc.Registry.Table.{IsKey, home, Reached, IsTable, count-get_or, position}
use hmalloc.Registry.{Registry, cell, index_of, find_cell, region_owns, is_found}

-- A registry whose table is there and in order.
abbrev pub IsRegistry : Registry → Type 0
IsRegistry r = (r.slots ≢ 0) × IsTable r.cells r.cap r.size r.tombs

module _ {cells : List ℕ} {cap size tombs : ℕ} (t : IsTable cells cap size tombs) (key : ℕ) where
  pub cap-pos : 0 < cap
  cap-pos = omega (arith, t.room)

  pub home-lt : home cap key < cap
  unfolding home index_of
  home-lt = rw (t.power, bit_and_low_mask) (mod-lt _ (rw (← t.power) cap-pos))

  pub probe : (n : ℕ) × Stops cells cap key (home cap key) n
  probe =
      let (i, lt, e) = position 0 cells (omega (arith, t.gaps, t.room)) in
      gap-Stops cells cap key (home cap key) i (omega (arith, t.width)) home-lt e

  -- A probe that stops at an empty cell proves that the key is not there.
  pub absent :
      (n : ℕ)
      → IsKey key
      → Stops cells cap key (home cap key) n
      → cell cells (round cap (home cap key) n) ≡ 0
      → count key cells ≡ 0
  absent n ok w z = elim (ℕ_discrete (count key cells) 0) [
    | yes none_there ↦ none_there
    | no some_there ↦ absurd (clash (t.reached key ok (omega arith)))
  ]
    where
      clash : Reached cells cap key → ⊥
      clash r = elim (dec_lt r.steps n) [
        | yes before ↦ (w.passed r.steps before).1 r.here
        | no after ↦ elim (ℕ_discrete r.steps n) [
          | yes same ↦
              ok.0 (sym r.here ∙ ap (λ e. cell cells (round cap (home cap key) e)) same ∙ z)
          | no other ↦ r.filled n (omega arith) z
        ]
      ]

  pub present : (n : ℕ) → cell cells (round cap (home cap key) n) ≡ key → 0 < count key cells
  present n e =
      subst (λ k. 0 < count k cells) e
        (count-get_or cells (round cap (home cap key) n)
          (rw t.width (mod-lt (home cap key + n) cap-pos)))

  pub start : round cap (home cap key) 0 ≡ home cap key
  start =
      let e : home cap key + 0 ≡ home cap key = omega arith in
      ap (λ t. t % cap) e ∙ mod-eq_of_lt home-lt

  -- `cap` rounds of fuel are enough for the loop of a lookup.
  pub find_cell-home :
      (n : ℕ) (w : Stops cells cap key (home cap key) n)
      → find_cell cap cells cap key (home cap key)
        ≡ some (found_at t.exponent cap t.power cells key (home cap key) n w)
  find_cell-home n w =
      ap (find_cell cap cells cap key) (sym start)
      ∙ find_cell-Stops t.exponent cap t.power cells key (home cap key) n w cap 0 (omega arith)
          (omega (arith, w.inside))

-- `region_owns` returns, and says whether the base is in the table.
pub region_owns-count :
    (r : Registry) (base : ℕ)
    → IsRegistry r
    → IsKey base
    → region_owns base r ≡ some (ltb 0 (count base r.cells))
unfolding region_owns home is_found
region_owns-count r base (there, t) ok =
    let (n, w) = probe t base in
    let here : (r.slots == 0) ≡ false = ground arith in
    rw (here, find_cell-home t base n w)
      (ap some (elim w.stopped [
        | inl z ↦ ground (arith, absent t base n ok w z)
        | inr k ↦ ground (arith, present t base n k)
      ]))
