-- ===== src/Registry/Full.antt =====
-- `region_register`, where no cell of the table is empty: its loop has no way out for a new key.
use hmalloc.Common.{ℕ, zero, suc, ◌^◌, ◌<◌, ◌≡◌, refl, ◌≢◌, false, none, List, arith, ◌==◌}
use native.Mathlib.Nat.{mod-lt}
use hmalloc.Common.Bits.{bit_and_low_mask}
use hmalloc.Registry.{cell, insert_cell, next_index}

module _ (cells : List ℕ) (cap j : ℕ) (pow : cap ≡ 2 ^ j) (some_cell : 0 < cap) (key : ℕ)
    (full : (i : ℕ) → i < cap → (cell cells i ≢ 0) × (cell cells i ≢ key)) where
  next_index-lt : (i : ℕ) → next_index cap i < cap
  unfolding next_index
  next_index-lt i = rw (pow, bit_and_low_mask) (mod-lt _ (rw (← pow) some_cell))

  -- Where no cell is empty and none holds the key, the loop of a registration still runs after any
  -- number of rounds.
  pub insert_cell-Full :
      (fuel i first_tomb : ℕ) → i < cap → insert_cell fuel cells cap key i first_tomb ≡ none
  unfolding insert_cell
  insert_cell-Full zero i ft lt = refl
  insert_cell-Full (suc fuel) i ft lt =
      let p = full i lt in
      let f : (cell cells i == 0) ≡ false = ground arith in
      let m : (cell cells i == key) ≡ false = ground arith in
      rw (f, m) (insert_cell-Full fuel (next_index cap i) _ (next_index-lt i))
