-- ===== src/Registry/Table.antt =====
-- The invariant of the table, in terms of how often a value stands in it.
use hmalloc.Common.{
  ℕ, zero, suc, ◌+◌, ◌-◌, ◌^◌, ◌≤◌, ◌<◌, ◌≡◌, sym, ◌≢◌, List, [], ◌∷◌, arith, ℕ_discrete, ◌==◌,
  if◌then◌else◌, length, get_or, set,
}
use hmalloc.Common.Multiset.{count}
use hmalloc.Common.Word.{size_max}
use hmalloc.Registry.{cell, empty, tomb, index_of}
use hmalloc.Registry.Walk.{round}

abbrev pub IsKey : ℕ → Type 0
IsKey k = (k ≢ empty) × (k ≢ tomb)

unfoldable pub home : ℕ → ℕ → ℕ
home cap key = index_of (cap - 1) key

-- `key` stands on its own probe sequence, with no empty cell before it.
pub record Reached (cells : List ℕ) (cap key : ℕ) : Type 0 where
  pub steps : ℕ
  pub inside : steps < cap
  pub here : cell cells (round cap (home cap key) steps) ≡ key
  pub filled : (e : ℕ) → e < steps → cell cells (round cap (home cap key) e) ≢ 0

-- A table of `cap` cells, a power of two, with `size` keys, `tombs` tombstones and an empty cell.
pub record IsTable (cells : List ℕ) (cap size tombs : ℕ) : Type 0 where
  pub exponent : ℕ
  pub power : cap ≡ 2 ^ exponent
  pub small : cap < size_max
  pub width : length cells ≡ cap
  pub gaps : count empty cells + size + tombs ≡ cap
  pub buried : count tomb cells ≡ tombs
  pub room : size + tombs < cap
  pub unique : (k : ℕ) → IsKey k → count k cells ≤ 1
  pub reached : (k : ℕ) → IsKey k → 0 < count k cells → Reached cells cap k

pub count-set :
    (a : ℕ) (xs : List ℕ) (i v : ℕ)
    → i < length xs
    → count a (set xs i v) + (if a == get_or xs i 0 then 1 else 0)
      ≡ count a xs + (if a == v then 1 else 0)
count-set a [] i v lt = absurd (omega arith)
count-set a (x ∷ xs) zero v lt = omega arith
count-set a (x ∷ xs) (suc i) v lt = omega (arith, count-set a xs i v (omega arith))

pub count-get_or : (xs : List ℕ) (i : ℕ) → i < length xs → 0 < count (get_or xs i 0) xs
count-get_or [] i lt = absurd (omega arith)
count-get_or (x ∷ xs) zero lt = ground arith
count-get_or (x ∷ xs) (suc i) lt = omega (arith, count-get_or xs i (omega arith))

pub position :
    (a : ℕ) (xs : List ℕ) → 0 < count a xs → (i : ℕ) × (i < length xs) × (get_or xs i 0 ≡ a)
position a [] h = absurd (omega arith)
position a (x ∷ xs) h = elim (ℕ_discrete a x) [
  | yes here ↦ (0, omega arith, sym here)
  | no other ↦ let (i, lt, e) = position a xs (ground arith) in (suc i, omega arith, e)
]

pub cell-set :
    (xs : List ℕ) (i j v : ℕ)
    → i < length xs
    → cell (set xs i v) j ≡ (if i == j then v else cell xs j)
cell-set [] i j v lt = absurd (omega arith)
cell-set (x ∷ xs) zero zero v lt = ground arith
cell-set (x ∷ xs) zero (suc j) v lt = ground arith
cell-set (x ∷ xs) (suc i) zero v lt = ground arith
cell-set (x ∷ xs) (suc i) (suc j) v lt = ground (arith, cell-set xs i j v (omega arith))

pub three_values :
    (a b c : ℕ) (xs : List ℕ)
    → a ≢ b
    → a ≢ c
    → b ≢ c
    → count a xs + count b xs + count c xs ≤ length xs
three_values a b c [] ab ac bc = omega arith
three_values a b c (x ∷ xs) ab ac bc = ground (arith, three_values a b c xs ab ac bc)
