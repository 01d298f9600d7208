-- ===== src/Registry/Change.antt =====
-- `region_register` after any growth, and `region_unregister`: one cell changes, and the others are
-- found as before.
use hmalloc.Common.{
  ℕ, ◌+◌, ◌<◌, ◌≡◌, sym, subst, ◌∙◌, ◌≢◌, ◌⊎◌, List, arith, ℕ_discrete, ◌==◌, if◌then◌else◌, length,
  set, length-set,
}
use native.Mathlib.Nat.{mod-lt}
use hmalloc.Common.Multiset.{count}
use hmalloc.Registry.Walk.{round}
use hmalloc.Registry.Table.{IsKey, home, Reached, IsTable, count-set, cell-set}
use hmalloc.Registry.Lookup.{cap-pos}
use hmalloc.Registry.{cell, empty, tomb}

-- A key that stands elsewhere is still reached after a write of a value that is not empty.
pub Reached-set :
    (cells : List ℕ) (cap key i v : ℕ)
    → i < length cells
    → v ≢ 0
    → cell cells i ≢ key
    → Reached cells cap key
    → Reached (set cells i v) cap key
Reached-set cells cap key i v lt nonzero other r = record {
  steps = r.steps;
  inside = r.inside;
  here = rw (cell-set cells i _ v lt) (ground (arith, r.here));
  filled = λ e before. rw (cell-set cells i _ v lt) (ground (arith, r.filled e before));
}

module _ {cells : List ℕ} {cap size tombs : ℕ} (t : IsTable cells cap size tombs) (key : ℕ)
    (ok : IsKey key) (gone : count key cells ≡ 0) (m : ℕ) (lt : m < cap)
    (filled : (e : ℕ) → e < m → cell cells (round cap (home cap key) e) ≢ 0) where
  abbrev pub target : ℕ
  target = round cap (home cap key) m

  target-lt : target < length cells
  target-lt = rw t.width (mod-lt (home cap key + m) (cap-pos t key))

  pub counts :
      (a : ℕ)
      → count a (set cells target key) + (if a == cell cells target then 1 else 0)
        ≡ count a cells + (if a == key then 1 else 0)
  counts a = count-set a cells target key target-lt

  target-Reached : Reached (set cells target key) cap key
  target-Reached = record {
    steps = m;
    inside = lt;
    here = rw (cell-set cells target _ key target-lt) (ground arith);
    filled = λ e before.
        rw (cell-set cells target _ key target-lt) (ground (arith, filled e before, ok));
  }

  -- The table after a write of a new key over an empty cell or a tombstone on its way.
  pub IsTable-write :
      (size' tombs' : ℕ)
      → (cell cells target ≡ empty) ⊎ (cell cells target ≡ tomb)
      → count empty (set cells target key) + size' + tombs' ≡ cap
      → count tomb (set cells target key) ≡ tombs'
      → size' + tombs' < cap
      → IsTable (set cells target key) cap size' tombs'
  IsTable-write size' tombs' old gaps buried room = record {
    exponent = t.exponent;
    power = t.power;
    small = t.small;
    width = length-set cells target key ∙ t.width;
    gaps = gaps;
    buried = buried;
    room = room;
    unique = λ k okk. ground (arith, counts k, t.unique k okk, gone);
    reached = λ k okk h. elim (ℕ_discrete k key) [
      | yes same ↦ subst (Reached (set cells target key) cap) (sym same) target-Reached
      | no other ↦
          Reached-set cells cap k target key target-lt ok.0 (ground arith)
            (t.reached k okk (ground (arith, counts k)))
    ];
  }
