-- ===== src/Registry/Unregister.antt =====
-- `region_unregister`: the key gives way to a tombstone.
use hmalloc.Common.{
  ℕ, ◌+◌, ◌<◌, ◌≡◌, refl, sym, subst, ◌∙◌, ◌⊎◌, inl, inr, true, false, some, arith, ◌==◌,
  if◌then◌else◌, length, length-set,
}
use native.Mathlib.Nat.{mod-lt}
use hmalloc.Common.Multiset.{count}
use hmalloc.Registry.Walk.{round, Stops, found_at}
use hmalloc.Registry.Table.{IsKey, home, IsTable, count-set, count-get_or, three_values}
use hmalloc.Registry.Lookup.{IsRegistry, cap-pos, probe, absent, find_cell-home}
use hmalloc.Registry.{Registry, cell, empty, tomb, erase_cell, region_unregister}
use hmalloc.Registry.Change.{Reached-set}

-- What an unregistration leaves: the same table in order, without the key, and with every other key
-- as often as before.
pub record Unregistered (r : Registry) (key : ℕ) (r' : Registry) : Type 0 where
  pub slots : r'.slots ≡ r.slots
  pub cap : r'.cap ≡ r.cap
  pub table : IsTable r'.cells r'.cap r'.size r'.tombs
  pub members : (k : ℕ) → IsKey k → count k r'.cells ≡ (if k == key then 0 else count k r.cells)

module _ (r : Registry) (t : IsTable r.cells r.cap r.size r.tombs) (key : ℕ) (ok : IsKey key)
    (i : ℕ) (lt : i < length r.cells) (here : cell r.cells i ≡ key) where
  erase_cell-Unregistered : Unregistered r key (erase_cell r (some i))
  unfolding erase_cell
  erase_cell-Unregistered =
      let c = λ (a : ℕ). count-set a r.cells i tomb lt in
      let held : 0 < count key r.cells =
        subst (λ k. 0 < count k r.cells) here (count-get_or r.cells i lt) in
      let distinct =
        three_values 0 tomb key r.cells (omega arith) (λ e. ok.0 (sym e)) (λ e. ok.1 (sym e)) in
      let some_key : 0 < r.size = omega (arith, t.gaps, t.buried, t.width) in
      record {
        slots = refl;
        cap = refl;
        table = record {
          exponent = t.exponent;
          power = t.power;
          small = t.small;
          width = length-set r.cells i tomb ∙ t.width;
          gaps = ground (arith, c 0, t.gaps);
          buried = ground (arith, c tomb, t.buried);
          room = omega (arith, t.room);
          unique = λ k okk. ground (arith, c k, t.unique k okk);
          reached = λ k okk h.
              Reached-set r.cells r.cap k i tomb lt (omega arith)
                (ground (arith, c k, t.unique k okk)) (t.reached k okk (ground (arith, c k)));
        };
        members = λ k okk. ground (arith, c k, t.unique k okk);
      }

-- Unregistering returns, keeps the table in order, takes the key out of it if it was there, and
-- changes no other key.
pub region_unregister-Unregistered :
    (r : Registry) (key : ℕ)
    → IsRegistry r
    → IsKey key
    → (r' : Registry) × (region_unregister key r ≡ some r') × Unregistered r key r'
unfolding region_unregister home erase_cell
region_unregister-Unregistered r key (mapped, t) ok =
    let (n, w) = probe t key in
    let here : (r.slots == 0) ≡ false = ground arith in
    rw (here, find_cell-home t key n w) (result n w w.stopped)
  where
    result :
        (n : ℕ) (w : Stops r.cells r.cap key (home r.cap key) n)
        (x : (cell r.cells (round r.cap (home r.cap key) n) ≡ empty)
          ⊎ (cell r.cells (round r.cap (home r.cap key) n) ≡ key))
        → (r' : Registry) × (some
              (erase_cell r (found_at t.exponent r.cap t.power r.cells key (home r.cap key) n w))
            ≡ some r')
          × Unregistered r key r'
    result n w (inl z) =
        let at : (cell r.cells (round r.cap (home r.cap key) n) == empty) ≡ true = ground arith in
        rw at (
          r,
          refl,
          record {
            slots = refl;
            cap = refl;
            table = t;
            members = λ k okk. ground (arith, absent t key n ok w z);
          },
        )
    result n w (inr e) =
        let i = round r.cap (home r.cap key) n in
        let at : (cell r.cells i == empty) ≡ false = ground arith in
        let lt : i < length r.cells = rw t.width (mod-lt (home r.cap key + n) (cap-pos t key)) in
        rw at (erase_cell r (some i), refl, erase_cell-Unregistered r t key ok i lt e)
