-- ===== src/Registry/Register.antt =====
-- `region_register`, the part after any growth: the key is in the table afterwards.
use hmalloc.Common.{
  ℕ, ◌+◌, ◌-◌, ◌<◌, ◌≡◌, refl, sym, ap, subst, ◌∙◌, ◌⊎◌, inl, inr, true, false, some, arith, ◌==◌,
  ◌!=◌, if◌then◌else◌,
}
use mathlib.Core.Option
use native.Mathlib.Nat.{mod-lt}
use hmalloc.Common.Multiset.{count}
use hmalloc.Common.Word.{size_max}
use hmalloc.Registry.Walk.{round, Stops, insert_cell-Ends, Ends, there, fresh}
use hmalloc.Registry.Table.{IsKey, home, IsTable, count-get_or}
use hmalloc.Registry.Lookup.{cap-pos, probe, absent, present, start, IsRegistry}
use hmalloc.Os.{Kernel, Os}
use hmalloc.Registry.{
  region_register, overloaded, Registry, tomb, index_of, insert_cell, write_key, insert_key,
}
use hmalloc.Registry.Change.{counts, IsTable-write}

-- What a registration leaves: the same table in order, with the key in it once and every other key
-- as often as before.
pub record Registered (r : Registry) (key : ℕ) (r' : Registry) : Type 0 where
  pub slots : r'.slots ≡ r.slots
  pub cap : r'.cap ≡ r.cap
  pub table : IsTable r'.cells r'.cap r'.size r'.tombs
  pub members : (k : ℕ) → IsKey k → count k r'.cells ≡ (if k == key then 1 else count k r.cells)

module _ (r : Registry) (t : IsTable r.cells r.cap r.size r.tombs) (key : ℕ) (ok : IsKey key)
    (spare : r.size + r.tombs + 1 < r.cap) (n : ℕ)
    (w : Stops r.cells r.cap key (home r.cap key) n) where
  write_key-Registered :
      (x : ℕ ⊎ (ℕ × ℕ))
      → Ends t.exponent r.cap t.power r.cells key (home r.cap key) n w size_max x
      → Registered r key (write_key key r x)
  unfolding write_key
  write_key-Registered x (there e) = record {
    slots = refl;
    cap = refl;
    table = t;
    members = λ k okk. ground (arith, present t key n e, t.unique key ok);
  }
  write_key-Registered x (fresh s e (inl none_seen)) =
      let unseen : (s != size_max) ≡ false = ground arith in
      let gone = absent t key n ok w e in
      let filled = λ (e' : ℕ) (before : e' < n). (w.passed e' before).0 in
      let c = counts t key ok gone n w.inside filled in
      rw (unseen) (record {
        slots = refl;
        cap = refl;
        table =
            IsTable-write t key ok gone n w.inside filled (r.size + 1) r.tombs (inl e)
              (ground (arith, c 0, t.gaps)) (ground (arith, c tomb, t.buried)) (omega arith);
        members = λ k okk. ground (arith, c k, gone);
      })
  write_key-Registered x (fresh s e (inr (m, before, se, old))) =
      let inside : m < r.cap = omega (arith, w.inside) in
      let small : s < r.cap = rw se (mod-lt (home r.cap key + m) (cap-pos t key)) in
      let seen : (s != size_max) ≡ true = ground (arith, t.small) in
      let gone = absent t key n ok w e in
      let filled = λ (e' : ℕ) (lt : e' < m). (w.passed e' (omega arith)).0 in
      let c = counts t key ok gone m inside filled in
      let some_tomb : 0 < r.tombs = rw (← t.buried) (
        subst (λ k. 0 < count k r.cells) old
          (count-get_or r.cells (round r.cap (home r.cap key) m)
            (rw t.width (mod-lt (home r.cap key + m) (cap-pos t key))))) in
      rw (seen, se)
        (record {
          slots = refl;
          cap = refl;
          table =
              IsTable-write t key ok gone m inside filled (r.size + 1) (r.tombs - 1) (inr old)
                (ground (arith, c 0, t.gaps)) (ground (arith, c tomb, t.buried)) (omega arith);
          members = λ k okk. ground (arith, c k, gone);
        })

pub insert_key-Registered :
    (r : Registry) (key : ℕ)
    → IsTable r.cells r.cap r.size r.tombs
    → IsKey key
    → r.size + r.tombs + 1 < r.cap
    → (r' : Registry) × (insert_key key r ≡ some r') × Registered r key r'
unfolding insert_key index_of home
insert_key-Registered r key t ok spare =
    let (n, w) = probe t key in
    let (x, run, ends) =
      insert_cell-Ends t.exponent r.cap t.power r.cells key (home r.cap key) n w ok.0 r.cap 0
        size_max (omega arith) (omega (arith, w.inside)) in
    let from : insert_cell r.cap r.cells r.cap key (home r.cap key) size_max ≡ some x =
      ap (λ i. insert_cell r.cap r.cells r.cap key i size_max) (sym (start t key)) ∙ run in
    (
      write_key key r x,
      ap (Option.map (write_key key r)) from,
      write_key-Registered r t key ok spare n w x ends,
    )

-- Where the table is below the load at which it is rehashed, a registration returns, keeps the table
-- in order, puts the base in it once, whether or not it was there, changes no other key and maps
-- nothing.
pub region_register-Registered :
    (k : Kernel) (r : Registry) (s : Os) (base : ℕ)
    → IsRegistry r
    → IsKey base
    → overloaded r ≡ false
    → (r' : Registry) × (region_register k base (r, s) ≡ some (r', s)) × Registered r base r'
unfolding region_register overloaded
region_register-Registered k r s base (mapped, t) ok light =
    let here : (r.slots == 0) ≡ false = ground arith in
    let (r', run, done) = insert_key-Registered r base t ok (ground (arith, t.room)) in
    (r', rw (here, light, here, run), done)
