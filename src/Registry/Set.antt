-- ===== src/Registry/Set.antt =====
-- `region_register` as an insertion into a set of bases, at every load of the table.
use hmalloc.Common.{
  ℕ, ◌+◌, ◌*◌, ◌^◌, ◌<◌, ◌≡◌, refl, sym, ap, subst, ◌∙◌, ◌≢◌, ◌⊎◌, inl, inr, Bool, true, false,
  ◌||◌, Option, some, [], arith, ltb, leb, ◌==◌, ◌!=◌, if◌then◌else◌, Bool-cases, replicate,
}
use mathlib.Core.Option
use hmalloc.Common.Bits.{pow-add}
use hmalloc.Common.Multiset.{count}
use hmalloc.Common.Word.{size_max}
use hmalloc.Os.{Kernel, Os}
use hmalloc.Registry.{
  Registry, alloc_slots, grow_locked, rehash, overloaded, next_cap, insert_key, region_register,
  empty,
}
use hmalloc.Registry.Table.{IsKey}
use hmalloc.Registry.Lookup.{IsRegistry}
use hmalloc.Registry.Register.{insert_key-Registered}
use hmalloc.Registry.Grow.{Grown, grow_locked-Grown, replicate-IsTable, count-replicate}

-- The set of bases that the table stands for.
abbrev pub holds : Registry → ℕ → Bool
holds r key = ltb 0 (count key r.cells)

-- Before the first registration no table is mapped.
pub record Unmapped (r : Registry) : Type 0 where
  pub slots : r.slots ≡ 0
  pub cells : r.cells ≡ []
  pub cap : r.cap ≡ 0
  pub size : r.size ≡ 0

pub record IsStore (r : Registry) : Type 0 where
  pub registry : IsRegistry r
  pub wide : 1 < r.cap

-- The capacity of the table that is mapped if one is to be.
abbrev pub wanted : Registry → ℕ
wanted r = if r.slots == 0 then 1024 else next_cap r

-- A registration that returned has added `base` to the set.
abbrev pub Adds : ℕ → Registry → Option (Registry × Os) → Type 0
Adds base r result =
    (r' : Registry) × (s' : Os) × (result ≡ some (r', s'))
    × IsStore r'
    × ((key : ℕ) → IsKey key → holds r' key ≡ (key == base || holds r key))

-- The end of a registration, in a table `r₂` with the keys of `r`.
insert_key-Adds :
    (base : ℕ) (r r₂ : Registry) (s : Os)
    → IsRegistry r₂
    → 1 < r₂.cap
    → IsKey base
    → r₂.size + r₂.tombs + 1 < r₂.cap
    → ((key : ℕ) → IsKey key → count key r₂.cells ≡ count key r.cells)
    → Adds base r
        (if r₂.slots == 0 then some (r₂, s) else Option.map (λ q. (q, s)) (insert_key base r₂))
insert_key-Adds base r r₂ s (mapped, t) wide ok spare same =
    let here : (r₂.slots == 0) ≡ false = ground arith in
    let (r', run, done) = insert_key-Registered r₂ base t ok spare in
    (
      r',
      s,
      rw (here, run) refl,
      record { registry = (rw done.slots mapped, done.table); wide = rw done.cap wide },
      λ key okk. ground (arith, done.members key okk, same key okk),
    )

-- The growth of a table that is too full leaves room for a key, if there was any or the kernel has memory.
roomy :
    (k : Kernel) (r r₂ : Registry) (s : Os)
    → IsStore r
    → (r.size + r.tombs + 1 < r.cap) ⊎ ((alloc_slots k (next_cap r) s).0 ≢ 0)
    → Grown (next_cap r) (alloc_slots k (next_cap r) s).0 r r₂
    → (1 < r₂.cap) × (r₂.size + r₂.tombs + 1 < r₂.cap)
unfolding next_cap
roomy k r r₂ s w memory g = elim g.table [
  | inl (failed, same) ↦ elim memory [
    | inl spare ↦ rw same (w.wide, spare)
    | inr served ↦ absurd (served failed)
  ]
  | inr (slots, cap, tombs) ↦ rw (cap, tombs, g.size) (ground (arith, w.wide, w.registry.1.room))
]

spare_of : (r : Registry) → IsStore r → overloaded r ≡ false → r.size + r.tombs + 1 < r.cap
unfolding overloaded
spare_of r w light = ground (arith, w.registry.1.room)

first_light : (r : Registry) → r.cap ≡ 1024 → r.size ≡ 0 → r.tombs ≡ 0 → overloaded r ≡ false
unfolding overloaded
first_light r cap size tombs = rw (cap, size, tombs) refl

-- The capacity of a table that is rehashed.
record IsCap (r : Registry) (cap : ℕ) : Type 0 where
  exponent : ℕ
  power : cap ≡ 2 ^ exponent
  small : cap < size_max
  enough : r.size < cap

next_cap-IsCap : (r : Registry) → IsRegistry r → r.cap * 2 < size_max → IsCap r (next_cap r)
unfolding next_cap
next_cap-IsCap r (mapped, t) small = elim (Bool-cases (leb r.cap (r.size * 2))) [
  | inl full ↦ rw full (record {
    exponent = t.exponent + 1;
    power = ap (λ c. c * 2) t.power ∙ sym (pow-add t.exponent 1);
    small = small;
    enough = omega (arith, t.room);
  })
  | inr half ↦ rw half (record {
    exponent = t.exponent;
    power = t.power;
    small = t.small;
    enough = omega (arith, t.room);
  })
]

-- The first table.
first_table :
    (k : Kernel) (r : Registry) (s : Os)
    → Unmapped r
    → (alloc_slots k 1024 s).0 ≢ 0
    → (r₁ : Registry) × (s₁ : Os) × (grow_locked k 1024 (r, s) ≡ some (r₁, s₁))
      × IsRegistry r₁
      × (r₁.cap ≡ 1024)
      × (r₁.size ≡ 0)
      × (r₁.tombs ≡ 0)
      × (r₁.cells ≡ replicate 1024 empty)
unfolding grow_locked rehash
first_table k r s u memory =
    let (fresh, s₁) = alloc_slots k 1024 s in
    let served : (fresh == 0) ≡ false = ground (arith, memory) in
    let unmapped : (r.slots != 0) ≡ false = ground (arith, u.slots) in
    (
      record r { slots = fresh; cells = replicate 1024 empty; cap = 1024; tombs = 0 },
      s₁,
      rw (served, u.cells, unmapped) refl,
      (memory, rw u.size (replicate-IsTable 10 1024 refl (omega arith) (omega arith))),
      refl,
      u.size,
      refl,
      refl,
    )

-- `region_register` returns and adds the base to the set of those that are registered, at whatever load and
-- whether it was there or not, also where it maps the first table, doubles the table or rids it of
-- tombstones. The condition is that the table has two cells to spare, or that the kernel has memory for the
-- one that is wanted.
pub region_register-Adds :
    (k : Kernel) (r : Registry) (s : Os) (base : ℕ)
    → IsStore r ⊎ Unmapped r
    → IsKey base
    → r.cap * 2 < size_max
    → (r.size + r.tombs + 1 < r.cap) ⊎ ((alloc_slots k (wanted r) s).0 ≢ 0)
    → Adds base r (region_register k base (r, s))
unfolding region_register
region_register-Adds k r s base (inl w) ok small memory =
    let here : (r.slots == 0) ≡ false = ground (arith, w.registry.0) in
    let memory' =
      subst
        (λ x.
          (r.size + r.tombs + 1 < r.cap)
          ⊎ ((alloc_slots k (if x then 1024 else next_cap r) s).0 ≢ 0))
        here memory in
    elim (Bool-cases (overloaded r)) [
      | inl heavy ↦
          let c = next_cap-IsCap r w.registry small in
          let (r₂, s₂, run, g) =
            grow_locked-Grown k c.exponent (next_cap r) r s w.registry c.power c.small c.enough in
          let (wide, spare) = roomy k r r₂ s w memory' g in
          rw (here, heavy, run) (insert_key-Adds base r r₂ s₂ g.registry wide ok spare g.members)
      | inr light ↦
          rw (here, light)
            (insert_key-Adds base r r s w.registry w.wide ok (spare_of r w light) (λ key okk. refl))
    ]
region_register-Adds k r s base (inr u) ok small memory =
    let none_yet : (r.slots == 0) ≡ true = ground (arith, u.slots) in
    let memory' =
      subst
        (λ x.
          (r.size + r.tombs + 1 < r.cap)
          ⊎ ((alloc_slots k (if x then 1024 else next_cap r) s).0 ≢ 0))
        none_yet memory in
    elim memory' [
      | inl spare ↦ absurd (omega (arith, u.cap))
      | inr served ↦
          let (r₁, s₁, run, reg, cap, size, tombs, cells) = first_table k r s u served in
          let light : overloaded r₁ ≡ false = first_light r₁ cap size tombs in
          rw (none_yet, run, light)
            (insert_key-Adds base r r₁ s₁ reg (omega (arith, cap)) ok
              (omega (arith, cap, size, tombs))
              (λ key okk. rw (cells, u.cells) (ground (arith, count-replicate 1024 key, okk))))
    ]
