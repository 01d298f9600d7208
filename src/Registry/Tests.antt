-- ===== src/Registry/Tests.antt =====
-- Tests of the region registry: tables of four cells, in which the home of `k * 2 ^ 22` is `k % 4`.
use hmalloc.Common.{
  ℕ, zero, suc, ◌*◌, ◌^◌, ◌<◌, ◌≡◌, refl, sym, subst, ◌≢◌, true, none, some, [], ◌∷◌, arith,
  ℕ_discrete, inl,
}
use hmalloc.Common.Word.{size_max}
use hmalloc.Registry.Table.{IsKey, home, IsTable, Reached}
use hmalloc.Registry.Lookup.{IsRegistry, region_owns-count}
use hmalloc.Registry.Unregister.{Unregistered, region_unregister-Unregistered}
use hmalloc.Registry.Set.{Adds, region_register-Adds}
use hmalloc.Registry.Full.{insert_cell-Full}
use hmalloc.Os.{Kernel, Os}
use hmalloc.Registry.{
  region_register, Registry, cell, empty, tomb, index_of, insert_cell, write_key, next_index,
  insert_key, region_unregister, region_owns,
}

abbrev pub base_1 : ℕ
base_1 = 2 ^ 22

abbrev base_5 : ℕ
base_5 = 5 * 2 ^ 22

-- A tombstone on the way to the one key.
abbrev pub one_base : Registry
one_base = record {
  slots = 4096;
  cells = empty ∷ tomb ∷ base_1 ∷ empty ∷ [];
  cap = 4;
  size = 1;
  tombs = 1;
}

base_5-IsKey : IsKey base_5
base_5-IsKey = (omega arith, omega arith)

pub base_1-IsKey : IsKey base_1
base_1-IsKey = (omega arith, omega arith)

base_1-Reached : Reached one_base.cells 4 base_1
unfolding home index_of
base_1-Reached = record {
  steps = 1;
  inside = omega arith;
  here = refl;
  filled = λ e before. (let first : e ≡ 0 = omega arith in rw first (omega arith));
}

pub one_base-IsTable : IsTable one_base.cells 4 1 1
one_base-IsTable = record {
  exponent = 2;
  power = refl;
  small = omega arith;
  width = refl;
  gaps = refl;
  buried = refl;
  room = omega arith;
  unique = λ k okk. ground (arith, okk);
  reached = λ k okk h. elim (ℕ_discrete k base_1) [
    | yes e ↦ subst (Reached one_base.cells 4) (sym e) base_1-Reached
    | no other ↦ absurd (ground (arith, h, okk))
  ];
}

pub one_base-IsRegistry : IsRegistry one_base
one_base-IsRegistry = (omega arith, one_base-IsTable)

-- The new key takes the place of the tombstone.
reuse_tomb :
    insert_key base_5 one_base
    ≡ some (record one_base { cells = empty ∷ base_5 ∷ base_1 ∷ empty ∷ []; size = 2; tombs = 0 })
unfolding insert_key insert_cell index_of write_key next_index
reuse_tomb = refl

-- A table below its load, in which the home of `base_5` is a tombstone.
abbrev pub only_tomb : Registry
only_tomb = record {
  slots = 4096;
  cells = empty ∷ tomb ∷ empty ∷ empty ∷ [];
  cap = 4;
  size = 0;
  tombs = 1;
}

pub only_tomb-IsTable : IsTable only_tomb.cells 4 0 1
only_tomb-IsTable = record {
  exponent = 2;
  power = refl;
  small = omega arith;
  width = refl;
  gaps = refl;
  buried = refl;
  room = omega arith;
  unique = λ k okk. ground (arith, okk);
  reached = λ k okk h. absurd (ground (arith, h, okk));
}

abbrev kernel : Kernel
kernel = record { sysconf_page_size = 4096; mmap = λ log n. 0; madvise = λ p n. true }

abbrev nothing_mapped : Os
nothing_mapped = record {
  stats = record { bytes_mapped = 0; peak_mapped = 0; map_calls = 0; unmap_calls = 0 };
  log = [];
}

region_owns-count_example : region_owns base_1 one_base ≡ some true
region_owns-count_example = region_owns-count one_base base_1 one_base-IsRegistry base_1-IsKey

region_unregister-Unregistered_example :
    (r' : Registry) × (region_unregister base_1 one_base ≡ some r')
    × Unregistered one_base base_1 r'
region_unregister-Unregistered_example =
    region_unregister-Unregistered one_base base_1 one_base-IsRegistry base_1-IsKey

-- A table in which every cell is a tombstone.
insert_cell-Full_example :
    insert_cell 100 (tomb ∷ tomb ∷ tomb ∷ tomb ∷ []) 4 base_1 1 size_max ≡ none
insert_cell-Full_example =
    insert_cell-Full (tomb ∷ tomb ∷ tomb ∷ tomb ∷ []) 4 2 refl (omega arith) base_1 tombs_only 100 1
      size_max (omega arith)
  where
    tombs_only :
        (i : ℕ)
        → i < 4
        → (cell (tomb ∷ tomb ∷ tomb ∷ tomb ∷ []) i ≢ 0)
          × (cell (tomb ∷ tomb ∷ tomb ∷ tomb ∷ []) i ≢ base_1)
    tombs_only zero lt = (omega arith, omega arith)
    tombs_only (suc zero) lt = (omega arith, omega arith)
    tombs_only (suc (suc zero)) lt = (omega arith, omega arith)
    tombs_only (suc (suc (suc zero))) lt = (omega arith, omega arith)
    tombs_only (suc (suc (suc (suc i)))) lt = absurd (omega arith)

abbrev roomy_kernel : Kernel
roomy_kernel = record { sysconf_page_size = 4096; mmap = λ log n. 65536; madvise = λ p n. true }

-- The table is too full, and is rid of its tombstone.
region_register-Adds_example :
    Adds base_5 one_base (region_register roomy_kernel base_5 (one_base, nothing_mapped))
region_register-Adds_example =
    region_register-Adds roomy_kernel one_base nothing_mapped base_5
      (inl (record { registry = (omega arith, one_base-IsTable); wide = omega arith })) base_5-IsKey
      (omega arith) (inl (omega arith))
