-- ===== src/Registry.antt =====
-- src/region_registry.h and src/region_registry.cpp: the open-addressing hash set of region bases.
-- The table is an address and the cells of the array there; `nullptr` comes with no cells. The lock
-- makes each operation one step.
pub mod Walk
pub mod Table
pub mod Lookup
pub mod Change
pub mod Register
pub mod Unregister
pub mod Full
pub mod Grow
pub mod Set
pub mod Tests
use hmalloc.Common.{
  ℕ, zero, suc, ◌+◌, ◌-◌, ◌*◌, ◌/◌, ◌%◌, ◌^◌, ◌≤◌, ◌<◌, min, max, bit_and, ◌≡◌, refl, sym, ap, ap₂,
  subst, ◌∙◌, ◌≢◌, ◌↔◌, ◌⊎◌, inl, inr, Bool, true, false, not, ◌&&◌, ◌||◌, Option, none, some, List,
  [], ◌∷◌, ◌++◌, map, arith, dec_lt, dec_le, ℕ_discrete, ltb, leb, ◌==◌, ◌!=◌, if◌then◌else◌, tests,
  Bool-cases, Option-cases, length, get_or, set, replicate, update,
}
use mathlib.Core.Option
use hmalloc.Common.Word.{size_max, wrap, shr, align_up}
use hmalloc.Constants.{segment_shift}
use hmalloc.Os.{Kernel, Os, os_page_size, os_alloc_aligned, os_free}

infixl 5 ◌>>=◌
abbrev pub ◌>>=◌ : {A B : Type 0} → Option A → (A → Option B) → Option B
none >>= f = none
some a >>= f = f a

abbrev pub empty : ℕ
empty = 0

abbrev pub tomb : ℕ
tomb = 2 ^ 64 - 1

pub record Registry : Type 0 where
  pub slots : ℕ
  pub cells : List ℕ
  pub cap : ℕ
  pub size : ℕ
  pub tombs : ℕ

-- `slots[i]`
abbrev pub cell : List ℕ → ℕ → ℕ
cell cells i = get_or cells i 0

unfoldable pub slots_bytes : Kernel → ℕ → ℕ
slots_bytes k cap = align_up (cap * 8) (os_page_size k)

unfoldable pub alloc_slots : Kernel → ℕ → Os → ℕ × Os
alloc_slots k cap s = os_alloc_aligned k (slots_bytes k cap) (os_page_size k) s

unfoldable pub index_of : ℕ → ℕ → ℕ
index_of cap_mask key = bit_and (wrap (shr key segment_shift * 0x9e3779b97f4a7c15)) cap_mask

-- `(i + 1) & (cap - 1)`
unfoldable pub next_index : ℕ → ℕ → ℕ
next_index cap i = bit_and (i + 1) (cap - 1)

-- Each loop below stops within `cap` rounds if a cell is empty; `none` stands for a loop that is
-- still running after its fuel.
unfoldable pub free_cell : ℕ → List ℕ → ℕ → ℕ → Option ℕ
free_cell zero cells cap i = none
free_cell (suc fuel) cells cap i = elim (cell cells i != empty) [
  | true ↦ free_cell fuel cells cap (next_index cap i)
  | false ↦ some i
]

unfoldable pub raw_insert : List ℕ → ℕ → ℕ → Option (List ℕ)
raw_insert cells cap key =
    Option.map (λ i. set cells i key) (free_cell cap cells cap (index_of (cap - 1) key))

-- The loop of `grow_locked` over the old table.
unfoldable pub rehash : List ℕ → List ℕ → ℕ → Option (List ℕ)
rehash [] fresh cap = some fresh
rehash (c ∷ old) fresh cap =
    if c != empty && c != tomb
    then Option.bind (raw_insert fresh cap c) (λ fresh'. rehash old fresh' cap)
    else rehash old fresh cap

unfoldable pub grow_locked : Kernel → ℕ → Registry × Os → Option (Registry × Os)
grow_locked k new_cap (r, s) =
    let (fresh, s') = alloc_slots k new_cap s in
    if fresh == 0
    then some (r, s')
    else Option.map
        (λ cells. (
          record r { slots = fresh; cells = cells; cap = new_cap; tombs = 0 },
          if r.slots != 0 then os_free r.slots (slots_bytes k r.cap) s' else s',
        ))
        (rehash r.cells (replicate new_cap empty) new_cap)

-- The loop of `region_register`: `inl` for a key that is there, `inr` for the cell to write. The
-- last argument is `first_tomb`.
unfoldable pub insert_cell : ℕ → List ℕ → ℕ → ℕ → ℕ → ℕ → Option (ℕ ⊎ (ℕ × ℕ))
insert_cell zero cells cap key i first_tomb = none
insert_cell (suc fuel) cells cap key i first_tomb =
    let rest = insert_cell fuel cells cap key (next_index cap i) in
    let seen = cell cells i == tomb && first_tomb == size_max in
    if cell cells i != empty
    then (if cell cells i == key then some (inl i) else rest (if seen then i else first_tomb))
    else some (inr (i, first_tomb))

-- Whether the table is to be rehashed first, and to what capacity.
unfoldable pub overloaded : Registry → Bool
overloaded r = leb (r.cap * 7) ((r.size + r.tombs + 1) * 10)

unfoldable pub next_cap : Registry → ℕ
next_cap r = if leb r.cap (r.size * 2) then r.cap * 2 else r.cap

-- What `region_register` does after its loop.
unfoldable pub write_key : ℕ → Registry → ℕ ⊎ (ℕ × ℕ) → Registry
write_key key r (inl i) = r
write_key key r (inr (i, first_tomb)) =
    if first_tomb != size_max
    then record r { cells = set r.cells first_tomb key; tombs = r.tombs - 1; size = r.size + 1 }
    else record r { cells = set r.cells i key; size = r.size + 1 }

unfoldable pub insert_key : ℕ → Registry → Option Registry
insert_key key r =
    Option.map (write_key key r)
      (insert_cell r.cap r.cells r.cap key (index_of (r.cap - 1) key) size_max)

unfoldable pub region_register : Kernel → ℕ → Registry × Os → Option (Registry × Os)
region_register k base (r₀, s₀) = do
  (r₁, s₁) ← if r₀.slots == 0 then grow_locked k 1024 (r₀, s₀) else some (r₀, s₀)
  (r₂, s₂) ← if overloaded r₁ then grow_locked k (next_cap r₁) (r₁, s₁) else some (r₁, s₁)
  if r₂.slots == 0 then some (r₂, s₂) else Option.map (λ r. (r, s₂)) (insert_key base r₂)

-- The loop of `region_unregister` and of `region_owns`: where the key is, if it is there.
unfoldable pub find_cell : ℕ → List ℕ → ℕ → ℕ → ℕ → Option (Option ℕ)
find_cell zero cells cap key i = none
find_cell (suc fuel) cells cap key i =
    let rest = find_cell fuel cells cap key (next_index cap i) in
    if cell cells i != empty
    then (if cell cells i == key then some (some i) else rest)
    else some none

erase_cell : Registry → Option ℕ → Registry
erase_cell r none = r
erase_cell r (some i) = record r {
  cells = set r.cells i tomb;
  size = r.size - 1;
  tombs = r.tombs + 1;
}

unfoldable pub region_unregister : ℕ → Registry → Option Registry
unfolding erase_cell
region_unregister base r =
    if r.slots == 0
    then some r
    else Option.map (erase_cell r) (find_cell r.cap r.cells r.cap base (index_of (r.cap - 1) base))

is_found : Option ℕ → Bool
is_found none = false
is_found (some i) = true

unfoldable pub region_owns : ℕ → Registry → Option Bool
unfolding is_found
region_owns base r =
    if r.slots == 0
    then some false
    else Option.map is_found (find_cell r.cap r.cells r.cap base (index_of (r.cap - 1) base))
