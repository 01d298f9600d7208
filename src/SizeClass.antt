-- ===== src/SizeClass.antt =====
-- src/size_class.h: the table of block sizes, built octave by octave, and its reverse lookup.
-- All sizes stay below 2 ^ 15 and all indices below 64, so the 32-bit sums and the 8-bit entries of
-- the source do not wrap.
pub mod Table
pub mod Least
pub mod Search
pub mod Fragmentation
mod Tests
use hmalloc.Common.{
  ℕ, zero, suc, ◌+◌, ◌-◌, ◌*◌, ◌/◌, ◌%◌, ◌^◌, Bool, true, false, ◌&&◌, List, [], ◌∷◌, ltb, leb,
  ◌==◌, if◌then◌else◌, get_or, set, replicate,
}
use hmalloc.Constants.{alloc_align, small_size_max}

abbrev pub large_class : ℕ
large_class = 0xffff_ffff

abbrev pub max_classes : ℕ
max_classes = 64

abbrev pub lookup_entries : ℕ
lookup_entries = small_size_max / alloc_align

-- The arrays `size` and `lookup`, and the number of classes.
pub record SizeClasses : Type 0 where
  pub size : List ℕ
  pub count : ℕ
  pub lookup : List ℕ

-- `t.size[t.count++] = s`
push_size : ℕ → SizeClasses → SizeClasses
push_size s t = record t { size = set t.size t.count s; count = t.count + 1 }

-- `for (s = ALLOC_ALIGN; s <= 64; s += ALLOC_ALIGN)`
base_octave : ℕ → ℕ → SizeClasses → SizeClasses
unfolding push_size
base_octave zero s t = t
base_octave (suc fuel) s t = elim (leb s 64) [
  | true ↦ base_octave fuel (s + alloc_align) (push_size s t)
  | false ↦ t
]

-- `for (i = 1; i <= 4; ++i)`, with the rounds that are left
octave_steps : ℕ → ℕ → ℕ → ℕ → SizeClasses → SizeClasses
unfolding push_size
octave_steps zero i base step t = t
octave_steps (suc left) i base step t =
    let s = base + i * step in
    octave_steps left (i + 1) base step (if leb s small_size_max then push_size s t else t)

-- `for (k = 6; (1 << k) < SMALL_SIZE_MAX; ++k)`
octaves : ℕ → ℕ → SizeClasses → SizeClasses
unfolding octave_steps
octaves zero k t = t
octaves (suc fuel) k t = elim (ltb (2 ^ k) small_size_max) [
  | true ↦ octaves fuel (k + 1) (octave_steps 4 1 (2 ^ k) (2 ^ k / 4) t)
  | false ↦ t
]

-- `while (cls + 1 < t.count && t.size[cls] < n) ++cls`
next_class : ℕ → SizeClasses → ℕ → ℕ → ℕ
next_class zero t n cls = cls
next_class (suc fuel) t n cls = elim (ltb (cls + 1) t.count && ltb (get_or t.size cls 0) n) [
  | true ↦ next_class fuel t n (cls + 1)
  | false ↦ cls
]

-- The entries from bucket `i` on, in order, with the rounds that are left.
fill_lookup : ℕ → SizeClasses → ℕ → ℕ → List ℕ
unfolding next_class
fill_lookup zero t i cls = []
fill_lookup (suc left) t i cls =
    let c = next_class max_classes t ((i + 1) * alloc_align) cls in
    (c % 256) ∷ fill_lookup left t (i + 1) c

build_size_classes : SizeClasses
unfolding base_octave octaves fill_lookup
build_size_classes =
    let empty : SizeClasses = record { size = replicate max_classes 0; count = 0; lookup = [] } in
    let t = octaves 64 6 (base_octave 5 alloc_align empty) in
    record t { lookup = fill_lookup lookup_entries t 0 0 }

unfoldable pub k_table : SizeClasses
unfolding build_size_classes
k_table = build_size_classes

unfoldable pub num_size_classes : ℕ
num_size_classes = k_table.count

-- An index out of range reads 0.
unfoldable pub class_to_size : ℕ → ℕ
class_to_size c = get_or k_table.size c 0

unfoldable pub size_class : ℕ → ℕ
size_class n =
    if ltb small_size_max n
    then large_class
    else (let n' = if n == 0 then 1 else n in get_or k_table.lookup ((n' - 1) / alloc_align) 0)

unfoldable pub size_class_round : ℕ → ℕ
size_class_round n = class_to_size (size_class n)
