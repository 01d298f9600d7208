-- ===== src/SizeClass/Table.antt =====
-- The tables that `build_size_classes` computes, checked entry by entry.
use hmalloc.Common.{
  ℕ, zero, suc, ◌+◌, ◌-◌, ◌*◌, ◌/◌, ◌%◌, ◌≤◌, ◌<◌, ◌≡◌, refl, Bool, true, ◌&&◌, ◌||◌, List, [], ◌∷◌,
  arith, ltb, leb, ◌==◌, get_or, length, ltb→lt, ==→eq, subst, ◌⊎◌,
}
use native.Mathlib.Nat.{le_refl, le_trans, le_of_lt}
use hmalloc.SizeClass.{k_table, class_to_size, num_size_classes, size_class}

-- The documented block sizes: four steps to an octave.
abbrev pub class_sizes : List ℕ
class_sizes =
    16 ∷ 32 ∷ 48 ∷ 64 ∷ 80 ∷ 96 ∷ 112 ∷ 128 ∷ 160 ∷ 192 ∷ 224 ∷ 256 ∷ 320 ∷ 384 ∷ 448 ∷ 512 ∷ 640
    ∷ 768 ∷ 896 ∷ 1024 ∷ 1280 ∷ 1536 ∷ 1792 ∷ 2048 ∷ 2560 ∷ 3072 ∷ 3584 ∷ 4096 ∷ 5120 ∷ 6144 ∷ 7168
    ∷ 8192 ∷ 10240 ∷ 12288 ∷ 14336 ∷ 16384 ∷ []

abbrev pub listed : ℕ → ℕ
listed c = get_or class_sizes c 0

all_below : ℕ → (ℕ → Bool) → Bool
all_below zero p = true
all_below (suc n) p = p n && all_below n p

all_below_lem : (n : ℕ) (p : ℕ → Bool) (x : ℕ) → all_below n p ≡ true → x < n → p x ≡ true
unfolding all_below
all_below_lem zero p x h lt = absurd (omega arith)
all_below_lem (suc n) p x h lt = ground (arith, all_below_lem n p x)

-- `p` at every entry with its index, which starts at `i`.
all_from : (ℕ → ℕ → Bool) → ℕ → List ℕ → Bool
all_from p i [] = true
all_from p i (x ∷ xs) = p i x && all_from p (i + 1) xs

all_from_lem :
    (p : ℕ → ℕ → Bool) (i : ℕ) (xs : List ℕ) (j : ℕ)
    → all_from p i xs ≡ true
    → j < length xs
    → p (i + j) (get_or xs j 0) ≡ true
unfolding all_from
all_from_lem p i [] j h lt = absurd (omega arith)
all_from_lem p i (x ∷ xs) zero h lt = let e : i + 0 ≡ i = omega arith in rw e (ground arith)
all_from_lem p i (x ∷ xs) (suc j) h lt =
    let e : i + suc j ≡ i + 1 + j = omega arith in
    rw e (all_from_lem p (i + 1) xs j (ground arith) (omega arith))

pub num_size_classes_lem : num_size_classes ≡ 36
unfolding num_size_classes k_table
num_size_classes_lem = refl

sizes_table : all_below 36 (λ c. get_or k_table.size c 0 == listed c) ≡ true
unfolding all_below k_table
sizes_table = refl

-- The loops over the octaves compute the documented sizes.
pub class_to_size-listed : (c : ℕ) → c < 36 → class_to_size c ≡ listed c
unfolding class_to_size
class_to_size-listed c h = ==→eq _ _ (all_below_lem 36 _ c sizes_table h)

step_table : all_below 35 (λ c. ltb (listed c) (listed (c + 1))) ≡ true
unfolding all_below
step_table = refl

listed-le_add : (d k : ℕ) → d + k < 36 → listed d ≤ listed (d + k)
listed-le_add d zero h = let e : d + 0 ≡ d = omega arith in rw e (le_refl (listed d))
listed-le_add d (suc k) h =
    let e : d + suc k ≡ d + k + 1 = omega arith in
    let step = ltb→lt _ _ (all_below_lem 35 _ (d + k) step_table (omega arith)) in
    rw e (le_trans (listed-le_add d k (omega arith)) (le_of_lt step))

-- The sizes rise.
pub listed_mono : (c d : ℕ) → c ≤ d → d < 36 → listed c ≤ listed d
listed_mono c d h lt =
    let e : c + (d - c) ≡ d = omega arith in
    subst (λ k. listed c ≤ listed k) e (listed-le_add c (d - c) (omega arith))

pub listed-lt : (c d : ℕ) → c < d → d < 36 → listed c < listed d
listed-lt c d h lt =
    le_trans (ltb→lt _ _ (all_below_lem 35 _ c step_table (omega arith)))
      (listed_mono (c + 1) d (omega arith) lt)

aligned_table : all_below 36 (λ c. listed c % 16 == 0) ≡ true
unfolding all_below
aligned_table = refl

pub listed-aligned : (c : ℕ) → c < 36 → listed c % 16 ≡ 0
listed-aligned c h = ==→eq _ _ (all_below_lem 36 _ c aligned_table h)

-- What bucket `i` of the lookup table holds: a class of size `a` that covers the whole bucket, while
-- the class below it, of size `b`, covers none of it, and the waste is at most 15 bytes or under a
-- quarter of the request.
abbrev bucket_test : ℕ → ℕ → ℕ → ℕ → Bool
bucket_test i c a b =
    ltb c 36
    && leb ((i + 1) * 16) a
    && (c == 0 || leb b (i * 16))
    && (leb a ((i + 1) * 16) || ltb (4 * (a - (16 * i + 1))) (16 * i + 1))

pub record Bucket (i c a b : ℕ) : Type 0 where
  pub in_range : c < 36
  pub covers : (i + 1) * 16 ≤ a
  pub least : (c ≡ 0) ⊎ (b ≤ i * 16)
  pub tight : (a ≤ (i + 1) * 16) ⊎ (4 * (a - (16 * i + 1)) < 16 * i + 1)

bucket_test-Bucket : (i c a b : ℕ) → bucket_test i c a b ≡ true → Bucket i c a b
bucket_test-Bucket i c a b h = record {
  in_range = ground arith;
  covers = ground arith;
  least = ground arith;
  tight = ground arith;
}

abbrev bucket_check : ℕ → ℕ → Bool
bucket_check i c = bucket_test i c (listed c) (listed (c - 1))

lookup_table : all_from bucket_check 0 k_table.lookup ≡ true
unfolding all_from k_table
lookup_table = refl

length-lookup : length k_table.lookup ≡ 1024
unfolding k_table
length-lookup = refl

abbrev pub bucket_class : ℕ → ℕ
bucket_class i = get_or k_table.lookup i 0

pub bucket_class-Bucket :
    (i : ℕ)
    → i < 1024
    → Bucket i (bucket_class i) (listed (bucket_class i)) (listed (bucket_class i - 1))
bucket_class-Bucket i h =
    let e : 0 + i ≡ i = omega arith in
    let test =
      all_from_lem bucket_check 0 k_table.lookup i lookup_table (omega (arith, length-lookup)) in
    bucket_test-Bucket i _ _ _ (subst (λ k. bucket_check k (bucket_class i) ≡ true) e test)

-- Requests in the small range are looked up in the bucket of `n - 1`.
pub size_class-bucket : (n : ℕ) → 0 < n → n ≤ 16384 → size_class n ≡ bucket_class ((n - 1) / 16)
unfolding size_class
size_class-bucket n pos small = ground arith
