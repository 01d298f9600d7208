-- ===== src/Large/AlignedBlock.antt =====
-- The class that `hm_aligned_alloc` finds.
use hmalloc.Common.{
  ℕ, zero, suc, ◌+◌, ◌-◌, ◌%◌, ◌^◌, ◌≤◌, ◌<◌, ◌≡◌, refl, sym, ap, ◌∙◌, true, false, Option, some,
  arith, ℕ_discrete, ltb, leb, ◌==◌, if◌then◌else◌, ◌/◌, ◌*◌,
}
use native.Mathlib.Nat.{div-add-mod', mul_assoc, mul-mod_left, pow-le-pow_right}
use hmalloc.Common.Bits.{pow-add}
use hmalloc.Constants.{small_size_max}
use hmalloc.SizeClass.{size_class, class_to_size, num_size_classes, k_table}
use hmalloc.SizeClass.Least.{
  size_class-IsLeast, class_to_size-le, class_to_size_mono, class_to_size_mono,
}
use hmalloc.Large.{aligned_class, aligned_block}

pub pow-mod-pow : (j k : ℕ) → j ≤ k → 2 ^ k % 2 ^ j ≡ 0
pow-mod-pow j k le =
    let e : k - j + j ≡ k = omega arith in
    ap (λ t. t % 2 ^ j) (ap (λ t. 2 ^ t) (sym e) ∙ pow-add (k - j) j)
    ∙ mul-mod_left (2 ^ (k - j)) (2 ^ j)

-- A multiple of a power of two is a multiple of the smaller ones.
pub mod-pow : (j k x : ℕ) → j ≤ k → x % 2 ^ k ≡ 0 → x % 2 ^ j ≡ 0
mod-pow j k x le whole =
    let q = x / 2 ^ k in
    let e : k - j + j ≡ k = omega arith in
    let power : 2 ^ k ≡ 2 ^ (k - j) * 2 ^ j = ap (λ t. 2 ^ t) (sym e) ∙ pow-add (k - j) j in
    let exact : x ≡ q * 2 ^ k = omega (arith, div-add-mod' x (2 ^ k)) in
    let split : x ≡ q * 2 ^ (k - j) * 2 ^ j =
      exact ∙ ap (λ t. q * t) power ∙ sym (mul_assoc q (2 ^ (k - j)) (2 ^ j)) in
    ap (λ t. t % 2 ^ j) split ∙ mul-mod_left (q * 2 ^ (k - j)) (2 ^ j)

-- A class from `c` on whose blocks are multiples of the alignment.
abbrev pub Aligned : ℕ → ℕ → Option ℕ → Type 0
Aligned alignment c found =
    (d : ℕ) × (found ≡ some d)
    × (c ≤ d)
    × (d < num_size_classes)
    × (class_to_size d % alignment ≡ 0)

last : class_to_size 35 ≡ 2 ^ 14
unfolding class_to_size k_table
last = refl

classes : num_size_classes ≡ 36
unfolding num_size_classes k_table
classes = refl

-- The loop finds a class, since the blocks of the last one are multiples of every alignment up to
-- 16384.
aligned_class-Aligned :
    (j : ℕ)
    → j ≤ 14
    → (left c : ℕ) → 0 < left
    → c + left ≡ 36
    → Aligned (2 ^ j) c (aligned_class left (2 ^ j) c)
unfolding aligned_class
aligned_class-Aligned j le zero c some_left e = absurd (omega arith)
aligned_class-Aligned j le (suc left) c some_left e =
    elim (ℕ_discrete (class_to_size c % 2 ^ j) 0) [
      | yes hit ↦ (c, ground arith, omega arith, rw classes (omega arith), hit)
      | no miss ↦ elim (ℕ_discrete left 0) [
        | yes end ↦
            let at : c ≡ 35 = omega arith in absurd (miss (rw (at, last) (pow-mod-pow j 14 le)))
        | no more ↦
            let (d, found, ge, lt, hit) =
              aligned_class-Aligned j le left (c + 1) (omega arith) (omega arith) in
            let other : (class_to_size c % 2 ^ j == 0) ≡ false = ground arith in
            (d, rw other found, omega arith, lt, hit)
      ]
    ]

-- The class behind the block size that `aligned_block` returns.
pub aligned_block-class :
    (j size : ℕ)
    → j ≤ 14
    → 0 < size
    → size ≤ small_size_max
    → (d : ℕ) × (aligned_block (2 ^ j) size ≡ some (class_to_size d))
      × (class_to_size d % 2 ^ j ≡ 0)
      × (size ≤ class_to_size d)
      × (d < num_size_classes)
unfolding aligned_block
aligned_block-class j size le pos small =
    let bound : 2 ^ j ≤ 2 ^ 14 = pow-le-pow_right {n = 2} (omega arith) {i = j} {j = 14} le in
    let need = if ltb (2 ^ j) size then size else 2 ^ j in
    let above : size ≤ need = ground arith in
    let fits : need ≤ small_size_max = ground arith in
    let least = size_class-IsLeast need (omega arith) fits in
    let (d, found, ge, lt, hit) =
      aligned_class-Aligned j le (num_size_classes - size_class need) (size_class need)
        (omega (arith, least.in_range)) (omega (arith, least.in_range, classes)) in
    let in_small : leb need small_size_max ≡ true = ground arith in
    (
      d,
      rw (in_small, found),
      hit,
      omega (arith, least.fits, class_to_size_mono (size_class need) d ge lt),
      lt,
    )

-- A request of 1 to 16384 bytes for a power of two of up to 16384 always finds a class: its blocks are
-- multiples of the alignment, large enough for the request, and of at most 16384 bytes.
pub aligned_block-Some :
    (j size : ℕ)
    → j ≤ 14
    → 0 < size
    → size ≤ small_size_max
    → (b : ℕ) × (aligned_block (2 ^ j) size ≡ some b)
      × (b % 2 ^ j ≡ 0)
      × (size ≤ b)
      × (b ≤ small_size_max)
aligned_block-Some j size le pos small =
    let (d, found, hit, above, lt) = aligned_block-class j size le pos small in
    (class_to_size d, found, hit, above, class_to_size-le d lt)
