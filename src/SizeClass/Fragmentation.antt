-- ===== src/SizeClass/Fragmentation.antt =====
-- What rounding a request up to its block size costs.
use hmalloc.Common.{ℕ, ◌+◌, ◌-◌, ◌*◌, ◌/◌, ◌%◌, ◌≤◌, ◌<◌, ◌≡◌, ◌⊎◌, inl, inr, arith, ap}
use hmalloc.Constants.{small_size_max, alloc_align}
use hmalloc.SizeClass.Table.{
  listed, class_to_size-listed, num_size_classes_lem, listed-aligned, Bucket, bucket_class,
  bucket_class-Bucket, size_class-bucket,
}
use hmalloc.SizeClass.Least.{size_class-IsLeast, size_class-class_to_size}
use hmalloc.SizeClass.{num_size_classes, class_to_size, size_class, size_class_round}

Bucket-waste :
    (n i c : ℕ)
    → i * 16 < n
    → Bucket i c (listed c) (listed (c - 1))
    → (listed c < n + 16) ⊎ (4 * (listed c - n) < n)
Bucket-waste n i c lo b = split (listed c) b.tight
  where
    split :
        (a : ℕ)
        → (a ≤ (i + 1) * 16) ⊎ (4 * (a - (16 * i + 1)) < 16 * i + 1)
        → (a < n + 16) ⊎ (4 * (a - n) < n)
    split a (inl e) = inl (omega arith)
    split a (inr e) = inr (omega arith)

-- A block that serves a small request is at least as large as the request, and wastes at most 15
-- bytes or less than a quarter of the request.
pub size_class_round_bounds :
    (n : ℕ)
    → 0 < n
    → n ≤ small_size_max
    → (n ≤ size_class_round n)
      × ((size_class_round n < n + alloc_align) ⊎ (4 * (size_class_round n - n) < n))
unfolding size_class_round
size_class_round_bounds n pos small =
    let i = (n - 1) / 16 in
    let b = bucket_class-Bucket i (omega arith) in
    (
      (size_class-IsLeast n pos small).fits,
      rw (size_class-bucket n pos small, class_to_size-listed (bucket_class i) b.in_range)
          (Bucket-waste n i (bucket_class i) (omega arith) b),
    )

-- Rounding is idempotent: a request for a whole block is served by a block of that size.
pub size_class_round-size_class_round :
    (n : ℕ)
    → 0 < n
    → n ≤ small_size_max
    → size_class_round (size_class_round n) ≡ size_class_round n
unfolding size_class_round
size_class_round-size_class_round n pos small =
    ap class_to_size
      (size_class-class_to_size (size_class n) (size_class-IsLeast n pos small).in_range)

-- Every block size is a multiple of the minimum alignment.
pub class_to_size-aligned : (c : ℕ) → c < num_size_classes → class_to_size c % alloc_align ≡ 0
class_to_size-aligned c h =
    let lt : c < 36 = omega (arith, num_size_classes_lem) in
    rw (class_to_size-listed c lt) (listed-aligned c lt)
