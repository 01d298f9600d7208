-- ===== src/SizeClass/Least.antt =====
-- `size_class` picks the smallest class that fits.
use hmalloc.Common.{ℕ, ◌+◌, ◌-◌, ◌*◌, ◌/◌, ◌≤◌, ◌<◌, ◌≡◌, ◌⊎◌, inl, inr, arith, dec_le, dec_lt}
use native.Mathlib.Nat.{le_trans}
use hmalloc.Constants.{small_size_max}
use hmalloc.SizeClass.Table.{
  listed, class_to_size-listed, num_size_classes_lem, listed_mono, listed-lt, Bucket,
  bucket_class-Bucket, size_class-bucket,
}
use hmalloc.SizeClass.{num_size_classes, class_to_size, size_class}

-- Class `c` serves a request of `n` bytes, and no smaller class does.
pub record IsLeast (n c : ℕ) : Type 0 where
  pub in_range : c < num_size_classes
  pub fits : n ≤ class_to_size c
  pub least : (d : ℕ) → d < c → class_to_size d < n

IsLeast-Bucket :
    (n i c : ℕ)
    → i * 16 < n
    → n ≤ (i + 1) * 16
    → Bucket i c (listed c) (listed (c - 1))
    → IsLeast n c
IsLeast-Bucket n i c lo hi b = record {
  in_range = omega (arith, num_size_classes_lem, b.in_range);
  fits = rw (class_to_size-listed c b.in_range) (le_trans hi b.covers);
  least = λ d lt.
      rw (class_to_size-listed d (omega (arith, b.in_range)))
        (below d lt (listed_mono d (c - 1) (omega arith) (omega (arith, b.in_range))) b.least);
}
  where
    below :
        (d : ℕ)
        → d < c
        → listed d ≤ listed (c - 1)
        → (c ≡ 0) ⊎ (listed (c - 1) ≤ i * 16)
        → listed d < n
    below d lt le (inl e) = absurd (omega arith)
    below d lt le (inr e) = omega arith

-- For a request of 1 to 16384 bytes `size_class` returns a valid class whose block size is large
-- enough, and every smaller class is too small for the request.
pub size_class-IsLeast : (n : ℕ) → 0 < n → n ≤ small_size_max → IsLeast n (size_class n)
size_class-IsLeast n pos small = rw (size_class-bucket n pos small) (
    IsLeast-Bucket n ((n - 1) / 16) _ (omega arith) (omega arith)
      (bucket_class-Bucket ((n - 1) / 16) (omega arith)))

-- Classes are served in order of size: a smaller request never gets a larger class.
pub size_class_mono : (m n : ℕ) → 0 < m → m ≤ n → n ≤ small_size_max → size_class m ≤ size_class n
size_class_mono m n pos le small =
    let a = size_class-IsLeast m pos (omega arith) in
    let b = size_class-IsLeast n (omega arith) small in
    elim (dec_le (size_class m) (size_class n)) [
      | yes h ↦ h
      | no h ↦ absurd (omega (arith, a.least (size_class n) (omega arith), b.fits))
    ]

module _ (c : ℕ) (h : c < num_size_classes) where
  in_table : c < 36
  in_table = omega (arith, num_size_classes_lem)

  class_to_size-pos : 0 < class_to_size c
  class_to_size-pos =
      rw (class_to_size-listed c in_table)
        (le_trans (omega arith) (listed_mono 0 c (omega arith) in_table))

  pub class_to_size-le : class_to_size c ≤ small_size_max
  class_to_size-le =
      rw (class_to_size-listed c in_table)
        (le_trans (listed_mono c 35 (omega (arith, in_table)) (omega arith)) (omega arith))

  -- The class of a block size is the class that has it: the table and the lookup are inverse.
  pub size_class-class_to_size : size_class (class_to_size c) ≡ c
  size_class-class_to_size =
      let s = size_class-IsLeast (class_to_size c) class_to_size-pos class_to_size-le in
      let r = size_class (class_to_size c) in
      elim (dec_lt r c) [
        | yes lt ↦ absurd (
            omega (
              arith,
              s.fits,
              class_to_size-listed r (omega (arith, in_table)),
              class_to_size-listed c in_table,
              listed-lt r c lt in_table,
            ))
        | no ge ↦ elim (dec_lt c r) [
          | yes lt ↦ absurd (omega (arith, s.least c lt))
          | no le ↦ omega arith
        ]
      ]

-- A later class has larger blocks.
pub class_to_size_mono :
    (c d : ℕ) → c ≤ d → d < num_size_classes → class_to_size c ≤ class_to_size d
class_to_size_mono c d le lt =
    rw
      (
        class_to_size-listed c (omega (arith, num_size_classes_lem)),
        class_to_size-listed d (omega (arith, num_size_classes_lem)),
      )
      (listed_mono c d le (omega (arith, num_size_classes_lem)))
