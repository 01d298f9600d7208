-- ===== src/Large/Geometry.antt =====
-- Where `alloc_large` puts the pointer of the user, and how much it maps.
use hmalloc.Common.{
  ℕ, ◌+◌, ◌*◌, ◌%◌, ◌^◌, ◌≤◌, ◌<◌, ◌≡◌, refl, true, false, arith, dec_le, ltb, ◌==◌, ◌!=◌,
}
use native.Mathlib.Nat.{pow-le-pow_right}
use hmalloc.Common.Word.{align_up-IsAlignUp}
use hmalloc.Constants.{segment_size, alloc_align}
use hmalloc.Segment.{large_offset}
use hmalloc.Os.{accepts, is_pow2}
use hmalloc.Large.{user_offset}
use hmalloc.Large.AlignedBlock.{pow-mod-pow}

-- Behind the header, aligned, and not far past the middle of the region's first segment.
pub record IsOffset (align offset : ℕ) : Type 0 where
  pub aligned : offset % align ≡ 0
  pub behind : 32 ≤ offset
  pub first_segment : offset < 2 ^ 21 + 32

large_offset_lem : large_offset ≡ 32
unfolding large_offset
large_offset_lem = refl

pub user_offset-IsOffset : (a : ℕ) → a ≤ 21 → IsOffset (2 ^ a) (user_offset (2 ^ a))
unfolding user_offset
user_offset-IsOffset a le = elim (dec_le a 4) [
  | yes low ↦
      let b : 2 ^ a ≤ 2 ^ 4 = pow-le-pow_right {n = 2} (omega arith) {i = a} {j = 4} low in
      let small : ltb alloc_align (2 ^ a) ≡ false = ground arith in
      rw (small, large_offset_lem)
        (record {
          aligned = pow-mod-pow a 5 (omega arith);
          behind = omega arith;
          first_segment = omega arith;
        })
  | no high ↦
      let low : 2 ^ 4 * 2 ≤ 2 ^ a =
        pow-le-pow_right {n = 2} (omega arith) {i = 5} {j = a} (omega arith) in
      let top : 2 ^ a ≤ 2 ^ 21 = pow-le-pow_right {n = 2} (omega arith) {i = a} {j = 21} le in
      let big : ltb alloc_align (2 ^ a) ≡ true = ground arith in
      let up = align_up-IsAlignUp 32 a (omega arith) (omega arith) in
      rw (big, large_offset_lem)
        (record {
          aligned = up.aligned;
          behind = up.above;
          first_segment = omega (arith, up.close);
        })
]

-- `os_alloc_aligned` accepts a whole number of kernel pages at an alignment of a segment.
pub accepts_segment :
    (j size : ℕ) → j ≤ 21 → 0 < size → size % 2 ^ j ≡ 0 → accepts (2 ^ j) size segment_size ≡ true
unfolding accepts is_pow2
accepts_segment j size le pos whole =
    let some_size : (size != 0) ≡ true = ground arith in
    let z : (size % 2 ^ j == 0) ≡ true = ground arith in
    let f : (segment_size % 2 ^ j == 0) ≡ true = ground (arith, pow-mod-pow j 22 (omega arith)) in
    rw (some_size, z, f) refl
