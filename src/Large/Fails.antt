-- ===== src/Large/Fails.antt =====
-- `alloc_large` where the size overflows or the kernel has no memory.
use hmalloc.Common.{
  ℕ, ◌+◌, ◌-◌, ◌/◌, ◌^◌, ◌≤◌, ◌<◌, ◌≡◌, refl, sym, ap, ◌∙◌, true, false, some, arith, dec_lt, ltb,
}
use native.Mathlib.Nat.{div-eq_of_lt}
use native.Mathlib.Nat.{pow-le-pow_right}
use hmalloc.Common.Bits.{bit_and_not_mask}
use hmalloc.Common.Word.{word, wrap, align_up, align_up-IsAlignUp, IsAlignUp}
use hmalloc.Constants.{segment_size}
use hmalloc.Os.{Kernel, os_page_size}
use hmalloc.Os.Account.{os_alloc_aligned-Fails, no_region}
use hmalloc.Large.{Regions, user_offset, alloc_large}
use hmalloc.Large.Geometry.{IsOffset, user_offset-IsOffset}

-- A request so large that rounding it up to whole pages passes 2 ^ 64, or one for which `mmap` fails.
pub data Refused (k : Kernel) (size align : ℕ) (s : Regions) : Type 0 where
  overflow : word < user_offset align + size + os_page_size k → Refused k size align s
  no_memory :
      size + 2 ^ 24 < word
      → k.mmap s.os.log (align_up (user_offset align + size) (os_page_size k) + segment_size) ≡ 0
      → Refused k size align s

-- Rounding up wraps to 0.
align_up_wraps : (n j : ℕ) → j ≤ 21 → n < word → word < n + 2 ^ j → align_up n (2 ^ j) ≡ 0
unfolding align_up
align_up_wraps n j le fits over =
    let top : 2 ^ j ≤ 2 ^ 21 = pow-le-pow_right {n = 2} (omega arith) {i = j} {j = 21} le in
    let m = n + (2 ^ j - 1) - word in
    let w : wrap (n + (2 ^ j - 1)) ≡ m = omega arith in
    let low : m / 2 ^ j ≡ 0 = div-eq_of_lt (omega arith) in
    rw (w, bit_and_not_mask j m (omega arith) (omega arith), low) (omega arith)

module _ (k : Kernel) (size a j : ℕ) (s : Regions) (page : os_page_size k ≡ 2 ^ j)
    (page_small : j ≤ 21) (align_small : a ≤ 21) (size_fits : size < word) where
  at : IsOffset (2 ^ a) (user_offset (2 ^ a))
  at = user_offset-IsOffset a align_small

  page_le : 2 ^ j ≤ 2 ^ 21
  page_le = pow-le-pow_right {n = 2} (omega arith) {i = j} {j = 21} page_small

  overflows : word < user_offset (2 ^ a) + size + 2 ^ j → alloc_large k size (2 ^ a) s ≡ some (0, s)
  unfolding alloc_large
  overflows over = elim (dec_lt (user_offset (2 ^ a) + size) word) [
    | yes fits ↦
        let exact : wrap (user_offset (2 ^ a) + size) ≡ user_offset (2 ^ a) + size = omega arith in
        let first : ltb (user_offset (2 ^ a) + size) size ≡ false = ground arith in
        let zero_size = align_up_wraps (user_offset (2 ^ a) + size) j page_small fits over in
        let second : ltb 0 (user_offset (2 ^ a) + size) ≡ true = ground (arith, at.behind) in
        rw (page, exact, first, zero_size, second) refl
    | no wraps ↦
        let first : ltb (wrap (user_offset (2 ^ a) + size)) size ≡ true =
          ground (arith, at.first_segment) in
        rw first refl
  ]

  -- Where the request with its header and its rounding does not fit a word, or where it leaves 16 MiB of the
  -- address space and mmap gives no memory, the call returns null and changes nothing: it maps, registers and counts nothing.
  pub alloc_large-Refused : Refused k size (2 ^ a) s → alloc_large k size (2 ^ a) s ≡ some (0, s)
  unfolding alloc_large
  alloc_large-Refused (overflow over) = overflows (rw (← page) over)
  alloc_large-Refused (no_memory small none_left) =
      let offset = user_offset (2 ^ a) in
      let up : IsAlignUp (offset + size) (2 ^ j) (align_up (offset + size) (2 ^ j)) =
        align_up-IsAlignUp (offset + size) j (omega (arith, page_small))
          (omega (arith, at.first_segment, page_le)) in
      let exact : wrap (offset + size) ≡ offset + size = omega (arith, at.first_segment) in
      let first : ltb (offset + size) size ≡ false = ground arith in
      let second : ltb (align_up (offset + size) (2 ^ j)) (offset + size) ≡ false =
        ground (arith, up.above) in
      let none_left' : k.mmap s.os.log (align_up (offset + size) (2 ^ j) + segment_size) ≡ 0 =
        ap (λ ps. k.mmap s.os.log (align_up (offset + size) ps + segment_size)) (sym page)
        ∙ none_left in
      let bound : align_up (offset + size) (2 ^ j) + segment_size < word =
        omega (arith, up.close, at.first_segment, page_le) in
      let refused =
        os_alloc_aligned-Fails k (align_up (offset + size) (2 ^ j)) segment_size s.os
          (omega (arith, bound)) (omega arith)
          (no_region (omega (arith, page, page_le)) bound none_left') in
      rw (exact, page, first, second, refused) refl
