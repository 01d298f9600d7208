-- ===== src/Common/Word.antt =====
-- Words of 64 bits (`std::size_t`, `std::uintptr_t`): the wrap-around, the complement and shifts.
use Prim.Native.Nat.{ℕ, ◌+◌, ◌-◌, ◌/◌, ◌%◌, ◌^◌, bit_and, ◌≤◌, ◌<◌}
use native.Mathlib.Nat.{one-le-pow, lt-div-mul-add, div-mul-le_self, mul-mod_left}
use mathlib.Core.Path.{◌≡◌}
use native.Mathlib.Omega.{arith}
use hmalloc.Common.Bits.{bit_and_not_mask}

abbrev pub word : ℕ
word = 2 ^ 64

-- `SIZE_MAX`
abbrev pub size_max : ℕ
size_max = 2 ^ 64 - 1

abbrev pub wrap : ℕ → ℕ
wrap n = n % 2 ^ 64

-- `a - b` on words; `-` on ℕ stops at 0, hence the modulus.
abbrev pub wrap_sub : ℕ → ℕ → ℕ
wrap_sub a b = (a + 2 ^ 64 - b) % 2 ^ 64

-- `~x`
abbrev pub bit_not : ℕ → ℕ
bit_not x = 2 ^ 64 - 1 - x

-- `(n + (a - 1)) & ~(a - 1)`: the next multiple of a power of two `a`.
unfoldable pub align_up : ℕ → ℕ → ℕ
align_up n a = bit_and (wrap (n + (a - 1))) (bit_not (a - 1))

-- The least multiple of `a` that is not below `n`.
pub record IsAlignUp (n a r : ℕ) : Type 0 where
  pub aligned : r % a ≡ 0
  pub above : n ≤ r
  pub close : r < n + a

pub align_up-IsAlignUp :
    (n k : ℕ) → k ≤ 64 → n + 2 ^ k ≤ 2 ^ 64 → IsAlignUp n (2 ^ k) (align_up n (2 ^ k))
unfolding align_up
align_up-IsAlignUp n k le fits =
    let one = one-le-pow k 2 (omega arith) in
    let exact : wrap (n + (2 ^ k - 1)) ≡ n + (2 ^ k - 1) = omega arith in
    let m = n + (2 ^ k - 1) in
    rw (exact, bit_and_not_mask k (n + (2 ^ k - 1)) le (omega arith))
      (record {
        aligned = mul-mod_left (m / 2 ^ k) (2 ^ k);
        above = omega (arith, lt-div-mul-add {a = m} {b = 2 ^ k} one);
        close = omega (arith, div-mul-le_self m (2 ^ k));
      })

abbrev pub shr : ℕ → ℕ → ℕ
shr x k = x / 2 ^ k
