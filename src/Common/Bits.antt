-- ===== src/Common/Bits.antt =====
-- What the masks of the source compute: `x & (2^k - 1)`, `x & ~(2^k - 1)` on a word, and the test
-- `(x & (x - 1)) == 0` for a power of two, at every width.
use Prim.Native.Nat.{
  ℕ, zero, suc, ◌+◌, ◌-◌, ◌*◌, ◌/◌, ◌%◌, ◌^◌, ◌≤◌, ◌<◌, min, bit_and, digits, bit_and-bitwise,
}
use mathlib.Core.Path.{◌≡◌, refl, ◌∙◌, sym, ap}
use mathlib.Core.Logic.{◌≢◌}
use native.Mathlib.Nat.{pow-suc, one-le-pow, mod-lt, mod-eq_of_lt, div-add-mod', div-lt_iff_lt-mul}
use native.Mathlib.Omega.{arith}
use native.Mathlib.Decide.{ℕ_discrete}

abbrev and_digits : ℕ → ℕ → ℕ → ℕ
and_digits fuel a b = digits (λ _. 0) min fuel a b

-- A round of fuel beyond the number changes nothing, so neither do more.
and_digits_round : (a b n : ℕ) → a ≤ n → and_digits (suc n) a b ≡ and_digits n a b
and_digits_round a b zero h = let e : a ≡ 0 = omega arith in rw e
and_digits_round zero b (suc n) h = refl
and_digits_round (suc a) b (suc n) h = rw (and_digits_round (suc a / 2) (b / 2) n (omega arith))

and_digits_rounds : (k a b : ℕ) → and_digits (k + a) a b ≡ and_digits a a b
and_digits_rounds zero a b = let e : 0 + a ≡ a = omega arith in ap (λ n. and_digits n a b) e
and_digits_rounds (suc k) a b =
    let e : suc k + a ≡ suc (k + a) = omega arith in
    ap (λ n. and_digits n a b) e
    ∙ and_digits_round a b (k + a) (omega arith)
    ∙ and_digits_rounds k a b

-- The lowest digit of a conjunction, and the rest of it.
pub bit_and_halves : (a b : ℕ) → bit_and a b ≡ bit_and (a / 2) (b / 2) * 2 + min (a % 2) (b % 2)
bit_and_halves zero b = simp bit_and-bitwise (omega arith)
bit_and_halves (suc a) b =
    let half = suc a / 2 in
    let e : a - half + half ≡ a = omega arith in
    let enough : and_digits a half (b / 2) ≡ and_digits half half (b / 2) =
      ap (λ n. and_digits n half (b / 2)) (sym e) ∙ and_digits_rounds (a - half) half (b / 2) in
    simp bit_and-bitwise (ap (λ t. t * 2 + min (suc a % 2) (b % 2)) enough)

bit_and-zero_below : (n a : ℕ) → a ≤ n → bit_and a 0 ≡ 0
bit_and-zero_below n zero h = refl
bit_and-zero_below zero (suc a) h = absurd (omega arith)
bit_and-zero_below (suc n) (suc a) h =
    omega (arith, bit_and_halves (suc a) 0, bit_and-zero_below n (suc a / 2) (omega arith))

two-pow-suc : (q k : ℕ) → q * 2 ^ suc k ≡ 2 * (q * 2 ^ k)
two-pow-suc q k = omega (arith, ap (λ (t : ℕ). q * t) (pow-suc 2 k))

-- A mask with `k` zeros at its end drops the low `k` digits and leaves the others to its head.
bit_and_shifted :
    (k q r t : ℕ) → r < 2 ^ k → bit_and (q * 2 ^ k + r) (t * 2 ^ k) ≡ bit_and q t * 2 ^ k
bit_and_shifted zero q r t h =
    let hq : q * 2 ^ 0 + r ≡ q = omega arith in
    let ht : t * 2 ^ 0 ≡ t = omega arith in rw (hq, ht) (omega arith)
bit_and_shifted (suc k) q r t h = ground (
  arith,
  bit_and_halves (q * 2 ^ suc k + r) (t * 2 ^ suc k),
  two-pow-suc q k,
  two-pow-suc t k,
  two-pow-suc (bit_and q t) k,
  bit_and_shifted k q (r / 2) t (omega (arith, pow-suc 2 k)),
)

bit_and_fields : (k q r : ℕ) → r < 2 ^ k → bit_and (q * 2 ^ k + r) (2 ^ k - 1) ≡ r
bit_and_fields zero q r h = omega (arith, bit_and-zero_below (q * 1 + r) (q * 1 + r) (omega arith))
bit_and_fields (suc k) q r h = ground (
  arith,
  bit_and_halves (q * 2 ^ suc k + r) (2 ^ suc k - 1),
  two-pow-suc q k,
  pow-suc 2 k,
  one-le-pow k 2,
  bit_and_fields k q (r / 2) (omega (arith, pow-suc 2 k)),
)

-- `a & (2^k - 1)`
pub bit_and_low_mask : (k a : ℕ) → bit_and a (2 ^ k - 1) ≡ a % 2 ^ k
bit_and_low_mask k a = ground (arith, one-le-pow k 2, bit_and_fields k (a / 2 ^ k) (a % 2 ^ k))

-- `a & ~(2^k - 1)` on a word of `j + k` bits
pub bit_and_high_mask :
    (j k a : ℕ) → a < 2 ^ j * 2 ^ k → bit_and a ((2 ^ j - 1) * 2 ^ k) ≡ a / 2 ^ k * 2 ^ k
bit_and_high_mask j k a h =
    ap (λ t. bit_and t ((2 ^ j - 1) * 2 ^ k)) (sym (div-add-mod' a (2 ^ k)))
    ∙ bit_and_shifted k (a / 2 ^ k) (a % 2 ^ k) (2 ^ j - 1)
        (mod-lt a (one-le-pow k 2 (omega arith)))
    ∙ ap (λ t. t * 2 ^ k)
        (bit_and_low_mask j (a / 2 ^ k)
          ∙ mod-eq_of_lt ((div-lt_iff_lt-mul (one-le-pow k 2 (omega arith))).1 h))

-- `(x & (x - 1)) == 0` for a power of two
pub bit_and-pred_pow : (k : ℕ) → bit_and (2 ^ k) (2 ^ k - 1) ≡ 0
bit_and-pred_pow k = ground (arith, one-le-pow k 2, bit_and_fields k 1 0)

bit_and-self_below : (n a : ℕ) → a ≤ n → bit_and a a ≡ a
bit_and-self_below n zero h = bit_and-zero_below 0 0 (omega arith)
bit_and-self_below zero (suc a) h = absurd (omega arith)
bit_and-self_below (suc n) (suc a) h =
    omega (arith, bit_and_halves (suc a) (suc a), bit_and-self_below n (suc a / 2) (omega arith))

pow_of_bit_and_below : (n x : ℕ) → x ≤ n → x ≢ 0 → bit_and x (x - 1) ≡ 0 → (k : ℕ) × (x ≡ 2 ^ k)
pow_of_bit_and_below zero x h ne e = absurd (omega arith)
pow_of_bit_and_below (suc n) x h ne e = elim (ℕ_discrete (x % 2) 0) [
  | yes even ↦
      let pred : (x - 1) / 2 ≡ x / 2 - 1 = omega arith in
      let rest : bit_and (x / 2) (x / 2 - 1) ≡ 0 = ground (arith, bit_and_halves x (x - 1), pred) in
      let (k, p) = pow_of_bit_and_below n (x / 2) (omega arith) (omega arith) rest in
      (suc k, omega (arith, pow-suc 2 k))
  | no odd ↦
      let pred : (x - 1) / 2 ≡ x / 2 = omega arith in
      let head : x / 2 ≡ 0 =
        ground (arith, bit_and_halves x (x - 1), pred, bit_and-self_below (x / 2) (x / 2)) in
      (0, omega arith)
]

-- Only a power of two passes the test.
pub pow_of_bit_and : (x : ℕ) → x ≢ 0 → bit_and x (x - 1) ≡ 0 → (k : ℕ) × (x ≡ 2 ^ k)
pow_of_bit_and x ne e = pow_of_bit_and_below x x (omega arith) ne e

pub pow-add : (j k : ℕ) → 2 ^ (j + k) ≡ 2 ^ j * 2 ^ k
pow-add j zero = let e : j + 0 ≡ j = omega arith in rw e (omega arith)
pow-add j (suc k) =
    let e : j + suc k ≡ suc (j + k) = omega arith in
    rw e (omega (arith, pow-suc 2 (j + k), ap (λ (t : ℕ). 2 ^ j * t) (pow-suc 2 k), pow-add j k))

mul-pred_left : (q m w : ℕ) → 0 < q → 0 < m → q * m ≡ w → w - 1 - (m - 1) ≡ (q - 1) * m
mul-pred_left zero m w hq hm e = absurd (omega arith)
mul-pred_left (suc p) m w hq hm e = let d : suc p - 1 ≡ p = omega arith in rw d (omega arith)

-- `a & ~(2^k - 1)` on a word of 64 bits
pub bit_and_not_mask :
    (k a : ℕ) → k ≤ 64 → a < 2 ^ 64 → bit_and a (2 ^ 64 - 1 - (2 ^ k - 1)) ≡ a / 2 ^ k * 2 ^ k
bit_and_not_mask k a le h =
    let e : 64 - k + k ≡ 64 = omega arith in
    let full : 2 ^ (64 - k) * 2 ^ k ≡ 2 ^ 64 = sym (pow-add (64 - k) k) ∙ ap (λ t. 2 ^ t) e in
    let mask : 2 ^ 64 - 1 - (2 ^ k - 1) ≡ (2 ^ (64 - k) - 1) * 2 ^ k =
      mul-pred_left (2 ^ (64 - k)) (2 ^ k) (2 ^ 64) (one-le-pow (64 - k) 2 (omega arith))
        (one-le-pow k 2 (omega arith)) full in
    rw mask (bit_and_high_mask (64 - k) k a (rw full h))
