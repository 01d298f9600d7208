-- ===== src/Common/Multiset.antt =====
-- Lists of addresses compared by how often each address occurs.
use Prim.Native.Nat.{ℕ, ◌+◌, ◌<◌, ◌≤◌}
use mathlib.Core.Path.{◌≡◌, refl}
use mathlib.Core.List.{List, [], ◌∷◌, ◌++◌}
use native.Mathlib.Omega.{arith}
use hmalloc.Common.Tests.{◌==◌, if◌then◌else◌}
use hmalloc.Common.Lists.{length}

abbrev pub count : ℕ → List ℕ → ℕ
count a [] = 0
count a (x ∷ xs) = (if a == x then 1 else 0) + count a xs

-- Without the first occurrence of `a`.
abbrev pub erase : ℕ → List ℕ → List ℕ
erase a [] = []
erase a (x ∷ xs) = if a == x then xs else x ∷ erase a xs

module _ (a : ℕ) where
  pub count-append : (front back : List ℕ) → count a (front ++ back) ≡ count a front + count a back
  count-append [] back = omega arith
  count-append (b ∷ front) back = ground (arith, count-append front back)

pub count-erase :
    (a b : ℕ) (xs : List ℕ)
    → 0 < count b xs
    → count a (erase b xs) + (if a == b then 1 else 0) ≡ count a xs
count-erase a b [] h = absurd (omega arith)
count-erase a b (x ∷ xs) h = ground (arith, count-erase a b xs)

pub length-erase : (b : ℕ) (xs : List ℕ) → 0 < count b xs → length (erase b xs) + 1 ≡ length xs
length-erase b [] h = absurd (omega arith)
length-erase b (x ∷ xs) h = ground (arith, length-erase b xs)

-- A list whose elements another has as often is no longer.
pub length-le-of-count :
    (xs ys : List ℕ) → ((a : ℕ) → count a xs ≤ count a ys) → length xs ≤ length ys
length-le-of-count [] ys h = omega arith
length-le-of-count (x ∷ xs) ys h =
    let inside : 0 < count x ys = ground (arith, h x) in
    omega (
      arith,
      length-erase x ys inside,
      length-le-of-count xs (erase x ys) (λ a. ground (arith, h a, count-erase a x ys inside)),
    )

-- If it is as long, it has the same elements.
pub count-eq-of-length :
    (xs ys : List ℕ)
    → ((a : ℕ) → count a xs ≤ count a ys)
    → length xs ≡ length ys
    → (a : ℕ) → count a xs ≡ count a ys
count-eq-of-length [] [] h e a = refl
count-eq-of-length [] (y ∷ ys) h e a = absurd (omega arith)
count-eq-of-length (x ∷ xs) ys h e a =
    let inside : 0 < count x ys = ground (arith, h x) in
    ground (
      arith,
      count-erase a x ys inside,
      count-eq-of-length xs (erase x ys) (λ b. ground (arith, h b, count-erase b x ys inside))
          (omega (arith, e, length-erase x ys inside)) a,
    )
