-- ===== src/SizeClass/Search.antt =====
-- `size_class` and a search of the classes from the smallest one on.
use hmalloc.Common.{
  ℕ, zero, suc, ◌+◌, ◌≤◌, ◌<◌, ◌≡◌, sym, subst, ◌∙◌, arith, ℕ_discrete, leb, if◌then◌else◌, refl,
  dec_lt, ltb, true,
}
use hmalloc.Constants.{small_size_max}
use hmalloc.SizeClass.Least.{class_to_size-le, IsLeast, size_class-IsLeast}
use hmalloc.SizeClass.{num_size_classes, class_to_size, size_class, large_class, k_table}

-- The first of `left` classes from `c` on whose blocks hold `n` bytes.
abbrev pub first_fit : ℕ → ℕ → ℕ → ℕ
first_fit zero c n = large_class
first_fit (suc left) c n =
    let rest = first_fit left (c + 1) n in if leb n (class_to_size c) then c else rest

stops : (c n size : ℕ) (rest : ℕ) → n ≤ size → (if leb n size then c else rest) ≡ c
stops c n size rest le = ground arith

goes_on : (c n size : ℕ) (rest : ℕ) → size < n → (if leb n size then c else rest) ≡ rest
goes_on c n size rest lt = ground arith

first_fit-IsLeast : (left c n d : ℕ) → IsLeast n d → c ≤ d → d < c + left → first_fit left c n ≡ d
first_fit-IsLeast zero c n d r le lt = absurd (omega arith)
first_fit-IsLeast (suc left) c n d r le lt = elim (ℕ_discrete c d) [
  | yes same ↦
      stops c n (class_to_size c) (first_fit left (c + 1) n)
        (subst (λ e. n ≤ class_to_size e) (sym same) r.fits)
      ∙ same
  | no other ↦
      goes_on c n (class_to_size c) (first_fit left (c + 1) n) (r.least c (omega arith))
      ∙ first_fit-IsLeast left (c + 1) n d r (omega arith) (omega arith)
]

first_fit-none :
    (left c n : ℕ)
    → small_size_max < n
    → c + left ≤ num_size_classes
    → first_fit left c n ≡ large_class
first_fit-none zero c n big fits = refl
first_fit-none (suc left) c n big fits =
    goes_on c n (class_to_size c) (first_fit left (c + 1) n)
      (omega (arith, big, class_to_size-le c (omega arith)))
    ∙ first_fit-none left (c + 1) n big (omega arith)

size_class-big : (n : ℕ) → small_size_max < n → size_class n ≡ large_class
unfolding size_class
size_class-big n big = let e : ltb small_size_max n ≡ true = ground arith in rw e refl

search_zero : size_class 0 ≡ first_fit num_size_classes 0 0
unfolding size_class k_table num_size_classes class_to_size
search_zero = refl

-- The lookup table gives, for every request, what a search of all classes for the first one whose
-- blocks are large enough gives; where none is, both give `large_class`.
pub size_class-first_fit : (n : ℕ) → size_class n ≡ first_fit num_size_classes 0 n
size_class-first_fit n = elim (dec_lt small_size_max n) [
  | yes big ↦ size_class-big n big ∙ sym (first_fit-none num_size_classes 0 n big (omega arith))
  | no small ↦ elim (ℕ_discrete n 0) [
    | yes none_asked ↦
        subst (λ m. size_class m ≡ first_fit num_size_classes 0 m) (sym none_asked) search_zero
    | no some_bytes ↦
        let r = size_class-IsLeast n (omega arith) (omega arith) in
        sym (
          first_fit-IsLeast num_size_classes 0 n (size_class n) r (omega arith)
            (omega (arith, r.in_range)))
  ]
]
