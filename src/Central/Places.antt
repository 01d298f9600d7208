-- ===== src/Central/Places.antt =====
-- Arithmetic of the places of a page: how often it is in use, abandoned, and in a pool.
use hmalloc.Common.{
  ℕ, zero, suc, ◌+◌, ◌^◌, ◌≤◌, ◌<◌, ◌≡◌, refl, Bool, true, false, arith, ltb, if◌then◌else◌, ◌||◌,
}
use hmalloc.Common.Word.{wrap, wrap_sub}

pub in_hand :
    (a b c n r t : ℕ) (h : Bool)
    → h ≡ true
    → (if h then 1 else 0) + a + b + c ≡ t
    → t ≡ (if ltb 0 n then r else 0)
    → r ≤ 1
    → (0 < n) × (r ≡ 1) × (a + b + c ≡ 0)
in_hand a b c n r t h e k k' one = ground arith

pub listed_once :
    (c n : ℕ) (b : Bool) → b ≡ true → c ≡ 0 → 0 < n → n ≤ 1 → (if b then 1 else 0) + c ≡ n
listed_once c n b hit none_yet inside one = ground arith

pub move_back : (b u l c t : ℕ) → b + u + l + c ≡ t → u + l + (b + c) ≡ t
move_back b u l c t e = omega arith

pub drop_other :
    (u l c : ℕ) (b : Bool)
    → b ≡ false
    → (t : ℕ) → (if b then 1 else 0) + u + l + c ≡ t
    → u + l + c ≡ t
drop_other u l c b miss t e = ground arith

pub eq_le : (a b : ℕ) → a ≡ b → a ≤ b
eq_le a b e = omega arith

pub no_room : (u l c n r : ℕ) → c ≡ r → u + l + c ≡ (if ltb 0 n then r else 0) → u + l ≡ 0
no_room u l c n r e k = ground arith

pub spliced : (c a b i t : ℕ) → c ≡ a + b → t ≡ a + (i + b) → c + i ≡ t
spliced c a b i t e k = omega arith

pub emptied : (c n : ℕ) (b : Bool) → b ≡ true → c + (if b then 1 else 0) ≡ n → n ≤ 1 → c ≡ 0
emptied c n b hit e one = ground arith

pub unchanged : (c n : ℕ) (b : Bool) → b ≡ false → c + (if b then 1 else 0) ≡ n → c ≡ n
unchanged c n b miss e = ground arith

pub less_member : (c n : ℕ) (b : Bool) → c + (if b then 1 else 0) ≡ n → 0 < c → 0 < n
less_member c n b e here = omega arith

pub twice : (c n : ℕ) (b : Bool) → b ≡ true → c + (if b then 1 else 0) ≡ n → 0 < c → n ≤ 1 → ⊥
twice c n b hit e here one = ground arith

pub less_one : (c n : ℕ) (b : Bool) → c + (if b then 1 else 0) ≡ n → n ≤ 1 → c ≤ 1
less_one c n b e one = omega arith

pub one_gone : (e a n m : ℕ) → e + 1 ≡ a → a ≡ n → m ≡ n → a < 2 ^ 64 → e ≡ wrap_sub m 1
one_gone e a n m h k same lt = omega arith

pub still_fits : (e a : ℕ) → e + 1 ≡ a → a < 2 ^ 64 → e < 2 ^ 64
still_fits e a h lt = omega arith

pub kept_cell : (c n : ℕ) (b : Bool) → b ≡ false → c ≡ (if b then 0 else n) → 0 < n → 0 < c
kept_cell c n b miss e here = ground arith

pub stock_member : (n r : ℕ) → 0 < (if ltb 0 n then r else 0) → 0 < n
stock_member n r here = ground arith

pub not_less : 0 < 0 → ⊥
not_less h = omega arith

pub add_zero_lem : (n : ℕ) → n + 0 ≡ n
add_zero_lem n = omega arith

pub grown : (l n : ℕ) → l ≡ n → n + 1 < 2 ^ 64 → suc l ≡ wrap (n + 1)
grown l n e lt = omega (arith, e, lt)

pub still_sized : (l n : ℕ) → l ≡ n → n + 1 < 2 ^ 64 → suc l < 2 ^ 64
still_sized l n e lt = omega (arith, e, lt)

pub first_one : (c : ℕ) (b : Bool) → c ≡ 0 → (if b then 1 else 0) + c ≤ 1
first_one c b e = ground arith

pub zero_if : (b : Bool) (n : ℕ) → n ≡ 0 → (if b then n else 0) ≡ 0
zero_if b n e = ground arith

pub drop_zero : (c : ℕ) (b : Bool) → b ≡ false → (if b then 1 else 0) + c ≡ c
drop_zero c b miss = ground arith

pub le_lt : (j : ℕ) → j ≤ 63 → j < 64
le_lt j le = omega arith

pub none_in : (u l c r n : ℕ) → n ≡ 0 → u + l + c ≡ (if ltb 0 n then r else 0) → u + l ≡ 0
none_in u l c r n z e = ground arith

pub one_place :
    (a b c n r : ℕ)
    → a + b + c ≡ (if ltb 0 n then r else 0)
    → 0 < c
    → r ≤ 1
    → (0 < n) × (r ≡ 1) × (c ≡ 1) × (a + b ≡ 0)
one_place a b c n r e here one = ground arith

pub bounded : (c r : ℕ) → (0 < c → (r ≡ 1) × (c ≡ 1)) → c ≤ r
bounded zero r h = omega arith
bounded (suc c) r h = let (one, same) = h (omega arith) in omega (arith, one, same)

pub selected_bound : (c n : ℕ) (b : Bool) → c ≡ (if b then n else 0) → n ≤ 1 → c ≤ 1
selected_bound c n b e h = ground arith

pub selected : (c n m : ℕ) → c ≡ (if ltb 0 m then n else 0) → 0 < c → (0 < m) × (0 < n)
selected c n m e h = ground arith

pub turned : (a b c t : ℕ) → a + b + c ≡ t → b + c + a ≡ t
turned a b c t e = omega arith

pub swapped : (a b c t : ℕ) → a + b + c ≡ t → a + c + b ≡ t
swapped a b c t e = omega (arith, e)

pub flipped : (a b : ℕ) → a + b ≡ 0 → b + a ≡ 0
flipped a b e = omega (arith, e)

pub at_most : (c : ℕ) → (0 < c → c ≡ 1) → c ≤ 1
at_most zero h = omega arith
at_most (suc c) h = omega (arith, h (omega arith))

pub no_null : (n : ℕ) → n ≡ 0 → n ≡ 1 → ⊥
no_null n e k = omega arith

pub apart_pools : (u l c : ℕ) → 0 < u → (0 < c → u + l ≡ 0) → c ≡ 0
apart_pools u l zero here h = refl
apart_pools u l (suc c) here h =
    let none_left = h (omega arith) in absurd (omega (arith, none_left, here))

pub hit_cell : (c : ℕ) (b h : Bool) → b ≡ true → ltb 0 c ≡ (b || h) → 0 < c
hit_cell c b h hit e = ground arith

pub other_cell : (c n : ℕ) (b : Bool) → ltb 0 c ≡ (b || ltb 0 n) → 0 < n → 0 < c
other_cell c n b e here = ground arith
