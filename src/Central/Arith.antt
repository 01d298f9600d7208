-- ===== src/Central/Arith.antt =====
-- Arithmetic of the counters and the tests of the central heap.
use hmalloc.Common.{
  ℕ, zero, suc, ◌+◌, ◌^◌, ◌≤◌, ◌<◌, ◌≡◌, refl, ◌≢◌, Bool, true, false, arith, ltb, ◌==◌, ◌!=◌,
  if◌then◌else◌,
}
use hmalloc.Common.Word.{wrap, wrap_sub}
use hmalloc.Page.{u32, u32_sub}

pub rest_arith : (r c : ℕ) (b : Bool) → c ≡ (if b then 1 else 0) + r → b ≡ true → c ≡ 1 → 0 < r → ⊥
rest_arith r c b e hit one inside = ground arith

pub ==_refl : (a : ℕ) → (a == a) ≡ true
==_refl a = ground arith

pub ==_true : (a b : ℕ) → a ≡ b → (a == b) ≡ true
==_true a b e = ground arith

pub one_fewer : (f c r : ℕ) → f ≡ c → c ≡ suc r → c ≤ 63 → u32_sub f 1 ≡ r
one_fewer f c r e e' le = omega arith

pub ==_false : (a b : ℕ) → a ≢ b → (a == b) ≡ false
==_false a b e = ground arith

pub suc_not_zero : (c n : ℕ) → c ≡ suc n → (c == 0) ≡ false
suc_not_zero c n e = ground arith

pub alone : (c : ℕ) (b : Bool) → b ≡ true → (if b then 1 else 0) + c ≤ 1 → c ≡ 0
alone c b hit le = ground arith

pub ltb-suc : (n : ℕ) → ltb 0 (suc n) ≡ true
ltb-suc n = ground arith

pub more_of : (r c : ℕ) (b : Bool) → c ≡ (if b then 1 else 0) + r → 0 < r → 0 < c
more_of r c b e inside = omega arith

pub more_self : (c r : ℕ) (b : Bool) → c ≡ (if b then 1 else 0) + r → b ≡ true → 0 < c
more_self c r b e hit = ground arith

pub zero_more : (u l c : ℕ) → 0 + u + l + c ≡ u + l + c
zero_more u l c = omega arith

pub zero_add_lem : (c : ℕ) → 0 + c ≡ c
zero_add_lem c = omega arith

pub move : (b u l c t : ℕ) → u + l + (b + c) ≡ t → b + u + l + c ≡ t
move b u l c t e = omega arith

pub one_more : (f c : ℕ) → f ≡ c → c ≤ 63 → u32 (f + 1) ≡ suc c
one_more f c e le = omega arith

pub one_less : (l m n : ℕ) → l ≡ n → l ≡ suc m → l < 2 ^ 64 → m ≡ wrap_sub n 1
one_less l m n e k lt = omega (arith, e, k)

pub less : (l m : ℕ) → l ≡ suc m → l < 2 ^ 64 → m < 2 ^ 64
less l m e lt = omega (arith, e)

pub taken_out : (u l m b : ℕ) → l ≡ b + m → b + u + m ≡ u + l
taken_out u l m b e = omega (arith, e)

pub not_zero : (a : ℕ) → a ≢ 0 → (a == 0) ≡ false
not_zero a ne = ground arith

pub absent : (c : ℕ) → c ≡ 0 → 0 < c → ⊥
absent c e here = omega (arith, e)

pub not_both : (n : ℕ) → n ≡ 0 → 0 < n → ⊥
not_both n e here = omega (arith, e, here)

pub not_zero_of : (c n : ℕ) → c ≡ 0 → (0 < n → 0 < c) → n ≡ 0
not_zero_of c zero e h = refl
not_zero_of c (suc n) e h = absurd (omega (arith, e, h (omega arith)))

pub left_zero : (a b : ℕ) → a + b ≡ 0 → a ≡ 0
left_zero a b e = omega (arith, e)

pub bool_apart : true ≡ false → ⊥
bool_apart e = ground arith

pub ready_true : (a : ℕ) → (a != 0) ≡ true → a ≢ 0
ready_true a e z = ground arith

pub moved :
    (e u l : ℕ) (b : Bool) → e + (if b then 1 else 0) ≡ u → e + ((if b then 1 else 0) + l) ≡ u + l
moved e u l b h = omega (arith, h)

pub counted_more : (l n : ℕ) → l ≡ n → n + 1 < 2 ^ 64 → suc l ≡ wrap (n + 1)
counted_more l n e lt = omega arith

pub in_bound : (l n : ℕ) → l ≡ n → n + 1 < 2 ^ 64 → suc l < 2 ^ 64
in_bound l n e lt = omega arith

pub none_of : (a b : ℕ) → a + b ≡ 0 → a ≡ 0
none_of a b e = omega arith

pub in_stock : (n r : ℕ) → 0 < n → r ≡ 1 → 0 < (if ltb 0 n then r else 0)
in_stock n r here one = ground arith

pub out_of : (c m n : ℕ) → c ≡ n + m → c ≡ 0 → m ≡ 0
out_of c m n e out = omega (arith, e, out)

pub far_from : (c m : ℕ) (b : Bool) → b ≡ true → c ≡ (if b then 1 else 0) + m → c ≡ 0 → ⊥
far_from c m b hit e out = ground arith

pub le_suc : (l n : ℕ) → suc l ≤ suc n → l ≤ n
le_suc l n h = omega arith

pub ==_eq : (a b : ℕ) → (a == b) ≡ true → a ≡ b
==_eq a b e = ground arith

pub first_place : (e c : ℕ) (b : Bool) → e + (if b then 1 else 0) ≡ c → (if b then 1 else 0) + e ≡ c
first_place e c b h = ground arith

pub hand_stock : (a b c t : ℕ) (h : Bool) → h ≡ true → (if h then 1 else 0) + a + b + c ≡ t → 0 < t
hand_stock a b c t h e k = ground arith

pub regroup : (u' l' u l c t : ℕ) → u' + l' ≡ u + l → u + l + c ≡ t → u' + l' + c ≡ t
regroup u' l' u l c t e k = omega (arith, e, k)
