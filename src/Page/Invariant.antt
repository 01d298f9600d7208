-- ===== src/Page/Invariant.antt =====
-- What holds of a page between operations: which blocks it has carved, and who holds each.
use hmalloc.Common.{
  ℕ, zero, suc, ◌+◌, ◌*◌, ◌/◌, ◌%◌, ◌≤◌, ◌<◌, ◌≡◌, refl, List, [], ◌∷◌, arith, ℕ_discrete, length,
}
use native.Mathlib.Nat.{div-mul-le_self}
use hmalloc.Common.Multiset.{count}
use hmalloc.Common.Word.{word}
use hmalloc.Constants.{page_size, alloc_align}
use hmalloc.Page.{PageView}
use hmalloc.Page.Chain.{Chain}

-- The first `n` blocks of `size` bytes from `start` on, the last one first.
abbrev pub blocks : ℕ → ℕ → ℕ → List ℕ
blocks start size zero = []
blocks start size (suc n) = (start + n * size) ∷ blocks start size n

pub blocks-above :
    (start size n a : ℕ) → 0 < size → start + n * size ≤ a → count a (blocks start size n) ≡ 0
blocks-above start size zero a pos h = refl
blocks-above start size (suc n) a pos h = ground (arith, blocks-above start size n a pos)

-- Blocks do not overlap.
pub blocks_once : (start size n a : ℕ) → 0 < size → count a (blocks start size n) ≤ 1
blocks_once start size zero a pos = omega arith
blocks_once start size (suc n) a pos =
    ground (arith, blocks-above start size n a pos, blocks_once start size n a pos)

pub blocks_add :
    (start size n m a : ℕ)
    → count a (blocks start size (n + m))
      ≡ count a (blocks (start + n * size) size m) + count a (blocks start size n)
blocks_add start size n zero a = let e : n + 0 ≡ n = omega arith in rw e (omega arith)
blocks_add start size n (suc m) a =
    let e : n + suc m ≡ suc (n + m) = omega arith in
    let f : start + (n + m) * size ≡ start + n * size + m * size = omega arith in
    rw (e, f) (omega (arith, blocks_add start size n m a))

-- Every block of the page lies inside it, at a multiple of its size.
pub blocks_place :
    (start size n a : ℕ)
    → 0 < count a (blocks start size n)
    → (i : ℕ) × (i < n) × (a ≡ start + i * size)
blocks_place start size zero a h = absurd (omega arith)
blocks_place start size (suc n) a h = elim (ℕ_discrete a (start + n * size)) [
  | yes here ↦ (n, omega arith, here)
  | no other ↦ let (i, lt, e) = blocks_place start size n a (ground arith) in (i, omega arith, e)
]

-- The blocks that the page has carved are the live ones, those that other threads have freed and
-- the owner has not collected, and those of the local free list, each once.
pub record IsPage (v : PageView) (live remote local : List ℕ) : Type 0 where
  pub sized : alloc_align ≤ v.block_size
  pub aligned : v.block_size % alloc_align ≡ 0
  pub room : v.capacity ≡ page_size / v.block_size
  pub started : v.reserved ≤ v.capacity
  pub placed : 0 < v.area
  pub area_aligned : v.area % page_size ≡ 0
  pub area_fits : v.area + page_size ≤ word
  pub local_chain : Chain v.link v.free local
  pub remote_chain : Chain v.link v.thread_free remote
  pub counted : v.used ≡ length live + length remote
  pub total : v.used + length local ≡ v.reserved
  pub split :
      (a : ℕ)
      → count a live + count a remote + count a local
        ≡ count a (blocks v.area v.block_size v.reserved)

module _ {v : PageView} {live remote local : List ℕ} (w : IsPage v live remote local) where
  pub capacity-mul : v.capacity * v.block_size ≤ page_size
  capacity-mul = rw w.room (div-mul-le_self page_size v.block_size)

  pub capacity-le : v.capacity ≤ 4096
  capacity-le = grind (arith, capacity-mul, w.sized)

  pub once : (a : ℕ) → count a live + count a remote + count a local ≤ 1
  once a =
      omega
        (arith, w.split a, blocks_once v.area v.block_size v.reserved a (omega (arith, w.sized)))
