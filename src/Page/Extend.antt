-- ===== src/Page/Extend.antt =====
-- `page_extend`: the owner carves a batch of fresh blocks from the page's bump area.
use hmalloc.Common.{
  ℕ, zero, suc, ◌+◌, ◌*◌, ◌≤◌, ◌<◌, ◌≡◌, refl, sym, subst, true, false, List, ◌∷◌, arith, ◌==◌,
  length, update, update_ne, ◌∙◌,
}
use hmalloc.Common.Multiset.{count}
use hmalloc.Page.Chain.{Chain, Chain-update}
use hmalloc.Page.Invariant.{blocks, blocks_once, blocks_add, IsPage, capacity-le}
use hmalloc.Page.{PageView, Links, carve_blocks, extend_batch, page_extend, u32, u32_sub}

-- The first `n` blocks from `start` on in rising order, in front of `xs`.
abbrev pub ascend : ℕ → ℕ → ℕ → List ℕ → List ℕ
ascend start size zero xs = xs
ascend start size (suc n) xs = ascend start size n ((start + n * size) ∷ xs)

count-ascend :
    (a start size n : ℕ) (xs : List ℕ)
    → count a (ascend start size n xs) ≡ count a (blocks start size n) + count a xs
count-ascend a start size zero xs = omega arith
count-ascend a start size (suc n) xs =
    omega (arith, count-ascend a start size n ((start + n * size) ∷ xs))

pub length-ascend :
    (start size n : ℕ) (xs : List ℕ) → length (ascend start size n xs) ≡ n + length xs
length-ascend start size zero xs = omega arith
length-ascend start size (suc n) xs =
    omega (arith, length-ascend start size n ((start + n * size) ∷ xs))

-- None of the new blocks stands in `xs`.
abbrev Apart : ℕ → ℕ → ℕ → List ℕ → Type 0
Apart start size n xs = (a : ℕ) → count a (blocks start size n) + count a xs ≤ 1

carve_blocks-frame :
    (n start size head p : ℕ) (link : Links) (ys : List ℕ)
    → ((a : ℕ) → 0 < count a (blocks start size n) → count a ys ≡ 0)
    → Chain link p ys
    → Chain (carve_blocks n start size head link).1 p ys
unfolding carve_blocks
carve_blocks-frame zero start size head p link ys apart c = c
carve_blocks-frame (suc n) start size head p link ys apart c =
    let blk = start + n * size in
    carve_blocks-frame n start size blk p (update link blk head) ys (λ a h. apart a (omega arith))
      (Chain-update link blk head p ys (apart blk (ground arith)) c)

carve_blocks-link :
    (n start size head : ℕ) (link : Links) (a : ℕ)
    → count a (blocks start size n) ≡ 0
    → (carve_blocks n start size head link).1 a ≡ link a
unfolding carve_blocks
carve_blocks-link zero start size head link a out = refl
carve_blocks-link (suc n) start size head link a out =
    let blk = start + n * size in
    carve_blocks-link n start size blk (update link blk head) a (omega arith)
    ∙ update_ne link blk a head (ground arith)

carve_blocks-Chain :
    (n start size head : ℕ) (link : Links) (xs : List ℕ)
    → 0 < size
    → 0 < start
    → ((a : ℕ) → count a (blocks start size n) + count a xs ≤ 1)
    → Chain link head xs
    → let r = carve_blocks n start size head link in Chain r.1 r.0 (ascend start size n xs)
unfolding carve_blocks
carve_blocks-Chain zero start size head link xs pos above apart c = c
carve_blocks-Chain (suc n) start size head link xs pos above apart c =
    let blk = start + n * size in
    let self : update link blk head blk ≡ head = ground arith in
    let out : count blk xs ≡ 0 = ground (arith, apart blk) in
    carve_blocks-Chain n start size blk (update link blk head) (blk ∷ xs) pos above
      (λ a. omega (arith, apart a))
      (
        refl,
        omega arith,
        subst (λ t. Chain (update link blk head) t xs) (sym self)
            (Chain-update link blk head head xs out c),
      )

-- At least one block is carved, and no more than remain.
pub extend_batch_bounds :
    (v : PageView) (live remote local : List ℕ)
    → IsPage v live remote local
    → v.reserved < v.capacity
    → (0 < extend_batch v.page) × (extend_batch v.page + v.reserved ≤ v.capacity)
unfolding extend_batch
extend_batch_bounds v live remote local w left = ground (arith, capacity-le w)

module _ (v : PageView) (live remote local : List ℕ) (w : IsPage v live remote local) where
  -- A page with nothing left to carve stays as it is.
  pub page_extend_full : v.reserved ≡ v.capacity → page_extend v ≡ v
  unfolding page_extend
  page_extend_full full =
      let none_left : (u32_sub v.capacity v.reserved == 0) ≡ true = ground (arith, capacity-le w) in
      rw (none_left)

  abbrev pub fresh_start : ℕ
  fresh_start = v.area + v.reserved * v.block_size

  fresh_apart :
      (a : ℕ)
      → count a (blocks fresh_start v.block_size (extend_batch v.page))
          + (count a live + count a remote + count a local)
        ≤ 1
  fresh_apart a =
      let n = extend_batch v.page in
      omega (
        arith,
        w.split a,
        blocks_add v.area v.block_size v.reserved n a,
        blocks_once v.area v.block_size (v.reserved + n) a (omega (arith, w.sized)),
      )

  -- Carving puts a batch of fresh blocks, none of them live or free before, in front of the local
  -- list, in rising order of address.
  pub page_extend-IsPage :
      v.reserved < v.capacity
      → IsPage
          (page_extend v)
          live
          remote
          (ascend fresh_start v.block_size (extend_batch v.page) local)
  unfolding page_extend
  page_extend-IsPage left =
      let n = extend_batch v.page in
      let small = capacity-le w in
      let bounds = extend_batch_bounds v live remote local w left in
      let some_left : (u32_sub v.capacity v.reserved == 0) ≡ false = ground arith in
      let exact : u32 (v.reserved + n) ≡ v.reserved + n = omega arith in
      rw (some_left) (record {
        sized = w.sized;
        aligned = w.aligned;
        room = w.room;
        started = omega arith;
        placed = w.placed;
        area_aligned = w.area_aligned;
        area_fits = w.area_fits;
        local_chain =
            carve_blocks-Chain n fresh_start v.block_size v.free v.link local
              (omega (arith, w.sized)) (omega (arith, w.placed)) (λ a. omega (arith, fresh_apart a))
              w.local_chain;
        remote_chain =
            carve_blocks-frame n fresh_start v.block_size v.free v.thread_free v.link remote
              (λ a h. omega (arith, fresh_apart a)) w.remote_chain;
        counted = w.counted;
        total = omega (arith, w.total, length-ascend fresh_start v.block_size n local);
        split = λ a. rw exact (
            omega (
              arith,
              w.split a,
              blocks_add v.area v.block_size v.reserved n a,
              count-ascend a fresh_start v.block_size n local,
            ));
      })

  -- Carving writes the links of fresh blocks alone.
  pub page_extend-link :
      v.reserved < v.capacity
      → (a : ℕ) → 0 < count a live + count a remote + count a local
      → (page_extend v).link a ≡ v.link a
  unfolding page_extend
  page_extend-link left a h =
      let some_left : (u32_sub v.capacity v.reserved == 0) ≡ false =
        ground (arith, capacity-le w) in
      rw some_left (
        carve_blocks-link (extend_batch v.page) fresh_start v.block_size v.free v.link a
          (omega (arith, fresh_apart a)))
