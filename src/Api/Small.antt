-- ===== src/Api/Small.antt =====
-- The public functions on small requests, where the active page of the class has room.
use hmalloc.Common.{
  ℕ, ◌+◌, ◌-◌, ◌*◌, ◌/◌, ◌%◌, ◌^◌, ◌≤◌, ◌<◌, bit_and, ◌≡◌, refl, sym, ap, ◌∙◌, inl, inr, true,
  false, ◌&&◌, ◌||◌, some, List, arith, ltb, leb, ◌==◌, ◌!=◌, if◌then◌else◌, Bool-cases,
}
use hmalloc.Run.{done}
use hmalloc.Common.Word.{wrap, size_max}
use hmalloc.Common.Bits.{bit_and-pred_pow}
use hmalloc.Constants.{small_size_max, alloc_align, page_size}
use hmalloc.SizeClass.{size_class, class_to_size}
use hmalloc.SizeClass.Least.{size_class-class_to_size, class_to_size-le}
use hmalloc.Large.{aligned_block}
use hmalloc.Large.AlignedBlock.{aligned_block-class, mod-pow}
use hmalloc.Os.{Kernel}
use hmalloc.Page.Allocate.{Allocated}
use hmalloc.Heap.{Build, Process, view, head_of}
use hmalloc.Heap.Malloc.{HasRoom, heap_malloc-Allocated}
use hmalloc.Api.{Api, clear_bytes, api_small, zeroed, hm_calloc, hm_aligned_alloc, aligned_request}
use native.Mathlib.Nat.{
  div-lt_iff_lt-mul, pow-le-pow_right, div-add-mod', mul_assoc, add-mul-mod_self_right,
}

-- The active page of the class of a request of `size` bytes has room, and blocks of that class.
pub record CanServe (b : Build) (size : ℕ) (live : List ℕ) (s : Api) : Type 0 where
  pub room :
      HasRoom b s.t_heap
        (size_class size)
        (head_of s.t_heap (size_class size) s.process)
        live
        s.process
  pub sized :
      (s.page (head_of s.t_heap (size_class size) s.process)).block_size
      ≡ class_to_size (size_class size)

-- The page that serves the request.
abbrev pub server : ℕ → Api → ℕ
server size s = head_of s.t_heap (size_class size) s.process

abbrev pub Serves : ℕ → List ℕ → Api → ℕ → Api → Type 0
Serves size live s blk s' =
    Allocated (view (server size s) s.process) live (blk, view (server size s) s'.process)
    × (size ≤ (s.page (server size s)).block_size)

module _ (k : Kernel) (b : Build) where
  pub api_small-Serves :
      (size : ℕ) (live : List ℕ) (s : Api)
      → 0 < size
      → size ≤ small_size_max
      → CanServe b size live s
      → (blk : ℕ) × (t : Process) × (api_small k b size s ≡ done (blk, record s { process = t }))
        × Serves size live s blk (record s { process = t })
  unfolding api_small
  api_small-Serves size live s pos small can =
      let (blk, t, run, a, above) =
        heap_malloc-Allocated k b size live s.process pos small can.room can.sized in
      (blk, t, rw run refl, (a, above))

  -- The blocks of a page are as aligned as their size.
  block-aligned :
      (j area i size blk : ℕ)
      → j ≤ 14
      → area % page_size ≡ 0
      → size % 2 ^ j ≡ 0
      → blk ≡ area + i * size
      → blk % 2 ^ j ≡ 0
  block-aligned j area i size blk le start step place =
      let m = 2 ^ j in
      let whole : size ≡ size / m * m = omega (arith, div-add-mod' size m, step) in
      let e : blk ≡ area + i * (size / m) * m =
        place ∙ ap (λ t. area + t) (ap (λ t. i * t) whole ∙ sym (mul_assoc i (size / m) m)) in
      ap (λ t. t % m) e
      ∙ add-mul-mod_self_right area (i * (size / m)) m
      ∙ mod-pow j 16 area (omega arith) start

  asked : {n m : ℕ} → 0 < n * m → (0 < n) × (0 < m)
  asked {n} {m} pos = (grind arith, grind arith)

  -- A request whose product does not fit a word is refused: null is returned, and nothing changes.
  pub hm_calloc-Refused :
      (nmemb size : ℕ) (s : Api)
      → size_max < nmemb * size
      → hm_calloc k b nmemb size s ≡ done (0, s)
  unfolding hm_calloc
  hm_calloc-Refused nmemb size s over = elim (Bool-cases (nmemb == 0 || size == 0)) [
    | inl none_asked ↦ rw none_asked refl
    | inr some_asked ↦
        let pos : 0 < size = ground (arith, some_asked) in
        let large_product : ltb (size_max / size) nmemb ≡ true =
          ground (arith, (div-lt_iff_lt-mul {x = size_max} {y = nmemb} pos).1 over) in
        rw (some_asked, large_product) refl
  ]

  -- A request of 1 to 16384 bytes, for which the active page of its class has room, is served with a block
  -- of that page that was not live, is aligned and large enough. All its `nmemb * size` bytes are 0, and no
  -- other byte of the program changes; the links of free blocks are a memory of their own here.
  pub hm_calloc-Zeroed :
      (nmemb size : ℕ) (live : List ℕ) (s : Api)
      → 0 < nmemb * size
      → nmemb * size ≤ small_size_max
      → CanServe b (nmemb * size) live s
      → (blk : ℕ) × (s' : Api) × (hm_calloc k b nmemb size s ≡ done (blk, s'))
        × Serves (nmemb * size) live s blk s'
        × ((a : ℕ)
            → s'.bytes a ≡ (if leb blk a && ltb a (blk + nmemb * size) then 0 else s.bytes a))
  unfolding hm_calloc zeroed clear_bytes
  hm_calloc-Zeroed nmemb size live s pos small can =
      let total = nmemb * size in
      let (blk, t, run, (a, above)) = api_small-Serves total live s pos small can in
      let some_asked : (nmemb == 0 || size == 0) ≡ false = ground (arith, asked pos) in
      let size_pos : 0 < size = ground (arith, some_asked) in
      let exact : wrap total ≡ total = omega arith in
      let fits : ltb (size_max / size) nmemb ≡ false =
        ground (arith, (div-lt_iff_lt-mul {x = size_max} {y = nmemb} size_pos).0) in
      let in_small : leb total small_size_max ≡ true = ground arith in
      let some_block : (blk != 0) ≡ true = ground (arith, a.from, can.room.page.placed) in
      (
        blk,
        record s { process = t; bytes = clear_bytes blk total s.bytes },
        rw (some_asked, fits, exact, in_small, run, some_block) refl,
        (a, above),
        λ x. refl,
      )

  -- For an alignment above 16 that is a power of two of at most 16384, a request of 1 to 16384 bytes, for
  -- which the active page of the class that is found has room, is served with a block that is aligned as
  -- asked for, was not live and is large enough.
  pub hm_aligned_alloc-Aligned :
      (j size block : ℕ) (live : List ℕ) (s : Api)
      → 4 < j
      → j ≤ 14
      → 0 < size
      → size ≤ small_size_max
      → aligned_block (2 ^ j) size ≡ some block
      → CanServe b block live s
      → (blk : ℕ) × (s' : Api) × (hm_aligned_alloc k b (2 ^ j) size s ≡ done (blk, s'))
        × (blk % 2 ^ j ≡ 0)
        × (size ≤ block)
        × Serves block live s blk s'
  unfolding hm_aligned_alloc aligned_request
  hm_aligned_alloc-Aligned j size block live s big le pos small found can =
      let (d, is_class, hit, fits, lt) = aligned_block-class j size le pos small in
      let same : class_to_size d ≡ block = ground (arith, is_class, found) in
      let small_block : block ≤ small_size_max = omega (arith, class_to_size-le d lt, same) in
      let (blk, t, run, (a, above)) =
        api_small-Serves block live s (omega (arith, fits, same)) small_block can in
      let p = server block s in
      let class_of : size_class block ≡ d =
        ap size_class (sym same) ∙ size_class-class_to_size d lt in
      let blocks_of : (s.page p).block_size ≡ block =
        can.sized ∙ ap class_to_size class_of ∙ same in
      let some_size : (size == 0) ≡ false = ground arith in
      let two : 2 ^ 5 ≤ 2 ^ j = pow-le-pow_right {n = 2} (omega arith) {i = 5} {j = j} big in
      let power : (2 ^ j == 0 || bit_and (2 ^ j) (2 ^ j - 1) != 0) ≡ false =
        ground (arith, two, bit_and-pred_pow j) in
      let above_min : leb (2 ^ j) alloc_align ≡ false = ground (arith, two) in
      (
        blk,
        record s { process = t },
        rw (some_size, power, above_min, found, run) refl,
        block-aligned j (s.page p).area a.index (s.page p).block_size blk le
            can.room.page.area_aligned (ap (λ t. t % 2 ^ j) (blocks_of ∙ sym same) ∙ hit) a.place,
        omega (arith, fits, same),
        (a, above),
      )
