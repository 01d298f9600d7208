-- ===== src/Os/Account.antt =====
-- `os_alloc_aligned` and `os_free` as a whole: every branch, and the account of mapped bytes.
use hmalloc.Common.{
  ℕ, ◌+◌, ◌^◌, ◌≤◌, ◌<◌, ◌≡◌, refl, ◌≢◌, true, false, not, ◌&&◌, ◌||◌, List, ◌∷◌, arith, dec_le,
  ltb, leb, ◌==◌,
}
use native.Mathlib.Nat.{pow-le-pow_right}
use hmalloc.Common.Bits.{pow_of_bit_and}
use hmalloc.Common.Word.{word, wrap}
use hmalloc.Os.Align.{within, resident, Maps, trim-Maps}
use hmalloc.Os.{
  Kernel, Os, Syscall, mapped, trim, account_unmap, os_page_size, accepts, is_pow2, raw_mmap,
  os_alloc_aligned, os_free,
}

-- What `mmap` documents: a region that it returns lies inside the address space.
pub record IsKernel (k : Kernel) : Type 0 where
  pub fits : (log : List Syscall) (n : ℕ) → k.mmap log n ≢ 0 → k.mmap log n + n ≤ word

exponent-le : (j : ℕ) → 2 ^ j < word → j ≤ 64
exponent-le j h = elim (dec_le j 64) [
  | yes le ↦ le
  | no gt ↦
      absurd (omega (arith, pow-le-pow_right {n = 2} (omega arith) {i = 64} {j = j} (omega arith)))
]

accepts-pow :
    (ps size alignment : ℕ) → accepts ps size alignment ≡ true → (j : ℕ) × (alignment ≡ 2 ^ j)
unfolding accepts is_pow2
accepts-pow ps size alignment h = pow_of_bit_and alignment (ground arith) (ground arith)

trim_at :
    (base size alignment j : ℕ) (s : Os)
    → alignment ≡ 2 ^ j
    → 0 < base
    → base + (size + alignment) ≤ word
    → s.bytes_mapped + (size + alignment) < word
    → alignment < word
    → Maps base
        (size + alignment)
        size
        alignment
        s
        (trim base size alignment (record s { log = mapped base (size + alignment) ∷ s.log }))
trim_at base size alignment j s e pos fits room small =
    rw e (trim-Maps base size j s (exponent-le j (omega arith)) pos (omega arith) (omega arith))

module _ (k : Kernel) (size alignment : ℕ) (s : Os) where
  -- What `mmap` is asked for, and what it answers.
  abbrev pub over : ℕ
  over = size + alignment

  abbrev pub base : ℕ
  base = k.mmap s.log over

  -- An accepted call with an alignment above the page size, for which mmap gives a region, keeps exactly `size` bytes, aligned as asked, of the
  -- larger region that it maps, and unmaps the rest of that region; whatever else was mapped stays.
  pub os_alloc_aligned-Maps :
      IsKernel k
      → accepts (os_page_size k) size alignment ≡ true
      → os_page_size k < alignment
      → over < word
      → base ≢ 0
      → s.bytes_mapped + over < word
      → Maps base over size alignment s (os_alloc_aligned k size alignment s)
  unfolding os_alloc_aligned raw_mmap
  os_alloc_aligned-Maps kernel ok big fits some_base room =
      let (j, e) = accepts-pow (os_page_size k) size alignment ok in
      let slow : leb alignment (os_page_size k) ≡ false = ground arith in
      let exact : wrap (size + alignment) ≡ size + alignment = omega arith in
      let no_wrap : ltb (size + alignment) size ≡ false = ground arith in
      let hit : (k.mmap s.log (size + alignment) == 0) ≡ false = ground arith in
      rw (ok, slow, exact, no_wrap, hit, hit)
        (trim_at base size alignment j s e (omega arith) (kernel.fits s.log over some_base) room
          (omega arith))

  -- Why a call fails: arguments that it rejects, an overflow, or `mmap`.
  pub data Fails : Type 0 where
    rejected : accepts (os_page_size k) size alignment ≡ false → Fails
    overflow : os_page_size k < alignment → word ≤ over → Fails
    no_pages : alignment ≤ os_page_size k → k.mmap s.log size ≡ 0 → Fails
    no_region : os_page_size k < alignment → over < word → base ≡ 0 → Fails

  -- Where the call is not accepted, the size to map wraps around, or mmap fails, the call returns null and leaves the account and the mappings alone.
  pub os_alloc_aligned-Fails :
      size < word → alignment < word → Fails → os_alloc_aligned k size alignment s ≡ (0, s)
  unfolding os_alloc_aligned raw_mmap
  os_alloc_aligned-Fails hs ha (rejected e) = rw e
  os_alloc_aligned-Fails hs ha (overflow big e) = ground arith
  os_alloc_aligned-Fails hs ha (no_pages le e) = ground arith
  os_alloc_aligned-Fails hs ha (no_region big fits e) =
      let exact : wrap (size + alignment) ≡ size + alignment = omega arith in
      rw exact (ground arith)

-- Freeing a region unmaps its addresses, no others, and takes its size off the account.
pub resident-os_free :
    (ptr size : ℕ) (s : Os)
    → ptr ≢ 0
    → size ≢ 0
    → size ≤ s.bytes_mapped
    → s.bytes_mapped < word
    → ((os_free ptr size s).bytes_mapped + size ≡ s.bytes_mapped)
      × ((a : ℕ)
          → resident (os_free ptr size s).log a ≡ (not (within ptr size a) && resident s.log a))
unfolding os_free account_unmap
resident-os_free ptr size s hp hs le fits =
    let go : (ptr == 0 || size == 0) ≡ false = ground arith in rw go (omega arith, λ a. refl)
