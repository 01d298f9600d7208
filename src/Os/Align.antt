-- ===== src/Os/Align.antt =====
-- What `os_alloc_aligned` maps, and what it gives back to the kernel at once.
use hmalloc.Common.{
  ℕ, ◌+◌, ◌-◌, ◌%◌, ◌^◌, ◌≤◌, ◌<◌, ◌≡◌, Bool, false, not, ◌&&◌, ◌||◌, List, [], ◌∷◌, arith, ltb,
  leb,
}
use hmalloc.Common.Word.{word, wrap, wrap_sub, align_up, align_up-IsAlignUp}
use hmalloc.Os.{Os, Syscall, mapped, unmapped, trim, account_map, account_unmap, munmap_nonempty}

-- Whether `a` is one of the `n` addresses from `p` on.
abbrev pub within : ℕ → ℕ → ℕ → Bool
within p n a = leb p a && ltb a (p + n)

-- Whether the last call that covers `a` mapped it.
abbrev pub resident : List Syscall → ℕ → Bool
resident [] a = false
resident (mapped p n ∷ log) a = within p n a || resident log a
resident (unmapped p n ∷ log) a = not (within p n a) && resident log a

-- What a successful call leaves: the region from `p` on, inside what `mmap` gave it, and no more.
pub record Maps (base over size alignment : ℕ) (s : Os) (r : ℕ × Os) : Type 0 where
  pub aligned : r.0 % alignment ≡ 0
  pub from : base ≤ r.0
  pub to : r.0 + size ≤ base + over
  pub bytes : r.1.bytes_mapped ≡ s.bytes_mapped + size
  pub resident_lem :
      (a : ℕ)
      → resident r.1.log a ≡ (within r.0 size a || (not (within base over a) && resident s.log a))

munmap_nonempty-stats : (p n : ℕ) (s : Os) → (munmap_nonempty p n s).stats ≡ s.stats
unfolding munmap_nonempty
munmap_nonempty-stats p n s = ground arith

resident-munmap_nonempty :
    (p n : ℕ) (s : Os) (a : ℕ)
    → resident (munmap_nonempty p n s).log a ≡ (not (within p n a) && resident s.log a)
unfolding munmap_nonempty
resident-munmap_nonempty p n s a = ground arith

module _ (base size k : ℕ) (s : Os) where
  abbrev head : ℕ
  head = align_up base (2 ^ k) - base

  pub trim-Maps :
      k ≤ 64
      → 0 < base
      → base + (size + 2 ^ k) ≤ word
      → s.bytes_mapped + (size + 2 ^ k) < word
      → Maps base
          (size + 2 ^ k)
          size
          (2 ^ k)
          s
          (trim base size (2 ^ k) (record s { log = mapped base (size + 2 ^ k) ∷ s.log }))
  unfolding trim account_map account_unmap
  trim-Maps le pos fits room =
      let up = align_up-IsAlignUp base k le (omega arith) in
      let over : wrap (size + 2 ^ k) ≡ size + 2 ^ k = omega arith in
      let hd : wrap_sub (align_up base (2 ^ k)) base ≡ head = omega (arith, up.above, up.close) in
      let tl : wrap_sub (wrap_sub (size + 2 ^ k) head) size ≡ 2 ^ k - head =
        omega (arith, up.above, up.close) in
      rw (over, hd, tl)
        (record {
          aligned = up.aligned;
          from = up.above;
          to = omega (arith, up.close, up.above);
          bytes = simp munmap_nonempty-stats (omega (arith, up.above, up.close));
          resident_lem = λ a.
              rw (resident-munmap_nonempty, resident-munmap_nonempty)
                (ground (arith, up.above, up.close));
        })
