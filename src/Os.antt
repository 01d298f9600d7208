-- ===== src/Os.antt =====
-- src/os.h and src/os.cpp: aligned regions from the kernel, and the account of mapped bytes. The
-- kernel is a parameter: `mmap` may answer by what was asked of it before, and `madvise` may refuse.
-- The calls that the layer makes are logged in order. The atomic counters are updated one call at a
-- time here.
pub mod Align
pub mod Account
mod Tests
use hmalloc.Common.{
  ℕ, zero, suc, ◌+◌, ◌-◌, ◌*◌, ◌/◌, ◌%◌, ◌^◌, ◌≤◌, ◌<◌, min, max, bit_and, ◌≡◌, refl, sym, ap, ap₂,
  subst, ◌∙◌, ◌≢◌, ◌↔◌, ◌⊎◌, inl, inr, Bool, true, false, not, ◌&&◌, ◌||◌, Option, none, some, List,
  [], ◌∷◌, ◌++◌, map, arith, dec_lt, dec_le, ℕ_discrete, ltb, leb, ◌==◌, ◌!=◌, if◌then◌else◌, tests,
  Bool-cases, Option-cases, length, get_or, set, replicate, update,
}
use hmalloc.Common.Word.{size_max, wrap, wrap_sub, align_up}

-- A system call with its address and size.
pub data Syscall : Type 0 where
  mapped : ℕ → ℕ → Syscall
  unmapped : ℕ → ℕ → Syscall

-- `sysconf(_SC_PAGESIZE)` (0 for a failure), the address that `mmap` returns for a size after the
-- calls so far (0 for `MAP_FAILED`), and whether `madvise` succeeds.
pub record Kernel : Type 0 where
  pub sysconf_page_size : ℕ
  pub mmap : List Syscall → ℕ → ℕ
  pub madvise : ℕ → ℕ → Bool

pub record OsStats : Type 0 where
  pub bytes_mapped : ℕ
  pub peak_mapped : ℕ
  pub map_calls : ℕ
  pub unmap_calls : ℕ

pub record Os : Type 0 where
  pub stats : OsStats
  pub open stats use *
  pub log : List Syscall

unfoldable pub os_page_size : Kernel → ℕ
os_page_size k = if ltb 0 k.sysconf_page_size then k.sysconf_page_size else 4096

-- The loop of compare-exchanges ends in its first round when no other thread interferes.
unfoldable pub account_map : ℕ → OsStats → OsStats
account_map n s =
    let now = wrap (s.bytes_mapped + n) in
    record s {
      bytes_mapped = now;
      peak_mapped = if ltb s.peak_mapped now then now else s.peak_mapped;
      map_calls = wrap (s.map_calls + 1);
    }

unfoldable pub account_unmap : ℕ → OsStats → OsStats
account_unmap n s = record s {
  bytes_mapped = wrap_sub s.bytes_mapped n;
  unmap_calls = wrap (s.unmap_calls + 1);
}

abbrev pub munmap : ℕ → ℕ → Os → Os
munmap p n s = record s { log = unmapped p n ∷ s.log }

-- `if (n != 0) ::munmap(p, n)`
unfoldable pub munmap_nonempty : ℕ → ℕ → Os → Os
munmap_nonempty p n s = if n != 0 then munmap p n s else s

-- `raw_mmap`: a failed call maps nothing.
unfoldable pub raw_mmap : Kernel → ℕ → Os → ℕ × Os
raw_mmap k size s =
    let p = k.mmap s.log size in
    if p == 0 then (0, s) else (p, record s { log = mapped p size ∷ s.log })

unfoldable pub is_pow2 : ℕ → Bool
is_pow2 x = x != 0 && bit_and x (x - 1) == 0

-- The arguments that `os_alloc_aligned` accepts.
unfoldable pub accepts : ℕ → ℕ → ℕ → Bool
unfolding is_pow2
accepts ps size alignment =
    size != 0 && alignment != 0 && is_pow2 alignment && size % ps == 0 && alignment % ps == 0

-- The end of the general path: cut the slop off both ends of `base`, and account.
unfoldable pub trim : ℕ → ℕ → ℕ → Os → ℕ × Os
trim base size alignment s =
    let over = wrap (size + alignment) in
    let aligned = align_up base alignment in
    let head = wrap_sub aligned base in
    let tail = wrap_sub (wrap_sub over head) size in
    let trimmed = munmap_nonempty (aligned + size) tail (munmap_nonempty base head s) in
    (
      aligned,
      record trimmed {
        stats = account_unmap (wrap (head + tail)) (account_map over trimmed.stats);
      },
    )

unfoldable pub os_alloc_aligned : Kernel → ℕ → ℕ → Os → ℕ × Os
os_alloc_aligned k size alignment s =
    let ps = os_page_size k in
    if not (accepts ps size alignment)
    then (0, s)
    else if leb alignment ps
    then (let (p, s') = raw_mmap k size s in
        if p != 0 then (p, record s' { stats = account_map size s'.stats }) else (p, s'))
    else if ltb (wrap (size + alignment)) size
    then (0, s)
    else (let (base, s') = raw_mmap k (wrap (size + alignment)) s in
        if base == 0 then (0, s') else trim base size alignment s')

unfoldable pub os_free : ℕ → ℕ → Os → Os
os_free ptr size s =
    if ptr == 0 || size == 0
    then s
    else (let s' = munmap ptr size s in record s' { stats = account_unmap size s'.stats })

-- Where the platform has `MADV_FREE` or `MADV_DONTNEED`.
unfoldable pub os_purge : Kernel → ℕ → ℕ → Bool
os_purge k ptr size = if ptr == 0 || size == 0 then false else k.madvise ptr size

unfoldable pub os_stats : Os → OsStats
os_stats s = s.stats
