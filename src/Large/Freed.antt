-- ===== src/Large/Freed.antt =====
-- `free_large` after `alloc_large`.
use hmalloc.Common.{ℕ, ◌^◌, ◌≡◌, refl, sym, ap, ◌∙◌, ◌≢◌, true, some, arith, update}
use hmalloc.Common.Word.{wrap_sub}
use hmalloc.Common.Multiset.{count}
use hmalloc.Os.{Kernel, os_free}
use hmalloc.Os.Align.{resident}
use hmalloc.Os.Account.{resident-os_free}
use hmalloc.Registry.Table.{IsKey}
use hmalloc.Registry.Lookup.{IsRegistry}
use hmalloc.Registry.Unregister.{region_unregister-Unregistered}
use hmalloc.Large.{no_header, Regions, alloc_large, free_large}
use hmalloc.Large.Served.{Served, CanServe, alloc_large-Served}

-- The account, the counters and the membership of every base are what they were in `s`, but for the
-- base `mem`, which is not in the registry any more; of the address space, nothing is mapped that was
-- not mapped in `s`.
pub record Undone (s : Regions) (mem : ℕ) (s' : Regions) : Type 0 where
  pub bytes : s'.os.bytes_mapped ≡ s.os.bytes_mapped
  pub counted : s'.large_count ≡ s.large_count
  pub accounted : s'.large_bytes ≡ s.large_bytes
  pub table : IsRegistry s'.registry
  pub gone : count mem s'.registry.cells ≡ 0
  pub others : (b : ℕ) → IsKey b → b ≢ mem → count b s'.registry.cells ≡ count b s.registry.cells
  pub unmapped_lem : (a : ℕ) → resident s'.os.log a ≡ true → resident s.os.log a ≡ true

module _ (k : Kernel) (size a : ℕ) (s : Regions) (c : CanServe k size a s) (p : ℕ) (s' : Regions)
    (x : Served k size (2 ^ a) s p s') where
  after : IsRegistry s'.registry
  after = (λ e. c.table.0 (sym x.registered.slots ∙ e), x.registered.table)

  freed : (s'' : Regions) × (free_large p s' ≡ some s'') × Undone s x.mem s''
  unfolding free_large
  freed =
      let (r, run, done) = region_unregister-Unregistered s'.registry x.mem after x.key in
      let msz = ap (λ h. h.mmap_size) x.header in
      let o =
        resident-os_free x.mem x.bytes s'.os x.key.0 (omega (arith, x.inside, x.behind))
          (omega (arith, x.maps.bytes)) x.fits in
      (
        record s' {
          os = os_free x.mem x.bytes s'.os;
          registry = r;
          headers = update s'.headers x.mem no_header;
          large_count = wrap_sub s'.large_count 1;
          large_bytes = wrap_sub s'.large_bytes x.bytes;
        },
        rw (x.found, msz, run) refl,
        record {
          bytes = omega (arith, o.0, x.maps.bytes);
          counted = omega (arith, x.counted, c.room_count);
          accounted = omega (arith, x.accounted);
          table = (λ e. after.0 (sym done.slots ∙ e), done.table);
          gone = ground (arith, done.members x.mem x.key);
          others = λ b ok ne. ground (arith, done.members b ok, x.registered.members b ok);
          unmapped_lem = λ b h. ground (arith, o.1 b, x.maps.resident_lem b);
        },
      )

-- Where the request leaves room in the
-- address space for the header and the rounding, the alignment is at most 2 MiB, the kernel gives the
-- region, the counters have room, and the registry is mapped and below the load at which it grows, a large
-- allocation can be freed with the pointer that it returned, and that undoes it: the account
-- and the counters are as before, the region is not registered any more, every other base is
-- registered as before, and nothing is mapped that was not mapped before.
pub free_large-alloc_large :
    (k : Kernel) (size a : ℕ) (s : Regions)
    → CanServe k size a s
    → (p mem : ℕ) × (s' s'' : Regions) × (alloc_large k size (2 ^ a) s ≡ some (p, s'))
      × (free_large p s' ≡ some s'')
      × Undone s mem s''
free_large-alloc_large k size a s c =
    let (p, s', run, x) = alloc_large-Served k size a s c in
    let (s'', free, undone) = freed k size a s c p s' x in (p, x.mem, s', s'', run, free, undone)
