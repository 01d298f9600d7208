-- ===== src/Large/Served.antt =====
-- `alloc_large` where the kernel has memory.
use hmalloc.Common.{
  ℕ, ◌+◌, ◌-◌, ◌%◌, ◌^◌, ◌≤◌, ◌<◌, ◌≡◌, refl, sym, subst, ◌≢◌, true, false, some, arith, ltb, ◌==◌,
  update_self, update,
}
use native.Mathlib.Nat.{zero-mod, add-mod, pow-le-pow_right}
use hmalloc.Common.Word.{word, wrap, align_up, align_up-IsAlignUp, IsAlignUp}
use hmalloc.Constants.{segment_size}
use hmalloc.Segment.{LargeHeader, large, region_base}
use hmalloc.Segment.Recovery.{region_base-add}
use hmalloc.Os.{accepts, Kernel, Os, os_page_size, os_alloc_aligned}
use hmalloc.Os.Align.{Maps}
use hmalloc.Os.Account.{IsKernel, os_alloc_aligned-Maps}
use hmalloc.Registry.{Registry, overloaded}
use hmalloc.Registry.Table.{IsKey}
use hmalloc.Registry.Lookup.{IsRegistry}
use hmalloc.Registry.Register.{Registered, region_register-Registered}
use hmalloc.Large.{Regions, user_offset, front_region, alloc_large, large_usable_size}
use hmalloc.Large.AlignedBlock.{mod-pow}
use hmalloc.Large.Geometry.{IsOffset, user_offset-IsOffset, accepts_segment}

-- The region of a large allocation of `size` bytes at `mem`, and what else the call changes.
pub record Served (k : Kernel) (size align : ℕ) (s : Regions) (p : ℕ) (s' : Regions) : Type 0 where
  pub mem : ℕ
  pub bytes : ℕ
  -- The user's bytes lie in the region, aligned as asked, and lead back to the header.
  pub header :
      s'.headers mem ≡ record { kind = large; mmap_size = bytes; offset = p - mem; req_size = size }
  pub behind : mem + 32 ≤ p
  pub inside : p + size ≤ mem + bytes
  pub aligned : p % align ≡ 0
  pub found : region_base p ≡ mem
  pub usable : large_usable_size p s' ≡ mem + bytes - p
  -- The region is mapped and accounted once.
  pub maps :
      Maps
        (k.mmap s.os.log (bytes + segment_size))
        (bytes + segment_size)
        bytes
        segment_size
        s.os
        (mem, s'.os)
  pub fits : s'.os.bytes_mapped < word
  pub key : IsKey mem
  pub registered : Registered s.registry mem s'.registry
  pub counted : s'.large_count ≡ s.large_count + 1
  pub accounted : s'.large_bytes ≡ s.large_bytes + bytes

-- What the call needs: a kernel with a page size of a power of two below a segment, an alignment up to
-- half a segment, memory for the region, and a registry below its load.
pub record CanServe (k : Kernel) (size a : ℕ) (s : Regions) : Type 0 where
  pub kernel : IsKernel k
  pub page_log : ℕ
  pub page : os_page_size k ≡ 2 ^ page_log
  pub page_small : page_log ≤ 21
  pub align_small : a ≤ 21
  pub some_size : 0 < size
  pub size_small : size + 2 ^ 24 < word
  pub memory :
      k.mmap s.os.log (align_up (user_offset (2 ^ a) + size) (os_page_size k) + segment_size) ≢ 0
  pub room : s.os.bytes_mapped + size + 2 ^ 24 < word
  pub room_large : s.large_bytes + size + 2 ^ 24 < word
  pub room_count : s.large_count + 1 < word
  pub table : IsRegistry s.registry
  pub light : overloaded s.registry ≡ false

module _ (k : Kernel) (size a : ℕ) (s : Regions) (c : CanServe k size a s) where
  abbrev offset : ℕ
  offset = user_offset (2 ^ a)

  abbrev bytes : ℕ
  bytes = align_up (offset + size) (os_page_size k)

  at : IsOffset (2 ^ a) offset
  at = user_offset-IsOffset a c.align_small

  page_le : os_page_size k ≤ 2 ^ 21
  page_le =
      rw c.page (pow-le-pow_right {n = 2} (omega arith) {i = c.page_log} {j = 21} c.page_small)

  up : IsAlignUp (offset + size) (os_page_size k) bytes
  up = rw c.page (
      align_up-IsAlignUp (offset + size) c.page_log (omega (arith, c.page_small))
        (rw (← c.page) (omega (arith, c.size_small, at.first_segment, page_le))))

  bytes_lt : bytes < size + 2 ^ 22 + 32
  bytes_lt = omega (arith, up.close, at.first_segment, page_le)

  some_bytes : 0 < bytes
  some_bytes = omega (arith, up.above, at.behind)

  accepted : accepts (os_page_size k) bytes segment_size ≡ true
  accepted =
      subst (λ ps. accepts ps bytes segment_size ≡ true) (sym c.page)
        (accepts_segment c.page_log bytes c.page_small some_bytes
          (subst (λ ps. bytes % ps ≡ 0) c.page up.aligned))

  mapped :
      Maps
        (k.mmap s.os.log (bytes + segment_size))
        (bytes + segment_size)
        bytes
        segment_size
        s.os
        (os_alloc_aligned k bytes segment_size s.os)
  mapped =
      os_alloc_aligned-Maps k bytes segment_size s.os c.kernel accepted (omega (arith, page_le))
        (omega (arith, bytes_lt, c.size_small)) c.memory (omega (arith, bytes_lt, c.room))

  abbrev mem : ℕ
  mem = (os_alloc_aligned k bytes segment_size s.os).0

  abbrev os' : Os
  os' = (os_alloc_aligned k bytes segment_size s.os).1

  in_memory : mem + bytes ≤ word
  in_memory = omega (arith, mapped.to, c.kernel.fits s.os.log (bytes + segment_size) c.memory)

  mem-IsKey : IsKey mem
  mem-IsKey = (omega (arith, mapped.from, c.memory), omega (arith, in_memory, up.above, at.behind))

  found_base : region_base (mem + offset) ≡ mem
  found_base =
      region_base-add mem offset mapped.aligned (omega (arith, at.first_segment))
        (omega (arith, in_memory, up.above, c.some_size))

  aligned_user : (mem + offset) % 2 ^ a ≡ 0
  aligned_user =
      let m : mem % 2 ^ a ≡ 0 = mod-pow a 22 mem (omega (arith, c.align_small)) mapped.aligned in
      rw (add-mod mem offset (2 ^ a), m, at.aligned) (zero-mod (2 ^ a))

  abbrev header : LargeHeader
  header = record { kind = large; mmap_size = bytes; offset = offset; req_size = size }

  usable_at :
      (f : ℕ → LargeHeader)
      → f mem ≡ header
      → (o : Os) (r : Registry) (n b : ℕ)
      → large_usable_size
          (mem + offset)
          (record { os = o; registry = r; headers = f; large_count = n; large_bytes = b })
        ≡ mem + bytes - (mem + offset)
  unfolding large_usable_size
  usable_at f e o r n b =
      rw (found_base, e) (omega (arith, up.above, in_memory, at.behind, c.some_size))

  -- Where the request leaves room in the
  -- address space for the header and the rounding, the alignment is at most 2 MiB, the kernel gives the
  -- region, the counters have room, and the registry is mapped and below the load at which it grows, a large
  -- allocation returns an aligned pointer into a region that is registered and accounted for, in which the
  -- header and the bytes asked for lie.
  pub alloc_large-Served :
      (p : ℕ) × (s' : Regions) × (alloc_large k size (2 ^ a) s ≡ some (p, s'))
      × Served k size (2 ^ a) s p s'
  unfolding alloc_large front_region
  alloc_large-Served =
      let exact : wrap (offset + size) ≡ offset + size =
        omega (arith, c.size_small, at.first_segment) in
      let no_wrap : ltb (offset + size) size ≡ false = ground arith in
      let no_wrap' : ltb bytes (offset + size) ≡ false = ground (arith, up.above) in
      let some_mem : (mem == 0) ≡ false = ground (arith, mem-IsKey.0) in
      let (r', run, done) =
        region_register-Registered k s.registry os' mem c.table mem-IsKey c.light in
      let h = header in
      let s' : Regions = record {
        os = os';
        registry = r';
        headers = update s.headers mem h;
        large_count = wrap (s.large_count + 1);
        large_bytes = wrap (s.large_bytes + bytes);
      } in
      let back : mem + offset - mem ≡ offset = omega arith in
      let kept : update s.headers mem h mem ≡ h = update_self s.headers mem h in
      (
        mem + offset,
        s',
        rw (exact, no_wrap, no_wrap', some_mem, run) refl,
        record {
          mem = mem;
          bytes = bytes;
          header = rw back kept;
          behind = omega (arith, at.behind);
          inside = omega (arith, up.above);
          aligned = aligned_user;
          found = found_base;
          usable = usable_at (update s.headers mem h) kept os' r' _ _;
          maps = mapped;
          fits = omega (arith, mapped.bytes, bytes_lt, c.room);
          key = mem-IsKey;
          registered = done;
          counted = omega (arith, c.room_count);
          accounted = omega (arith, bytes_lt, c.room_large);
        },
      )
