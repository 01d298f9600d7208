-- ===== src/Os/Tests.antt =====
-- A region of 8 MiB aligned to 4 MiB, from a kernel that answers with an address 4 KiB past a
-- multiple of 4 MiB.
use hmalloc.Common.{
  ℕ, ◌+◌, ◌*◌, ◌^◌, ◌≡◌, refl, true, not, ◌&&◌, [], ◌∷◌, arith, leb, if◌then◌else◌,
}
use hmalloc.Os.Align.{within, resident, Maps}
use hmalloc.Os.Account.{
  IsKernel, os_alloc_aligned-Maps, rejected, os_alloc_aligned-Fails, resident-os_free,
}
use hmalloc.Os.{Kernel, Os, mapped, os_alloc_aligned, accepts, os_page_size, is_pow2, os_free}

abbrev kernel : Kernel
kernel = record {
  sysconf_page_size = 4096;
  mmap = λ log n. if leb n (2 ^ 30) then 2 ^ 32 + 4096 else 0;
  madvise = λ p n. true;
}

abbrev start : Os
start = record {
  stats = record { bytes_mapped = 0; peak_mapped = 0; map_calls = 0; unmap_calls = 0 };
  log = [];
}

kernel-IsKernel : IsKernel kernel
kernel-IsKernel = record { fits = λ log n h. ground arith }

os_alloc_aligned-Maps_example :
    Maps
      (2 ^ 32 + 4096)
      (3 * 2 ^ 22)
      (2 ^ 23)
      (2 ^ 22)
      start
      (os_alloc_aligned kernel (2 ^ 23) (2 ^ 22) start)
unfolding accepts os_page_size is_pow2
os_alloc_aligned-Maps_example =
    os_alloc_aligned-Maps kernel (2 ^ 23) (2 ^ 22) start kernel-IsKernel refl (omega arith)
      (omega arith) (omega arith) (omega arith)

os_alloc_aligned-Fails_example : os_alloc_aligned kernel 100 4096 start ≡ (0, start)
unfolding accepts os_page_size is_pow2
os_alloc_aligned-Fails_example =
    os_alloc_aligned-Fails kernel 100 4096 start (omega arith) (omega arith) (rejected refl)

abbrev one_region : Os
one_region = record {
  stats = record { bytes_mapped = 8192; peak_mapped = 8192; map_calls = 1; unmap_calls = 0 };
  log = mapped 65536 8192 ∷ [];
}

resident-os_free_example :
    ((os_free 65536 8192 one_region).bytes_mapped + 8192 ≡ 8192)
    × ((a : ℕ)
        → resident (os_free 65536 8192 one_region).log a
          ≡ (not (within 65536 8192 a) && resident one_region.log a))
resident-os_free_example =
    resident-os_free 65536 8192 one_region (omega arith) (omega arith) (omega arith) (omega arith)
