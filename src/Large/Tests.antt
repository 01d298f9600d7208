-- ===== src/Large/Tests.antt =====
-- A kernel with pages of 4 KiB that answers with an address 4 KiB past a multiple of 4 MiB, and a
-- registry of four cells with one base.
use hmalloc.Common.{
  ℕ, ◌+◌, ◌-◌, ◌%◌, ◌^◌, ◌≤◌, ◌≡◌, refl, true, some, [], ◌∷◌, arith, leb, if◌then◌else◌,
}
use hmalloc.Common.Word.{align_up}
use hmalloc.Constants.{small_size_max}
use hmalloc.Segment.{large, large_offset}
use hmalloc.Os.{Kernel, os_page_size}
use hmalloc.Os.Account.{IsKernel}
use hmalloc.Registry.{Registry, empty, overloaded}
use hmalloc.Registry.Table.{IsTable}
use hmalloc.Large.{Regions, user_offset, alloc_large, free_large, aligned_block}
use hmalloc.Large.AlignedBlock.{aligned_block-Some}
use hmalloc.Large.Served.{Served, CanServe, alloc_large-Served}
use hmalloc.Large.Freed.{Undone, free_large-alloc_large}
use hmalloc.Large.Fails.{overflow, alloc_large-Refused}

abbrev kernel : Kernel
kernel = record {
  sysconf_page_size = 4096;
  mmap = λ log n. if leb n (2 ^ 30) then 2 ^ 32 + 4096 else 0;
  madvise = λ p n. true;
}

kernel-IsKernel : IsKernel kernel
kernel-IsKernel = record { fits = λ log n h. ground arith }

abbrev registry : Registry
registry = record {
  slots = 4096;
  cells = empty ∷ empty ∷ empty ∷ empty ∷ [];
  cap = 4;
  size = 0;
  tombs = 0;
}

registry-IsTable : IsTable registry.cells 4 0 0
registry-IsTable = record {
  exponent = 2;
  power = refl;
  small = omega arith;
  width = refl;
  gaps = refl;
  buried = refl;
  room = omega arith;
  unique = λ k okk. ground (arith, okk);
  reached = λ k okk h. absurd (ground (arith, h, okk));
}

abbrev start : Regions
start = record {
  os = record {
    stats = record { bytes_mapped = 0; peak_mapped = 0; map_calls = 0; unmap_calls = 0 };
    log = [];
  };
  registry = registry;
  headers = λ p. record { kind = large; mmap_size = 0; offset = 0; req_size = 0 };
  large_count = 0;
  large_bytes = 0;
}

-- 20000 bytes, aligned to 64 KiB.
start-CanServe : CanServe kernel 20000 16 start
unfolding os_page_size user_offset align_up large_offset overloaded
start-CanServe = record {
  kernel = kernel-IsKernel;
  page_log = 12;
  page = refl;
  page_small = omega arith;
  align_small = omega arith;
  some_size = omega arith;
  size_small = omega arith;
  memory = omega arith;
  room = omega arith;
  room_large = omega arith;
  room_count = omega arith;
  table = (omega arith, registry-IsTable);
  light = refl;
}

alloc_large-Served_example :
    (p : ℕ) × (s' : Regions) × (alloc_large kernel 20000 (2 ^ 16) start ≡ some (p, s'))
    × Served kernel 20000 (2 ^ 16) start p s'
alloc_large-Served_example = alloc_large-Served kernel 20000 16 start start-CanServe

free_large-alloc_large_example :
    (p mem : ℕ) × (s' s'' : Regions) × (alloc_large kernel 20000 (2 ^ 16) start ≡ some (p, s'))
    × (free_large p s' ≡ some s'')
    × Undone start mem s''
free_large-alloc_large_example = free_large-alloc_large kernel 20000 16 start start-CanServe

alloc_large-Refused_example : alloc_large kernel (2 ^ 64 - 50) (2 ^ 4) start ≡ some (0, start)
unfolding os_page_size user_offset align_up large_offset
alloc_large-Refused_example =
    alloc_large-Refused kernel (2 ^ 64 - 50) 4 12 start refl (omega arith) (omega arith)
      (omega arith) (overflow (omega arith))

aligned_block-Some_example :
    (b : ℕ) × (aligned_block (2 ^ 8) 700 ≡ some b)
    × (b % 2 ^ 8 ≡ 0)
    × (700 ≤ b)
    × (b ≤ small_size_max)
aligned_block-Some_example = aligned_block-Some 8 700 (omega arith) (omega arith) (omega arith)
