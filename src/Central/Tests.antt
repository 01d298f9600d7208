-- ===== src/Central/Tests.antt =====
-- A kernel that has a region for segments at 4 GiB and one for the table of the registry at 16 GiB, and
-- a program that starts.
use hmalloc.Common.{◌+◌, ◌^◌, ◌≡◌, refl, true, [], leb, if◌then◌else◌}
use hmalloc.Common.Word.{align_up}
use hmalloc.Os.{
  Kernel, os_alloc_aligned, os_page_size, is_pow2, accepts, raw_mmap, trim, munmap_nonempty,
}
use hmalloc.Registry.{alloc_slots, slots_bytes}
use hmalloc.Registry.Set.{wanted}
use hmalloc.Central.{World}
use hmalloc.Central.Acquire.{blank_page, new_segment}
use hmalloc.Central.Entered.{segment_memory}

abbrev pub kernel : Kernel
kernel = record {
  sysconf_page_size = 4096;
  mmap = λ log n. if leb n 65536 then 2 ^ 34 else if leb n (2 ^ 30) then 2 ^ 32 + 4096 else 0;
  madvise = λ p n. true;
}

abbrev pub nothing : World
nothing = record {
  g = record {
    segments = 0;
    avail = 0;
    abandoned = 0;
    num_segments = 0;
    free_segments = 0;
    free_page_count = 0;
    pages_in_use = 0;
    abandoned_count = 0;
  };
  seg = λ p. new_segment;
  page = λ p. blank_page;
  link = λ p. 0;
  os = record {
    stats = record { bytes_mapped = 0; peak_mapped = 0; map_calls = 0; unmap_calls = 0 };
    log = [];
  };
  registry = record { slots = 0; cells = []; cap = 0; size = 0; tombs = 0 };
}

pub new_base : (segment_memory kernel nothing).0 ≡ 2 ^ 32 + 2 ^ 22
unfolding os_alloc_aligned os_page_size is_pow2 accepts raw_mmap trim munmap_nonempty align_up
new_base = refl

pub new_table :
    (alloc_slots kernel (wanted nothing.registry) (segment_memory kernel nothing).1).0 ≡ 2 ^ 34
unfolding alloc_slots slots_bytes os_alloc_aligned os_page_size is_pow2 accepts raw_mmap trim
    munmap_nonempty align_up
new_table = refl
