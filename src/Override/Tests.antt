-- ===== src/Override/Tests.antt =====
-- A next allocator whose state is the number of its frees, and a pointer that ours does not know.
use hmalloc.Common.{ℕ, ◌+◌, ◌*◌, ◌^◌, ◌≡◌, none, some, arith, if◌then◌else◌}
use hmalloc.Run.{done}
use hmalloc.Registry.Tests.{one_base, one_base-IsTable}
use hmalloc.Heap.Tests.{build, failing, three_pages}
use hmalloc.Api.{hm_free, hm_realloc, hm_usable_size}
use hmalloc.Api.Tests.{start}
use hmalloc.Override.{
  Next, Both, keep_next, keep_next_free, next_free, checked_free, checked_realloc, checked_usable,
}
use hmalloc.Override.Routing.{registered, checked-Routed}

abbrev counting : Next ℕ
counting = record { free = some (λ p f. f + 1); realloc = none; usable = some (λ p f. 24) }

abbrev both : Both ℕ
both = record {
  ours = record start {
    process = record three_pages { world = record three_pages.world { registry = one_base } };
  };
  next = 0;
}

abbrev foreign : ℕ
foreign = 5 * 2 ^ 22 + 64

checked-Routed_example :
    (checked_free counting foreign both ≡ (
      if registered foreign both.ours
      then keep_next_free 0 (hm_free foreign both.ours)
      else done (next_free counting.free foreign both)))
    × (checked_realloc failing build counting foreign 100 both ≡ (
        if registered foreign both.ours
        then keep_next 0 (hm_realloc failing build foreign 100 both.ours)
        else done (0, both)))
    × (checked_usable counting foreign both
        ≡ done (if registered foreign both.ours then hm_usable_size foreign both.ours else 24))
    × (both.ours ≡ both.ours)
    × (both.ours ≡ both.ours)
checked-Routed_example =
    checked-Routed failing build counting foreign 100 both (omega arith, one_base-IsTable)
      (omega arith) (omega arith)
