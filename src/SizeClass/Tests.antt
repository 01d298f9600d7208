-- ===== src/SizeClass/Tests.antt =====
-- `size_class` and its theorems at requests from the comments and the tests of the source.
use hmalloc.Common.{◌+◌, ◌-◌, ◌*◌, ◌≤◌, ◌<◌, ◌≡◌, refl, ◌⊎◌, arith}
use hmalloc.SizeClass.Search.{first_fit, size_class-first_fit}
use hmalloc.SizeClass.Fragmentation.{size_class_round_bounds}
use hmalloc.SizeClass.{
  num_size_classes, k_table, class_to_size, size_class, size_class_round, large_class,
}

size_class_runs : (size_class 65 ≡ 4) × (class_to_size 4 ≡ 80) × (size_class 16385 ≡ large_class)
unfolding size_class class_to_size k_table
size_class_runs = (refl, refl, refl)

size_class_round_bounds_example :
    (1025 ≤ size_class_round 1025)
    × ((size_class_round 1025 < 1025 + 16) ⊎ (4 * (size_class_round 1025 - 1025) < 1025))
size_class_round_bounds_example = size_class_round_bounds 1025 (omega arith) (omega arith)

size_class-first_fit_example : size_class 2000 ≡ first_fit num_size_classes 0 2000
size_class-first_fit_example = size_class-first_fit 2000
