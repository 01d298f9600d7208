-- ===== src/Heap/Return.antt =====
-- `heap_on_page_empty` for a page that is not the first of its class.
use hmalloc.Common.{ℕ, ◌≤◌, List, ◌∷◌, ◌++◌}
use hmalloc.Common.Multiset.{count}
use hmalloc.Heap.{Process, head_of, skip_forward, skip_backward}
use hmalloc.Heap.Pages.{DList}

module _ (h c p x : ℕ) (xs ys : List ℕ) (s : Process)
    (d : DList s.page 0 (head_of h c s) (x ∷ (xs ++ (p ∷ ys))))
    (once : (a : ℕ) → count a (x ∷ (xs ++ (p ∷ ys))) ≤ 1) where
  abbrev unlinked : Process
  unlinked = skip_backward p (skip_forward p s)
