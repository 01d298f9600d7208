-- ===== src/Heap/Pages.antt =====
-- The list of pages of one size class, linked both ways through the records of the pages.
use hmalloc.Common.{ℕ, ◌≤◌, ◌<◌, ◌≡◌, List, ◌∷◌, ◌++◌}
use hmalloc.Segment.{Page}
use hmalloc.Common.Multiset.{count}
use hmalloc.Common.Doubly

-- From `p` on stand the pages `xs`, after `before`.
abbrev pub DList : (ℕ → Page) → ℕ → ℕ → List ℕ → Type 0
DList page before p xs =
    Doubly.Doubly (λ (v : Page). v.next) (λ (v : Page). v.prev) page before p xs

abbrev pub Cut : (ℕ → Page) → (ℕ → Page) → ℕ → Type 0
Cut f g p = Doubly.Cut (λ (v : Page). v.next) (λ (v : Page). v.prev) f g p

pub DList-frame :
    (f g : ℕ → Page) (before p : ℕ) (xs : List ℕ)
    → ((a : ℕ) → 0 < count a xs → ((g a).next ≡ (f a).next) × ((g a).prev ≡ (f a).prev))
    → DList f before p xs
    → DList g before p xs
DList-frame = Doubly.Doubly-frame (λ v. v.next) (λ v. v.prev)

pub prev-last :
    (f : ℕ → Page) (before h p x : ℕ) (xs ys : List ℕ)
    → DList f before h (x ∷ (xs ++ (p ∷ ys)))
    → 0 < count (f p).prev (x ∷ xs)
prev-last = Doubly.prev-last (λ v. v.next) (λ v. v.prev)

pub DList-ne-null :
    (f : ℕ → Page) (before h : ℕ) (xs : List ℕ) → DList f before h xs → count 0 xs ≡ 0
DList-ne-null = Doubly.Doubly-ne-null (λ v. v.next) (λ v. v.prev)

pub DList-Cut :
    (f g : ℕ → Page) (p : ℕ) (before h x : ℕ) (xs ys : List ℕ)
    → Cut f g p
    → DList f before h (x ∷ (xs ++ (p ∷ ys)))
    → ((a : ℕ) → count a (x ∷ (xs ++ (p ∷ ys))) ≤ 1)
    → DList g before h (x ∷ (xs ++ ys))
DList-Cut = Doubly.Doubly-Cut (λ v. v.next) (λ v. v.prev)
