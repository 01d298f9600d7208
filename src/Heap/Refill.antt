-- ===== src/Heap/Refill.antt =====
-- `heap_malloc_slow` over the pages of a class.
use hmalloc.Common.{ℕ, ◌<◌, ◌≡◌, ◌≢◌, ◌⊎◌, List, ◌∷◌, ◌++◌, length}
use hmalloc.Run.{Run, done}
use hmalloc.Common.Multiset.{count}
use hmalloc.Os.{Kernel}
use hmalloc.Heap.{Heap, Build, Process, head_of, fresh_page, Page}
use hmalloc.Heap.Pages.{DList}
use hmalloc.Heap.Search.{Full}

module _ (k : Kernel) (b : Build) (h c head : ℕ) (live : ℕ → List ℕ) (before : ℕ → Page)
    (xs : List ℕ) where
  -- Every page is full, and a fresh page is asked for; `before` are the pages before the call.
  pub record Drained (r : Run (ℕ × Process)) : Type 0 where
    pub after : Process
    pub run : r ≡ fresh_page k b h c head after
    pub full : Full live before xs
    pub empty : (a : ℕ) → 0 < count a xs → (after.page a).free ≡ 0
    pub pages : DList after.page 0 (head_of h c after) xs

  -- The first page that has room has given the first block of its list, and now is the first of the class;
  -- `search` is the state once it was found.
  pub record Refilled (r : Run (ℕ × Process)) : Type 0 where
    pub front : List ℕ
    pub page : ℕ
    pub back : List ℕ
    pub search : Process
    pub after : Process
    pub split : xs ≡ front ++ (page ∷ back)
    pub full : Full live before front
    pub has_room : length (live page) < (before page).capacity
    pub empty : (a : ℕ) → 0 < count a front → (search.page a).free ≡ 0
    pub some_block : (search.page page).free ≢ 0
    pub run : r ≡ done ((search.page page).free, after)
    pub pages : DList after.page 0 (head_of h c after) (page ∷ (front ++ back))

  abbrev pub Searched : Run (ℕ × Process) → Type 0
  Searched r = Drained r ⊎ Refilled r

-- A block `b` of the page `q`, which is the first of its class then, before the pages `xs`.
abbrev Front : ℕ → ℕ → ℕ → ℕ → List ℕ → ℕ × Process → Type 0
Front h c q b xs (blk, t) = (blk ≡ b) × DList t.page 0 (head_of h c t) (q ∷ xs)
