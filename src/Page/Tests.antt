-- ===== src/Page/Tests.antt =====
-- A page of 4096-byte blocks at 2 ^ 32 + 2 ^ 16, first fresh, then with one block handed out.
use hmalloc.Common.{ℕ, ◌+◌, ◌^◌, ◌≡◌, refl, true, [], arith, ◌∷◌, ◌++◌, length, some}
use hmalloc.Page.Invariant.{IsPage}
use hmalloc.Common.Multiset.{erase}
use hmalloc.Page.Collect.{page_collect-IsPage}
use hmalloc.Page.Release.{local_free-IsPage, remote_free-IsPage}
use hmalloc.Page.Available.{Available, page_make_available-Available}
use hmalloc.Page.Allocate.{Allocated, page_pop-page_make_available}
use hmalloc.Page.{
  PageView, page_collect, page_extend, page_make_available, page_pop, extend_batch, carve_blocks,
  remote_free, local_free, page_collect_run,
}

abbrev fresh_page : PageView
fresh_page = record {
  page = record {
    free = 0;
    used = 0;
    capacity = 16;
    reserved = 0;
    block_size = 4096;
    size_class = 27;
    in_use = true;
    owner = 4096;
    next = 0;
    prev = 0;
    area = 2 ^ 32 + 2 ^ 16;
    thread_free = 0;
  };
  link = λ _. 0;
}

fresh_page-IsPage : IsPage fresh_page [] [] []
fresh_page-IsPage = record {
  sized = omega arith;
  aligned = refl;
  room = refl;
  started = omega arith;
  placed = omega arith;
  area_aligned = refl;
  area_fits = omega arith;
  local_chain = refl;
  remote_chain = refl;
  counted = refl;
  total = refl;
  split = λ a. refl;
}

page_pop-page_make_available_example :
    ((page_make_available fresh_page).0 ≡ true)
    × Allocated fresh_page [] (page_pop (page_make_available fresh_page).1)
page_pop-page_make_available_example =
    page_pop-page_make_available fresh_page [] [] [] fresh_page-IsPage (omega arith)

abbrev block : ℕ
block = 2 ^ 32 + 2 ^ 16

abbrev busy_page : PageView
busy_page = (page_pop (page_make_available fresh_page).1).1

-- The batch is 8 KiB, two blocks.
block_runs : (page_pop (page_make_available fresh_page).1).0 ≡ block
unfolding page_pop page_make_available page_collect page_collect_run page_extend extend_batch
    carve_blocks
block_runs = refl

abbrev handed : ℕ
handed = (page_pop (page_make_available fresh_page).1).0

abbrev made : Allocated fresh_page [] (handed, busy_page)
made = page_pop-page_make_available_example.1

page_make_available-Available_example : Available [] 16 (page_make_available fresh_page)
page_make_available-Available_example =
    page_make_available-Available fresh_page [] [] [] fresh_page-IsPage

local_free-IsPage_example :
    IsPage
      (local_free handed busy_page)
      (erase handed (handed ∷ []))
      made.remote
      (handed ∷ made.local)
local_free-IsPage_example =
    local_free-IsPage busy_page (handed ∷ []) made.remote made.local made.valid handed
      (ground arith)

remote_free-IsPage_example :
    IsPage
      (remote_free handed busy_page)
      (erase handed (handed ∷ []))
      (handed ∷ made.remote)
      made.local
remote_free-IsPage_example =
    remote_free-IsPage busy_page (handed ∷ []) made.remote made.local made.valid handed
      (ground arith)

page_collect-IsPage_example :
    IsPage
      (page_collect (remote_free handed busy_page))
      (erase handed (handed ∷ []))
      []
      ((handed ∷ made.remote) ++ made.local)
    × ((page_collect (remote_free handed busy_page)).used ≡ length (erase handed (handed ∷ [])))
    × (page_collect_run (remote_free handed busy_page)
        ≡ some (page_collect (remote_free handed busy_page)))
page_collect-IsPage_example =
    page_collect-IsPage (remote_free handed busy_page) (erase handed (handed ∷ []))
      (handed ∷ made.remote) made.local remote_free-IsPage_example
