-- ===== src/Page.antt =====
-- src/heap.cpp and src/heap.h: what the owner of a page and other threads do to its free lists. The
-- blocks of a page link through their own first word, `Block::next`, so an operation acts on the
-- page's record and on the memory of those words.
pub mod Chain
pub mod Invariant
pub mod Collect
pub mod Extend
pub mod Available
pub mod Allocate
pub mod Release
mod Tests
use mathlib.Core.Option
use hmalloc.Common.{
  ℕ, zero, suc, ◌+◌, ◌-◌, ◌*◌, ◌/◌, ◌%◌, ◌^◌, ◌≤◌, ◌<◌, min, max, bit_and, ◌≡◌, refl, sym, ap, ap₂,
  subst, ◌∙◌, ◌≢◌, ◌↔◌, ◌⊎◌, inl, inr, Bool, true, false, not, ◌&&◌, ◌||◌, Option, none, some, List,
  [], ◌∷◌, ◌++◌, map, arith, dec_lt, dec_le, ℕ_discrete, ltb, leb, ◌==◌, ◌!=◌, if◌then◌else◌, tests,
  Bool-cases, Option-cases, length, get_or, set, replicate, update,
}
use hmalloc.Constants.{page_size}
use hmalloc.Segment
use hmalloc.Segment.{Page}

-- `Block::next` of the block at each address.
abbrev pub Links : Type 0
Links = ℕ → ℕ

pub record PageView : Type 0 where
  pub page : Page
  pub open page use *
  pub link : Links

-- 32-bit counters.
abbrev pub u32 : ℕ → ℕ
u32 n = n % 2 ^ 32

abbrev pub u32_sub : ℕ → ℕ → ℕ
u32_sub a b = (a + 2 ^ 32 - b) % 2 ^ 32

-- `while (tail->next != nullptr) { tail = tail->next; ++n; }`, or none where the loop still runs after
-- `fuel` tests.
unfoldable pub last_block : ℕ → Links → ℕ → ℕ → Option (ℕ × ℕ)
last_block zero link tail n = none
last_block (suc fuel) link tail n = elim (link tail == 0) [
  | true ↦ some (tail, n)
  | false ↦ last_block fuel link (link tail) (u32 (n + 1))
]

-- A page has room for fewer blocks than this.
abbrev pub max_blocks : ℕ
max_blocks = page_size

-- The list of remote frees goes in front of the local free list.
unfoldable pub splice : PageView → ℕ → ℕ × ℕ → PageView
splice v list (tail, n) = record v {
  page = record v.page { free = list; used = u32_sub v.used n; thread_free = 0 };
  link = update v.link tail v.free;
}

-- The whole function, or none where the walk does not end.
unfoldable pub page_collect_run : PageView → Option PageView
unfolding splice
page_collect_run v =
    let list = v.thread_free in
    if list == 0 then some v else Option.map (splice v list) (last_block max_blocks v.link list 1)

-- What a walk leaves that has ended.
abbrev pub left_by : PageView → Option PageView → PageView
left_by v none = v
left_by v (some u) = u

-- What the function leaves, for callers on pages whose lists end.
unfoldable pub page_collect : PageView → PageView
page_collect v = left_by v (page_collect_run v)

-- `for (i = batch; i-- > 0;)`: the blocks from `start + (i - 1) * size` down to `start`.
unfoldable pub carve_blocks : ℕ → ℕ → ℕ → ℕ → Links → ℕ × Links
carve_blocks zero start size head link = (head, link)
carve_blocks (suc i) start size head link =
    let blk = start + i * size in carve_blocks i start size blk (update link blk head)

-- The batch: about 8 KiB worth of blocks, at least one, at most those that remain.
unfoldable pub extend_batch : Page → ℕ
extend_batch pg =
    let remaining = u32_sub pg.capacity pg.reserved in
    let eight_kib = 8192 / pg.block_size in
    let batch = if eight_kib == 0 then 1 else eight_kib in
    if ltb remaining batch then remaining else batch

unfoldable pub page_extend : PageView → PageView
unfolding carve_blocks
page_extend v =
    if u32_sub v.capacity v.reserved == 0
    then v
    else (let batch = extend_batch v.page in
        let (head, link) =
          carve_blocks batch (v.area + v.reserved * v.block_size) v.block_size v.free v.link in
        record v {
          page = record v.page { free = head; reserved = u32 (v.reserved + batch) };
          link = link;
        })

unfoldable pub page_make_available : PageView → Bool × PageView
page_make_available v =
    if v.free != 0
    then (true, v)
    else (let c = page_collect v in
        if c.free != 0
        then (true, c)
        else if ltb c.reserved c.capacity
        then (let e = page_extend c in (e.free != 0, e))
        else (false, c))

-- The block and the page after it.
unfoldable pub page_pop : PageView → ℕ × PageView
page_pop v =
    (v.free, record v { page = record v.page { free = v.link v.free; used = u32 (v.used + 1) } })

-- The branch of `heap_free` for the owner, up to its test of `used`.
unfoldable pub local_free : ℕ → PageView → PageView
local_free b v = record v {
  page = record v.page { free = b; used = u32_sub v.used 1 };
  link = update v.link b v.free;
}

-- `heap_free_remote` where no other thread interferes: the first compare-exchange succeeds.
unfoldable pub remote_free : ℕ → PageView → PageView
remote_free b v = record v {
  page = record v.page { thread_free = b };
  link = update v.link b v.thread_free;
}
