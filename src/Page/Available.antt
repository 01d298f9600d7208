-- ===== src/Page/Available.antt =====
-- `page_make_available`: the owner looks for a free block, by collecting and by carving.
use hmalloc.Common.{
  ℕ, ◌<◌, ◌≡◌, refl, sym, ◌∙◌, ◌≢◌, inl, inr, Bool, true, false, List, [], ◌∷◌, ◌++◌, arith, ltb,
  ◌!=◌, if◌then◌else◌, Bool-cases, length, ◌==◌, Option-cases,
}
use hmalloc.Page.Invariant.{IsPage}
use hmalloc.Segment.{Page}
use hmalloc.Common.{ltb→lt}
use hmalloc.Page.Collect.{page_collect-IsPage}
use hmalloc.Page.Extend.{length-ascend, fresh_start, extend_batch_bounds, page_extend-IsPage}
use hmalloc.Page.{
  splice, PageView, page_collect, extend_batch, page_extend, page_make_available, page_collect_run,
  last_block, max_blocks,
}

-- An operation on the lists leaves the rest of the record alone.
pub record Keeps (p q : Page) : Type 0 where
  pub capacity : q.capacity ≡ p.capacity
  pub block_size : q.block_size ≡ p.block_size
  pub size_class : q.size_class ≡ p.size_class
  pub in_use : q.in_use ≡ p.in_use
  pub owner : q.owner ≡ p.owner
  pub next : q.next ≡ p.next
  pub prev : q.prev ≡ p.prev
  pub area : q.area ≡ p.area

splice-Keeps : (v : PageView) (list : ℕ) (r : ℕ × ℕ) → Keeps v.page (splice v list r).page
unfolding splice
splice-Keeps v list r = record {
  capacity = refl;
  block_size = refl;
  size_class = refl;
  in_use = refl;
  owner = refl;
  next = refl;
  prev = refl;
  area = refl;
}

page_collect-Keeps : (v : PageView) → Keeps v.page (page_collect v).page
unfolding page_collect page_collect_run
page_collect-Keeps v = elim (Bool-cases (v.thread_free == 0)) [
  | inl none_freed ↦ rw none_freed (Keeps-refl v.page)
  | inr some_freed ↦ elim (Option-cases (last_block max_blocks v.link v.thread_free 1)) [
    | inl endless ↦ rw (some_freed, endless) (Keeps-refl v.page)
    | inr (r, run) ↦ rw (some_freed, run) (splice-Keeps v v.thread_free r)
  ]
]
  where
    Keeps-refl : (p : Page) → Keeps p p
    Keeps-refl p = record {
      capacity = refl;
      block_size = refl;
      size_class = refl;
      in_use = refl;
      owner = refl;
      next = refl;
      prev = refl;
      area = refl;
    }

page_extend-Keeps : (v : PageView) → Keeps v.page (page_extend v).page
unfolding page_extend
page_extend-Keeps v = ground arith

pub page_make_available-Keeps : (v : PageView) → Keeps v.page (page_make_available v).1.page
unfolding page_make_available
page_make_available-Keeps v =
    ground (arith, page_collect-Keeps v, page_extend-Keeps (page_collect v))

-- What the attempt to find a block in a page of which `live` are handed out leaves behind.
pub record Available (live : List ℕ) (capacity : ℕ) (r : Bool × PageView) : Type 0 where
  pub remote : List ℕ
  pub local : List ℕ
  pub valid : IsPage r.1 live remote local
  pub ready : r.0 ≡ true → r.1.free ≢ 0
  pub decided : r.0 ≡ ltb (length live) capacity

length-pos :
    (v : PageView) (live remote local : List ℕ)
    → IsPage v live remote local
    → v.free ≢ 0
    → 0 < length local
length-pos v live remote [] w h = absurd (h w.local_chain)
length-pos v live remote (x ∷ xs) w h = omega arith

free-ne-null :
    (v : PageView) (live remote local : List ℕ)
    → IsPage v live remote local
    → 0 < length local
    → v.free ≢ 0
free-ne-null v live remote [] w h = absurd (omega arith)
free-ne-null v live remote (x ∷ xs) w h = λ e. w.local_chain.1 (sym w.local_chain.0 ∙ e)

has_block :
    (v : PageView) (live remote local : List ℕ) (capacity : ℕ)
    → IsPage v live remote local
    → v.capacity ≡ capacity
    → v.free ≢ 0
    → Available live capacity (true, v)
has_block v live remote local capacity w same h = record {
  remote = remote;
  local = local;
  valid = w;
  ready = λ _. h;
  decided = ground (arith, length-pos v live remote local w h, w.total, w.counted, w.started);
}

-- The second half of the attempt, on a page that has been collected.
after_collect :
    (v : PageView) (live local : List ℕ) (capacity : ℕ)
    → IsPage v live [] local
    → v.capacity ≡ capacity
    → Available live capacity (
        if v.free != 0
        then (true, v)
        else if ltb v.reserved v.capacity
        then (let e = page_extend v in (e.free != 0, e))
        else (false, v))
after_collect v live local capacity w same = elim (Bool-cases (v.free != 0)) [
  | inl e ↦ rw e (has_block v live [] local capacity w same (ground arith))
  | inr e ↦ rw e (elim (Bool-cases (ltb v.reserved v.capacity)) [
    | inl more ↦ rw more (extended (ltb→lt _ _ more))
    | inr full ↦ rw full (stuck e full)
  ])
]
  where
    extended :
        v.reserved < v.capacity → Available live capacity ((page_extend v).free != 0, page_extend v)
    extended lt =
        let x = page_extend-IsPage v live [] local w lt in
        let bounds = extend_batch_bounds v live [] local w lt in
        let some_block = free-ne-null (page_extend v) live [] _ x (
          omega (
            arith,
            bounds,
            length-ascend (fresh_start v live [] local w) v.block_size (extend_batch v.page) local,
          )) in
        let test : ((page_extend v).free != 0) ≡ true = ground arith in
        rw test (
          has_block (page_extend v) live [] _ capacity x ((page_extend-Keeps v).capacity ∙ same)
            some_block)

    stuck :
        (v.free != 0) ≡ false
        → ltb v.reserved v.capacity ≡ false
        → Available live capacity (false, v)
    stuck e full = record {
      remote = [];
      local = local;
      valid = w;
      ready = λ e. cc;
      decided = ground (arith, free-ne-null v live [] local w, w.total, w.counted, w.started);
    }

-- The attempt succeeds exactly when fewer blocks are live than the page has room for, and then the
-- local list has a block; either way no block is lost.
pub page_make_available-Available :
    (v : PageView) (live remote local : List ℕ)
    → IsPage v live remote local
    → Available live v.capacity (page_make_available v)
unfolding page_make_available
page_make_available-Available v live remote local w = elim (Bool-cases (v.free != 0)) [
  | inl e ↦ rw e (has_block v live remote local v.capacity w refl (ground arith))
  | inr e ↦ rw e (
      after_collect (page_collect v) live (remote ++ local) v.capacity
        (page_collect-IsPage v live remote local w).0 (page_collect-Keeps v).capacity)
]
