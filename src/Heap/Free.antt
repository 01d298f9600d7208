-- ===== src/Heap/Free.antt =====
-- `heap_free`: the way from a pointer to its page, and the list that the block goes to.
use hmalloc.Common.{
  ℕ, ◌+◌, ◌*◌, ◌%◌, ◌≤◌, ◌<◌, ◌≡◌, refl, sym, ap, subst, ◌∙◌, ◌≢◌, ◌⊎◌, inl, inr, true, List, ◌∷◌,
  arith, ◌==◌, if◌then◌else◌, Bool-cases,
}
use hmalloc.Common.{update_self}
use hmalloc.Run.{Run, done}
use hmalloc.Common.Word.{word}
use hmalloc.Common.Multiset.{count, erase}
use hmalloc.Constants.{segment_size, page_size, pages_per_segment}
use hmalloc.Segment.{Page, page_at, segment_of, page_of}
use hmalloc.Segment.Recovery.{page_of-add}
use hmalloc.Page.{PageView, local_free, remote_free}
use hmalloc.Page.Invariant.{IsPage, blocks_place, capacity-mul, capacity-le}
use hmalloc.Page.Release.{local_free-IsPage, remote_free-IsPage, carved}
use hmalloc.Page.Allocate.{place-le}
use hmalloc.Heap.{Process, view, put_view, head_of, heap_on_page_empty, heap_free}
use hmalloc.Heap.Malloc.{view-put_view}

-- Page `i` of the segment at `seg`, with its record in the segment's header.
pub record Stands (seg i : ℕ) (v : PageView) : Type 0 where
  pub aligned : seg % segment_size ≡ 0
  pub usable : 0 < i
  pub inside : i < pages_per_segment
  pub fits : seg + segment_size ≤ word
  pub area : v.area ≡ seg + i * page_size

-- What the call leaves: the block is not live any more, and stands in the owner's list or in that of the
-- remote frees.
abbrev pub Left : ℕ → ℕ → Process → List ℕ → List ℕ → List ℕ → Run Process → Type 0
Left pg b s live remote local r =
    (s' : Process) × (r ≡ done s')
    × (if (s.page pg).owner == s.t_heap
        then IsPage (view pg s') (erase b live) remote (b ∷ local)
        else IsPage (view pg s') (erase b live) (b ∷ remote) local)

module _ (seg i b : ℕ) (s : Process) (live remote local : List ℕ)
    (at : Stands seg i (view (page_at seg i) s))
    (w : IsPage (view (page_at seg i) s) live remote local) (held : 0 < count b live) where
  abbrev pg : ℕ
  pg = page_at seg i

  -- The pointer leads back to the record of its page.
  page_of-block : page_of (segment_of b) b ≡ pg
  page_of-block =
      let v = view pg s in
      let (n, lt, e) =
        blocks_place v.area v.block_size v.reserved b (carved v live remote local w b held) in
      let short : n * v.block_size + v.block_size ≤ page_size =
        place-le n v.capacity v.block_size page_size (omega (arith, w.started)) (capacity-mul w) in
      let place : b ≡ seg + i * page_size + n * v.block_size = omega (arith, e, at.area) in
      subst (λ q. page_of (segment_of q) q ≡ pg) (sym place)
        (page_of-add seg i (n * v.block_size) at.aligned at.usable at.inside
          (omega (arith, short, w.sized)) at.fits).1

  abbrev after : Process
  after = put_view pg (local_free b (view pg s)) s

  after-IsPage : IsPage (view pg after) (erase b live) remote (b ∷ local)
  after-IsPage =
      subst (λ v. IsPage v (erase b live) remote (b ∷ local)) (sym (view-put_view pg _ s))
        (local_free-IsPage (view pg s) live remote local w b held)

  -- The record of the page afterwards, as the tests of `heap_free` read it.
  record_after : after.page pg ≡ (local_free b (view pg s)).page
  record_after = update_self s.page pg (local_free b (view pg s)).page

  last_used : (after.page pg).used ≡ 0 → (s.page pg).used ≡ 1
  unfolding local_free
  last_used z =
      let e : (local_free b (view pg s)).used ≡ 0 =
        sym (ap (λ (q : Page). q.used) record_after) ∙ z in
      omega (arith, e, w.total, w.started, capacity-le w, w.counted)

  stays :
      head_of (s.page pg).owner (s.page pg).size_class s ≡ pg
      → heap_on_page_empty pg after ≡ done after
  unfolding heap_on_page_empty local_free
  stays e =
      let first : (head_of (after.page pg).owner (after.page pg).size_class after == pg) ≡ true =
        rw record_after (ground (arith, e)) in
      rw first refl

  -- A pointer to a live block of a page, more than one of whose blocks is used or which is the active one
  -- of its class, leads `heap_free` to that page. If the page is one of the caller's heap, the block goes in
  -- front of the owner's list; if it is the page of another heap, in front of the list of remote frees.
  -- Either way the call returns, the block is not live any more and the page accounts for it.
  pub heap_free-IsPage :
      ((s.page pg).used ≢ 1) ⊎ (head_of (s.page pg).owner (s.page pg).size_class s ≡ pg)
      → Left pg b s live remote local (heap_free b s)
  unfolding heap_free
  heap_free-IsPage kept = elim (Bool-cases ((s.page pg).owner == s.t_heap)) [
    | inl mine ↦ elim (Bool-cases ((after.page pg).used == 0)) [
      | inr more ↦ rw (page_of-block, mine, more) (after, refl, after-IsPage)
      | inl drained ↦
          rw (page_of-block, mine, drained) (after, at_last kept (ground arith), after-IsPage)
    ]
    | inr other ↦
        rw (page_of-block, other)
          (
            put_view pg (remote_free b (view pg s)) s,
            refl,
            subst (λ v. IsPage v (erase b live) (b ∷ remote) local) (sym (view-put_view pg _ s))
                (remote_free-IsPage (view pg s) live remote local w b held),
          )
  ]
    where
      at_last :
          ((s.page pg).used ≢ 1) ⊎ (head_of (s.page pg).owner (s.page pg).size_class s ≡ pg)
          → (after.page pg).used ≡ 0
          → heap_on_page_empty pg after ≡ done after
      at_last (inl not_last) z = absurd (not_last (last_used z))
      at_last (inr active) z = stays active
