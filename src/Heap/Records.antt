-- ===== src/Heap/Records.antt =====
-- The records of the pages while `heap_rotate_to_front` and `heap_on_page_empty` link them anew.
use hmalloc.Common.{
  ℕ, ◌≡◌, refl, sym, ap, ◌∙◌, inl, inr, Bool, true, false, ℕ_discrete, ◌==◌, ◌!=◌, if◌then◌else◌,
  Bool-cases, update_self, update_ne,
}
use hmalloc.Segment.{Page}
use hmalloc.Heap.{
  Process, with_page, head_of, set_head, skip_forward, skip_backward, set_prev,
  heap_rotate_to_front,
}

-- Moving a page keeps every other field of the pages' records.
module _ (field : Page → ℕ)
    (apart : (v : Page) (next prev : ℕ)
      → field (record v { next = next; prev = prev }) ≡ field v) where
  abbrev pub Same : Process → Process → Type 0
  Same s s' = (a : ℕ) → field (s'.page a) ≡ field (s.page a)

  with_page-Same :
      (p : ℕ) (v : Page) (s : Process) → field v ≡ field (s.page p) → Same s (with_page p v s)
  with_page-Same p v s e a = elim (ℕ_discrete p a) [
    | yes same ↦
        ap (λ t. field ((with_page p v s).page t)) (sym same)
        ∙ ap field (update_self s.page p v)
        ∙ e
        ∙ ap (λ t. field (s.page t)) same
    | no other ↦ ap field (update_ne s.page p a v other)
  ]

  Same-if : (x : Bool) (s t : Process) → Same s t → Same s (if x then t else s)
  Same-if true s t e = e
  Same-if false s t e = λ a. refl

  pub skip_forward-Same : (p : ℕ) (s : Process) → Same s (skip_forward p s)
  unfolding skip_forward
  skip_forward-Same p s =
      let q = (s.page p).prev in
      let v = record (s.page q) { next = (s.page p).next } in
      Same-if (q != 0) s (with_page q v s)
        (with_page-Same q v s (apart (s.page q) (s.page p).next (s.page q).prev))

  pub skip_backward-Same : (p : ℕ) (s : Process) → Same s (skip_backward p s)
  unfolding skip_backward
  skip_backward-Same p s =
      let q = (s.page p).next in
      let v = record (s.page q) { prev = (s.page p).prev } in
      Same-if (q != 0) s (with_page q v s)
        (with_page-Same q v s (apart (s.page q) (s.page q).next (s.page p).prev))

  set_prev-Same : (q p : ℕ) (s : Process) → Same s (set_prev q p s)
  unfolding set_prev
  set_prev-Same q p s =
      let v = record (s.page q) { prev = p } in
      Same-if (q != 0) s (with_page q v s)
        (with_page-Same q v s (apart (s.page q) (s.page q).next p))

  pub rotate-Same : (h c p : ℕ) (s : Process) → Same s (heap_rotate_to_front h c p s)
  unfolding heap_rotate_to_front
  rotate-Same h c p s a =
      let head = head_of h c s in
      let s₁ = skip_backward p (skip_forward p s) in
      let v = record (s₁.page p) { prev = 0; next = head } in
      let s₂ = with_page p v s₁ in
      let moved : field ((set_head h c p (set_prev head p s₂)).page a) ≡ field (s.page a) =
        set_prev-Same head p s₂ a
        ∙ with_page-Same p v s₁ (apart (s₁.page p) head 0) a
        ∙ skip_backward-Same p (skip_forward p s) a
        ∙ skip_forward-Same p s a in
      elim (Bool-cases (p == head)) [ inl first ↦ rw first refl | inr other ↦ rw other moved ]
