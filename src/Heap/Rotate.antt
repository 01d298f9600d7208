-- ===== src/Heap/Rotate.antt =====
-- `heap_rotate_to_front` and the unlinking in `heap_on_page_empty`, on the list of a class.
use hmalloc.Common.{
  get_or-set_self, ℕ, ◌+◌, ◌≤◌, ◌<◌, ◌≡◌, refl, sym, ap, subst, ◌∙◌, ◌≢◌, inl, inr, true, false,
  List, ◌∷◌, ◌++◌, arith, ℕ_discrete, ◌==◌, ◌!=◌, if◌then◌else◌, Bool-cases, length, get_or, update,
}
use hmalloc.Common.{update_self}
use hmalloc.Common.Multiset.{count, count-append}
use hmalloc.Segment.{Page}
use hmalloc.Heap.{
  Heap, Process, skip_forward, skip_backward, set_prev, with_page, head_of, set_head,
  heap_rotate_to_front,
}
use hmalloc.Heap.Pages.{DList, DList-frame, Cut, DList-Cut, prev-last, DList-ne-null}

next-update :
    (f : ℕ → Page) (q a : ℕ) (v : Page)
    → (update f q v a).next ≡ (if a == q then v.next else (f a).next)
next-update f q a v = ground arith

prev-update :
    (f : ℕ → Page) (q a : ℕ) (v : Page)
    → (update f q v a).prev ≡ (if a == q then v.prev else (f a).prev)
prev-update f q a v = ground arith

next-keep :
    (f : ℕ → Page) (q a : ℕ) (v : Page) → v.next ≡ (f q).next → (update f q v a).next ≡ (f a).next
next-keep f q a v e = elim (ℕ_discrete q a) [
  | yes here ↦ let hit : (q == a) ≡ true = ground arith in rw hit (e ∙ ap (λ t. (f t).next) here)
  | no other ↦ let miss : (q == a) ≡ false = ground arith in rw miss refl
]

prev-keep :
    (f : ℕ → Page) (q a : ℕ) (v : Page) → v.prev ≡ (f q).prev → (update f q v a).prev ≡ (f a).prev
prev-keep f q a v e = elim (ℕ_discrete q a) [
  | yes here ↦ let hit : (q == a) ≡ true = ground arith in rw hit (e ∙ ap (λ t. (f t).prev) here)
  | no other ↦ let miss : (q == a) ≡ false = ground arith in rw miss refl
]

module _ (s : Process) (p : ℕ) (some_prev : (s.page p).prev ≢ 0) (apart : (s.page p).prev ≢ p) where
  abbrev before : ℕ
  before = (s.page p).prev

  abbrev forward : Process
  forward = with_page before (record (s.page before) { next = (s.page p).next }) s

  after-forward : (forward.page p).next ≡ (s.page p).next
  after-forward =
      let miss : (p == before) ≡ false = ground (arith, apart) in
      next-update s.page before p _ ∙ (rw miss refl)

  prev-forward : (a : ℕ) → (forward.page a).prev ≡ (s.page a).prev
  prev-forward a =
      prev-keep s.page before a (record (s.page before) { next = (s.page p).next }) refl

  -- The store into the page after `p`, where there is one.
  backward-Cut : Cut s.page (skip_backward p forward).page p
  unfolding skip_backward
  backward-Cut = elim (Bool-cases ((forward.page p).next != 0)) [
    | inl some_next ↦ rw some_next (record {
      next_lem = λ a nz.
          next-keep forward.page (forward.page p).next a _ refl ∙ next-update s.page before a _;
      prev_lem = λ a nz.
          prev-update forward.page (forward.page p).next a _
          ∙ (λ i. if a == after-forward i then prev-forward p i else prev-forward a i);
    })
    | inr no_next ↦ rw no_next (record {
      next_lem = λ a nz. next-update s.page before a _;
      prev_lem = λ a nz.
          let miss : (a == (s.page p).next) ≡ false = ground (arith, after-forward) in
          prev-forward a ∙ (rw miss refl);
    })
  ]

  -- The two conditional stores cut the page out.
  pub skip-Cut : Cut s.page (skip_backward p (skip_forward p s)).page p
  unfolding skip_forward
  skip-Cut =
      let go : (before != 0) ≡ true = ground (arith, some_prev) in
      subst (λ (t : Process). Cut s.page (skip_backward p t).page p) (sym (rw go refl)) backward-Cut

pub heaps-skip : (s : Process) (p : ℕ) → (skip_backward p (skip_forward p s)).heaps ≡ s.heaps
unfolding skip_backward skip_forward
heaps-skip s p = ground arith

-- `p` becomes the page before the first one, `x`.
module _ (f : ℕ → Page) (p x : ℕ) (xs : List ℕ) (d : DList f 0 x (x ∷ xs)) (nz : p ≢ 0)
    (out : count p (x ∷ xs) ≡ 0) (once : count x xs ≡ 0) where
  abbrev placed : ℕ → Page
  placed = update f p (record (f p) { prev = 0; next = x })

  abbrev joined : ℕ → Page
  joined = update placed x (record (placed x) { prev = p })

  next-joined : (a : ℕ) → (joined a).next ≡ (if a == p then x else (f a).next)
  next-joined a = next-keep placed x a (record (placed x) { prev = p }) refl ∙ next-update f p a _

  prev-joined : (a : ℕ) → (joined a).prev ≡ (if a == x then p else if a == p then 0 else (f a).prev)
  prev-joined a =
      prev-update placed x a _
      ∙ (λ i. if a == x then p else prev-update f p a (record (f p) { prev = 0; next = x }) i)

  joined-DList : DList joined 0 p (p ∷ x ∷ xs)
  joined-DList =
      let p_self : (p == p) ≡ true = ground arith in
      let x_self : (x == x) ≡ true = ground arith in
      let p_not_x : (p == x) ≡ false = ground arith in
      let x_not_p : (x == p) ≡ false = ground arith in
      let next_x = next-joined x ∙ (rw x_not_p refl) in
      (
        refl,
        nz,
        prev-joined p ∙ (rw (p_not_x, p_self) refl),
        (
          next-joined p ∙ (rw p_self refl),
          d.1,
          prev-joined x ∙ (rw x_self refl),
          subst (λ q. DList joined x q xs) (sym next_x)
              (DList-frame f joined x (f x).next xs (λ a h. kept a h) d.3),
        ),
      )
    where
      kept :
          (a : ℕ) → 0 < count a xs → ((joined a).next ≡ (f a).next) × ((joined a).prev ≡ (f a).prev)
      kept a h =
          let not_p : (a == p) ≡ false = ground arith in
          let not_x : (a == x) ≡ false = ground arith in
          (next-joined a ∙ (rw not_p refl), prev-joined a ∙ (rw (not_x, not_p) refl))

module _ (h c p x : ℕ) (xs ys : List ℕ) (s : Process)
    (d : DList s.page 0 (head_of h c s) (x ∷ (xs ++ (p ∷ ys))))
    (once : (a : ℕ) → count a (x ∷ (xs ++ (p ∷ ys))) ≤ 1) where
  pub before_p : 0 < count (s.page p).prev (x ∷ xs)
  before_p = prev-last s.page 0 (head_of h c s) p x xs ys d

  pub p_out : count p (x ∷ xs) + count p ys ≡ 0
  p_out = ground (arith, once p, count-append p (x ∷ xs) (p ∷ ys))

  pub null_out : count 0 (x ∷ xs) + count 0 (p ∷ ys) ≡ 0
  null_out = omega (
    arith,
    DList-ne-null s.page 0 (head_of h c s) (x ∷ (xs ++ (p ∷ ys))) d,
    count-append 0 (x ∷ xs) (p ∷ ys),
  )

  p-ne-null : p ≢ 0
  p-ne-null = λ e. ground (arith, null_out, e)

  pub in_front : (a : ℕ) → count a (x ∷ xs) ≡ 0 → (s.page p).prev ≢ a
  in_front a out = λ e. omega (arith, out, subst (λ t. 0 < count t (x ∷ xs)) e before_p)

  -- The list without the page that is cut out.
  pub cut-DList : DList (skip_backward p (skip_forward p s)).page 0 (head_of h c s) (x ∷ (xs ++ ys))
  cut-DList =
      DList-Cut s.page (skip_backward p (skip_forward p s)).page p 0 (head_of h c s) x xs ys
        (skip-Cut s p (in_front 0 (omega (arith, null_out))) (in_front p (omega (arith, p_out)))) d
        once

  -- After a page that is not the first of its class moved to the front, it is the first, and the others
  -- follow in the same order, all linked both ways.
  pub heap_rotate_to_front-DList :
      c < length (s.heaps h).pages
      → let s' = heap_rotate_to_front h c p s in
        DList s'.page 0 (head_of h c s') (p ∷ x ∷ (xs ++ ys))
  unfolding heap_rotate_to_front set_prev
  heap_rotate_to_front-DList lt =
      let head = head_of h c s in
      let not_first : (p == head) ≡ false = ground (arith, d.0, p_out) in
      let some_head : (head != 0) ≡ true = ground (arith, d.0, d.1) in
      let s₁ = skip_backward p (skip_forward p s) in
      let s₂ = with_page p (record (s₁.page p) { prev = 0; next = head }) s₁ in
      let s₃ = with_page head (record (s₂.page head) { prev = p }) s₂ in
      let run : heap_rotate_to_front h c p s ≡ set_head h c p s₃ = rw (not_first, some_head) refl in
      let list : DList s₁.page 0 head (head ∷ (xs ++ ys)) =
        subst (λ q. DList s₁.page 0 head (q ∷ (xs ++ ys))) (sym d.0) cut-DList in
      let moved =
        joined-DList s₁.page p head (xs ++ ys) list p-ne-null
          (ground (arith, d.0, p_out, count-append p xs ys))
          (rw d.0 (ground (arith, once x, count-append x xs ys, count-append x xs (p ∷ ys)))) in
      let named : DList s₃.page 0 p (p ∷ x ∷ (xs ++ ys)) =
        subst (λ q. DList s₃.page 0 p (p ∷ q ∷ (xs ++ ys))) d.0 moved in
      let first : head_of h c (set_head h c p s₃) ≡ p =
        ap (λ (v : Heap). get_or v.pages c 0) (update_self s₃.heaps h _)
        ∙ get_or-set_self (s₃.heaps h).pages c p 0
            (subst (λ f. c < length (f h).pages) (sym (heaps-skip s p)) lt) in
      subst (λ (t : Process). DList t.page 0 (head_of h c t) (p ∷ x ∷ (xs ++ ys))) (sym run)
        (subst (λ q. DList s₃.page 0 q (p ∷ x ∷ (xs ++ ys))) (sym first) named)
