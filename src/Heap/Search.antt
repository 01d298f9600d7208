-- ===== src/Heap/Search.antt =====
-- The search of `heap_malloc_slow` over the pages of a class.
use hmalloc.Common.{
  ℕ, zero, suc, ◌≤◌, ◌<◌, ◌≡◌, refl, sym, ap, subst, ◌∙◌, ◌≢◌, ◌⊎◌, inl, inr, true, false, List, [],
  ◌∷◌, ◌++◌, arith, ℕ_discrete, ◌==◌, Bool-cases, length, update_self, update_ne,
}
use hmalloc.Run.{done}
use hmalloc.Common.Multiset.{count}
use hmalloc.Segment.{Page}
use hmalloc.Common.{update, ltb, ◌!=◌, Bool}
use hmalloc.Page.{PageView, page_make_available, page_collect, page_collect_run}
use hmalloc.Page.Invariant.{IsPage}
use hmalloc.Page.Available.{page_make_available-Keeps, page_make_available-Available}
use hmalloc.Heap.{Process, view, put_view, find_page}
use hmalloc.Heap.Pages.{DList}

page_make_available-hit :
    (v : PageView) → (page_make_available v).0 ≡ true → (page_make_available v).1.free ≢ 0
unfolding page_make_available
page_make_available-hit v = ground arith

-- A page that has as many live blocks as it has room for serves none, and the attempt changes nothing.
page_make_available-full :
    (v : PageView) (live remote local : List ℕ)
    → IsPage v live remote local
    → v.capacity ≤ length live
    → page_make_available v ≡ (false, v)
unfolding page_make_available page_collect page_collect_run
page_make_available-full v live [] [] w full =
    let no_local : (v.free != 0) ≡ false = ground (arith, w.local_chain) in
    let no_remote : (v.thread_free == 0) ≡ true = ground (arith, w.remote_chain) in
    let carved : ltb v.reserved v.capacity ≡ false =
      ground (arith, w.counted, w.total, w.started, full) in
    rw (no_local, no_remote, no_local, carved) refl
page_make_available-full v live (x ∷ xs) local w full =
    absurd (omega (arith, w.counted, w.total, w.started, full))
page_make_available-full v live [] (x ∷ xs) w full =
    absurd (omega (arith, w.counted, w.total, w.started, full))

-- The page at `p` written as it is.
restored : (p : ℕ) (s : Process) → put_view p (view p s) s ≡ s
restored p s = ap (λ f. record s { world = record s.world { page = f } }) (λ i a. kept a i)
  where
    kept : (a : ℕ) → update s.page p (s.page p) a ≡ s.page a
    kept a = elim (ℕ_discrete p a) [
      | yes same ↦
          ap (update s.page p (s.page p)) (sym same)
          ∙ update_self s.page p (s.page p)
          ∙ ap s.page same
      | no other ↦ update_ne s.page p a (s.page p) other
    ]

page_make_available-miss :
    (v : PageView) → (page_make_available v).0 ≡ false → (page_make_available v).1.free ≡ 0
unfolding page_make_available
page_make_available-miss v = ground arith

-- After the attempt to find a block in the page at `p`.
abbrev tried : ℕ → Process → Process
tried p s = put_view p (page_make_available (view p s)).1 s

tried_page : (p : ℕ) (s : Process) → (tried p s).page p ≡ (page_make_available (view p s)).1.page
tried_page p s = update_self s.page p _

abbrev pub SameLinks : Process → Process → Type 0
SameLinks s s' =
    (a : ℕ) → ((s'.page a).next ≡ (s.page a).next) × ((s'.page a).prev ≡ (s.page a).prev)

tried_apart : (p a : ℕ) (s : Process) → p ≢ a → (tried p s).page a ≡ s.page a
tried_apart p a s ne = update_ne s.page p a _ ne

-- An operation on the lists of blocks of a page leaves the links between the pages alone.
pub put_view-SameLinks :
    (p : ℕ) (v : PageView) (s : Process)
    → v.next ≡ (s.page p).next
    → v.prev ≡ (s.page p).prev
    → SameLinks s (put_view p v s)
put_view-SameLinks p v s next prev a = elim (ℕ_discrete p a) [
  | yes same ↦
      let e = ap (put_view p v s).page (sym same) ∙ update_self s.page p v.page in
      let f = ap s.page same in
      (
        ap (λ (q : Page). q.next) e ∙ next ∙ ap (λ (q : Page). q.next) f,
        ap (λ (q : Page). q.prev) e ∙ prev ∙ ap (λ (q : Page). q.prev) f,
      )
  | no other ↦
      let e = update_ne s.page p a v.page other in
      (ap (λ (q : Page). q.next) e, ap (λ (q : Page). q.prev) e)
]

tried-SameLinks : (p : ℕ) (s : Process) → SameLinks s (tried p s)
tried-SameLinks p s =
    let k = page_make_available-Keeps (view p s) in
    put_view-SameLinks p (page_make_available (view p s)).1 s k.next k.prev

-- Each of the pages `xs` accounts for its blocks.
abbrev pub Whole : (ℕ → List ℕ) → (ℕ → List ℕ) → (ℕ → List ℕ) → Process → List ℕ → Type 0
Whole live remote local s xs =
    (a : ℕ) → 0 < count a xs → IsPage (view a s) (live a) (remote a) (local a)

-- Each of the pages `xs` has as many live blocks as it has room for.
abbrev pub Full : (ℕ → List ℕ) → (ℕ → Page) → List ℕ → Type 0
Full live page xs = (a : ℕ) → 0 < count a xs → (page a).capacity ≤ length (live a)

-- The search from page `p` on, over the pages `xs`: it ends, with the first page that has room, or with
-- 0; those before it are full and have no block.
pub record Found (live : ℕ → List ℕ) (fuel p : ℕ) (xs : List ℕ) (s : Process) : Type 0 where
  pub page : ℕ
  pub after : Process
  pub front : List ℕ
  pub run : find_page fuel p s ≡ done (page, after)
  pub drained : (a : ℕ) → 0 < count a front → (after.page a).free ≡ 0
  pub links : SameLinks s after
  pub apart : (a : ℕ) → count a xs ≡ 0 → after.page a ≡ s.page a
  pub heaps : after.heaps ≡ s.heaps
  pub full : Full live s.page front
  pub ends :
      ((page ≡ 0) × (front ≡ xs))
      ⊎ ((back : List ℕ) × (xs ≡ front ++ (page ∷ back))
          × (length (live page) < (s.page page).capacity)
          × ((after.page page).free ≢ 0))

find_page_end : (fuel p : ℕ) (s : Process) → p ≡ 0 → find_page fuel p s ≡ done (0, s)
unfolding find_page
find_page_end zero p s e = let null : (p == 0) ≡ true = ground arith in rw (find_page, null) refl
find_page_end (suc fuel) p s e =
    let null : (p == 0) ≡ true = ground arith in rw (find_page, null) refl

module _ (live remote local : ℕ → List ℕ) where
  pub find_page-Found :
      (fuel before p : ℕ) (xs : List ℕ) (s : Process)
      → length xs ≤ fuel
      → ((a : ℕ) → count a xs ≤ 1)
      → DList s.page before p xs
      → Whole live remote local s xs
      → Found live fuel p xs s
  unfolding find_page
  find_page-Found fuel before p [] s enough once d whole = record {
    page = 0;
    after = s;
    front = [];
    run = find_page_end fuel p s d;
    drained = λ a h. absurd (omega arith);
    links = λ a. (refl, refl);
    apart = λ a out. refl;
    heaps = refl;
    full = λ a h. absurd (omega arith);
    ends = inl (refl, refl);
  }
  find_page-Found zero before p (x ∷ xs) s enough once d whole = absurd (omega arith)
  find_page-Found (suc fuel) before p (x ∷ xs) s enough once d whole =
      let some_page : (p == 0) ≡ false = ground (arith, d.0, d.1) in
      let w : IsPage (view p s) (live p) (remote p) (local p) = whole p (ground (arith, d.0)) in
      let s₁ = tried p s in
      let tries = page_make_available-Available (view p s) (live p) (remote p) (local p) w in
      elim (Bool-cases (ltb (length (live p)) (s.page p).capacity)) [
        | inl room ↦
            let hit : (page_make_available (view p s)).0 ≡ true = tries.decided ∙ room in
            record {
              page = p;
              after = s₁;
              front = [];
              run = rw (find_page, some_page, hit) refl;
              drained = λ a h. absurd (omega arith);
              links = tried-SameLinks p s;
              apart = λ a out. tried_apart p a s (λ e. ground (arith, d.0, out));
              heaps = refl;
              full = λ a h. absurd (omega arith);
              ends = inr (
                xs,
                ap (λ t. t ∷ xs) (sym d.0),
                ground (arith, room),
                λ z.
                    page_make_available-hit (view p s) hit
                      (sym (ap (λ (q : Page). q.free) (tried_page p s)) ∙ z),
              );
            }
        | inr none_left ↦
            let full : (s.page p).capacity ≤ length (live p) = ground (arith, none_left) in
            let miss = page_make_available-full (view p s) (live p) (remote p) (local p) w full in
            let missed : (page_make_available (view p s)).0 ≡ false =
              ap (λ (r : Bool × PageView). r.0) miss in
            let unchanged : tried p s ≡ s =
              ap (λ (r : Bool × PageView). put_view p r.1 s) miss ∙ restored p s in
            let empty : (s.page p).free ≡ 0 =
              ap (λ (r : Bool × PageView). r.1.free) (sym miss)
              ∙ page_make_available-miss (view p s) missed in
            let list : DList s.page p (s.page p).next xs =
              subst (λ q. DList s.page q (s.page p).next xs) (sym d.0)
                (subst (λ q. DList s.page x q xs) (ap (λ t. (s.page t).next) (sym d.0)) d.3) in
            let r =
              find_page-Found fuel p (s.page p).next xs s (omega arith) (λ a. omega (arith, once a))
                list (λ a h. whole a (ground (arith, h))) in
            record {
              page = r.page;
              after = r.after;
              front = x ∷ r.front;
              run =
                  rw (find_page, some_page, missed)
                    (subst (λ t. find_page fuel (t.page p).next t ≡ done (r.page, r.after))
                      (sym unchanged) r.run);
              drained = λ a h. elim (ℕ_discrete a x) [
                | yes same ↦
                    ap (λ t. (r.after.page t).free) (same ∙ sym d.0)
                    ∙ ap (λ (q : Page). q.free) (r.apart p (ground (arith, d.0, once x)))
                    ∙ empty
                | no other ↦ r.drained a (ground arith)
              ];
              links = r.links;
              apart = λ a out. r.apart a (omega (arith, out));
              heaps = r.heaps;
              full = λ a h. elim (ℕ_discrete a x) [
                | yes same ↦
                    subst (λ t. (s.page t).capacity ≤ length (live t)) (d.0 ∙ sym same) full
                | no other ↦ r.full a (ground arith)
              ];
              ends = elim r.ends [
                | inl stopped ↦ inl (stopped.0, ap (λ t. x ∷ t) stopped.1)
                | inr found ↦ inr (found.0, ap (λ t. x ∷ t) found.1, found.2, found.3)
              ];
            }
      ]
