-- ===== src/Heap/Exit/Pages.antt =====
-- The pages of one class at the end of a thread: each goes back to the central heap or is abandoned.
use hmalloc.Common.{
  ℕ, zero, suc, ◌+◌, ◌^◌, ◌≤◌, ◌<◌, ◌≡◌, refl, sym, ap, subst, ◌∙◌, ◌≢◌, inl, inr, Bool, true,
  false, ◌||◌, some, List, [], ◌∷◌, arith, ◌==◌, if◌then◌else◌, Bool-cases, length, update,
}
use hmalloc.Run.{done}
use hmalloc.Common.Multiset.{count, erase, count-erase}
use hmalloc.Common.Word.{wrap}
use hmalloc.Page.{PageView, page_collect_run, Links}
use hmalloc.Segment.{Page}
use hmalloc.Central.{World, central_release_page, central_abandon_page}
use hmalloc.Central.Arith.{==_true, le_suc}
use hmalloc.Central.Pool.{IsPool, used-place}
use hmalloc.Central.Remotes.{Remotes, Remotes-frame, page_collect_run-Collected}
use hmalloc.Central.Return.{central_release_page-IsPool, recounted-IsPool}
use hmalloc.Central.Leave
use hmalloc.Heap.{Build}
use hmalloc.Heap.Exit.{destroy_page, destroy_pages}

-- A list of pages ends at null or at the page that serves nothing.
abbrev pub ends : Build → ℕ → Bool
ends b p = p == 0 || p == b.empty_page

-- From `p` on stand the pages `xs`.
abbrev pub Listed : Build → Links → ℕ → List ℕ → Type 0
Listed b next p [] = ends b p ≡ true
Listed b next p (x ∷ xs) = (p ≡ x) × (ends b x ≡ false) × Listed b next (next x) xs

Listed-frame :
    (b : Build) (f g : Links) (p : ℕ) (xs : List ℕ)
    → ((a : ℕ) → 0 < count a xs → g a ≡ f a)
    → Listed b f p xs
    → Listed b g p xs
Listed-frame b f g p [] same c = c
Listed-frame b f g p (x ∷ xs) same c = (
  c.0,
  c.1,
  subst (λ q. Listed b g q xs) (sym (same x (ground arith)))
      (Listed-frame b f g (f x) xs (λ a here. same a (ground (arith, here))) c.2),
)

-- What the loop leaves, with `rest` the pages of the other heaps and classes.
pub record Emptied (rest : List ℕ) (n : ℕ) (w w' : World) : Type 0 where
  pub pool : IsPool rest w'
  pub untouched : (a : ℕ) → 0 < count a rest → w'.page a ≡ w.page a
  pub abandoned : w'.abandoned_count ≤ w.abandoned_count + n

held : (u x r : ℕ) (b : Bool) → b ≡ true → u ≡ (if b then 1 else 0) + x + r → 0 < u
held u x r b hit e = ground arith

one_fewer :
    (e u x r : ℕ) (b : Bool)
    → e + (if b then 1 else 0) ≡ u
    → u ≡ (if b then 1 else 0) + x + r
    → e ≡ x + r
one_fewer e u x r b h k = omega (arith, h, k)

once_only : (u x r : ℕ) (b : Bool) → b ≡ true → u ≡ (if b then 1 else 0) + x + r → u ≡ 1 → x + r ≡ 0
once_only u x r b hit e one = ground arith

none_left : (x r : ℕ) → x + r ≡ 0 → 0 < x → ⊥
none_left x r e here = omega (arith, e, here)

none_right : (x r : ℕ) → x + r ≡ 0 → 0 < r → ⊥
none_right x r e here = omega (arith, e, here)

room_left : (a a' n : ℕ) → a' ≤ a + 1 → a + suc n < 2 ^ 64 → a' + n < 2 ^ 64
room_left a a' n le lt = omega (arith, le, lt)

room_one : (a n : ℕ) → a + suc n < 2 ^ 64 → a + 1 < 2 ^ 64
room_one a n lt = omega (arith, lt)

le_trans_one : (a a' a'' n : ℕ) → a' ≤ a + 1 → a'' ≤ a' + n → a'' ≤ a + suc n
le_trans_one a a' a'' n le le' = omega (arith, le, le')

le_one : (a b : ℕ) → b ≡ a → b ≤ a + 1
le_one a b e = omega (arith, e)

wrap_le : (a : ℕ) → wrap (a + 1) ≤ a + 1
wrap_le a = omega arith

le_zero : (a : ℕ) → a ≤ a + 0
le_zero a = omega arith

abandoned-central_abandon_page :
    (owner p : ℕ) (w : World)
    → (central_abandon_page owner p w).abandoned_count ≤ w.abandoned_count + 1
unfolding central_abandon_page
abandoned-central_abandon_page owner p w = wrap_le w.abandoned_count

eq_of : (u r : ℕ) → u ≡ 0 + r → r ≡ u
eq_of u r e = omega (arith, e)

nothing_left :
    (used rest : List ℕ) (w : World)
    → IsPool used w
    → ((a : ℕ) → count a used ≡ count a [] + count a rest)
    → Emptied rest 0 w w
nothing_left used rest w v counts = record {
  pool =
      (recounted-IsPool w.free_segments w.pages_in_use rest v
        (λ a. eq_of (count a used) (count a rest) (counts a))).0;
  untouched = λ a here. refl;
  abandoned = le_zero w.abandoned_count;
}

released :
    (b : Build) (p : ℕ) (w w' : World) (u : PageView)
    → page_collect_run (record { page = w.page p; link = w.link }) ≡ some u
    → (u.used == 0) ≡ true
    → central_release_page p (record w { page = update w.page p u.page; link = u.link }) ≡ some w'
    → destroy_page b p w ≡ done w'
unfolding destroy_page
released b p w w' u collect drained run = rw (collect, drained, run) refl

given_up :
    (b : Build) (p : ℕ) (w : World) (u : PageView)
    → page_collect_run (record { page = w.page p; link = w.link }) ≡ some u
    → (u.used == 0) ≡ false
    → destroy_page b p w
      ≡ done (
          central_abandon_page b.abandon_tag p
            (record w { page = update w.page p u.page; link = u.link }))
unfolding destroy_page
given_up b p w u collect live = rw (collect, live) refl

member_first : (x : ℕ) (xs : List ℕ) → 0 < count x (x ∷ xs)
member_first x xs = ground arith

member_later : (p x : ℕ) (xs : List ℕ) → 0 < count p xs → 0 < count p (x ∷ xs)
member_later p x xs inside = omega (arith, inside)

link-central_abandon_page :
    (owner p : ℕ) (w : World) → (central_abandon_page owner p w).link ≡ w.link
unfolding central_abandon_page
link-central_abandon_page owner p w = refl

-- At the end of a thread the loop over the listed pages of a class ends, on fuel for each of them, where
-- every page is in one place, the remote frees of these pages are lists that end, and the count of
-- abandoned pages has room for them: each walk along the remote frees ends, each page goes back to the
-- pool of its segment or is abandoned, none stays in the heap's hands, every page is in one place, and
-- the pages of the other heaps and classes are as they were.
pub destroy_pages-Emptied :
    (b : Build) (fuel p : ℕ) (xs used rest : List ℕ) (w : World)
    → IsPool used w
    → ((a : ℕ) → count a used ≡ count a xs + count a rest)
    → Listed b (λ q. (w.page q).next) p xs
    → Remotes w xs
    → length xs ≤ fuel
    → w.abandoned_count + length xs < 2 ^ 64
    → (w' : World) × (destroy_pages b fuel p w ≡ done w') × Emptied rest (length xs) w w'
unfolding destroy_pages
destroy_pages-Emptied b zero p [] used rest w v counts c m enough room =
    (w, rw (destroy_pages, c) refl, nothing_left used rest w v counts)
destroy_pages-Emptied b (suc fuel) p [] used rest w v counts c m enough room =
    (w, rw (destroy_pages, c) refl, nothing_left used rest w v counts)
destroy_pages-Emptied b zero p (x ∷ xs) used rest w v counts c m enough room =
    absurd (omega (arith, enough))
destroy_pages-Emptied b (suc fuel) p (x ∷ xs) used rest w v counts c m enough room =
    let first = member_first x xs in
    let (u, collect, d) =
      page_collect_run-Collected x (m.blocks x) v (m.chain x first) (m.short x first) in
    let w₁ = record w { page = update w.page x u.page; link = u.link } in
    let self : (x == x) ≡ true = ==_true x x refl in
    let here = held (count x used) (count x xs) (count x rest) (x == x) self (counts x) in
    let once =
      once_only (count x used) (count x xs) (count x rest) (x == x) self (counts x)
        (used-place v x here).2 in
    let far : (a : ℕ) → 0 < count a xs → x ≢ a = λ a inside e.
      none_left (count a xs) (count a rest) (subst (λ t. count t xs + count t rest ≡ 0) e once)
        inside in
    let apart : (a : ℕ) → 0 < count a rest → x ≢ a = λ a inside e.
      none_right (count a xs) (count a rest) (subst (λ t. count t xs + count t rest ≡ 0) e once)
        inside in
    let Goal : World → Type 0 = λ w₂.
      (w' : World) × (destroy_pages b fuel (w.page x).next w₂ ≡ done w')
      × Emptied rest (length (x ∷ xs)) w w' in
    let go : (w₂ : World)
        → IsPool (erase x used) w₂
        → ((a : ℕ) → x ≢ a → w₂.page a ≡ w₁.page a)
        → w₂.link ≡ w₁.link
        → w₂.abandoned_count ≤ w.abandoned_count + 1
        → Goal w₂ =
      λ w₂ v₂ others link le.
        let kept : (a : ℕ) → x ≢ a → w₂.page a ≡ w.page a = λ a ne. others a ne ∙ d.others a ne in
        let (w', run, r) =
          destroy_pages-Emptied b fuel (w.page x).next xs (erase x used) rest w₂ v₂
            (λ a.
              one_fewer (count a (erase x used)) (count a used) (count a xs) (count a rest) (a == x)
                (count-erase a x used here) (counts a))
            (Listed-frame b (λ q. (w.page q).next) (λ q. (w₂.page q).next) (w.page x).next xs
              (λ a inside. ap (λ (t : Page). t.next) (kept a (far a inside))) c.2)
            (Remotes-frame (x ∷ xs) xs m x w₂ first
              (λ a inside. (
                member_later a x xs inside,
                far a inside,
                ap (λ (t : Page). t.thread_free) (kept a (far a inside)),
              ))
              (λ a out. ap (λ f. f a) link ∙ d.links a out))
            (le_suc (length xs) fuel enough)
            (room_left w.abandoned_count w₂.abandoned_count (length xs) le room) in
        (
          w',
          run,
          record {
            pool = r.pool;
            untouched = λ a inside. r.untouched a inside ∙ kept a (apart a inside);
            abandoned =
                le_trans_one w.abandoned_count w₂.abandoned_count w'.abandoned_count (length xs) le
                  r.abandoned;
          },
        ) in
    subst
      (λ q.
        (w' : World) × (destroy_pages b (suc fuel) q w ≡ done w')
        × Emptied rest (length (x ∷ xs)) w w')
      (sym c.0)
      (elim (Bool-cases (u.used == 0)) [
        | inl drained ↦
            let (w₂, run, v₂, lost, link, others) =
              central_release_page-IsPool x used w₁ here d.pool in
            let (w', loop, r) =
              go w₂ v₂ others link (le_one w.abandoned_count w₂.abandoned_count lost) in
            (w', rw (destroy_pages, c.1, released b x w w₂ u collect drained run) loop, r)
        | inr live ↦
            let w₂ = central_abandon_page b.abandon_tag x w₁ in
            let (w', loop, r) =
              go w₂
                (Leave.after-IsPool b.abandon_tag x here d.pool
                  (room_one w.abandoned_count (length xs) room))
                (Leave.page-others b.abandon_tag x here d.pool)
                (link-central_abandon_page b.abandon_tag x w₁)
                (abandoned-central_abandon_page b.abandon_tag x w₁) in
            (w', rw (destroy_pages, c.1, given_up b x w u collect live) loop, r)
      ])
