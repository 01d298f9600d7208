-- ===== src/Central/Unhook.antt =====
-- The list of abandoned pages: the walk along it, and taking one of its pages out.
use hmalloc.Common.{
  ℕ, suc, ◌+◌, ◌≤◌, ◌<◌, ◌≡◌, refl, sym, ap, subst, ◌∙◌, ◌≢◌, List, [], ◌∷◌, ◌++◌, arith, ◌==◌,
  if◌then◌else◌, length, update, update-field, update_self, update_ne, update-keeps,
}
use hmalloc.Common.Multiset.{count}
use hmalloc.Common.Word.{wrap_sub}
use hmalloc.Page.Chain.{Chain, Chain-update, Chain-frame}
use hmalloc.Segment.{Page}
use hmalloc.Central.{World}
use hmalloc.Central.Frame.{repaged-IsPool}
use hmalloc.Central.Pool.{IsPool, lost_once, lost-pool}
use hmalloc.Central.Acquire.{set_abandoned_at}
use hmalloc.Central.Arith.{absent, less, not_zero, one_less, taken_out}

-- The last element, or `a` where there is none.
abbrev pub last_of : ℕ → List ℕ → ℕ
last_of a [] = a
last_of a (x ∷ xs) = last_of x xs

pub last_of-append : (a b : ℕ) (xs : List ℕ) → last_of a (xs ++ (b ∷ [])) ≡ b
last_of-append a b [] = refl
last_of-append a b (x ∷ xs) = last_of-append x b xs

last_of-counted : (x : ℕ) (xs ys : List ℕ) → 0 < count (last_of x xs) (x ∷ (xs ++ ys))
last_of-counted x [] ys = ground arith
last_of-counted x (y ∷ xs) ys = omega (arith, last_of-counted y xs ys)

pub last_of-some :
    (link : ℕ → ℕ) (p x : ℕ) (xs ys : List ℕ) → Chain link p (x ∷ (xs ++ ys)) → last_of x xs ≢ 0
last_of-some link p x [] ys c = c.1
last_of-some link p x (y ∷ xs) ys c = last_of-some link (link x) y xs ys c.2

-- After the last one of the pages `front` the others follow.
pub Chain-back :
    (link : ℕ → ℕ) (p x : ℕ) (xs ys : List ℕ)
    → Chain link p (x ∷ (xs ++ ys))
    → Chain link (link (last_of x xs)) ys
Chain-back link p x [] ys c = c.2
Chain-back link p x (y ∷ xs) ys c = Chain-back link (link x) y xs ys c.2

-- A page behind another is taken out by one write.
pub Chain-cut :
    (link : ℕ → ℕ) (p x pg : ℕ) (xs ys : List ℕ)
    → ((a : ℕ) → count a (x ∷ (xs ++ (pg ∷ ys))) ≤ 1)
    → Chain link p (x ∷ (xs ++ (pg ∷ ys)))
    → Chain (update link (last_of x xs) (link pg)) p (x ∷ (xs ++ ys))
Chain-cut link p x pg [] ys once c =
    let at : update link x (link pg) x ≡ link pg = update_self link x (link pg) in
    (
      c.0,
      c.1,
      subst (λ q. Chain (update link x (link pg)) q ys) (sym at)
          (Chain-update link x (link pg) (link pg) ys (ground (arith, once x)) c.2.2),
    )
Chain-cut link p x pg (y ∷ xs) ys once c =
    let far : last_of y xs ≢ x = λ e. ground (
      arith,
      once x,
      subst (λ q. 0 < count q (y ∷ (xs ++ (pg ∷ ys)))) e (last_of-counted y xs (pg ∷ ys)),
    ) in
    (
      c.0,
      c.1,
      subst (λ q. Chain (update link (last_of y xs) (link pg)) q (y ∷ (xs ++ ys)))
          (sym (update_ne link (last_of y xs) x (link pg) far))
          (Chain-cut link (link x) y pg xs ys (λ a. ground (arith, once a)) c.2),
    )

length-middle : (pg : ℕ) (xs ys : List ℕ) → length (xs ++ (pg ∷ ys)) ≡ suc (length (xs ++ ys))
length-middle pg [] ys = refl
length-middle pg (x ∷ xs) ys = ap suc (length-middle pg xs ys)

pub count-middle :
    (p pg : ℕ) (xs ys : List ℕ)
    → count p (xs ++ (pg ∷ ys)) ≡ (if p == pg then 1 else 0) + count p (xs ++ ys)
count-middle p pg [] ys = refl
count-middle p pg (x ∷ xs) ys = omega (arith, count-middle p pg xs ys)

-- The page `pg`, which the walk is at, is taken out of the list.
abbrev pub unhooked : ℕ → ℕ → World → World
unhooked at pg w =
    let w₁ = set_abandoned_at at (w.page pg).next w in
    record w₁ { g = record w₁.g { abandoned_count = wrap_sub w₁.abandoned_count 1 } }

module _ (pg : ℕ) (back : List ℕ) {used : List ℕ} {w : World} (v : IsPool used w) where
  abbrev n : ℕ
  n = (w.page pg).next

  pub unhooked-IsPool :
      (front : List ℕ)
      → v.lost ≡ front ++ (pg ∷ back)
      → (v' : IsPool (pg ∷ used) (unhooked (last_of 0 front) pg w)) × (v'.lost ≡ front ++ back)
  unfolding set_abandoned_at
  unhooked-IsPool [] e =
      let c = subst (Chain (λ p. (w.page p).next) w.abandoned) e v.lost_chain in
      let r =
        repaged-IsPool (pg ∷ used) back v w.page w.link w.os n (wrap_sub w.abandoned_count 1)
          w.free_segments w.pages_in_use
          (record {
            chain = c.2;
            counted =
                one_less (length v.lost) (length back) w.abandoned_count v.lost_counted
                  (ap length e) v.lost_sized;
            sized = less (length v.lost) (length back) (ap length e) v.lost_sized;
            split = λ p.
                taken_out (count p used) (count p v.lost) (count p back) (if p == pg then 1 else 0)
                  (ap (count p) e);
            area = λ p. refl;
            kept = λ q p here. refl;
          }) in
      (r.0, r.1)
  unhooked-IsPool (x ∷ front) e =
      let at = last_of x front in
      let c = subst (Chain (λ p. (w.page p).next) w.abandoned) e v.lost_chain in
      let some_at = last_of-some (λ p. (w.page p).next) w.abandoned x front (pg ∷ back) c in
      let once : (a : ℕ) → count a (x ∷ (front ++ (pg ∷ back))) ≤ 1 =
        λ a. subst (λ xs. count a xs ≤ 1) e (lost_once v a) in
      let u = record (w.page at) { next = n } in
      let in_list : 0 < count at v.lost =
        subst (λ xs. 0 < count at xs) (sym e) (last_of-counted x front (pg ∷ back)) in
      let r =
        repaged-IsPool (pg ∷ used) (x ∷ (front ++ back)) v (update w.page at u) w.link w.os
          w.abandoned (wrap_sub w.abandoned_count 1) w.free_segments w.pages_in_use
          (record {
            chain =
                Chain-frame (update (λ p. (w.page p).next) at n) (λ p. (update w.page at u p).next)
                  w.abandoned (x ∷ (front ++ back))
                  (λ a here. update-field (λ (t : Page). t.next) w.page at a u)
                  (Chain-cut (λ p. (w.page p).next) w.abandoned x pg front back once c);
            counted =
                one_less (length v.lost) (length (x ∷ (front ++ back))) w.abandoned_count
                  v.lost_counted (ap length e ∙ length-middle pg (x ∷ front) back) v.lost_sized;
            sized =
                less (length v.lost) (length (x ∷ (front ++ back)))
                  (ap length e ∙ length-middle pg (x ∷ front) back) v.lost_sized;
            split = λ p.
                taken_out (count p used) (count p v.lost) (count p (x ∷ (front ++ back)))
                  (if p == pg then 1 else 0) (ap (count p) e ∙ count-middle p pg (x ∷ front) back);
            area = λ p. update-keeps (λ (t : Page). t.area) w.page at p u refl;
            kept = λ q p here.
                ap (λ (t : Page). t.next)
                  (update_ne w.page at p u (λ same.
                    absent (count p (v.pool q))
                      (subst (λ t. count t (v.pool q) ≡ 0) same (lost-pool v at q in_list)) here));
          }) in
      rw (not_zero at some_at) (r.0, r.1)

  pub unhooked-others :
      (front : List ℕ) (a : ℕ)
      → v.lost ≡ front ++ (pg ∷ back)
      → count a v.lost ≡ 0
      → (unhooked (last_of 0 front) pg w).page a ≡ w.page a
  unfolding set_abandoned_at
  unhooked-others [] a e out = refl
  unhooked-others (x ∷ front) a e out =
      let at = last_of x front in
      let c = subst (Chain (λ p. (w.page p).next) w.abandoned) e v.lost_chain in
      let some_at = last_of-some (λ p. (w.page p).next) w.abandoned x front (pg ∷ back) c in
      let in_list : 0 < count at v.lost =
        subst (λ xs. 0 < count at xs) (sym e) (last_of-counted x front (pg ∷ back)) in
      rw (not_zero at some_at) (
        update_ne w.page at a _
          (λ same. absent (count a v.lost) out (subst (λ t. 0 < count t v.lost) same in_list)))
