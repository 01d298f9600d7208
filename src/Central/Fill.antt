-- ===== src/Central/Fill.antt =====
-- The loops of `map_segment` over the pages of a new segment: what they write.
use hmalloc.Common.{
  ℕ, zero, suc, ◌+◌, ◌*◌, ◌≤◌, ◌<◌, ◌≡◌, refl, sym, ap, subst, ◌∙◌, ◌≢◌, false, List, ◌∷◌, arith,
  ℕ_discrete, update, update_self, update_ne,
}
use hmalloc.Common.Multiset.{count}
use hmalloc.Constants.{page_size}
use hmalloc.Page.Chain.{Chain, Chain-frame}
use hmalloc.Page.{u32}
use hmalloc.Segment.{Page, Segment, page_at}
use hmalloc.Central.{World}
use hmalloc.Central.Acquire.{add_pages, clear_pages, blank_page}

pub clear_pages-others :
    (n s : ℕ) (page : ℕ → Page) (a : ℕ)
    → ((j : ℕ) → j < n → page_at s j ≢ a)
    → clear_pages n s page a ≡ page a
unfolding clear_pages
clear_pages-others zero s page a out = refl
clear_pages-others (suc n) s page a out =
    update_ne (clear_pages n s page) (page_at s n) a blank_page (out n (omega arith))
    ∙ clear_pages-others n s page a (λ j lt. out j (omega arith))

-- The pages from `i` on, in front of `xs`.
abbrev pub pages_from : ℕ → ℕ → ℕ → List ℕ → List ℕ
pages_from zero i s xs = xs
pages_from (suc left) i s xs = pages_from left (i + 1) s (page_at s i ∷ xs)

pub record Filled (left i s : ℕ) (xs : List ℕ) (w w' : World) : Type 0 where
  pub chain : Chain (λ p. (w'.page p).next) (w'.seg s).free_list (pages_from left i s xs)
  pub segs : (q : ℕ) → s ≢ q → w'.seg q ≡ w.seg q
  pub pages : (a : ℕ) → ((j : ℕ) → i ≤ j → j < i + left → page_at s j ≢ a) → w'.page a ≡ w.page a
  pub areas : (j : ℕ) → i ≤ j → j < i + left → (w'.page (page_at s j)).area ≡ s + j * page_size

page_at-ne : (s i j : ℕ) → i < j → page_at s i ≢ page_at s j
page_at-ne s i j lt e = absurd (omega (arith, e))

page_at-some : (s i : ℕ) → page_at s i ≢ 0
page_at-some s i e = absurd (omega (arith, e))

not_counted : (a x : ℕ) (xs : List ℕ) → count x xs ≡ 0 → 0 < count a xs → x ≢ a
not_counted a x xs out here e = absurd (omega (arith, here, subst (λ t. count t xs ≡ 0) e out))

pub add_pages-Filled :
    (left i s : ℕ) (xs : List ℕ) (w : World)
    → ((j : ℕ) → i ≤ j → count (page_at s j) xs ≡ 0)
    → Chain (λ p. (w.page p).next) (w.seg s).free_list xs
    → Filled left i s xs w (add_pages left i s w)
unfolding add_pages
add_pages-Filled zero i s xs w out c = record {
  chain = c;
  segs = λ q ne. refl;
  pages = λ a far. refl;
  areas = λ j le lt. absurd (omega (arith, le, lt));
}
add_pages-Filled (suc left) i s xs w out c =
    let pg = page_at s i in
    let u = record (w.page pg) {
      area = s + i * page_size;
      in_use = false;
      next = (w.seg s).free_list;
    } in
    let t = record (w.seg s) { free_list = pg; free_count = u32 ((w.seg s).free_count + 1) } in
    let w₁ = record w { page = update w.page pg u; seg = update w.seg s t } in
    let out' : (j : ℕ) → i + 1 ≤ j → count (page_at s j) (pg ∷ xs) ≡ 0 =
      λ j le. ground (arith, out j (omega (arith, le)), page_at-ne s i j (omega (arith, le))) in
    let at_pg : (w₁.page pg).next ≡ (w.seg s).free_list =
      ap (λ (p : Page). p.next) (update_self w.page pg u) in
    let at_s : (w₁.seg s).free_list ≡ pg =
      ap (λ (q : Segment). q.free_list) (update_self w.seg s t) in
    let c' : Chain (λ p. (w₁.page p).next) (w₁.seg s).free_list (pg ∷ xs) = (
      at_s,
      page_at-some s i,
      subst (λ p. Chain (λ a. (w₁.page a).next) p xs) (sym at_pg)
          (Chain-frame (λ a. (w.page a).next) (λ a. (w₁.page a).next) (w.seg s).free_list xs
            (λ a here.
              ap (λ (p : Page). p.next)
                (update_ne w.page pg a u (not_counted a pg xs (out i (omega arith)) here)))
            c),
    ) in
    let f = add_pages-Filled left (i + 1) s (pg ∷ xs) w₁ out' c' in
    record {
      chain = f.chain;
      segs = λ q ne. f.segs q ne ∙ update_ne w.seg s q t ne;
      pages = λ a far.
          f.pages a (λ j le lt. far j (omega (arith, le)) (omega (arith, lt)))
          ∙ update_ne w.page pg a u (far i (omega arith) (omega arith));
      areas = λ j le lt. elim (ℕ_discrete i j) [
        | yes same ↦
            subst (λ n. ((add_pages left (i + 1) s w₁).page (page_at s n)).area ≡ s + n * page_size)
              same
              (ap (λ (p : Page). p.area)
                  (f.pages pg (λ n ln tn e. page_at-ne s i n (omega (arith, ln)) (sym e)))
                ∙ ap (λ (p : Page). p.area) (update_self w.page pg u))
        | no other ↦ f.areas j (omega (arith, le, other)) (omega (arith, lt))
      ];
    }
