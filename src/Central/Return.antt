-- ===== src/Central/Return.antt =====
-- `pool_return` as a whole, and its callers: a page that is in use goes back to its segment or on the
-- list of abandoned pages.
use hmalloc.Common.{
  ℕ, ◌+◌, ◌<◌, ◌≡◌, refl, sym, ap, subst, ◌∙◌, ◌≢◌, inl, inr, true, some, List, ◌∷◌, ltb, ◌==◌,
  Bool-cases, length,
}
use hmalloc.Common.Multiset.{count, erase, count-erase}
use hmalloc.Common.Word.{wrap, wrap_sub}
use hmalloc.Segment.{segment_of, usable_pages_per_segment}
use hmalloc.Central.{
  World, segment_cache, pool_push, pool_return, central_release_page, ℕ, true, some, ltb,
}
use hmalloc.Central.Frame.{repaged-IsPool, repaged}
use hmalloc.Central.Pool.{IsPool, home, stock}
use hmalloc.Central.Give
use hmalloc.Central.Unmap
use hmalloc.Central.Arith.{==_eq, ==_refl, first_place, hand_stock}

-- The counters that the lists do not stand on.
abbrev pub recounted : ℕ → ℕ → World → World
recounted free_segments pages_in_use w =
    repaged w.page w.link w.os w.abandoned w.abandoned_count free_segments pages_in_use w

-- The order of the pages in use does not matter either.
pub recounted-IsPool :
    (f n : ℕ) {used : List ℕ} (used' : List ℕ) {w : World} (v : IsPool used w)
    → ((p : ℕ) → count p used' ≡ count p used)
    → (v' : IsPool used' (recounted f n w)) × (v'.lost ≡ v.lost) × (v'.all ≡ v.all)
recounted-IsPool f n used' {w} v same =
    repaged-IsPool used' v.lost v w.page w.link w.os w.abandoned w.abandoned_count f n (record {
      chain = v.lost_chain;
      counted = v.lost_counted;
      sized = v.lost_sized;
      split = λ p. ap (λ c. c + count p v.lost) (same p);
      area = λ p. refl;
      kept = λ q p here. refl;
    })

-- What a return leaves: the page is in no one's hands, and the abandoned pages are the same.
pub record PoolReturned (pg : ℕ) (used lost : List ℕ) (w w' : World) : Type 0 where
  pub pool : IsPool used w'
  pub lost_lem : pool.lost ≡ lost
  pub others : (a : ℕ) → pg ≢ a → w'.page a ≡ w.page a
  pub link : w'.link ≡ w.link

pub home-page :
    {pg : ℕ} {used : List ℕ} {w : World}
    → IsPool (pg ∷ used) w
    → segment_of (w.page pg).area ≡ home pg
home-page {pg} {used} v = v.area pg (
    hand_stock (count pg used) (count pg v.lost) (count pg (v.pool (home pg))) (stock v.all pg)
      (pg == pg) (==_refl pg) (v.split pg))

-- The test for an idle segment.
module _ (pg : ℕ) {used : List ℕ} {w : World} (v : IsPool (pg ∷ used) w) where
  abbrev s : ℕ
  s = home pg

  abbrev w₁ : World
  w₁ = pool_push pg s w

  abbrev v₁ : IsPool used w₁
  v₁ = Give.after-IsPool pg v

  abbrev w₂ : World
  w₂ = recounted (wrap (w₁.free_segments + 1)) w₁.pages_in_use w₁

  recount : (v' : IsPool used w₂) × (v'.lost ≡ v₁.lost) × (v'.all ≡ v₁.all)
  recount = recounted-IsPool (wrap (w₁.free_segments + 1)) w₁.pages_in_use used v₁ (λ p. refl)

  abbrev v₂ : IsPool used w₂
  v₂ = recount.0

  member : 0 < count s v₂.all
  member = subst (λ xs. 0 < count s xs) (sym (recount.2 ∙ Give.all-kept pg v)) (Give.place pg v).0

  full : ((w₁.seg s).free_count == usable_pages_per_segment) ≡ true → length (v₂.pool s) ≡ 63
  full idle = sym (v₂.free_counted s member) ∙ ==_eq (w₁.seg s).free_count 63 idle

  lost₂ : v₂.lost ≡ v.lost
  lost₂ = recount.1 ∙ Give.lost-kept pg v

  pub returned : (w' : World) × (pool_return pg w ≡ some w') × PoolReturned pg used v.lost w w'
  unfolding pool_return
  returned =
      rw (home-page v) (elim (Bool-cases ((w₁.seg s).free_count == usable_pages_per_segment)) [
        | inr partly ↦ (
          w₁,
          rw partly refl,
          record {
            pool = v₁;
            lost_lem = Give.lost-kept pg v;
            others = Give.page-others pg v;
            link = Give.link-kept pg v;
          },
        )
        | inl idle ↦ elim (Bool-cases (ltb segment_cache w₂.free_segments)) [
          | inr cached ↦ (
            w₂,
            rw (idle, cached) refl,
            record {
              pool = v₂;
              lost_lem = lost₂;
              others = Give.page-others pg v;
              link = Give.link-kept pg v;
            },
          )
          | inl spare ↦ (
            Unmap.after s v₂ member (full idle),
            rw (idle, spare) (Unmap.run s v₂ member (full idle)),
            record {
              pool = Unmap.after-IsPool s v₂ member (full idle);
              lost_lem = Unmap.lost-kept s v₂ member (full idle) ∙ lost₂;
              others = λ a ne.
                  ap (λ f. f a) (Unmap.page-kept s v₂ member (full idle))
                  ∙ Give.page-others pg v a ne;
              link = Unmap.link-kept s v₂ member (full idle) ∙ Give.link-kept pg v;
            },
          )
        ]
      ])

-- A page that no heap needs any more can be released: the call returns, whether or not its segment is
-- unmapped, and the page is no heap's.
pub central_release_page-IsPool :
    (pg : ℕ) (used : List ℕ) (w : World)
    → 0 < count pg used
    → IsPool used w
    → (w' : World) × (central_release_page pg w ≡ some w')
      × IsPool (erase pg used) w'
      × (w'.abandoned_count ≡ w.abandoned_count)
      × (w'.link ≡ w.link)
      × ((a : ℕ) → pg ≢ a → w'.page a ≡ w.page a)
unfolding central_release_page
central_release_page-IsPool pg used w here v =
    let v₀ =
      recounted-IsPool w.free_segments (wrap_sub w.pages_in_use 1) (pg ∷ erase pg used) v (λ p.
        first_place (count p (erase pg used)) (count p used) (p == pg)
          (count-erase p pg used here)) in
    let (w', run, r) = returned pg v₀.0 in
    (
      w',
      run,
      r.pool,
      sym r.pool.lost_counted ∙ ap length (r.lost_lem ∙ v₀.1) ∙ v.lost_counted,
      r.link,
      r.others,
    )
