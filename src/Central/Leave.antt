-- ===== src/Central/Leave.antt =====
-- `central_abandon_page`: a page whose heap is gone goes on the list of abandoned pages.
use hmalloc.Common.{
  ℕ, ◌+◌, ◌^◌, ◌<◌, ◌≡◌, refl, sym, ap, subst, ◌≢◌, List, ◌∷◌, ◌==◌, length, update_self,
  update-keeps, update_ne,
}
use hmalloc.Common.Multiset.{count, erase, count-erase}
use hmalloc.Page.Chain.{Chain, Chain-frame}
use hmalloc.Segment.{Page}
use hmalloc.Central.{World, central_abandon_page}
use hmalloc.Central.Frame.{repaged-IsPool}
use hmalloc.Central.Pool.{IsPool, home, used-place, used-pool, used-ne-null}
use hmalloc.Central.Arith.{counted_more, in_bound, left_zero, moved, not_both}

module _ (owner pg : ℕ) {used : List ℕ} {w : World} (here : 0 < count pg used)
    (v : IsPool used w) where
  abbrev pub after : World
  after = central_abandon_page owner pg w

  pub page-others : (a : ℕ) → pg ≢ a → after.page a ≡ w.page a
  unfolding central_abandon_page
  page-others a ne = update_ne w.page pg a _ ne

  page-pg : (after.page pg).next ≡ w.abandoned
  unfolding central_abandon_page
  page-pg = ap (λ (u : Page). u.next) (update_self w.page pg _)

  after-area : (p : ℕ) → (after.page p).area ≡ (w.page p).area
  unfolding central_abandon_page
  after-area p = update-keeps (λ (u : Page). u.area) w.page pg p _ refl

  pages-kept :
      (p : ℕ) (xs : List ℕ)
      → count pg xs ≡ 0
      → Chain (λ a. (w.page a).next) p xs
      → Chain (λ a. (after.page a).next) p xs
  pages-kept p xs out c =
      Chain-frame (λ q. (w.page q).next) (λ q. (after.page q).next) p xs
        (λ a inside.
          ap (λ (u : Page). u.next)
            (page-others a (λ e. not_both (count a xs) (subst (λ t. count t xs ≡ 0) e out) inside)))
        c

  lost-apart : count pg v.lost ≡ 0
  lost-apart = left_zero (count pg v.lost) (count pg (v.pool (home pg))) (used-place v pg here).3

  pub after-IsPool : w.abandoned_count + 1 < 2 ^ 64 → IsPool (erase pg used) after
  unfolding central_abandon_page
  after-IsPool room =
      (repaged-IsPool (erase pg used) (pg ∷ v.lost) v after.page w.link w.os pg
        after.abandoned_count w.free_segments after.pages_in_use
        (record {
          chain = (
            refl,
            used-ne-null v pg here,
            subst (λ p. Chain (λ a. (after.page a).next) p v.lost) (sym page-pg)
                (pages-kept w.abandoned v.lost lost-apart v.lost_chain),
          );
          counted = counted_more (length v.lost) w.abandoned_count v.lost_counted room;
          sized = in_bound (length v.lost) w.abandoned_count v.lost_counted room;
          split = λ p.
              moved (count p (erase pg used)) (count p used) (count p v.lost) (p == pg)
                (count-erase p pg used here);
          area = after-area;
          kept = λ q p inside.
              ap (λ (u : Page). u.next)
                (page-others p (λ e.
                  not_both (count p (v.pool q))
                    (subst (λ t. count t (v.pool q) ≡ 0) e (used-pool v pg q here)) inside));
        })).0

-- A page that a heap has and abandons is then an abandoned page, and no heap's.
pub central_abandon_page-IsPool :
    (owner pg : ℕ) (used : List ℕ) (w : World)
    → 0 < count pg used
    → w.abandoned_count + 1 < 2 ^ 64
    → IsPool used w
    → IsPool (erase pg used) (central_abandon_page owner pg w)
central_abandon_page-IsPool owner pg used w here room v = after-IsPool owner pg here v room
