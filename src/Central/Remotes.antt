-- ===== src/Central/Remotes.antt =====
-- The lists of remote frees of pages that no thread owns or that their owner gives up: they end.
use hmalloc.Common.{
  ℕ, ◌≤◌, ◌<◌, ◌≡◌, refl, sym, subst, ◌∙◌, ◌≢◌, false, some, List, [], ◌∷◌, arith, ◌==◌, length,
  update, update_ne, update-keeps,
}
use hmalloc.Common.Multiset.{count}
use hmalloc.Page.Chain.{Chain, Chain-frame, last_block_ends}
use hmalloc.Page.{Links, PageView, last_block, max_blocks, splice, page_collect_run}
use hmalloc.Segment.{Page}
use hmalloc.Central.{World}
use hmalloc.Central.Frame.{repaged-IsPool}
use hmalloc.Central.Pool.{IsPool}
use hmalloc.Central.Acquire.{collect_locked}
use hmalloc.Central.Arith.{not_zero, ==_true}

-- The remote frees of each of the pages `xs` are a list that ends, no longer than a page has room for,
-- and no block is on two of these lists.
pub record Remotes (w : World) (xs : List ℕ) : Type 0 where
  pub blocks : ℕ → List ℕ
  pub chain : (p : ℕ) → 0 < count p xs → Chain w.link (w.page p).thread_free (blocks p)
  pub short : (p : ℕ) → 0 < count p xs → length (blocks p) ≤ max_blocks
  pub apart :
      (p q a : ℕ)
      → 0 < count p xs
      → 0 < count q xs
      → p ≢ q
      → 0 < count a (blocks p)
      → count a (blocks q) ≡ 0

-- What collecting page `pg` leaves, whose remote frees are `blocks`.
pub record Collected (pg : ℕ) (used lost blocks : List ℕ) (w w' : World) : Type 0 where
  pub pool : IsPool used w'
  pub lost_lem : pool.lost ≡ lost
  pub others : (a : ℕ) → pg ≢ a → w'.page a ≡ w.page a
  pub links : (a : ℕ) → count a blocks ≡ 0 → w'.link a ≡ w.link a

absent_apart : (a t : ℕ) (bs : List ℕ) → 0 < count t bs → count a bs ≡ 0 → t ≢ a
absent_apart a t bs inside out e =
    absurd (omega (arith, inside, subst (λ u. count u bs ≡ 0) (sym e) out))

-- Collecting changes blocks, and of the page what is not of its place.
view-Collected :
    (pg : ℕ) (bs : List ℕ) (u : Page) (link : Links) {used : List ℕ} {w : World} (v : IsPool used w)
    → u.area ≡ (w.page pg).area
    → u.next ≡ (w.page pg).next
    → ((a : ℕ) → count a bs ≡ 0 → link a ≡ w.link a)
    → Collected pg used v.lost bs w (record w { page = update w.page pg u; link = link })
view-Collected pg bs u link {used} {w} v area next links =
    let same : (p : ℕ) → (update w.page pg u p).next ≡ (w.page p).next =
      λ p. update-keeps (λ (t : Page). t.next) w.page pg p u next in
    let r =
      repaged-IsPool used v.lost v (update w.page pg u) link w.os w.abandoned w.abandoned_count
        w.free_segments w.pages_in_use
        (record {
          chain =
              Chain-frame (λ p. (w.page p).next) (λ p. (update w.page pg u p).next) w.abandoned
                v.lost (λ p here. same p) v.lost_chain;
          counted = v.lost_counted;
          sized = v.lost_sized;
          split = λ p. refl;
          area = λ p. update-keeps (λ (t : Page). t.area) w.page pg p u area;
          kept = λ q p here. same p;
        }) in
    record {
      pool = r.0;
      lost_lem = r.1;
      others = λ a ne. update_ne w.page pg a u ne;
      links = links;
    }

walk :
    (pg x : ℕ) (bs : List ℕ) (w : World)
    → Chain w.link (w.page pg).thread_free (x ∷ bs)
    → length (x ∷ bs) ≤ max_blocks
    → (((w.page pg).thread_free == 0) ≡ false)
      × ((r : ℕ × ℕ) × (last_block max_blocks w.link (w.page pg).thread_free 1 ≡ some r)
          × (0 < count r.0 (x ∷ bs)))
walk pg x bs w c short = (
  not_zero (w.page pg).thread_free (λ z. c.1 (sym c.0 ∙ z)),
  last_block_ends max_blocks w.link (w.page pg).thread_free x bs 1 short c,
)

-- The walk of `page_collect` ends.
pub page_collect_run-Collected :
    (pg : ℕ) (bs : List ℕ) {used : List ℕ} {w : World} (v : IsPool used w)
    → Chain w.link (w.page pg).thread_free bs
    → length bs ≤ max_blocks
    → (u : PageView) × (page_collect_run (record { page = w.page pg; link = w.link }) ≡ some u)
      × Collected pg used v.lost bs w (record w { page = update w.page pg u.page; link = u.link })
unfolding page_collect_run splice
page_collect_run-Collected pg [] {used} {w} v c short = (
  record { page = w.page pg; link = w.link },
  rw (==_true (w.page pg).thread_free 0 c) refl,
  view-Collected pg [] (w.page pg) w.link v refl refl (λ a out. refl),
)
page_collect_run-Collected pg (x ∷ bs) {used} {w} v c short =
    let (some_freed, ((tail, n), run, inside)) = walk pg x bs w c short in
    (
      splice (record { page = w.page pg; link = w.link }) (w.page pg).thread_free (tail, n),
      rw (some_freed, run) refl,
      view-Collected pg (x ∷ bs) _ _ v refl refl (λ a out.
          update_ne w.link tail a (w.page pg).free (absent_apart a tail (x ∷ bs) inside out)),
    )

-- So does the walk of `collect_locked`.
pub collect_locked-Collected :
    (pg : ℕ) (bs : List ℕ) {used : List ℕ} {w : World} (v : IsPool used w)
    → Chain w.link (w.page pg).thread_free bs
    → length bs ≤ max_blocks
    → (w' : World) × (collect_locked pg w ≡ some w') × Collected pg used v.lost bs w w'
unfolding collect_locked splice
collect_locked-Collected pg [] {used} {w} v c short = (
  w,
  rw (==_true (w.page pg).thread_free 0 c) refl,
  record { pool = v; lost_lem = refl; others = λ a ne. refl; links = λ a out. refl },
)
collect_locked-Collected pg (x ∷ bs) {used} {w} v c short =
    let (some_freed, ((tail, n), run, inside)) = walk pg x bs w c short in
    let u = splice (record { page = w.page pg; link = w.link }) (w.page pg).thread_free (tail, n) in
    (
      record w { page = update w.page pg u.page; link = u.link },
      rw (some_freed, run) refl,
      view-Collected pg (x ∷ bs) u.page u.link v refl refl (λ a out.
          update_ne w.link tail a (w.page pg).free (absent_apart a tail (x ∷ bs) inside out)),
    )

-- The lists of the other pages are as they were.
pub Remotes-frame :
    {w : World} (xs ys : List ℕ) (m : Remotes w xs) (pg : ℕ) (w' : World)
    → 0 < count pg xs
    → ((p : ℕ)
        → 0 < count p ys
        → (0 < count p xs) × (pg ≢ p) × ((w'.page p).thread_free ≡ (w.page p).thread_free))
    → ((a : ℕ) → count a (m.blocks pg) ≡ 0 → w'.link a ≡ w.link a)
    → Remotes w' ys
Remotes-frame {w} xs ys m pg w' here pages links = record {
  blocks = m.blocks;
  chain = λ p inside.
      let (member, other, same) = pages p inside in
      subst (λ q. Chain w'.link q (m.blocks p)) (sym same)
        (Chain-frame w.link w'.link (w.page p).thread_free (m.blocks p)
          (λ a at. links a (m.apart p pg a member here (λ e. other (sym e)) at))
          (m.chain p member));
  short = λ p inside. m.short p (pages p inside).0;
  apart = λ p q a first second. m.apart p q a (pages p first).0 (pages q second).0;
}
