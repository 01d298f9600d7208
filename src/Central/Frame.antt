-- ===== src/Central/Frame.antt =====
-- Steps that write only the pages, the list of abandoned pages and counters.
use hmalloc.Common.{ℕ, ◌+◌, ◌^◌, ◌<◌, ◌≡◌, refl, ap, ◌∙◌, List, length}
use hmalloc.Common.Multiset.{count}
use hmalloc.Page.Chain.{Chain, Chain-frame}
use hmalloc.Os.{Os}
use hmalloc.Page.{Links}
use hmalloc.Segment.{Page, segment_of}
use hmalloc.Central.{World}
use hmalloc.Central.Pool.{IsPool, home}
use hmalloc.Central.Arith.{regroup}

-- Such a step.
abbrev pub repaged : (ℕ → Page) → Links → Os → ℕ → ℕ → ℕ → ℕ → World → World
repaged page link os abandoned abandoned_count free_segments pages_in_use w = record w {
  page = page;
  link = link;
  os = os;
  g = record w.g {
    abandoned = abandoned;
    abandoned_count = abandoned_count;
    free_segments = free_segments;
    pages_in_use = pages_in_use;
  };
}

-- What the pages and the new list of abandoned pages must be.
pub record Repaged (used : List ℕ) {used₀ : List ℕ} {w : World} (v : IsPool used₀ w) (lost : List ℕ)
    (page : ℕ → Page) (abandoned abandoned_count : ℕ) : Type 0 where
  pub chain : Chain (λ p. (page p).next) abandoned lost
  pub counted : length lost ≡ abandoned_count
  pub sized : length lost < 2 ^ 64
  pub split : (p : ℕ) → count p used + count p lost ≡ count p used₀ + count p v.lost
  pub area : (p : ℕ) → (page p).area ≡ (w.page p).area
  pub kept : (q p : ℕ) → 0 < count p (v.pool q) → (page p).next ≡ (w.page p).next

pub repaged-IsPool :
    (used lost : List ℕ) {used₀ : List ℕ} {w : World} (v : IsPool used₀ w) (page : ℕ → Page)
    (link : Links) (os : Os) (abandoned abandoned_count f n : ℕ)
    → Repaged used v lost page abandoned abandoned_count
    → (v' : IsPool used (repaged page link os abandoned abandoned_count f n w)) × (v'.lost ≡ lost)
      × (v'.all ≡ v.all)
repaged-IsPool used lost {used₀} {w} v page link os abandoned abandoned_count f n r = (
  record {
    all = v.all;
    avail = v.avail;
    lost = lost;
    pool = v.pool;
    chain = v.chain;
    counted = v.counted;
    sized = v.sized;
    distinct = v.distinct;
    based = v.based;
    table = v.table;
    registered = v.registered;
    ready = v.ready;
    open_lem = v.open_lem;
    free = λ q here.
        Chain-frame (λ p. (w.page p).next) (λ p. (page p).next) (w.seg q).free_list (v.pool q)
          (r.kept q) (v.free q here);
    free_counted = v.free_counted;
    homed = v.homed;
    lost_chain = r.chain;
    lost_counted = r.counted;
    lost_sized = r.sized;
    split = λ p.
        regroup (count p used) (count p lost) (count p used₀) (count p v.lost)
          (count p (v.pool (home p))) _ (r.split p) (v.split p);
    area = λ p here. ap segment_of (r.area p) ∙ v.area p here;
  },
  refl,
  refl,
)
