-- ===== src/Remote/Invariant.antt =====
-- What holds of a page at every moment of an interleaving.
use hmalloc.Page.Release.{not_null}
use hmalloc.Common.{
  refl, ℕ, ◌+◌, ◌<◌, ◌≡◌, ◌≢◌, List, ◌++◌, arith, length, ◌≤◌, update, ℕ_discrete, ◌==◌, true,
  false, ◌∙◌, ap, sym,
}
use hmalloc.Common.Multiset.{count, count-append}
use hmalloc.Page.{PageView}
use hmalloc.Page.Chain.{Chain, Chain-update}
use hmalloc.Page.Invariant.{IsPage, once}
use hmalloc.Remote.{idle, Pc, stored, block_of, Shared, with_list, freeing, loaded}

-- A thread in the middle of a free has a block, which it has linked to `head` between its store and its
-- compare-exchange.
abbrev pub Linked : PageView → Pc → Type 0
Linked v (stored b head) = (b ≢ 0) × (v.link b ≡ head)
Linked v (freeing b) = b ≢ 0
Linked v (loaded b head) = b ≢ 0
Linked v idle = Unit {0}

-- Two threads never free one block.
abbrev pub Apart : (ℕ → Pc) → Type 0
Apart pc = (i j : ℕ) → i ≢ j → block_of (pc i) ≢ 0 → block_of (pc i) ≢ block_of (pc j)

-- The blocks of the page are those in the program's hands, those in the shared list, those that the
-- owner has taken from it, and those of its own list, each once; two threads never free one block.
pub record IsShared (s : Shared) : Type 0 where
  pub remote : List ℕ
  pub got : List ℕ
  pub local : List ℕ
  pub page : IsPage (with_list s.taken s.view) (remote ++ s.live) got local
  pub chain : Chain s.link s.thread_free remote
  pub held : (i : ℕ) → block_of (s.pc i) ≢ 0 → 0 < count (block_of (s.pc i)) s.live
  pub apart : (i j : ℕ) → i ≢ j → block_of (s.pc i) ≢ 0 → block_of (s.pc i) ≢ block_of (s.pc j)
  pub linked : (i : ℕ) → Linked s.view (s.pc i)

-- The lists of a page may be named anew, if the same blocks stand in them.
pub IsPage-with_list :
    (v : PageView) (t : ℕ) (live live' remote remote' local : List ℕ)
    → IsPage v live remote local
    → Chain v.link t remote'
    → ((a : ℕ) → count a live' + count a remote' ≡ count a live + count a remote)
    → length live' + length remote' ≡ length live + length remote
    → IsPage (with_list t v) live' remote' local
IsPage-with_list v t live live' remote remote' local w c same len = record {
  sized = w.sized;
  aligned = w.aligned;
  room = w.room;
  started = w.started;
  placed = w.placed;
  area_aligned = w.area_aligned;
  area_fits = w.area_fits;
  local_chain = w.local_chain;
  remote_chain = c;
  counted = omega (arith, w.counted, len);
  total = w.total;
  split = λ a. omega (arith, w.split a, same a);
}

-- A store to the link of a live block disturbs no list.
pub IsPage-link :
    (v : PageView) (b x : ℕ) (live remote local : List ℕ)
    → IsPage v live remote local
    → 0 < count b live
    → IsPage (record v { link = update v.link b x }) live remote local
IsPage-link v b x live remote local w held = record {
  sized = w.sized;
  aligned = w.aligned;
  room = w.room;
  started = w.started;
  placed = w.placed;
  area_aligned = w.area_aligned;
  area_fits = w.area_fits;
  local_chain = Chain-update v.link b x v.free local (omega (arith, once w b)) w.local_chain;
  remote_chain =
      Chain-update v.link b x v.thread_free remote (omega (arith, once w b)) w.remote_chain;
  counted = w.counted;
  total = w.total;
  split = w.split;
}

module _ {s : Shared} (w : IsShared s) where
  pub once_shared :
      (a : ℕ) → count a w.remote + count a s.live + count a w.got + count a w.local ≤ 1
  once_shared a = omega (arith, once w.page a, count-append a w.remote s.live)

  pub live-append : (a : ℕ) → 0 < count a s.live → 0 < count a (w.remote ++ s.live)
  live-append a h = omega (arith, count-append a w.remote s.live)

  pub live-ne-null : (b : ℕ) → 0 < count b s.live → b ≢ 0
  live-ne-null b h =
      not_null (with_list s.taken s.view) (w.remote ++ s.live) w.got w.local w.page b
        (live-append b h)

-- What holds of the other threads and of the new state of `i` holds of all.
pub at-update :
    (P : Pc → Type 0) (pc : ℕ → Pc) (i : ℕ) (p : Pc)
    → P p
    → ((j : ℕ) → i ≢ j → P (pc j))
    → (j : ℕ) → P (update pc i p j)
at-update P pc i p here others j = elim (ℕ_discrete i j) [
  | yes same ↦ let hit : (i == j) ≡ true = ground arith in rw hit here
  | no other ↦ let miss : (i == j) ≡ false = ground arith in rw miss (others j other)
]

pub Apart-update :
    (pc : ℕ → Pc) (i : ℕ) (p : Pc)
    → Apart pc
    → ((j : ℕ) → i ≢ j → block_of (pc j) ≢ 0 → block_of (pc j) ≢ block_of p)
    → Apart (update pc i p)
Apart-update pc i p old others j k ne = elim (ℕ_discrete i j) [
  | yes at_j ↦
      let hit : (i == j) ≡ true = ground arith in
      let miss : (i == k) ≡ false = ground arith in
      rw (hit, miss) (λ h e. others k (λ q. ne (sym at_j ∙ q)) (λ z. h (e ∙ z)) (sym e))
  | no not_j ↦ elim (ℕ_discrete i k) [
    | yes at_k ↦
        let miss : (i == j) ≡ false = ground arith in
        let hit : (i == k) ≡ true = ground arith in rw (hit, miss) (others j not_j)
    | no not_k ↦
        let miss : (i == j) ≡ false = ground arith in
        let miss' : (i == k) ≡ false = ground arith in rw (miss, miss') (old j k ne)
  ]
]

-- What each thread holds does not change where one takes a step with the same block.
pub block_of-update :
    (pc : ℕ → Pc) (i : ℕ) (p : Pc)
    → block_of p ≡ block_of (pc i)
    → (j : ℕ) → block_of (update pc i p j) ≡ block_of (pc j)
block_of-update pc i p e j = elim (ℕ_discrete i j) [
  | yes same ↦
      let hit : (i == j) ≡ true = ground arith in rw hit (e ∙ ap (λ k. block_of (pc k)) same)
  | no other ↦ let miss : (i == j) ≡ false = ground arith in rw miss refl
]
