-- ===== src/Central/Enter.antt =====
-- `map_segment`: the pages of a new segment enter its pool.
use hmalloc.Common.{
  ℕ, ◌+◌, ◌*◌, ◌%◌, ◌^◌, ◌≤◌, ◌<◌, ◌≡◌, refl, sym, ap, ap₂, subst, ◌∙◌, ◌≢◌, Bool, true, List, [],
  ◌∷◌, arith, ℕ_discrete, ltb, ◌==◌, if◌then◌else◌, length, update, update_ne, update_self, ◌||◌,
  inl,
}
use hmalloc.Common.Doubly
use hmalloc.Common.Multiset.{count}
use hmalloc.Common.Word.{wrap, word}
use hmalloc.Constants.{segment_size, page_size}
use hmalloc.Os.{Os}
use hmalloc.Page.Chain.{Chain, Chain-frame}
use hmalloc.Segment.{Page, Segment, segment_of, page_at}
use hmalloc.Segment.Recovery.{page_of-add}
use hmalloc.Registry.{Registry}
use hmalloc.Registry.Table.{IsKey}
use hmalloc.Registry.Set.{IsStore, holds}
use hmalloc.Central.{World, CentralState, avail_push}
use hmalloc.Central.Avail.{Avail, avail_push-field}
use hmalloc.Central.Avail.Push.{avail_push-g, avail_push-Avail}
use hmalloc.Central.Balance.{Keeps, Keeps-avail_push}
use hmalloc.Central.Unlink.{Segments}
use hmalloc.Central.Fill.{Filled, add_pages-Filled, clear_pages-others}
use hmalloc.Central.Map
use hmalloc.Central.Pool.{
  IsPool, home, stock, records, records-home, records-find, home-page_at, lost-place,
  length-records, avail_once, avail-pool,
}
use hmalloc.Central.Arith.{==_false, ==_true}
use hmalloc.Central.Places.{
  add_zero_lem, drop_zero, first_one, grown, hit_cell, le_lt, none_in, other_cell, still_sized,
  zero_if,
}

open_new :
    (c n m : ℕ) (b : Bool)
    → b ≡ true
    → c ≡ 0
    → n ≡ 0
    → m ≡ 63
    → (if b then 1 else 0) + c ≡ (if ltb 0 m then (if b then 1 else 0) + n else 0)
open_new c n m b hit e k full = ground arith

split_new :
    (u l c r n : ℕ) (b : Bool)
    → b ≡ true
    → u + l ≡ 0
    → c ≡ r
    → u + l + c ≡ (if ltb 0 ((if b then 1 else 0) + n) then r else 0)
split_new u l c r n b hit none_yet e = ground arith

in_new : (n r : ℕ) → 0 < (if ltb 0 n then r else 0) → 0 < r
in_new n r here = ground arith

module _ (s : ℕ) {used : List ℕ} {w : World} (v : IsPool used w) (key : IsKey s)
    (aligned : s % segment_size ≡ 0) (fits : s + segment_size ≤ word) (new : count s v.all ≡ 0)
    (room : w.num_segments + 1 < 2 ^ 64) (r : Registry) (store : IsStore r)
    (members : (key : ℕ) → IsKey key → holds r key ≡ (key == s || holds w.registry key))
    (os : Os) where
  abbrev pushed : World
  pushed = avail_push s (Map.listed s w)

  abbrev pub after : World
  after = record pushed { registry = r; os = os }

  kept : Keeps (Map.listed s w) pushed
  kept = Keeps-avail_push s (Map.listed s w)

  filled : Filled 63 1 s [] (Map.fresh s w) (Map.filled s w)
  filled =
      add_pages-Filled 63 1 s [] (Map.fresh s w) (λ j le. refl)
        (ap (λ (u : Segment). u.free_list) (update_self w.seg s _))

  -- A page of another segment.
  pub page-others : (a : ℕ) → home a ≢ s → after.page a ≡ w.page a
  page-others a far =
      let apart : (j : ℕ) → j < 64 → page_at s j ≢ a =
        λ j lt e. far (ap home (sym e) ∙ home-page_at s j aligned lt) in
      ap (λ f. f a) kept.counts.memory
      ∙ filled.pages a (λ j le lt. apart j lt)
      ∙ clear_pages-others 64 s w.page a apart

  seg-others :
      (field : Segment → ℕ)
      → ((u : Segment) (n p : ℕ) (b : Bool)
          → field (record u { avail_next = n; avail_prev = p; in_avail = b }) ≡ field u)
      → (q : ℕ) → s ≢ q
      → field (after.seg q) ≡ field (w.seg q)
  seg-others field apart q ne =
      avail_push-field field apart s (Map.listed s w) q
      ∙ ap field
          (update_ne (Map.filled s w).seg s q _ ne ∙ filled.segs q ne ∙ update_ne w.seg s q _ ne)

  not_member : (q : ℕ) → 0 < count q v.all → s ≢ q
  not_member q here e = absurd (omega (arith, here, subst (λ t. count t v.all ≡ 0) e new))

  abbrev pool' : ℕ → List ℕ
  pool' = update v.pool s (records 63 s)

  pages-kept :
      (p : ℕ) (xs : List ℕ)
      → ((a : ℕ) → 0 < count a xs → home a ≢ s)
      → Chain (λ a. (w.page a).next) p xs
      → Chain (λ a. (after.page a).next) p xs
  pages-kept p xs far c =
      Chain-frame (λ q. (w.page q).next) (λ q. (after.page q).next) p xs
        (λ a here. ap (λ (u : Page). u.next) (page-others a (far a here))) c

  count_all : (q : ℕ) → s ≢ q → count q (s ∷ v.all) ≡ count q v.all
  count_all q ne = drop_zero (count q v.all) (q == s) (==_false q s (λ e. ne (sym e)))

  some_s : s ≢ 0
  some_s = key.0

  seg_listed : (q : ℕ) → s ≢ q → (Map.listed s w).seg q ≡ w.seg q
  seg_listed q ne =
      update_ne (Map.filled s w).seg s q _ ne ∙ filled.segs q ne ∙ update_ne w.seg s q _ ne

  after-chain : Segments after after.segments (s ∷ v.all)
  after-chain = (
    kept.head,
    some_s,
    subst (λ h. Segments after h v.all) (sym (kept.next s ∙ Map.listed-next s w))
        (Chain-frame (λ q. (w.seg q).next) (λ q. (after.seg q).next) w.segments v.all
          (λ q here. seg-others (λ u. u.next) (λ u n p b. refl) q (not_member q here)) v.chain),
  )

  after-num : after.num_segments ≡ wrap (w.num_segments + 1)
  after-num =
      kept.counts.num
      ∙ ap (λ (g : CentralState). wrap (g.num_segments + 1)) (Map.filled-Added s w).g

  after-distinct : (q : ℕ) → count q (s ∷ v.all) ≤ 1
  after-distinct q = elim (ℕ_discrete s q) [
    | yes same ↦ first_one (count q v.all) (q == s) (subst (λ t. count t v.all ≡ 0) same new)
    | no other ↦ subst (λ n. n ≤ 1) (sym (count_all q other)) (v.distinct q)
  ]

  after-based : (q : ℕ) → 0 < count q (s ∷ v.all) → IsKey q × (q % segment_size ≡ 0)
  after-based q here = elim (ℕ_discrete s q) [
    | yes same ↦ subst (λ t. IsKey t × (t % segment_size ≡ 0)) same (key, aligned)
    | no other ↦ v.based q (subst (λ n. 0 < n) (count_all q other) here)
  ]

  after-registered : (q : ℕ) → 0 < count q (s ∷ v.all) → 0 < count q r.cells
  after-registered q here =
      let cell = members q (after-based q here).0 in
      elim (ℕ_discrete s q) [
        | yes same ↦
            hit_cell (count q r.cells) (q == s) (holds w.registry q) (==_true q s (sym same)) cell
        | no other ↦
            other_cell (count q r.cells) (count q w.registry.cells) (q == s) cell
              (v.registered q (subst (λ n. 0 < n) (count_all q other) here))
      ]

  unlisted : count s v.avail ≡ 0
  unlisted = v.open_lem s ∙ zero_if (ltb 0 (length (v.pool s))) (count s v.all) new

  avail_apart : (a : ℕ) → 0 < count a v.avail → s ≢ a
  avail_apart a here = not_member a (avail-pool v a here).1

  after-ready : Avail after (s ∷ v.avail)
  after-ready = avail_push-Avail s (Map.listed s w) v.avail some_s unlisted (avail_once v) (
      subst
        (λ p.
          Doubly.Doubly (λ (u : Segment). u.avail_next) (λ (u : Segment). u.avail_prev)
            (Map.listed s w).seg 0 p v.avail)
        (sym (ap (λ (g : CentralState). g.avail) (Map.filled-Added s w).g))
        (Doubly.Doubly-frame (λ (u : Segment). u.avail_next) (λ (u : Segment). u.avail_prev) w.seg
          (Map.listed s w).seg 0 w.avail v.avail
          (λ a here.
            let e = seg_listed a (avail_apart a here) in
            (ap (λ (u : Segment). u.avail_next) e, ap (λ (u : Segment). u.avail_prev) e))
          v.ready))

  full : (q : ℕ) → s ≡ q → length (pool' q) ≡ 63
  full q same =
      ap length (ap pool' (sym same) ∙ update_self v.pool s (records 63 s)) ∙ length-records 63 s

  after-open :
      (q : ℕ)
      → count q (s ∷ v.avail) ≡ (if ltb 0 (length (pool' q)) then count q (s ∷ v.all) else 0)
  after-open q = elim (ℕ_discrete s q) [
    | yes same ↦
        open_new (count q v.avail) (count q v.all) (length (pool' q)) (q == s)
          (==_true q s (sym same)) (subst (λ t. count t v.avail ≡ 0) same unlisted)
          (subst (λ t. count t v.all ≡ 0) same new) (full q same)
    | no other ↦
        drop_zero (count q v.avail) (q == s) (==_false q s (λ e. other (sym e)))
        ∙ v.open_lem q
        ∙ ap₂ (λ (xs : List ℕ) n. if ltb 0 (length xs) then n else 0)
            (sym (update_ne v.pool s q (records 63 s) other)) (sym (count_all q other))
  ]

  own-free : Chain (λ p. (after.page p).next) (after.seg s).free_list (records 63 s)
  own-free =
      subst (λ p. Chain (λ a. (after.page a).next) p (records 63 s))
        (sym (
          avail_push-field (λ u. u.free_list) (λ u n p b. refl) s (Map.listed s w) s
          ∙ ap (λ (u : Segment). u.free_list) (update_self (Map.filled s w).seg s _)))
        (subst (λ f. Chain (λ a. (f a).next) ((Map.filled s w).seg s).free_list (records 63 s))
          (sym kept.counts.memory) filled.chain)

  after-free :
      (q : ℕ)
      → 0 < count q (s ∷ v.all)
      → Chain (λ p. (after.page p).next) (after.seg q).free_list (pool' q)
  after-free q here = elim (ℕ_discrete s q) [
    | yes same ↦
        subst (λ t. Chain (λ p. (after.page p).next) (after.seg t).free_list (pool' t)) same
          (subst (Chain (λ p. (after.page p).next) (after.seg s).free_list)
            (sym (update_self v.pool s (records 63 s))) own-free)
    | no other ↦
        subst (λ p. Chain (λ a. (after.page a).next) p (pool' q))
          (sym (seg-others (λ u. u.free_list) (λ u n p b. refl) q other))
          (subst (Chain (λ a. (after.page a).next) (w.seg q).free_list)
            (sym (update_ne v.pool s q (records 63 s) other))
            (pages-kept (w.seg q).free_list (v.pool q)
              (λ a inside e. other (sym e ∙ v.homed q a inside))
              (v.free q (subst (λ n. 0 < n) (count_all q other) here))))
  ]

  after-free_counted :
      (q : ℕ) → 0 < count q (s ∷ v.all) → (after.seg q).free_count ≡ length (pool' q)
  after-free_counted q here = elim (ℕ_discrete s q) [
    | yes same ↦
        ap (λ t. (after.seg t).free_count) (sym same)
        ∙ Map.free_count-avail_push s w (Map.listed s w)
        ∙ Map.listed-count s w
        ∙ sym (full q same)
    | no other ↦
        seg-others (λ u. u.free_count) (λ u n p b. refl) q other
        ∙ v.free_counted q (subst (λ n. 0 < n) (count_all q other) here)
        ∙ ap length (sym (update_ne v.pool s q (records 63 s) other))
  ]

  after-homed : (q p : ℕ) → 0 < count p (pool' q) → home p ≡ q
  after-homed q p here = elim (ℕ_discrete s q) [
    | yes same ↦
        records-home 63 s p aligned (le_lt 63 (omega arith)) (
          subst (λ xs. 0 < count p xs) (ap pool' (sym same) ∙ update_self v.pool s (records 63 s))
            here)
        ∙ same
    | no other ↦
        v.homed q p (subst (λ xs. 0 < count p xs) (update_ne v.pool s q (records 63 s) other) here)
  ]

  pushed-g : pushed.g ≡ record (Map.listed s w).g { avail = s }
  pushed-g = avail_push-g s (Map.listed s w)

  after-split :
      (p : ℕ) → count p used + count p v.lost + count p (pool' (home p)) ≡ stock (s ∷ v.all) p
  after-split p = elim (ℕ_discrete s (home p)) [
    | yes same ↦
        split_new (count p used) (count p v.lost) (count p (pool' (home p)))
          (count p (records 63 (home p))) (count (home p) v.all) (home p == s)
          (==_true (home p) s (sym same))
          (none_in (count p used) (count p v.lost) (count p (v.pool (home p)))
            (count p (records 63 (home p))) (count (home p) v.all)
            (subst (λ t. count t v.all ≡ 0) same new) (v.split p))
          (ap (λ t. count p (pool' t)) (sym same)
            ∙ ap (count p) (update_self v.pool s (records 63 s))
            ∙ ap (λ t. count p (records 63 t)) same)
    | no other ↦
        ap (λ xs. count p used + count p v.lost + count p xs)
          (update_ne v.pool s (home p) (records 63 s) other)
        ∙ v.split p
        ∙ ap (λ n. if ltb 0 n then count p (records 63 (home p)) else 0)
            (sym (count_all (home p) other))
  ]

  own-area : (j : ℕ) → 0 < j → j ≤ 63 → segment_of (after.page (page_at s j)).area ≡ s
  own-area j pos le =
      ap (λ f. segment_of (f (page_at s j)).area) kept.counts.memory
      ∙ ap segment_of (filled.areas j pos (le_lt j le) ∙ sym (add_zero_lem (s + j * page_size)))
      ∙ (page_of-add s j 0 aligned pos (le_lt j le) (omega arith) fits).0

  after-area : (p : ℕ) → 0 < stock (s ∷ v.all) p → segment_of (after.page p).area ≡ home p
  after-area p here = elim (ℕ_discrete s (home p)) [
    | yes same ↦
        let inside = in_new (count (home p) (s ∷ v.all)) (count p (records 63 (home p))) here in
        let (j, pos, le, at) = records-find 63 (home p) p inside in
        let at_s : p ≡ page_at s j = at ∙ ap (λ t. page_at t j) (sym same) in
        ap (λ a. segment_of (after.page a).area) at_s ∙ own-area j pos le ∙ same
    | no other ↦
        ap (λ (u : Page). segment_of u.area) (page-others p (λ e. other (sym e)))
        ∙ v.area p (
            subst (λ n. 0 < (if ltb 0 n then count p (records 63 (home p)) else 0))
              (count_all (home p) other) here)
  ]

  pub after-IsPool : IsPool used after
  after-IsPool = record {
    all = s ∷ v.all;
    avail = s ∷ v.avail;
    lost = v.lost;
    pool = pool';
    chain = after-chain;
    counted = grown (length v.all) w.num_segments v.counted room ∙ sym after-num;
    sized = still_sized (length v.all) w.num_segments v.counted room;
    distinct = after-distinct;
    based = after-based;
    table = inl store;
    registered = after-registered;
    ready = after-ready;
    open_lem = after-open;
    free = after-free;
    free_counted = after-free_counted;
    homed = after-homed;
    lost_chain =
        subst (λ p. Chain (λ a. (after.page a).next) p v.lost)
          (sym (
            ap (λ g. g.abandoned) pushed-g
            ∙ ap (λ (g : CentralState). g.abandoned) (Map.filled-Added s w).g))
          (pages-kept w.abandoned v.lost
            (λ a inside e. not_member (home a) (lost-place v a inside).0 (sym e)) v.lost_chain);
    lost_counted =
        v.lost_counted
        ∙ sym (
            ap (λ g. g.abandoned_count) pushed-g
            ∙ ap (λ (g : CentralState). g.abandoned_count) (Map.filled-Added s w).g);
    lost_sized = v.lost_sized;
    split = after-split;
    area = after-area;
  }

  pub all-kept : after-IsPool.all ≡ s ∷ v.all
  unfolding after-IsPool
  all-kept = refl

  -- All its 63 usable pages are in the pool.
  pub pool-full : after-IsPool.pool s ≡ records 63 s
  unfolding after-IsPool
  pool-full = update_self v.pool s (records 63 s)
