-- ===== src/Central/Unmap.antt =====
-- `pool_return` where an idle segment is unmapped, and as a whole.
use hmalloc.Common.{
  ℕ, ◌+◌, ◌≤◌, ◌<◌, ◌≡◌, refl, sym, ap, subst, ◌∙◌, ◌≢◌, Bool, false, some, List, [], ◌∷◌, ◌++◌,
  arith, ℕ_discrete, ltb, ◌==◌, if◌then◌else◌, length, update, update_ne, update_self, inl,
}
use hmalloc.Common.Doubly
use hmalloc.Common.Multiset.{
  count, erase, count-erase, length-erase, count-append, count-eq-of-length,
}
use hmalloc.Common.Word.{wrap_sub}
use hmalloc.Page.Chain.{Chain, Chain-frame}
use hmalloc.Segment.{Segment, segment_of, usable_pages_per_segment}
use hmalloc.Os.{os_free}
use hmalloc.Registry.{Registry}
use hmalloc.Registry.Lookup.{IsRegistry}
use hmalloc.Registry.Unregister.{Unregistered, region_unregister-Unregistered}
use hmalloc.Central.{World, avail_remove, unmap_segment, all_remove, region_unregister}
use hmalloc.Central.Balance.{Keeps, Keeps-avail_remove}
use hmalloc.Central.Avail.{Avail, avail_remove-field}
use hmalloc.Central.Avail.Remove.{avail_remove-link, avail_remove-g, avail_remove-Avail}
use hmalloc.Central.Unlink.{Segments, Unlinked, all_remove-Unlinked}
use hmalloc.Central.Pool.{
  mapped, IsPool, home, stock, records, length-records, pool-records, avail_once,
}
use hmalloc.Central.Arith.{==_false, ==_true}
use hmalloc.Central.Places.{
  add_zero_lem, emptied, eq_le, kept_cell, less_member, less_one, no_room, not_less, one_gone,
  spliced, still_fits, stock_member, twice, unchanged,
}

-- Where an element stands in a list.
split_at :
    (a : ℕ) (xs : List ℕ)
    → 0 < count a xs
    → (front : List ℕ) × (back : List ℕ) × (xs ≡ front ++ (a ∷ back))
split_at a [] here = absurd (omega arith)
split_at a (x ∷ xs) here = elim (ℕ_discrete a x) [
  | yes same ↦ ([], xs, ap (λ t. t ∷ xs) (sym same))
  | no other ↦
      let (front, back, e) = split_at a xs (ground arith) in (x ∷ front, back, ap (λ t. x ∷ t) e)
]

module _ (s : ℕ) {used : List ℕ} {w : World} (v : IsPool used w) (member : 0 < count s v.all)
    (idle : length (v.pool s) ≡ 63) where
  abbrev off : World
  off = avail_remove s w

  off-Keeps : Keeps w off
  off-Keeps = Keeps-avail_remove s w

  pub removed : (w₁ : World) × (all_remove s off ≡ some w₁) × Unlinked s v.all off w₁
  removed =
      all_remove-Unlinked s off v.all
        (eq_le (length v.all) off.num_segments (v.counted ∙ sym off-Keeps.counts.num)) v.distinct
        member
        (subst (λ h. Segments off h v.all) (sym off-Keeps.head)
          (Chain-frame (λ q. (w.seg q).next) (λ q. (off.seg q).next) w.segments v.all
            (λ q here. off-Keeps.next q) v.chain))

  abbrev w₁ : World
  w₁ = removed.0

  pub gone :
      (r : Registry) × (region_unregister s w₁.registry ≡ some r) × Unregistered w₁.registry s r
  gone =
      region_unregister-Unregistered w₁.registry s
        (subst IsRegistry (sym (removed.2.rest.registry ∙ off-Keeps.counts.table))
          (mapped v s member).registry)
        (v.based s member).0

  abbrev pub after : World
  after = record w₁ {
    g = record w₁.g {
      num_segments = wrap_sub w₁.num_segments 1;
      free_segments = wrap_sub w₁.free_segments 1;
      free_page_count = wrap_sub w₁.free_page_count usable_pages_per_segment;
    };
    registry = gone.0;
    os = os_free s (w₁.seg s).mmap_size w₁.os;
  }

  pub run : unmap_segment s w ≡ some after
  unfolding unmap_segment
  run = rw (removed.1, gone.1) refl

  abbrev pool' : ℕ → List ℕ
  pool' = update v.pool s []

  listed : count s v.avail ≡ count s v.all
  listed = v.open_lem s ∙ ap (λ (n : ℕ). if ltb 0 n then count s v.all else 0) idle

  -- A segment whose pool is full has no page elsewhere.
  nowhere : (p : ℕ) → home p ≡ s → count p used + count p v.lost ≡ 0
  nowhere p at =
      let full =
        count-eq-of-length (v.pool s) (records 63 s) (pool-records v s)
          (idle ∙ sym (length-records 63 s)) p in
      no_room (count p used) (count p v.lost) (count p (v.pool s)) (count s v.all)
        (count p (records 63 s)) full
        (subst
          (λ q.
            count p used + count p v.lost + count p (v.pool q)
            ≡ (if ltb 0 (count q v.all) then count p (records 63 q) else 0))
          at (v.split p))

  spot : (front : List ℕ) × (back : List ℕ) × (v.avail ≡ front ++ (s ∷ back))
  spot = split_at s v.avail (subst (λ n. 0 < n) (sym listed) member)

  remains : List ℕ
  remains = spot.0 ++ spot.1

  avail_once' : (a : ℕ) → count a (spot.0 ++ (s ∷ spot.1)) ≤ 1
  avail_once' a = subst (λ xs. count a xs ≤ 1) spot.2 (avail_once v a)

  seg-field :
      (field : Segment → ℕ)
      → ((u : Segment) (n p : ℕ) (b : Bool)
          → field (record u { avail_next = n; avail_prev = p; in_avail = b }) ≡ field u)
      → ((u : Segment) (n : ℕ) → field (record u { next = n }) ≡ field u)
      → (q : ℕ) → field (after.seg q) ≡ field (w.seg q)
  seg-field field apart apart' q =
      removed.2.rest.kept field apart' q ∙ avail_remove-field field apart s w q

  pub page-kept : after.page ≡ w.page
  page-kept = removed.2.rest.page ∙ off-Keeps.counts.memory

  pub link-kept : after.link ≡ w.link
  link-kept = removed.2.rest.link ∙ avail_remove-link s w

  abandoned-kept : after.abandoned ≡ w.abandoned
  abandoned-kept = ap (λ g. g.abandoned) removed.2.g ∙ ap (λ g. g.abandoned) (avail_remove-g s w)

  after-ready : Avail after remains
  unfolding remains
  after-ready =
      subst
        (λ p.
          Doubly.Doubly (λ (u : Segment). u.avail_next) (λ (u : Segment). u.avail_prev) after.seg 0
            p (spot.0 ++ spot.1))
        (sym (ap (λ g. g.avail) removed.2.g))
        (Doubly.Doubly-frame (λ (u : Segment). u.avail_next) (λ (u : Segment). u.avail_prev) off.seg
          after.seg 0 off.avail (spot.0 ++ spot.1)
          (λ a here. (
            removed.2.rest.kept (λ u. u.avail_next) (λ u n. refl) a,
            removed.2.rest.kept (λ u. u.avail_prev) (λ u n. refl) a,
          ))
          (avail_remove-Avail s w spot.0 spot.1 (v.based s member).0.0 avail_once'
            (subst (Avail w) spot.2 v.ready)))

  count-all : (q : ℕ) → count q (erase s v.all) + (if q == s then 1 else 0) ≡ count q v.all
  count-all q = count-erase q s v.all member

  count-remains : (q : ℕ) → count q remains + (if q == s then 1 else 0) ≡ count q v.avail
  unfolding remains
  count-remains q =
      spliced (count q (spot.0 ++ spot.1)) (count q spot.0) (count q spot.1)
        (if q == s then 1 else 0) (count q v.avail) (count-append q spot.0 spot.1)
        (ap (count q) spot.2 ∙ count-append q spot.0 (s ∷ spot.1))

  after-open :
      (q : ℕ) → count q remains ≡ (if ltb 0 (length (pool' q)) then count q (erase s v.all) else 0)
  after-open q = elim (ℕ_discrete s q) [
    | yes same ↦
        emptied (count q remains) (count q v.avail) (q == s) (==_true q s (sym same))
          (count-remains q) (avail_once v q)
        ∙ ap (λ (xs : List ℕ). if ltb 0 (length xs) then count q (erase s v.all) else 0)
            (sym (ap pool' (sym same) ∙ update_self v.pool s []))
    | no other ↦
        let apart : (q == s) ≡ false = ==_false q s (λ e. other (sym e)) in
        unchanged (count q remains) (count q v.avail) (q == s) apart (count-remains q)
        ∙ v.open_lem q
        ∙ ap (λ n. if ltb 0 (length (v.pool q)) then n else 0)
            (sym (unchanged (count q (erase s v.all)) (count q v.all) (q == s) apart (count-all q)))
        ∙ ap (λ (xs : List ℕ). if ltb 0 (length xs) then count q (erase s v.all) else 0)
            (sym (update_ne v.pool s q [] other))
  ]

  member-of : (q : ℕ) → 0 < count q (erase s v.all) → (0 < count q v.all) × (s ≢ q)
  member-of q here = (
    less_member (count q (erase s v.all)) (count q v.all) (q == s) (count-all q) here,
    λ e.
        twice (count q (erase s v.all)) (count q v.all) (q == s) (==_true q s (sym e)) (count-all q)
          here (v.distinct q),
  )

  after-stock : (p : ℕ) → s ≢ home p → stock (erase s v.all) p ≡ stock v.all p
  after-stock p other =
      ap (λ n. if ltb 0 n then count p (records 63 (home p)) else 0)
        (unchanged (count (home p) (erase s v.all)) (count (home p) v.all) (home p == s)
          (==_false (home p) s (λ e. other (sym e))) (count-all (home p)))

  after-split :
      (p : ℕ) → count p used + count p v.lost + count p (pool' (home p)) ≡ stock (erase s v.all) p
  after-split p = elim (ℕ_discrete s (home p)) [
    | yes same ↦
        ap (λ xs. count p used + count p v.lost + count p xs)
          (ap pool' (sym same) ∙ update_self v.pool s [])
        ∙ add_zero_lem (count p used + count p v.lost)
        ∙ nowhere p (sym same)
        ∙ sym (
            ap (λ n. if ltb 0 n then count p (records 63 (home p)) else 0)
              (emptied (count (home p) (erase s v.all)) (count (home p) v.all) (home p == s)
                (==_true (home p) s (sym same)) (count-all (home p)) (v.distinct (home p))))
    | no other ↦
        ap (λ xs. count p used + count p v.lost + count p xs) (update_ne v.pool s (home p) [] other)
        ∙ v.split p
        ∙ sym (after-stock p other)
  ]

  shorter : length (erase s v.all) + 1 ≡ length v.all
  shorter = length-erase s v.all member

  still_registered : w₁.registry ≡ w.registry
  still_registered = removed.2.rest.registry ∙ off-Keeps.counts.table

  after-registered : (q : ℕ) → 0 < count q (erase s v.all) → 0 < count q gone.0.cells
  after-registered q here =
      let (inside, other) = member-of q here in
      kept_cell (count q gone.0.cells) (count q w₁.registry.cells) (q == s)
        (==_false q s (λ e. other (sym e))) (gone.2.members q (v.based q inside).0)
        (subst (λ r. 0 < count q r.cells) (sym still_registered) (v.registered q inside))

  pages-kept :
      (p : ℕ) (xs : List ℕ)
      → Chain (λ a. (w.page a).next) p xs
      → Chain (λ a. (after.page a).next) p xs
  pages-kept p xs c = subst (λ f. Chain (λ a. (f a).next) p xs) (sym page-kept) c

  after-free :
      (q : ℕ)
      → 0 < count q (erase s v.all)
      → Chain (λ p. (after.page p).next) (after.seg q).free_list (pool' q)
  after-free q here =
      let (inside, other) = member-of q here in
      subst (λ p. Chain (λ a. (after.page a).next) p (pool' q))
        (sym (seg-field (λ u. u.free_list) (λ u n p b. refl) (λ u n. refl) q))
        (subst (Chain (λ a. (after.page a).next) (w.seg q).free_list)
          (sym (update_ne v.pool s q [] other))
          (pages-kept (w.seg q).free_list (v.pool q) (v.free q inside)))

  after-homed : (q p : ℕ) → 0 < count p (pool' q) → home p ≡ q
  after-homed q p here = elim (ℕ_discrete s q) [
    | yes same ↦ absurd (
        not_less
          (subst (λ xs. 0 < count p xs) (ap pool' (sym same) ∙ update_self v.pool s []) here))
    | no other ↦ v.homed q p (subst (λ xs. 0 < count p xs) (update_ne v.pool s q [] other) here)
  ]

  after-area : (p : ℕ) → 0 < stock (erase s v.all) p → segment_of (after.page p).area ≡ home p
  after-area p here =
      let (inside, other) =
        member-of (home p)
          (stock_member (count (home p) (erase s v.all)) (count p (records 63 (home p))) here) in
      ap (λ f. segment_of (f p).area) page-kept
      ∙ v.area p (subst (λ n. 0 < n) (after-stock p other) here)

  pub after-IsPool : IsPool used after
  after-IsPool = record {
    all = erase s v.all;
    avail = remains;
    lost = v.lost;
    pool = pool';
    chain = removed.2.chain;
    counted =
        one_gone (length (erase s v.all)) (length v.all) w.num_segments w₁.num_segments shorter
          v.counted (ap (λ g. g.num_segments) removed.2.g ∙ off-Keeps.counts.num) v.sized;
    sized = still_fits (length (erase s v.all)) (length v.all) shorter v.sized;
    distinct = λ q.
        less_one (count q (erase s v.all)) (count q v.all) (q == s) (count-all q) (v.distinct q);
    based = λ q here. v.based q (member-of q here).0;
    table = inl (record {
      registry = (
        subst (λ (n : ℕ). n ≢ 0) (sym (gone.2.slots ∙ ap (λ r. r.slots) still_registered))
            (mapped v s member).registry.0,
        gone.2.table,
      );
      wide =
          subst (λ (n : ℕ). 1 < n) (sym (gone.2.cap ∙ ap (λ r. r.cap) still_registered))
            (mapped v s member).wide;
    });
    registered = after-registered;
    ready = after-ready;
    open_lem = after-open;
    free = after-free;
    free_counted = λ q here.
        seg-field (λ u. u.free_count) (λ u n p b. refl) (λ u n. refl) q
        ∙ v.free_counted q (member-of q here).0
        ∙ ap length (sym (update_ne v.pool s q [] (member-of q here).1));
    homed = after-homed;
    lost_chain =
        subst (λ p. Chain (λ a. (after.page a).next) p v.lost) (sym abandoned-kept)
          (pages-kept w.abandoned v.lost v.lost_chain);
    lost_counted =
        v.lost_counted
        ∙ sym (
            ap (λ g. g.abandoned_count) removed.2.g
            ∙ ap (λ g. g.abandoned_count) (avail_remove-g s w));
    lost_sized = v.lost_sized;
    split = after-split;
    area = after-area;
  }

  pub lost-kept : after-IsPool.lost ≡ v.lost
  unfolding after-IsPool
  lost-kept = refl
