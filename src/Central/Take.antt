-- ===== src/Central/Take.antt =====
-- `central_acquire_page` where a segment has a free page: the page leaves the pool of its segment.
use hmalloc.Common.{
  ℕ, ◌+◌, ◌≤◌, ◌<◌, ◌≡◌, refl, sym, ap, subst, ◌∙◌, ◌≢◌, inl, inr, Bool, true, false, List, [], ◌∷◌,
  arith, ℕ_discrete, ltb, ◌==◌, if◌then◌else◌, Bool-cases, length, update, update-keeps, update_ne,
  update-field, update_self,
}
use hmalloc.Common.Multiset.{count}
use hmalloc.Common.Word.{wrap_sub}
use hmalloc.Page.Chain.{Chain, Chain-frame}
use hmalloc.Page.{u32_sub}
use hmalloc.Segment.{Page, Segment, usable_pages_per_segment, segment_of}
use hmalloc.Central.{World, set_seg, avail_remove}
use hmalloc.Central.Balance.{Keeps, Keeps-avail_remove, Keeps-if, Keeps-refl}
use hmalloc.Common.Doubly
use hmalloc.Central.Avail.{Avail, avail_remove-field}
use hmalloc.Central.Avail.Remove.{avail_remove-g, avail_remove-Avail}
use hmalloc.Central.Unlink.{Segments}
use hmalloc.Central.Pool.{Table, IsPool, home, stock, records, pooled-all, pool_bound, avail_once}
use hmalloc.Central.Acquire.{take_page}
use hmalloc.Central.Arith.{
  ==_false, ==_refl, ==_true, alone, ltb-suc, more_of, more_self, move, one_fewer, rest_arith,
  suc_not_zero, zero_add_lem, zero_more,
}

-- A segment stays on the list while its pool has a page left.
abbrev still : ℕ → List ℕ → List ℕ → List ℕ
still s [] others = others
still s (x ∷ xs) others = s ∷ others

module _ (owner cls block_size : ℕ) {used : List ℕ} {w : World} (v : IsPool used w)
    (others rest : List ℕ) (head : v.avail ≡ w.avail ∷ others)
    (first : v.pool w.avail ≡ (w.seg w.avail).free_list ∷ rest) where
  abbrev s : ℕ
  s = w.avail

  abbrev pg : ℕ
  pg = (w.seg s).free_list

  abbrev taken : Segment
  taken = record (w.seg s) {
    free_list = (w.page pg).next;
    free_count = u32_sub (w.seg s).free_count 1;
  }

  abbrev w₁ : World
  w₁ = set_seg s taken (record w {
    g = record w.g {
      free_segments =
          if (w.seg s).free_count == usable_pages_per_segment
          then wrap_sub w.free_segments 1
          else w.free_segments;
      free_page_count = wrap_sub w.free_page_count 1;
    };
  })

  abbrev w₂ : World
  w₂ = if (w₁.seg s).free_count == 0 then avail_remove s w₁ else w₁

  abbrev pub after : World
  after = (take_page owner cls block_size w).1

  kept : Keeps w₁ w₂
  kept = Keeps-if ((w₁.seg s).free_count == 0) w₁ _ w₁ (Keeps-avail_remove s w₁) (Keeps-refl w₁)

  pool-count : (a : ℕ) → count a (v.pool s) ≡ (if a == pg then 1 else 0) + count a rest
  pool-count a = ap (count a) first

  head_in_pool : 0 < count pg (v.pool s)
  head_in_pool =
      more_self (count pg (v.pool s)) (count pg rest) (pg == pg) (pool-count pg) (==_refl pg)

  pub place :
      (0 < count s v.all)
      × (count pg (records 63 s) ≡ 1)
      × (count pg (v.pool s) ≡ 1)
      × (count pg used + count pg v.lost ≡ 0)
  place = pooled-all v s pg head_in_pool

  pg-home : home pg ≡ s
  pg-home = v.homed s pg head_in_pool

  rest-apart : (a : ℕ) → 0 < count a rest → pg ≢ a
  rest-apart a here e = absurd (
      rest_arith (count a rest) (count a (v.pool s)) (a == pg) (pool-count a) (==_true a pg (sym e))
        (ap (λ t. count t (v.pool s)) (sym e) ∙ place.2) here)

  pub page-others : (a : ℕ) → pg ≢ a → after.page a ≡ w.page a
  unfolding take_page
  page-others a ne = update_ne w₂.page pg a _ ne ∙ ap (λ f. f a) kept.counts.memory

  seg-field :
      (field : Segment → ℕ)
      → ((u : Segment) (n p : ℕ) (b : Bool)
          → field (record u { avail_next = n; avail_prev = p; in_avail = b }) ≡ field u)
      → (q : ℕ) → field (after.seg q) ≡ (if s == q then field taken else field (w.seg q))
  unfolding take_page
  seg-field field apart q =
      let e : field (w₂.seg q) ≡ field (w₁.seg q) = elim (Bool-cases ((w₁.seg s).free_count == 0)) [
        | inl empty ↦ rw empty (avail_remove-field field apart s w₁ q)
        | inr more ↦ rw more refl
      ] in
      e ∙ update-field field w.seg s q taken

  next-kept : (q : ℕ) → (after.seg q).next ≡ (w.seg q).next
  unfolding take_page
  next-kept q = kept.next q ∙ update-keeps (λ (u : Segment). u.next) w.seg s q taken refl

  after-chain : Segments after after.segments v.all
  unfolding take_page
  after-chain =
      subst (λ h. Segments after h v.all) (sym kept.head)
        (Chain-frame (λ q. (w.seg q).next) (λ q. (after.seg q).next) w.segments v.all
          (λ q here. next-kept q) v.chain)

  -- The chain of a list of pages that does not hold the one that is taken.
  pages-kept :
      (p : ℕ) (xs : List ℕ)
      → ((a : ℕ) → 0 < count a xs → pg ≢ a)
      → Chain (λ q. (w.page q).next) p xs
      → Chain (λ q. (after.page q).next) p xs
  pages-kept p xs apart c =
      Chain-frame (λ q. (w.page q).next) (λ q. (after.page q).next) p xs
        (λ a here. ap (λ (u : Page). u.next) (page-others a (apart a here))) c

  lost-apart : (a : ℕ) → 0 < count a v.lost → pg ≢ a
  lost-apart a here e =
      absurd (omega (arith, place.3, subst (λ t. 0 < count t v.lost) (sym e) here))

  abbrev pool' : ℕ → List ℕ
  pool' = update v.pool s rest

  after-free :
      (q : ℕ)
      → 0 < count q v.all
      → Chain (λ p. (after.page p).next) (after.seg q).free_list (pool' q)
  after-free q here =
      subst (λ p. Chain (λ a. (after.page a).next) p (pool' q))
        (sym (seg-field (λ u. u.free_list) (λ u n p b. refl) q))
        (elim (ℕ_discrete s q) [
          | yes same ↦
              subst
                (λ (b : Bool).
                  Chain (λ a. (after.page a).next)
                    (if b then (w.page pg).next else (w.seg q).free_list)
                    (if b then rest else v.pool q))
                (sym (==_true s q same))
                (pages-kept (w.page pg).next rest rest-apart
                  (subst (λ xs. Chain (λ a. (w.page a).next) pg xs) first (v.free s place.0)).2)
          | no other ↦
              subst
                (λ (b : Bool).
                  Chain (λ a. (after.page a).next)
                    (if b then (w.page pg).next else (w.seg q).free_list)
                    (if b then rest else v.pool q))
                (sym (==_false s q other))
                (pages-kept (w.seg q).free_list (v.pool q)
                  (λ a inside e. other (sym pg-home ∙ ap home e ∙ v.homed q a inside))
                  (v.free q here))
        ])

  taken-count : u32_sub (w.seg s).free_count 1 ≡ length rest
  taken-count =
      one_fewer (w.seg s).free_count (length (v.pool s)) (length rest) (v.free_counted s place.0)
        (ap length first) (pool_bound v s)

  after-free_counted : (q : ℕ) → 0 < count q v.all → (after.seg q).free_count ≡ length (pool' q)
  after-free_counted q here = elim (Bool-cases (s == q)) [
    | inl hit ↦ seg-field (λ u. u.free_count) (λ u n p b. refl) q ∙ (rw hit taken-count)
    | inr miss ↦
        seg-field (λ u. u.free_count) (λ u n p b. refl) q ∙ (rw miss (v.free_counted q here))
  ]

  listed : Avail w₁ (s ∷ others)
  listed =
      Doubly.Doubly-frame (λ (u : Segment). u.avail_next) (λ (u : Segment). u.avail_prev) w.seg
        w₁.seg 0 w.avail (s ∷ others)
        (λ a here. (
          update-keeps (λ (u : Segment). u.avail_next) w.seg s a taken refl,
          update-keeps (λ (u : Segment). u.avail_prev) w.seg s a taken refl,
        ))
        (subst (Avail w) head v.ready)

  once : (a : ℕ) → count a (s ∷ others) ≤ 1
  once a = subst (λ xs. count a xs ≤ 1) head (avail_once v a)

  some_s : s ≢ 0
  some_s = (v.based s place.0).0.0

  ready_of :
      (xs : List ℕ) → u32_sub (w.seg s).free_count 1 ≡ length xs → Avail w₂ (still s xs others)
  ready_of [] e =
      let empty : ((w₁.seg s).free_count == 0) ≡ true =
        ==_true (w₁.seg s).free_count 0
          (ap (λ (u : Segment). u.free_count) (update_self w.seg s taken) ∙ e) in
      subst (λ (b : Bool). Avail (if b then avail_remove s w₁ else w₁) others) (sym empty)
        (avail_remove-Avail s w₁ [] others some_s once listed)
  ready_of (x ∷ xs) e =
      let more : ((w₁.seg s).free_count == 0) ≡ false =
        suc_not_zero (w₁.seg s).free_count (length xs)
          (ap (λ (u : Segment). u.free_count) (update_self w.seg s taken) ∙ e) in
      subst (λ (b : Bool). Avail (if b then avail_remove s w₁ else w₁) (s ∷ others)) (sym more)
        listed

  after-ready : Avail after (still s rest others)
  unfolding take_page
  after-ready = ready_of rest taken-count

  listed-open :
      (q : ℕ) → count q (s ∷ others) ≡ (if ltb 0 (length (v.pool q)) then count q v.all else 0)
  listed-open q =
      subst (λ xs. count q xs ≡ (if ltb 0 (length (v.pool q)) then count q v.all else 0)) head
        (v.open_lem q)

  open_self :
      (xs : List ℕ) → count s (still s xs others) ≡ (if ltb 0 (length xs) then count s v.all else 0)
  open_self [] = alone (count s others) (s == s) (==_refl s) (once s)
  open_self (x ∷ xs) =
      listed-open s
      ∙ ap (λ (n : ℕ). if ltb 0 n then count s v.all else 0) (ap length first)
      ∙ ap (λ (b : Bool). if b then count s v.all else 0)
          (ltb-suc (length rest) ∙ sym (ltb-suc (length xs)))

  open_other : (xs : List ℕ) (q : ℕ) → s ≢ q → count q (still s xs others) ≡ count q (s ∷ others)
  open_other [] q ne = sym (
      ap (λ (b : Bool). (if b then 1 else 0) + count q others) (==_false q s (λ e. ne (sym e)))
      ∙ zero_add_lem (count q others))
  open_other (x ∷ xs) q ne = refl

  after-open :
      (q : ℕ)
      → count q (still s rest others) ≡ (if ltb 0 (length (pool' q)) then count q v.all else 0)
  after-open q = elim (ℕ_discrete s q) [
    | yes same ↦
        subst
          (λ t.
            count t (still s rest others) ≡ (if ltb 0 (length (pool' t)) then count t v.all else 0))
          same
          (open_self rest
            ∙ ap (λ xs. if ltb 0 (length xs) then count s v.all else 0)
                (sym (update_self v.pool s rest)))
    | no other ↦
        open_other rest q other
        ∙ listed-open q
        ∙ ap (λ xs. if ltb 0 (length xs) then count q v.all else 0)
            (sym (update_ne v.pool s q rest other))
  ]

  after-homed : (q p : ℕ) → 0 < count p (pool' q) → home p ≡ q
  after-homed q p here = elim (ℕ_discrete s q) [
    | yes same ↦
        v.homed s p (
          more_of (count p rest) (count p (v.pool s)) (p == pg) (pool-count p)
            (subst (λ xs. 0 < count p xs) (ap pool' (sym same) ∙ update_self v.pool s rest) here))
        ∙ same
    | no other ↦ v.homed q p (subst (λ xs. 0 < count p xs) (update_ne v.pool s q rest other) here)
  ]

  after-split :
      (p : ℕ) → count p (pg ∷ used) + count p v.lost + count p (pool' (home p)) ≡ stock v.all p
  after-split p = elim (ℕ_discrete s (home p)) [
    | yes same ↦
        move (if p == pg then 1 else 0) (count p used) (count p v.lost) (count p (pool' (home p)))
          (stock v.all p)
          (ap (λ n. count p used + count p v.lost + n)
              (ap (λ xs. (if p == pg then 1 else 0) + count p xs)
                  (ap pool' (sym same) ∙ update_self v.pool s rest)
                ∙ sym (pool-count p)
                ∙ ap (λ q. count p (v.pool q)) same)
            ∙ v.split p)
    | no other ↦
        let elsewhere : (p == pg) ≡ false =
          ==_false p pg (λ e. other (sym (ap home e ∙ pg-home))) in
        ap
          (λ (b : Bool).
            (if b then 1 else 0) + count p used + count p v.lost + count p (pool' (home p)))
          elsewhere
        ∙ zero_more (count p used) (count p v.lost) (count p (pool' (home p)))
        ∙ ap (λ xs. count p used + count p v.lost + count p xs)
            (update_ne v.pool s (home p) rest other)
        ∙ v.split p
  ]

  after-area : (p : ℕ) → (after.page p).area ≡ (w.page p).area
  unfolding take_page
  after-area p =
      update-keeps (λ (u : Page). u.area) w₂.page pg p _ refl
      ∙ ap (λ f. (f p).area) kept.counts.memory

  abandoned-kept : after.abandoned ≡ w.abandoned
  unfolding take_page
  abandoned-kept = elim (Bool-cases ((w₁.seg s).free_count == 0)) [
    | inl empty ↦
        subst (λ (b : Bool). (if b then avail_remove s w₁ else w₁).abandoned ≡ w.abandoned)
          (sym empty) (ap (λ g. g.abandoned) (avail_remove-g s w₁))
    | inr more ↦
        subst (λ (b : Bool). (if b then avail_remove s w₁ else w₁).abandoned ≡ w.abandoned)
          (sym more) refl
  ]

  pub after-IsPool : IsPool (pg ∷ used) after
  unfolding take_page
  after-IsPool = record {
    all = v.all;
    avail = still s rest others;
    lost = v.lost;
    pool = pool';
    chain = after-chain;
    counted = v.counted ∙ sym kept.counts.num;
    sized = v.sized;
    distinct = v.distinct;
    based = v.based;
    table = subst Table (sym kept.counts.table) v.table;
    registered =
        λ q here. subst (λ r. 0 < count q r.cells) (sym kept.counts.table) (v.registered q here);
    ready = after-ready;
    open_lem = after-open;
    free = after-free;
    free_counted = after-free_counted;
    homed = after-homed;
    lost_chain =
        subst (λ p. Chain (λ a. (after.page a).next) p v.lost) (sym abandoned-kept)
          (pages-kept w.abandoned v.lost lost-apart v.lost_chain);
    lost_counted = v.lost_counted ∙ sym kept.counts.abandoned;
    lost_sized = v.lost_sized;
    split = after-split;
    area = λ p here. ap segment_of (after-area p) ∙ v.area p here;
  }
