-- ===== src/Central/Give.antt =====
-- `pool_return`: a page goes back to the pool of its segment.
use hmalloc.Common.{
  ℕ, suc, ◌+◌, ◌<◌, ◌≡◌, refl, sym, ap, subst, ◌∙◌, ◌≢◌, inl, inr, Bool, true, false, List, [], ◌∷◌,
  arith, ℕ_discrete, ltb, ◌==◌, if◌then◌else◌, Bool-cases, length, update, update_ne, update-field,
  update-keeps, update_self,
}
use hmalloc.Common.Doubly
use hmalloc.Common.Multiset.{count}
use hmalloc.Common.Word.{wrap}
use hmalloc.Page.Chain.{Chain, Chain-frame}
use hmalloc.Page.{u32}
use hmalloc.Segment.{Page, Segment, segment_of}
use hmalloc.Central.{World, avail_push, pool_push}
use hmalloc.Central.Balance.{Keeps, Keeps-avail_push, Keeps-if, Keeps-refl}
use hmalloc.Central.Avail.{Avail, avail_push-field}
use hmalloc.Central.Avail.Push.{avail_push-link, avail_push-g, avail_push-Avail}
use hmalloc.Central.Unlink.{Segments}
use hmalloc.Central.Pool.{
  Table, IsPool, home, stock, records, records_once, pool_bound, avail_once, records-ne-null,
}
use hmalloc.Central.Arith.{
  ==_false, ==_refl, ==_true, ltb-suc, one_more, suc_not_zero, zero_add_lem,
}
use hmalloc.Central.Places.{drop_other, in_hand, listed_once, move_back}

tail_count : (c : ℕ) (b : Bool) → b ≡ false → 0 < (if b then 1 else 0) + c → 0 < c
tail_count c b miss here = ground arith

module _ (pg : ℕ) {used : List ℕ} {w : World} (v : IsPool (pg ∷ used) w) where
  abbrev s : ℕ
  s = home pg

  -- The page is nowhere else.
  pub place :
      (0 < count s v.all)
      × (count pg (records 63 s) ≡ 1)
      × (count pg used + count pg v.lost + count pg (v.pool s) ≡ 0)
  place =
      in_hand (count pg used) (count pg v.lost) (count pg (v.pool s)) (count s v.all)
        (count pg (records 63 s)) (stock v.all pg) (pg == pg) (==_refl pg) (v.split pg) refl
        (records_once 63 s pg)

  abbrev given : Segment
  given = record (w.seg s) { free_list = pg; free_count = u32 ((w.seg s).free_count + 1) }

  abbrev w₃ : World
  w₃ = record w {
    page = update w.page pg (record (w.page pg) {
      in_use = false;
      owner = 0;
      free = 0;
      block_size = 0;
      prev = 0;
      next = (w.seg s).free_list;
    });
    seg = update w.seg s given;
    g = record w.g { free_page_count = wrap (w.free_page_count + 1) };
  }

  abbrev pub after : World
  after = pool_push pg s w

  kept : Keeps w₃ after
  unfolding pool_push
  kept = Keeps-if ((w.seg s).free_count == 0) w₃ _ w₃ (Keeps-avail_push s w₃) (Keeps-refl w₃)

  pub page-others : (a : ℕ) → pg ≢ a → after.page a ≡ w.page a
  page-others a ne = ap (λ f. f a) kept.counts.memory ∙ update_ne w.page pg a _ ne

  pub seg-field :
      (field : Segment → ℕ)
      → ((u : Segment) (n p : ℕ) (b : Bool)
          → field (record u { avail_next = n; avail_prev = p; in_avail = b }) ≡ field u)
      → (q : ℕ) → field (after.seg q) ≡ (if s == q then field given else field (w.seg q))
  unfolding pool_push
  seg-field field apart q =
      let e : field (after.seg q) ≡ field (w₃.seg q) =
        elim (Bool-cases ((w.seg s).free_count == 0)) [
          | inl empty ↦ rw empty (avail_push-field field apart s w₃ q)
          | inr more ↦ rw more refl
        ] in
      e ∙ update-field field w.seg s q given

  abbrev pool' : ℕ → List ℕ
  pool' = update v.pool s (pg ∷ v.pool s)

  -- The segment is on the list from its first free page on.
  abbrev back_on : List ℕ → List ℕ
  back_on [] = s ∷ v.avail
  back_on (x ∷ xs) = v.avail

  some_pg : pg ≢ 0
  some_pg e =
      absurd (omega (arith, records-ne-null 63 s, place.1, ap (λ t. count t (records 63 s)) e))

  some_s : s ≢ 0
  some_s = (v.based s place.0).0.0

  pool-apart : (q a : ℕ) → 0 < count a (v.pool q) → pg ≢ a
  pool-apart q a here e =
      let at : s ≡ q = ap home e ∙ v.homed q a here in
      absurd (
        omega (
          arith,
          place.2,
          subst (λ t. 0 < count pg (v.pool t)) (sym at)
              (subst (λ t. 0 < count t (v.pool q)) (sym e) here),
        ))

  lost-apart : (a : ℕ) → 0 < count a v.lost → pg ≢ a
  lost-apart a here e =
      absurd (omega (arith, place.2, subst (λ t. 0 < count t v.lost) (sym e) here))

  pages-kept :
      (p : ℕ) (xs : List ℕ)
      → ((a : ℕ) → 0 < count a xs → pg ≢ a)
      → Chain (λ q. (w.page q).next) p xs
      → Chain (λ q. (after.page q).next) p xs
  pages-kept p xs apart c =
      Chain-frame (λ q. (w.page q).next) (λ q. (after.page q).next) p xs
        (λ a here. ap (λ (u : Page). u.next) (page-others a (apart a here))) c

  after-chain : Segments after after.segments v.all
  after-chain =
      subst (λ h. Segments after h v.all) (sym kept.head)
        (Chain-frame (λ q. (w.seg q).next) (λ q. (after.seg q).next) w.segments v.all
          (λ q here. kept.next q ∙ update-keeps (λ (u : Segment). u.next) w.seg s q given refl)
          v.chain)

  next-pg : (after.page pg).next ≡ (w.seg s).free_list
  next-pg =
      ap (λ f. (f pg).next) kept.counts.memory ∙ ap (λ (u : Page). u.next) (update_self w.page pg _)

  after-free :
      (q : ℕ)
      → 0 < count q v.all
      → Chain (λ p. (after.page p).next) (after.seg q).free_list (pool' q)
  after-free q here =
      subst (λ p. Chain (λ a. (after.page a).next) p (pool' q))
        (sym (seg-field (λ u. u.free_list) (λ u n p b. refl) q))
        (elim (ℕ_discrete s q) [
          | yes same ↦
              subst
                (λ (b : Bool).
                  Chain (λ a. (after.page a).next) (if b then pg else (w.seg q).free_list)
                    (if b then pg ∷ v.pool s else v.pool q))
                (sym (==_true s q same))
                (
                  refl,
                  some_pg,
                  subst (λ p. Chain (λ a. (after.page a).next) p (v.pool s)) (sym next-pg)
                      (pages-kept (w.seg s).free_list (v.pool s) (pool-apart s) (v.free s place.0)),
                )
          | no other ↦
              subst
                (λ (b : Bool).
                  Chain (λ a. (after.page a).next) (if b then pg else (w.seg q).free_list)
                    (if b then pg ∷ v.pool s else v.pool q))
                (sym (==_false s q other))
                (pages-kept (w.seg q).free_list (v.pool q) (pool-apart q) (v.free q here))
        ])

  pub given-count : u32 ((w.seg s).free_count + 1) ≡ suc (length (v.pool s))
  given-count =
      one_more (w.seg s).free_count (length (v.pool s)) (v.free_counted s place.0) (pool_bound v s)

  after-free_counted : (q : ℕ) → 0 < count q v.all → (after.seg q).free_count ≡ length (pool' q)
  after-free_counted q here = elim (Bool-cases (s == q)) [
    | inl hit ↦ seg-field (λ u. u.free_count) (λ u n p b. refl) q ∙ (rw hit given-count)
    | inr miss ↦
        seg-field (λ u. u.free_count) (λ u n p b. refl) q ∙ (rw miss (v.free_counted q here))
  ]

  ready₃ : Avail w₃ v.avail
  ready₃ =
      Doubly.Doubly-frame (λ (u : Segment). u.avail_next) (λ (u : Segment). u.avail_prev) w.seg
        w₃.seg 0 w.avail v.avail
        (λ a here. (
          update-keeps (λ (u : Segment). u.avail_next) w.seg s a given refl,
          update-keeps (λ (u : Segment). u.avail_prev) w.seg s a given refl,
        ))
        v.ready

  absent : v.pool s ≡ [] → count s v.avail ≡ 0
  absent none_free =
      v.open_lem s ∙ ap (λ (xs : List ℕ). if ltb 0 (length xs) then count s v.all else 0) none_free

  ready_of : (xs : List ℕ) → v.pool s ≡ xs → Avail after (back_on xs)
  unfolding pool_push
  ready_of [] e =
      let empty : ((w.seg s).free_count == 0) ≡ true =
        ==_true (w.seg s).free_count 0 (v.free_counted s place.0 ∙ ap length e) in
      subst (λ (b : Bool). Avail (if b then avail_push s w₃ else w₃) (s ∷ v.avail)) (sym empty)
        (avail_push-Avail s w₃ v.avail some_s (absent e) (avail_once v) ready₃)
  ready_of (x ∷ xs) e =
      let more : ((w.seg s).free_count == 0) ≡ false =
        suc_not_zero (w.seg s).free_count (length xs) (v.free_counted s place.0 ∙ ap length e) in
      subst (λ (b : Bool). Avail (if b then avail_push s w₃ else w₃) v.avail) (sym more) ready₃

  open_self : (xs : List ℕ) → v.pool s ≡ xs → count s (back_on xs) ≡ count s v.all
  open_self [] e =
      listed_once (count s v.avail) (count s v.all) (s == s) (==_refl s) (absent e) place.0
        (v.distinct s)
  open_self (x ∷ xs) e =
      v.open_lem s
      ∙ ap (λ (ys : List ℕ). if ltb 0 (length ys) then count s v.all else 0) e
      ∙ ap (λ (b : Bool). if b then count s v.all else 0) (ltb-suc (length xs))

  open_other : (xs : List ℕ) (q : ℕ) → s ≢ q → count q (back_on xs) ≡ count q v.avail
  open_other [] q ne =
      ap (λ (b : Bool). (if b then 1 else 0) + count q v.avail) (==_false q s (λ e. ne (sym e)))
      ∙ zero_add_lem (count q v.avail)
  open_other (x ∷ xs) q ne = refl

  after-open :
      (q : ℕ)
      → count q (back_on (v.pool s)) ≡ (if ltb 0 (length (pool' q)) then count q v.all else 0)
  after-open q = elim (ℕ_discrete s q) [
    | yes same ↦
        subst
          (λ t.
            count t (back_on (v.pool s)) ≡ (if ltb 0 (length (pool' t)) then count t v.all else 0))
          same
          (open_self (v.pool s) refl
            ∙ ap (λ (b : Bool). if b then count s v.all else 0) (sym (ltb-suc (length (v.pool s))))
            ∙ ap (λ (xs : List ℕ). if ltb 0 (length xs) then count s v.all else 0)
                (sym (update_self v.pool s (pg ∷ v.pool s))))
    | no other ↦
        open_other (v.pool s) q other
        ∙ v.open_lem q
        ∙ ap (λ (xs : List ℕ). if ltb 0 (length xs) then count q v.all else 0)
            (sym (update_ne v.pool s q (pg ∷ v.pool s) other))
  ]

  after-homed : (q p : ℕ) → 0 < count p (pool' q) → home p ≡ q
  after-homed q p here = elim (ℕ_discrete s q) [
    | yes same ↦
        cons_home p (
          subst (λ xs. 0 < count p xs) (ap pool' (sym same) ∙ update_self v.pool s (pg ∷ v.pool s))
            here)
        ∙ same
    | no other ↦
        v.homed q p (subst (λ xs. 0 < count p xs) (update_ne v.pool s q (pg ∷ v.pool s) other) here)
  ]
    where
      cons_home : (p : ℕ) → 0 < count p (pg ∷ v.pool s) → home p ≡ s
      cons_home p here = elim (ℕ_discrete p pg) [
        | yes same ↦ ap home same
        | no other ↦
            v.homed s p (tail_count (count p (v.pool s)) (p == pg) (==_false p pg other) here)
      ]

  after-split : (p : ℕ) → count p used + count p v.lost + count p (pool' (home p)) ≡ stock v.all p
  after-split p = elim (ℕ_discrete s (home p)) [
    | yes same ↦
        ap (λ xs. count p used + count p v.lost + count p xs)
          (ap pool' (sym same) ∙ update_self v.pool s (pg ∷ v.pool s))
        ∙ move_back (if p == pg then 1 else 0) (count p used) (count p v.lost) (count p (v.pool s))
            (stock v.all p)
            (subst (λ q. count p (pg ∷ used) + count p v.lost + count p (v.pool q) ≡ stock v.all p)
              (sym same) (v.split p))
    | no other ↦
        let elsewhere : (p == pg) ≡ false = ==_false p pg (λ e. other (sym (ap home e))) in
        ap (λ xs. count p used + count p v.lost + count p xs)
          (update_ne v.pool s (home p) (pg ∷ v.pool s) other)
        ∙ drop_other (count p used) (count p v.lost) (count p (v.pool (home p))) (p == pg) elsewhere
            (stock v.all p) (v.split p)
  ]

  after-area : (p : ℕ) → (after.page p).area ≡ (w.page p).area
  after-area p =
      ap (λ f. (f p).area) kept.counts.memory
      ∙ update-keeps (λ (u : Page). u.area) w.page pg p _ refl

  abandoned-kept : after.abandoned ≡ w.abandoned
  unfolding pool_push
  abandoned-kept = elim (Bool-cases ((w.seg s).free_count == 0)) [
    | inl empty ↦
        subst (λ (b : Bool). (if b then avail_push s w₃ else w₃).abandoned ≡ w.abandoned)
          (sym empty) (ap (λ g. g.abandoned) (avail_push-g s w₃))
    | inr more ↦
        subst (λ (b : Bool). (if b then avail_push s w₃ else w₃).abandoned ≡ w.abandoned) (sym more)
          refl
  ]

  pub link-kept : after.link ≡ w.link
  unfolding pool_push
  link-kept = elim (Bool-cases ((w.seg s).free_count == 0)) [
    | inl empty ↦
        subst (λ (b : Bool). (if b then avail_push s w₃ else w₃).link ≡ w.link) (sym empty)
          (avail_push-link s w₃)
    | inr more ↦
        subst (λ (b : Bool). (if b then avail_push s w₃ else w₃).link ≡ w.link) (sym more) refl
  ]

  pub after-IsPool : IsPool used after
  after-IsPool = record {
    all = v.all;
    avail = back_on (v.pool s);
    lost = v.lost;
    pool = pool';
    chain = after-chain;
    counted = v.counted ∙ sym kept.counts.num;
    sized = v.sized;
    distinct = v.distinct;
    based = v.based;
    table = subst Table (sym kept.counts.table) v.table;
    registered =
        λ q here. subst (λ r. 0 < count q r.cells) (sym kept.counts.table) (v.registered q here);
    ready = ready_of (v.pool s) refl;
    open_lem = after-open;
    free = after-free;
    free_counted = after-free_counted;
    homed = after-homed;
    lost_chain =
        subst (λ p. Chain (λ a. (after.page a).next) p v.lost) (sym abandoned-kept)
          (pages-kept w.abandoned v.lost lost-apart v.lost_chain);
    lost_counted = v.lost_counted ∙ sym kept.counts.abandoned;
    lost_sized = v.lost_sized;
    split = after-split;
    area = λ p here. ap segment_of (after-area p) ∙ v.area p here;
  }

  pub all-kept : after-IsPool.all ≡ v.all
  unfolding after-IsPool
  all-kept = refl

  pub lost-kept : after-IsPool.lost ≡ v.lost
  unfolding after-IsPool
  lost-kept = refl
