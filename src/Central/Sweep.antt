-- ===== src/Central/Sweep.antt =====
-- `sweep_abandoned`: the loop ends, and no page is lost or found twice.
use hmalloc.Common.{
  ℕ, zero, suc, ◌+◌, ◌≤◌, ◌<◌, ◌≡◌, refl, sym, ap, subst, ◌∙◌, ◌≢◌, inl, inr, Bool, true, false,
  some, List, [], ◌∷◌, ◌++◌, arith, ◌==◌, if◌then◌else◌, Bool-cases, length, update-keeps,
}
use hmalloc.Common.Multiset.{count}
use hmalloc.Page.Chain.{Chain}
use hmalloc.Segment.{Page}
use hmalloc.Central.{World, pool_return}
use hmalloc.Central.Pool.{IsPool, lost_once}
use hmalloc.Central.Return.{returned}
use hmalloc.Central.Remotes.{Remotes, Remotes-frame, collect_locked-Collected}
use hmalloc.Central.Unhook.{
  count-middle, last_of, last_of-append, last_of-some, Chain-back, unhooked, unhooked-IsPool,
  unhooked-others,
}
use hmalloc.Central.Acquire.{
  sweep_page, collect_locked, reclaim, abandoned_at, set_abandoned_at, collect_locked, reclaim,
  sweep_from, sweep_abandoned,
}
use hmalloc.Central.Arith.{==_true, far_from, le_suc, not_zero, out_of}

Chain-split :
    (link : ℕ → ℕ) (p : ℕ) (front back : List ℕ)
    → Chain link p (front ++ back)
    → Chain link (if last_of 0 front == 0 then p else link (last_of 0 front)) back
Chain-split link p [] back c = c
Chain-split link p (x ∷ front) back c =
    rw (not_zero (last_of x front) (last_of-some link p x front back c))
      (Chain-back link p x front back c)

abandoned_at-Chain :
    (front back : List ℕ) {used : List ℕ} {w : World} (v : IsPool used w)
    → v.lost ≡ front ++ back
    → Chain (λ p. (w.page p).next) (abandoned_at (last_of 0 front) w) back
unfolding abandoned_at
abandoned_at-Chain front back {used} {w} v e =
    Chain-split (λ p. (w.page p).next) w.abandoned front back
      (subst (Chain (λ p. (w.page p).next) w.abandoned) e v.lost_chain)

append-middle : (x : ℕ) (xs ys : List ℕ) → xs ++ (x ∷ ys) ≡ (xs ++ (x ∷ [])) ++ ys
append-middle x [] ys = refl
append-middle x (y ∷ xs) ys = ap (λ zs. y ∷ zs) (append-middle x xs ys)

-- A page that is not on the list is not the one the loop is at.
beside :
    (a pg : ℕ) (front back lost : List ℕ)
    → lost ≡ front ++ (pg ∷ back)
    → count a lost ≡ 0
    → (pg ≢ a) × (count a (front ++ back) ≡ 0)
beside a pg front back lost e out =
    let k = ap (count a) e ∙ count-middle a pg front back in
    (
      λ same.
          far_from (count a lost) (count a (front ++ back)) (a == pg) (==_true a pg (sym same)) k
            out,
      out_of (count a lost) (count a (front ++ back)) (if a == pg then 1 else 0) k out,
    )

-- Taking a page out of the list writes no block and no list of remote frees.
unhooked-remotes :
    (at pg : ℕ) (w : World)
    → ((unhooked at pg w).link ≡ w.link)
      × ((a : ℕ) → ((unhooked at pg w).page a).thread_free ≡ (w.page a).thread_free)
unfolding set_abandoned_at
unhooked-remotes at pg w = elim (Bool-cases (at == 0)) [
  | inl first ↦ rw first (refl, λ a. refl)
  | inr later ↦ rw later (refl, λ a. update-keeps (λ (u : Page). u.thread_free) w.page at a _ refl)
]

reclaimed :
    (at pg : ℕ) (w w₁ w₂ : World)
    → collect_locked pg w ≡ some w₁
    → ((w₁.page pg).used == 0) ≡ true
    → pool_return pg (unhooked at pg w₁) ≡ some w₂
    → sweep_page at pg w ≡ some (at, w₂)
unfolding sweep_page reclaim
reclaimed at pg w w₁ w₂ collect drained run = rw (collect, drained, run) refl

passed :
    (at pg : ℕ) (w w₁ : World)
    → collect_locked pg w ≡ some w₁
    → ((w₁.page pg).used == 0) ≡ false
    → sweep_page at pg w ≡ some (pg, w₁)
unfolding sweep_page
passed at pg w w₁ collect live = rw (collect, live) refl

behind :
    (p pg : ℕ) (front back : List ℕ)
    → ((a : ℕ) → count a (front ++ (pg ∷ back)) ≤ 1)
    → 0 < count p back
    → pg ≢ p
behind p pg [] back once inside =
    λ e. absurd (ground (arith, once pg, subst (λ t. 0 < count t back) (sym e) inside))
behind p pg (x ∷ front) back once inside =
    behind p pg front back (λ a. smaller (count a (front ++ (pg ∷ back))) (a == x) (once a)) inside
  where
    smaller : (c : ℕ) (b : Bool) → (if b then 1 else 0) + c ≤ 1 → c ≤ 1
    smaller c b le = omega (arith, le)

member_first : (q : ℕ) (back : List ℕ) → 0 < count q (q ∷ back)
member_first q back = ground arith

member_later : (p q : ℕ) (back : List ℕ) → 0 < count p back → 0 < count p (q ∷ back)
member_later p q back inside = omega (arith, inside)

-- What the loop leaves.
pub record Swept (used lost : List ℕ) (w w' : World) : Type 0 where
  pub pool : IsPool used w'
  pub others : (a : ℕ) → count a lost ≡ 0 → w'.page a ≡ w.page a

-- The loop at the page after the last one of `front`.
sweep_from-Swept :
    (fuel : ℕ) (front back : List ℕ) {used : List ℕ} {w : World} (v : IsPool used w)
    → v.lost ≡ front ++ back
    → length back ≤ fuel
    → Remotes w back
    → (w' : World) × (sweep_from fuel (last_of 0 front) w ≡ some w') × Swept used v.lost w w'
unfolding sweep_from
sweep_from-Swept zero front [] {used} {w} v e enough m =
    let at_end = abandoned_at-Chain front [] v e in
    (
      w,
      rw (sweep_from, ==_true (abandoned_at (last_of 0 front) w) 0 at_end) refl,
      record { pool = v; others = λ a out. refl },
    )
sweep_from-Swept zero front (q ∷ back) v e enough m = absurd (omega arith)
sweep_from-Swept (suc fuel) front [] {used} {w} v e enough m =
    let at_end = abandoned_at-Chain front [] v e in
    (
      w,
      rw (sweep_from, ==_true (abandoned_at (last_of 0 front) w) 0 at_end) refl,
      record { pool = v; others = λ a out. refl },
    )
sweep_from-Swept (suc fuel) front (q ∷ back) {used} {w} v e enough m =
    let pg = abandoned_at (last_of 0 front) w in
    let c = abandoned_at-Chain front (q ∷ back) v e in
    let here = e ∙ ap (λ a. front ++ (a ∷ back)) (sym c.0) in
    let some_page = not_zero pg (λ z. c.1 (sym c.0 ∙ z)) in
    let enough' = le_suc (length back) fuel enough in
    let inside : 0 < count pg (q ∷ back) =
      subst (λ t. 0 < count t (q ∷ back)) (sym c.0) (member_first q back) in
    let far : (p : ℕ) → 0 < count p back → pg ≢ p =
      λ p. behind p pg front back (λ a. subst (λ xs. count a xs ≤ 1) here (lost_once v a)) in
    let (w₁, collect, d) =
      collect_locked-Collected pg (m.blocks pg) v (m.chain pg inside) (m.short pg inside) in
    elim (Bool-cases ((w₁.page pg).used == 0)) [
      | inl drained ↦
          let at = last_of 0 front in
          let h = unhooked-IsPool pg back d.pool front (d.lost_lem ∙ here) in
          let (w₂, run, r) = returned pg h.0 in
          let kept = unhooked-remotes at pg w₁ in
          let m' =
            Remotes-frame (q ∷ back) back m pg w₂ inside
              (λ p at. (
                member_later p q back at,
                far p at,
                ap (λ (u : Page). u.thread_free) (r.others p (far p at))
                    ∙ kept.1 p
                    ∙ ap (λ (u : Page). u.thread_free) (d.others p (far p at)),
              ))
              (λ a out. ap (λ f. f a) (r.link ∙ kept.0) ∙ d.links a out) in
          let (w', loop, swept) =
            sweep_from-Swept fuel front back r.pool (r.lost_lem ∙ h.1) enough' m' in
          (
            w',
            rw (sweep_from, some_page, reclaimed at pg w w₁ w₂ collect drained run) loop,
            record {
              pool = swept.pool;
              others = λ a out.
                  let (other, out') = beside a pg front back v.lost here out in
                  swept.others a (ap (count a) (r.lost_lem ∙ h.1) ∙ out')
                  ∙ r.others a other
                  ∙ unhooked-others pg back d.pool front a (d.lost_lem ∙ here)
                      (ap (count a) d.lost_lem ∙ out)
                  ∙ d.others a other;
            },
          )
      | inr live ↦
          let at = last_of 0 front in
          let m' =
            Remotes-frame (q ∷ back) back m pg w₁ inside
              (λ p at. (
                member_later p q back at,
                far p at,
                ap (λ (u : Page). u.thread_free) (d.others p (far p at)),
              ))
              d.links in
          let (w', loop, swept) =
            sweep_from-Swept fuel (front ++ (pg ∷ [])) back d.pool
              (d.lost_lem ∙ here ∙ append-middle pg front back) enough' m' in
          (
            w',
            rw (sweep_from, some_page, passed at pg w w₁ collect live)
                (subst (λ at. sweep_from fuel at w₁ ≡ some w') (last_of-append 0 pg front) loop),
            record {
              pool = swept.pool;
              others = λ a out.
                  swept.others a (ap (count a) d.lost_lem ∙ out)
                  ∙ d.others a (beside a pg front back v.lost here out).0;
            },
          )
    ]

-- Where every page is in one place, and the remote frees of each abandoned page are a list that ends, the
-- sweep ends: each walk along such a list does, and the loop does. It leaves every page in one place, and
-- writes no page that was not abandoned.
pub sweep_abandoned-Swept :
    {used : List ℕ} {w : World} (v : IsPool used w)
    → Remotes w v.lost
    → (w' : World) × (sweep_abandoned w ≡ some w') × Swept used v.lost w w'
unfolding sweep_abandoned
sweep_abandoned-Swept {used} {w} v m =
    subst (λ n. (w' : World) × (sweep_from n 0 w ≡ some w') × Swept used v.lost w w') v.lost_counted
      (sweep_from-Swept (length v.lost) [] v.lost v refl (le_refl (length v.lost)) m)
  where
    le_refl : (n : ℕ) → n ≤ n
    le_refl n = omega arith
