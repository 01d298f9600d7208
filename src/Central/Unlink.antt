-- ===== src/Central/Unlink.antt =====
-- The list of all segments: `all_remove`.
use hmalloc.Common.{
  ℕ, zero, suc, ◌≤◌, ◌<◌, ◌≡◌, refl, sym, ap, subst, ◌∙◌, ◌≢◌, true, false, some, List, [], ◌∷◌,
  arith, ℕ_discrete, ◌==◌, length, update, update-keeps, update_self, update_ne,
}
use hmalloc.Common.Multiset.{count, erase}
use hmalloc.Page.Chain.{Chain, Chain-frame}
use hmalloc.Segment.{Segment}
use hmalloc.Central.{World, set_seg, unlink_segment, all_remove}

abbrev pub Segments : World → ℕ → List ℕ → Type 0
Segments w p xs = Chain (λ q. (w.seg q).next) p xs

-- Only links of the list of all segments are written.
pub record Relinked (w w' : World) : Type 0 where
  pub page : w'.page ≡ w.page
  pub link : w'.link ≡ w.link
  pub registry : w'.registry ≡ w.registry
  pub kept :
      (field : Segment → ℕ)
      → ((v : Segment) (n : ℕ) → field (record v { next = n }) ≡ field v)
      → (q : ℕ) → field (w'.seg q) ≡ field (w.seg q)

Relinked-set_seg : (p n : ℕ) (w : World) → Relinked w (set_seg p (record (w.seg p) { next = n }) w)
Relinked-set_seg p n w = record {
  page = refl;
  link = refl;
  registry = refl;
  kept = λ field apart q.
      update-keeps field w.seg p q (record (w.seg p) { next = n }) (apart (w.seg p) n);
}

record UnlinkedFrom (s p : ℕ) (xs : List ℕ) (w w' : World) : Type 0 where
  chain : Segments w' p (erase s xs)
  others : (a : ℕ) → count a xs ≡ 0 → (w'.seg a).next ≡ (w.seg a).next
  g : w'.g ≡ w.g
  rest : Relinked w w'

unlink_segment-UnlinkedFrom :
    (fuel s p : ℕ) (w : World) (x : ℕ) (xs : List ℕ)
    → length (x ∷ xs) ≤ fuel
    → ((a : ℕ) → count a (x ∷ xs) ≤ 1)
    → s ≢ x
    → 0 < count s xs
    → Segments w p (x ∷ xs)
    → (w' : World) × (unlink_segment fuel s p w ≡ some w') × UnlinkedFrom s p (x ∷ xs) w w'
unfolding unlink_segment
unlink_segment-UnlinkedFrom zero s p w x xs enough once apart inside c = absurd (omega arith)
unlink_segment-UnlinkedFrom (suc fuel) s p w x [] enough once apart inside c = absurd (omega arith)
unlink_segment-UnlinkedFrom (suc fuel) s p w x (y ∷ ys) enough once apart inside c =
    let more : (p == 0) ≡ false = ground (arith, c.0, c.1) in
    let at_p : (w.seg p).next ≡ y = ap (λ q. (w.seg q).next) c.0 ∙ c.2.0 in
    let not_x : (s == x) ≡ false = ground arith in
    elim (ℕ_discrete s y) [
      | yes same ↦
          let hit : ((w.seg p).next == s) ≡ true = ground arith in
          let w' = set_seg p (record (w.seg p) { next = (w.seg s).next }) w in
          (w', rw (more, hit) refl, found same)
      | no other ↦
          let miss : ((w.seg p).next == s) ≡ false = ground arith in
          let (w', run, r) =
            unlink_segment-UnlinkedFrom fuel s (w.seg p).next w y ys (omega arith)
              (λ a. ground (arith, once a)) other (ground (arith, inside))
              (subst (λ q. Segments w q (y ∷ ys)) (ap (λ q. (w.seg q).next) (sym c.0)) c.2) in
          (w', rw (more, miss) run, passed w' r)
    ]
  where
    found :
        s ≡ y
        → UnlinkedFrom s p (x ∷ y ∷ ys) w (set_seg p (record (w.seg p) { next = (w.seg s).next }) w)
    found same =
        let n = (w.seg s).next in
        let v = record (w.seg p) { next = n } in
        let hit : (s == y) ≡ true = ground arith in
        let not_x : (s == x) ≡ false = ground arith in
        let at_x : ((update w.seg p v) x).next ≡ n =
          ap (λ q. (update w.seg p v q).next) (sym c.0)
          ∙ ap (λ (u : Segment). u.next) (update_self w.seg p v) in
        let out : (a : ℕ) → 0 < count a ys → p ≢ a =
          λ a here e. ground (arith, c.0, once x, here, e) in
        record {
          chain =
              rw (not_x, hit)
                (
                  c.0,
                  c.1,
                  subst (λ q. Chain (λ a. (update w.seg p v a).next) q ys) (sym at_x)
                      (Chain-frame (λ a. (w.seg a).next) (λ a. (update w.seg p v a).next) n ys
                        (λ a here.
                          ap (λ (u : Segment). u.next) (update_ne w.seg p a v (out a here)))
                        (subst (λ q. Segments w (w.seg q).next ys) (sym same) c.2.2)),
                );
          others = λ a far.
              ap (λ (u : Segment). u.next)
                (update_ne w.seg p a v (λ e. ground (arith, c.0, far, e)));
          g = refl;
          rest = Relinked-set_seg p n w;
        }

    passed :
        (w' : World)
        → UnlinkedFrom s (w.seg p).next (y ∷ ys) w w'
        → UnlinkedFrom s p (x ∷ y ∷ ys) w w'
    passed w' r =
        let not_x : (s == x) ≡ false = ground arith in
        let at_x : (w'.seg x).next ≡ (w.seg p).next =
          r.others x (ground (arith, once x)) ∙ ap (λ q. (w.seg q).next) (sym c.0) in
        record {
          chain =
              rw not_x (c.0, c.1, subst (λ q. Segments w' q (erase s (y ∷ ys))) (sym at_x) r.chain);
          others = λ a far. r.others a (ground (arith, far));
          g = r.g;
          rest = r.rest;
        }

-- A segment leaves the list of all segments: the loop ends, and the others keep their order.
pub record Unlinked (s : ℕ) (xs : List ℕ) (w w' : World) : Type 0 where
  pub chain : Segments w' w'.segments (erase s xs)
  pub g : w'.g ≡ record w.g { segments = w'.segments }
  pub rest : Relinked w w'

pub all_remove-Unlinked :
    (s : ℕ) (w : World) (xs : List ℕ)
    → length xs ≤ w.num_segments
    → ((a : ℕ) → count a xs ≤ 1)
    → 0 < count s xs
    → Segments w w.segments xs
    → (w' : World) × (all_remove s w ≡ some w') × Unlinked s xs w w'
unfolding all_remove
all_remove-Unlinked s w [] enough once inside c = absurd (omega arith)
all_remove-Unlinked s w (x ∷ xs) enough once inside c = elim (ℕ_discrete s x) [
  | yes same ↦
      let first : (w.segments == s) ≡ true = ground (arith, c.0) in
      let hit : (s == x) ≡ true = ground arith in
      (
        record w { g = record w.g { segments = (w.seg s).next } },
        rw first refl,
        record {
          chain = rw hit (subst (λ q. Segments w (w.seg q).next xs) (sym same) c.2);
          g = refl;
          rest = record { page = refl; link = refl; registry = refl; kept = λ field apart q. refl };
        },
      )
  | no other ↦
      let later : (w.segments == s) ≡ false = ground (arith, c.0) in
      let (w', run, r) =
        unlink_segment-UnlinkedFrom w.num_segments s w.segments w x xs enough once other
          (ground (arith, inside)) c in
      (
        w',
        rw later run,
        record {
          chain =
              subst (λ q. Segments w' q (erase s (x ∷ xs))) (sym (ap (λ g. g.segments) r.g))
                r.chain;
          g = r.g ∙ ap (λ z. record w.g { segments = z }) (sym (ap (λ g. g.segments) r.g));
          rest = r.rest;
        },
      )
]
