-- ===== src/Central/Avail/Push.antt =====
-- `avail_push`: the segment stands in front of the others.
use hmalloc.Common.{
  ℕ, ◌≤◌, ◌<◌, ◌≡◌, refl, sym, subst, ◌∙◌, ◌≢◌, inl, inr, true, false, List, [], ◌∷◌, arith, ◌==◌,
  ◌!=◌, if◌then◌else◌, Bool-cases,
}
use hmalloc.Common.Doubly
use hmalloc.Common.Multiset.{count}
use hmalloc.Segment.{Segment}
use hmalloc.Central.{World, set_seg, avail_push}
use hmalloc.Central.Avail.{AvailFrom, Avail, update-keeps, update-field}

module _ (s : ℕ) (w : World) where
  -- The links after a push.
  push-next :
      (a : ℕ)
      → ((avail_push s w).seg a).avail_next ≡ (if s == a then w.avail else (w.seg a).avail_next)
  unfolding avail_push
  push-next a =
      let w₁ = set_seg s (record (w.seg s) { avail_prev = 0; avail_next = w.avail }) w in
      let w₂ =
        if w.avail != 0
        then set_seg w.avail (record (w₁.seg w.avail) { avail_prev = s }) w₁
        else w₁ in
      let e₂ : (w₂.seg a).avail_next ≡ (w₁.seg a).avail_next = elim (Bool-cases (w.avail != 0)) [
        | inl some_head ↦
            rw some_head (update-keeps (λ (v : Segment). v.avail_next) w₁.seg w.avail a _ refl)
        | inr no_head ↦ rw no_head refl
      ] in
      update-keeps (λ (v : Segment). v.avail_next) w₂.seg s a
        (record (w₂.seg s) { in_avail = true }) refl
      ∙ e₂
      ∙ update-field (λ (v : Segment). v.avail_next) w.seg s a
          (record (w.seg s) { avail_prev = 0; avail_next = w.avail })

  push-prev :
      (a : ℕ)
      → a ≢ 0
      → ((avail_push s w).seg a).avail_prev
        ≡ (if w.avail == a then s else if s == a then 0 else (w.seg a).avail_prev)
  unfolding avail_push
  push-prev a nz =
      let w₁ = set_seg s (record (w.seg s) { avail_prev = 0; avail_next = w.avail }) w in
      let u = record (w₁.seg w.avail) { avail_prev = s } in
      let w₂ = if w.avail != 0 then set_seg w.avail u w₁ else w₁ in
      let e₁ : (w₁.seg a).avail_prev ≡ (if s == a then 0 else (w.seg a).avail_prev) =
        update-field (λ (v : Segment). v.avail_prev) w.seg s a
          (record (w.seg s) { avail_prev = 0; avail_next = w.avail }) in
      let e₂ : (w₂.seg a).avail_prev ≡ (if w.avail == a then s else (w₁.seg a).avail_prev) =
        elim (Bool-cases (w.avail != 0)) [
          | inl some_head ↦
              rw some_head (update-field (λ (v : Segment). v.avail_prev) w₁.seg w.avail a u)
          | inr no_head ↦
              let miss : (w.avail == a) ≡ false = ground (arith, nz, no_head) in
              rw (no_head, miss) refl
        ] in
      update-keeps (λ (v : Segment). v.avail_prev) w₂.seg s a
        (record (w₂.seg s) { in_avail = true }) refl
      ∙ e₂
      ∙ (λ i. if w.avail == a then s else e₁ i)

  pub avail-avail_push : (avail_push s w).avail ≡ s
  unfolding avail_push
  avail-avail_push = refl

  push-kept :
      (x : ℕ) (xs : List ℕ)
      → count s (x ∷ xs) ≡ 0
      → count x (x ∷ xs) ≤ 1
      → Avail w (x ∷ xs)
      → (a : ℕ) → 0 < count a xs
      → (((avail_push s w).seg a).avail_next ≡ (w.seg a).avail_next)
        × (((avail_push s w).seg a).avail_prev ≡ (w.seg a).avail_prev)
  push-kept x xs out once d a here =
      let null_out =
        Doubly.Doubly-ne-null (λ (v : Segment). v.avail_next) (λ (v : Segment). v.avail_prev) w.seg
          x (w.seg x).avail_next xs d.3 in
      let nz : a ≢ 0 = λ e. omega (arith, null_out, subst (λ t. 0 < count t xs) e here) in
      let not_s : (s == a) ≡ false = ground (arith, out, here) in
      let not_head : (w.avail == a) ≡ false = ground (arith, d.0, once, here) in
      (push-next a ∙ (rw not_s refl), push-prev a nz ∙ (rw (not_head, not_s) refl))

  push-behind :
      (xs : List ℕ)
      → count s xs ≡ 0
      → ((a : ℕ) → count a xs ≤ 1)
      → Avail w xs
      → AvailFrom (avail_push s w).seg s w.avail xs
  push-behind [] out once d = d
  push-behind (x ∷ xs) out once d =
      let at_x : (w.avail == x) ≡ true = ground (arith, d.0) in
      let s_not_x : (s == x) ≡ false = ground arith in
      let next_x : ((avail_push s w).seg x).avail_next ≡ (w.seg x).avail_next =
        push-next x ∙ (rw s_not_x refl) in
      (
        d.0,
        d.1,
        push-prev x d.1 ∙ (rw at_x refl),
        subst (λ q. AvailFrom (avail_push s w).seg x q xs) (sym next_x)
            (Doubly.Doubly-frame (λ (v : Segment). v.avail_next) (λ (v : Segment). v.avail_prev)
              w.seg (avail_push s w).seg x (w.seg x).avail_next xs (push-kept x xs out (once x) d)
              d.3),
      )

  head_apart : (xs : List ℕ) → s ≢ 0 → count s xs ≡ 0 → Avail w xs → w.avail ≢ s
  head_apart [] nz out d e = nz (sym e ∙ d)
  head_apart (x ∷ xs) nz out d e = ground (arith, d.0, out)

  -- A segment that is pushed is the first of the list.
  pub avail_push-Avail :
      (xs : List ℕ)
      → s ≢ 0
      → count s xs ≡ 0
      → ((a : ℕ) → count a xs ≤ 1)
      → Avail w xs
      → Avail (avail_push s w) (s ∷ xs)
  avail_push-Avail xs nz out once d =
      let self : (s == s) ≡ true = ground arith in
      let not_head : (w.avail == s) ≡ false = ground (arith, head_apart xs nz out d) in
      let next_s : ((avail_push s w).seg s).avail_next ≡ w.avail = push-next s ∙ (rw self refl) in
      (
        avail-avail_push,
        nz,
        push-prev s nz ∙ (rw (not_head, self) refl),
        subst (λ q. AvailFrom (avail_push s w).seg s q xs) (sym next_s) (push-behind xs out once d),
      )

pub avail_push-link : (s : ℕ) (w : World) → (avail_push s w).link ≡ w.link
unfolding avail_push
avail_push-link s w = elim (Bool-cases (w.avail != 0)) [
  | inl some_head ↦ rw some_head refl
  | inr no_head ↦ rw no_head refl
]

pub avail_push-os : (s : ℕ) (w : World) → (avail_push s w).os ≡ w.os
unfolding avail_push
avail_push-os s w = elim (Bool-cases (w.avail != 0)) [
  | inl some_head ↦ rw some_head refl
  | inr no_head ↦ rw no_head refl
]

pub avail_push-g : (s : ℕ) (w : World) → (avail_push s w).g ≡ record w.g { avail = s }
unfolding avail_push
avail_push-g s w = elim (Bool-cases (w.avail != 0)) [
  | inl some_head ↦ rw some_head refl
  | inr no_head ↦ rw no_head refl
]
