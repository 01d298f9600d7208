-- ===== src/Central/Avail/Remove.antt =====
-- `avail_remove`: the others stay, in their order.
use hmalloc.Common.{
  ℕ, ◌+◌, ◌≤◌, ◌<◌, ◌≡◌, refl, sym, ap, subst, ◌∙◌, ◌≢◌, inl, inr, true, false, List, [], ◌∷◌, ◌++◌,
  arith, ◌==◌, ◌!=◌, if◌then◌else◌, Bool-cases, update,
}
use hmalloc.Common.Doubly
use hmalloc.Common.Multiset.{count, count-append}
use hmalloc.Segment.{Segment}
use hmalloc.Central.{World, set_seg, avail_remove}
use hmalloc.Central.Avail.{AvailFrom, Avail, update-keeps, ==_comm, update_ne, update-field}

-- The two stores of `avail_remove` into the neighbours of `s`.
module _ (s : ℕ) (w : World) (apart : (w.seg s).avail_prev ≢ s) where
  abbrev unlinked_before : World
  unlinked_before =
      let v = w.seg s in
      if v.avail_prev != 0
      then set_seg v.avail_prev (record (w.seg v.avail_prev) { avail_next = v.avail_next }) w
      else record w { g = record w.g { avail = v.avail_next } }

  before-next :
      (a : ℕ)
      → a ≢ 0
      → (unlinked_before.seg a).avail_next
        ≡ (if (w.seg s).avail_prev == a then (w.seg s).avail_next else (w.seg a).avail_next)
  before-next a nz =
      let v = w.seg s in
      elim (Bool-cases (v.avail_prev != 0)) [
        | inl some_prev ↦ rw some_prev (
            update-field (λ (u : Segment). u.avail_next) w.seg v.avail_prev a
              (record (w.seg v.avail_prev) { avail_next = v.avail_next }))
        | inr no_prev ↦
            let miss : (v.avail_prev == a) ≡ false = ground (arith, nz, no_prev) in
            rw (no_prev, miss) refl
      ]

  before-prev : (a : ℕ) → (unlinked_before.seg a).avail_prev ≡ (w.seg a).avail_prev
  before-prev a =
      let v = w.seg s in
      elim (Bool-cases (v.avail_prev != 0)) [
        | inl some_prev ↦ rw some_prev (
            update-keeps (λ (u : Segment). u.avail_prev) w.seg v.avail_prev a
              (record (w.seg v.avail_prev) { avail_next = v.avail_next }) refl)
        | inr no_prev ↦ rw no_prev refl
      ]

  -- The record of `s` itself has both links still.
  next-s : s ≢ 0 → (unlinked_before.seg s).avail_next ≡ (w.seg s).avail_next
  next-s nz =
      let miss : ((w.seg s).avail_prev == s) ≡ false = ground (arith, apart) in
      before-next s nz ∙ (rw miss refl)

  abbrev unlinked : World
  unlinked =
      let n = (unlinked_before.seg s).avail_next in
      if n != 0
      then set_seg n
          (record (unlinked_before.seg n) { avail_prev = (unlinked_before.seg s).avail_prev })
          unlinked_before
      else unlinked_before

  unlinked-next : (a : ℕ) → (unlinked.seg a).avail_next ≡ (unlinked_before.seg a).avail_next
  unlinked-next a =
      let n = (unlinked_before.seg s).avail_next in
      elim (Bool-cases (n != 0)) [
        | inl some_next ↦ rw some_next (
            update-keeps (λ (u : Segment). u.avail_next) unlinked_before.seg n a
              (record (unlinked_before.seg n) { avail_prev = (unlinked_before.seg s).avail_prev })
              refl)
        | inr no_next ↦ rw no_next refl
      ]

  unlinked-prev :
      (a : ℕ)
      → a ≢ 0
      → (unlinked.seg a).avail_prev ≡ (
          if (unlinked_before.seg s).avail_next == a
          then (unlinked_before.seg s).avail_prev
          else (unlinked_before.seg a).avail_prev)
  unlinked-prev a nz =
      let n = (unlinked_before.seg s).avail_next in
      elim (Bool-cases (n != 0)) [
        | inl some_next ↦ rw some_next (
            update-field (λ (u : Segment). u.avail_prev) unlinked_before.seg n a
              (record (unlinked_before.seg n) { avail_prev = (unlinked_before.seg s).avail_prev }))
        | inr no_next ↦
            let miss : (n == a) ≡ false = ground (arith, nz, no_next) in rw (no_next, miss) refl
      ]

  unlinked-Cut :
      s ≢ 0
      → Doubly.Cut
          (λ (v : Segment). v.avail_next)
          (λ (v : Segment). v.avail_prev)
          w.seg
          unlinked.seg
          s
  unlinked-Cut nz = record {
    next_lem = λ a some_a.
        unlinked-next a
        ∙ before-next a some_a
        ∙ ap (λ t. if t then (w.seg s).avail_next else (w.seg a).avail_next)
            (==_comm (w.seg s).avail_prev a);
    prev_lem = λ a some_a.
        unlinked-prev a some_a
        ∙ (λ i. if next-s nz i == a then before-prev s i else before-prev a i)
        ∙ ap (λ t. if t then (w.seg s).avail_prev else (w.seg a).avail_prev)
            (==_comm (w.seg s).avail_next a);
  }

  unlinked-avail :
      unlinked.avail ≡ (if (w.seg s).avail_prev != 0 then w.avail else (w.seg s).avail_next)
  unlinked-avail =
      let e : unlinked.avail ≡ unlinked_before.avail =
        elim (Bool-cases ((unlinked_before.seg s).avail_next != 0)) [
          | inl some_next ↦ rw some_next refl
          | inr no_next ↦ rw no_next refl
        ] in
      e ∙ (elim (Bool-cases ((w.seg s).avail_prev != 0)) [
        | inl some_prev ↦ rw some_prev refl
        | inr no_prev ↦ rw no_prev refl
      ])

  -- The last store of `avail_remove`, into the record of `s`, leaves the others.
  removed-Avail :
      (xs : List ℕ)
      → count s xs ≡ 0
      → AvailFrom unlinked.seg 0 unlinked.avail xs
      → Avail (avail_remove s w) xs
  unfolding avail_remove
  removed-Avail xs out d =
      let last = record (unlinked.seg s) { avail_prev = 0; avail_next = 0; in_avail = false } in
      Doubly.Doubly-frame (λ (v : Segment). v.avail_next) (λ (v : Segment). v.avail_prev)
        unlinked.seg (update unlinked.seg s last) 0 unlinked.avail xs
        (λ a here.
          let other : s ≢ a = λ e. omega (arith, out, subst (λ t. 0 < count t xs) (sym e) here) in
          let same = update_ne unlinked.seg s a last other in
          (ap (λ (v : Segment). v.avail_next) same, ap (λ (v : Segment). v.avail_prev) same))
        d

-- The others stay in their order when a segment leaves the list.
pub avail_remove-Avail :
    (s : ℕ) (w : World) (front back : List ℕ)
    → s ≢ 0
    → ((a : ℕ) → count a (front ++ (s ∷ back)) ≤ 1)
    → Avail w (front ++ (s ∷ back))
    → Avail (avail_remove s w) (front ++ back)
avail_remove-Avail s w [] back nz once d =
    let apart : (w.seg s).avail_prev ≢ s = λ e. nz (sym e ∙ d.2) in
    let no_prev : ((w.seg s).avail_prev != 0) ≡ false = ground (arith, d.2) in
    let out : count s back ≡ 0 = ground (arith, once s) in
    removed-Avail s w apart back out (
      subst (λ q. AvailFrom (unlinked s w apart).seg 0 q back)
        (sym (unlinked-avail s w apart ∙ (rw no_prev refl)))
        (Doubly.Doubly-after (λ (v : Segment). v.avail_next) (λ (v : Segment). v.avail_prev) w.seg
          (unlinked s w apart).seg s 0 back (unlinked-Cut s w apart nz) d.2 d.3
          (Doubly.Doubly-ne-null (λ (v : Segment). v.avail_next) (λ (v : Segment). v.avail_prev)
            w.seg s (w.seg s).avail_next back d.3)
          (λ a. omega (arith, once a))))
avail_remove-Avail s w (x ∷ xs) back nz once d =
    let last =
      Doubly.prev-last (λ (v : Segment). v.avail_next) (λ (v : Segment). v.avail_prev) w.seg 0
        w.avail s x xs back d in
    let alone : count s (x ∷ xs) + count s back ≡ 0 =
      ground (arith, once s, count-append s (x ∷ xs) (s ∷ back)) in
    let apart : (w.seg s).avail_prev ≢ s =
      λ e. omega (arith, alone, subst (λ t. 0 < count t (x ∷ xs)) e last) in
    let null_out =
      Doubly.Doubly-ne-null (λ (v : Segment). v.avail_next) (λ (v : Segment). v.avail_prev) w.seg 0
        w.avail (x ∷ (xs ++ (s ∷ back))) d in
    let has_prev : (w.seg s).avail_prev ≢ 0 = λ e. omega (
      arith,
      null_out,
      count-append 0 (x ∷ xs) (s ∷ back),
      subst (λ t. 0 < count t (x ∷ xs)) e last,
    ) in
    let some_prev : ((w.seg s).avail_prev != 0) ≡ true = ground (arith, has_prev) in
    removed-Avail s w apart (x ∷ (xs ++ back)) (omega (arith, alone, count-append s (x ∷ xs) back))
      (subst (λ q. AvailFrom (unlinked s w apart).seg 0 q (x ∷ (xs ++ back)))
        (sym (unlinked-avail s w apart ∙ (rw some_prev refl)))
        (Doubly.Doubly-Cut (λ (v : Segment). v.avail_next) (λ (v : Segment). v.avail_prev) w.seg
          (unlinked s w apart).seg s 0 w.avail x xs back (unlinked-Cut s w apart nz) d once))

-- The rest of the state of the central heap.
pub avail_remove-g :
    (s : ℕ) (w : World) → (avail_remove s w).g ≡ record w.g { avail = (avail_remove s w).avail }
unfolding avail_remove
avail_remove-g s w =
    let v = w.seg s in
    let w₁ =
      if v.avail_prev != 0
      then set_seg v.avail_prev (record (w.seg v.avail_prev) { avail_next = v.avail_next }) w
      else record w { g = record w.g { avail = v.avail_next } } in
    let n = (w₁.seg s).avail_next in
    let w₂ =
      if n != 0
      then set_seg n (record (w₁.seg n) { avail_prev = (w₁.seg s).avail_prev }) w₁
      else w₁ in
    let e₁ : w₁.g ≡ record w.g { avail = w₁.avail } = elim (Bool-cases (v.avail_prev != 0)) [
      | inl some_prev ↦ rw some_prev refl
      | inr no_prev ↦ rw no_prev refl
    ] in
    let e₂ : w₂.g ≡ w₁.g = elim (Bool-cases (n != 0)) [
      | inl some_next ↦ rw some_next refl
      | inr no_next ↦ rw no_next refl
    ] in
    e₂ ∙ e₁ ∙ ap (λ z. record w.g { avail = z }) (sym (ap (λ g. g.avail) e₂))

pub avail_remove-link : (s : ℕ) (w : World) → (avail_remove s w).link ≡ w.link
unfolding avail_remove
avail_remove-link s w =
    let v = w.seg s in
    let w₁ =
      if v.avail_prev != 0
      then set_seg v.avail_prev (record (w.seg v.avail_prev) { avail_next = v.avail_next }) w
      else record w { g = record w.g { avail = v.avail_next } } in
    let n = (w₁.seg s).avail_next in
    let w₂ =
      if n != 0
      then set_seg n (record (w₁.seg n) { avail_prev = (w₁.seg s).avail_prev }) w₁
      else w₁ in
    let e₁ : w₁.link ≡ w.link = elim (Bool-cases (v.avail_prev != 0)) [
      | inl some_prev ↦ rw some_prev refl
      | inr no_prev ↦ rw no_prev refl
    ] in
    let e₂ : w₂.link ≡ w₁.link = elim (Bool-cases (n != 0)) [
      | inl some_next ↦ rw some_next refl
      | inr no_next ↦ rw no_next refl
    ] in
    e₂ ∙ e₁
