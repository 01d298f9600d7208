-- ===== src/Central/Avail.antt =====
-- The list of the segments that have a free page, linked both ways: `avail_push` and `avail_remove`.
pub mod Push
pub mod Remove
use hmalloc.Common.{
  ℕ, ◌+◌, ◌≤◌, ◌<◌, ◌≡◌, refl, sym, ap, subst, ◌∙◌, ◌≢◌, inl, inr, Bool, true, false, List, [], ◌∷◌,
  ◌++◌, arith, ◌==◌, ◌!=◌, if◌then◌else◌, Bool-cases, update, update-keeps, update-field, ==_comm,
  update_ne,
}
use hmalloc.Common.Doubly
use hmalloc.Common.Multiset.{count, count-append}
use hmalloc.Segment.{Segment}
use hmalloc.Central.{World, set_seg, avail_push, avail_remove}

abbrev avail_next : Segment → ℕ
avail_next v = v.avail_next

abbrev avail_prev : Segment → ℕ
avail_prev v = v.avail_prev

-- From `p` on stand the segments `xs`, after `before`.
abbrev pub AvailFrom : (ℕ → Segment) → ℕ → ℕ → List ℕ → Type 0
AvailFrom seg before p xs =
    Doubly.Doubly (λ (v : Segment). v.avail_next) (λ (v : Segment). v.avail_prev) seg before p xs

abbrev pub Avail : World → List ℕ → Type 0
Avail w xs = AvailFrom w.seg 0 w.avail xs

module _ (field : Segment → ℕ)
    (apart : (v : Segment) (next prev : ℕ) (b : Bool)
      → field (record v { avail_next = next; avail_prev = prev; in_avail = b }) ≡ field v) where
  -- The two operations leave the rest of every record alone.
  pub avail_push-field :
      (s : ℕ) (w : World) (q : ℕ) → field ((avail_push s w).seg q) ≡ field (w.seg q)
  unfolding avail_push
  avail_push-field s w q =
      let v = record (w.seg s) { avail_prev = 0; avail_next = w.avail } in
      let w₁ = set_seg s v w in
      let u = record (w₁.seg w.avail) { avail_prev = s } in
      let w₂ = if w.avail != 0 then set_seg w.avail u w₁ else w₁ in
      let e₂ : field (w₂.seg q) ≡ field (w₁.seg q) = elim (Bool-cases (w.avail != 0)) [
        | inl some_head ↦ rw some_head (
            update-keeps field w₁.seg w.avail q u
              (apart (w₁.seg w.avail) u.avail_next s u.in_avail))
        | inr no_head ↦ rw no_head refl
      ] in
      update-keeps field w₂.seg s q (record (w₂.seg s) { in_avail = true })
        (apart (w₂.seg s) (w₂.seg s).avail_next (w₂.seg s).avail_prev true)
      ∙ e₂
      ∙ update-keeps field w.seg s q v (apart (w.seg s) w.avail 0 v.in_avail)

  pub avail_remove-field :
      (s : ℕ) (w : World) (q : ℕ) → field ((avail_remove s w).seg q) ≡ field (w.seg q)
  unfolding avail_remove
  avail_remove-field s w q =
      let v = w.seg s in
      let before = record (w.seg v.avail_prev) { avail_next = v.avail_next } in
      let w₁ =
        if v.avail_prev != 0
        then set_seg v.avail_prev before w
        else record w { g = record w.g { avail = v.avail_next } } in
      let n = (w₁.seg s).avail_next in
      let after = record (w₁.seg n) { avail_prev = (w₁.seg s).avail_prev } in
      let w₂ = if n != 0 then set_seg n after w₁ else w₁ in
      let out = record (w₂.seg s) { avail_prev = 0; avail_next = 0; in_avail = false } in
      let e₁ : field (w₁.seg q) ≡ field (w.seg q) = elim (Bool-cases (v.avail_prev != 0)) [
        | inl some_prev ↦ rw some_prev (
            update-keeps field w.seg v.avail_prev q before
              (apart (w.seg v.avail_prev) before.avail_next before.avail_prev before.in_avail))
        | inr no_prev ↦ rw no_prev refl
      ] in
      let e₂ : field (w₂.seg q) ≡ field (w₁.seg q) = elim (Bool-cases (n != 0)) [
        | inl some_next ↦ rw some_next (
            update-keeps field w₁.seg n q after
              (apart (w₁.seg n) after.avail_next after.avail_prev after.in_avail))
        | inr no_next ↦ rw no_next refl
      ] in
      update-keeps field w₂.seg s q out (apart (w₂.seg s) 0 0 false) ∙ e₂ ∙ e₁
