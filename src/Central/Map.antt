-- ===== src/Central/Map.antt =====
-- `map_segment`: the steps that a new segment goes through, and its place in the account.
use hmalloc.Common.{
  ℕ, ◌+◌, ◌≡◌, refl, ap, ◌∙◌, inl, inr, true, false, arith, ℕ_discrete, ◌==◌, ◌!=◌, Bool-cases,
  update,
}
use hmalloc.Common.Word.{wrap}
use hmalloc.Segment.{Segment}
use hmalloc.Central.{World, set_seg, avail_push}
use hmalloc.Central.Balance.{Balanced, Keeps-avail_push}
use hmalloc.Central.Acquire.{add_pages, clear_pages, new_segment}
use hmalloc.Central.Grow.{Added, add_pages-Added}

free_count-update :
    (f : ℕ → Segment) (a q : ℕ) (v : Segment)
    → v.free_count ≡ (f a).free_count
    → (update f a v q).free_count ≡ (f q).free_count
free_count-update f a q v e = elim (ℕ_discrete a q) [
  | yes here ↦
      let hit : (a == q) ≡ true = ground arith in rw hit (e ∙ ap (λ p. (f p).free_count) here)
  | no other ↦ let miss : (a == q) ≡ false = ground arith in rw miss refl
]

module _ (s : ℕ) (w : World) where
  abbrev pub fresh : World
  fresh = record w { seg = update w.seg s new_segment; page = clear_pages 64 s w.page }

  abbrev pub filled : World
  filled = add_pages 63 1 s fresh

  self : (s == s) ≡ true
  self = ground arith

  pub filled-Added : Added s 63 fresh filled
  filled-Added = add_pages-Added 63 1 s fresh (rw self (omega arith))

  pub filled-count : (filled.seg s).free_count ≡ 63
  filled-count = rw filled-Added.count (rw self refl)

  pub free_count-avail_push :
      (v : World) → ((avail_push s v).seg s).free_count ≡ (v.seg s).free_count
  unfolding avail_push
  free_count-avail_push v =
      let w₁ = set_seg s (record (v.seg s) { avail_prev = 0; avail_next = v.avail }) v in
      let at_s : (w₁.seg s).free_count ≡ (v.seg s).free_count = rw self refl in
      elim (Bool-cases (v.avail != 0)) [
        | inl some_head ↦ rw (self, some_head) (free_count-update w₁.seg v.avail s _ refl ∙ at_s)
        | inr no_head ↦ rw (self, no_head) at_s
      ]

  pub avail-avail_push : (v : World) → (avail_push s v).avail ≡ s
  unfolding avail_push
  avail-avail_push v = refl

  -- The segment's pages are counted and it stands in the list of all segments.
  abbrev pub linked : World
  linked = set_seg s (record (filled.seg s) { next = filled.segments }) filled

  abbrev pub listed : World
  listed = record linked {
    g = record filled.g {
      free_page_count = wrap (filled.free_page_count + (linked.seg s).free_count);
      segments = s;
      num_segments = wrap (filled.num_segments + 1);
      free_segments = wrap (filled.free_segments + 1);
    };
  }

  pub listed-count : (listed.seg s).free_count ≡ 63
  listed-count = rw self filled-count

  pub listed-next : (listed.seg s).next ≡ w.segments
  listed-next = rw self (ap (λ g. g.segments) filled-Added.g)

  pub entered-Balanced : Balanced w → Balanced (avail_push s listed)
  entered-Balanced balanced =
      let e = (Keeps-avail_push s listed).counts in
      let a = ap (λ g. g.pages_in_use) filled-Added.g in
      let b = ap (λ g. g.free_page_count) filled-Added.g in
      let c = ap (λ g. g.abandoned_count) filled-Added.g in
      let d = ap (λ g. g.num_segments) filled-Added.g in
      omega (arith, balanced, e.in_use, e.free_pages, e.abandoned, e.num, a, b, c, d, listed-count)
