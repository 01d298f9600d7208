-- ===== src/Central/Balance.antt =====
-- The account of pages: every usable page of a segment is in use, free or abandoned.
use hmalloc.Common.{
  ℕ, zero, suc, ◌+◌, ◌*◌, ◌≤◌, ◌≡◌, refl, sym, ap, subst, ◌∙◌, inl, inr, Bool, true, false, some,
  List, [], ◌∷◌, arith, ℕ_discrete, ◌==◌, ◌!=◌, if◌then◌else◌, Bool-cases, length, update,
}
use hmalloc.Common.Word.{wrap}
use hmalloc.Page.Chain.{Chain}
use hmalloc.Segment.{Segment}
use hmalloc.Central.{World, set_seg, avail_push, avail_remove, unlink_segment, all_remove}

-- The counters agree, on words: 63 usable pages for every segment.
abbrev pub Balanced : World → Type 0
Balanced w =
    wrap (w.pages_in_use + w.free_page_count + w.abandoned_count) ≡ wrap (63 * w.num_segments)

-- A step that leaves the counters, the registry and the pages alone.
pub record Counts (w w' : World) : Type 0 where
  pub in_use : w'.pages_in_use ≡ w.pages_in_use
  pub free_pages : w'.free_page_count ≡ w.free_page_count
  pub abandoned : w'.abandoned_count ≡ w.abandoned_count
  pub num : w'.num_segments ≡ w.num_segments
  pub table : w'.registry ≡ w.registry
  pub memory : w'.page ≡ w.page

-- One that leaves the list of all segments alone, too.
pub record Keeps (w w' : World) : Type 0 where
  pub counts : Counts w w'
  pub head : w'.segments ≡ w.segments
  pub next : (p : ℕ) → (w'.seg p).next ≡ (w.seg p).next

Counts-refl : (w : World) → Counts w w
Counts-refl w = record {
  in_use = refl;
  free_pages = refl;
  abandoned = refl;
  num = refl;
  table = refl;
  memory = refl;
}

next-update :
    (f : ℕ → Segment) (s p : ℕ) (v : Segment)
    → v.next ≡ (f s).next
    → (update f s v p).next ≡ (f p).next
next-update f s p v e = elim (ℕ_discrete s p) [
  | yes here ↦ let hit : (s == p) ≡ true = ground arith in rw hit (e ∙ ap (λ q. (f q).next) here)
  | no other ↦ let miss : (s == p) ≡ false = ground arith in rw miss refl
]

pub Keeps-set_seg :
    (w : World) (s : ℕ) (v : Segment) → v.next ≡ (w.seg s).next → Keeps w (set_seg s v w)
Keeps-set_seg w s v e = record {
  counts = record {
    in_use = refl;
    free_pages = refl;
    abandoned = refl;
    num = refl;
    table = refl;
    memory = refl;
  };
  head = refl;
  next = λ p. next-update w.seg s p v e;
}

Keeps-avail : (w : World) (a : ℕ) → Keeps w (record w { g = record w.g { avail = a } })
Keeps-avail w a = record {
  counts = record {
    in_use = refl;
    free_pages = refl;
    abandoned = refl;
    num = refl;
    table = refl;
    memory = refl;
  };
  head = refl;
  next = λ p. refl;
}

pub Keeps-Keeps : (u v w : World) → Keeps u v → Keeps v w → Keeps u w
Keeps-Keeps u v w a b = record {
  counts = record {
    in_use = b.counts.in_use ∙ a.counts.in_use;
    free_pages = b.counts.free_pages ∙ a.counts.free_pages;
    abandoned = b.counts.abandoned ∙ a.counts.abandoned;
    num = b.counts.num ∙ a.counts.num;
    table = b.counts.table ∙ a.counts.table;
    memory = b.counts.memory ∙ a.counts.memory;
  };
  head = b.head ∙ a.head;
  next = λ p. b.next p ∙ a.next p;
}

pub Keeps-if : (b : Bool) (w u v : World) → Keeps w u → Keeps w v → Keeps w (if b then u else v)
Keeps-if true w u v a c = a
Keeps-if false w u v a c = c

pub Keeps-refl : (w : World) → Keeps w w
Keeps-refl w = record { counts = Counts-refl w; head = refl; next = λ p. refl }

pub Keeps-avail_push : (s : ℕ) (w : World) → Keeps w (avail_push s w)
unfolding avail_push
Keeps-avail_push s w₀ =
    let w₁ = set_seg s (record (w₀.seg s) { avail_prev = 0; avail_next = w₀.avail }) w₀ in
    let w₂ =
      if w₁.avail != 0
      then set_seg w₁.avail (record (w₁.seg w₁.avail) { avail_prev = s }) w₁
      else w₁ in
    let w₃ = record w₂ { g = record w₂.g { avail = s } } in
    Keeps-Keeps w₀ w₁ _ (Keeps-set_seg w₀ s _ refl) (
      Keeps-Keeps w₁ w₂ _
        (Keeps-if (w₁.avail != 0) w₁ _ w₁ (Keeps-set_seg w₁ w₁.avail _ refl) (Keeps-refl w₁))
        (Keeps-Keeps w₂ w₃ _ (Keeps-avail w₂ s) (Keeps-set_seg w₃ s _ refl)))

pub Keeps-avail_remove : (s : ℕ) (w : World) → Keeps w (avail_remove s w)
unfolding avail_remove
Keeps-avail_remove s w₀ =
    let v = w₀.seg s in
    let w₁ =
      if v.avail_prev != 0
      then set_seg v.avail_prev (record (w₀.seg v.avail_prev) { avail_next = v.avail_next }) w₀
      else record w₀ { g = record w₀.g { avail = v.avail_next } } in
    let n = (w₁.seg s).avail_next in
    let w₂ =
      if n != 0
      then set_seg n (record (w₁.seg n) { avail_prev = (w₁.seg s).avail_prev }) w₁
      else w₁ in
    Keeps-Keeps w₀ w₁ _
      (Keeps-if (v.avail_prev != 0) w₀ _ _ (Keeps-set_seg w₀ v.avail_prev _ refl)
        (Keeps-avail w₀ v.avail_next))
      (Keeps-Keeps w₁ w₂ _ (Keeps-if (n != 0) w₁ _ w₁ (Keeps-set_seg w₁ n _ refl) (Keeps-refl w₁))
        (Keeps-set_seg w₂ s _ refl))

-- The list of all segments ends, so that the search for the one before `s` ends.
unlink_segment-Counts :
    (fuel s p : ℕ) (w : World) (xs : List ℕ)
    → Chain (λ q. (w.seg q).next) p xs
    → length xs ≤ fuel
    → (w' : World) × (unlink_segment fuel s p w ≡ some w') × Counts w w'
unfolding unlink_segment
unlink_segment-Counts zero s p w [] c enough =
    let end : (p == 0) ≡ true = ground arith in (w, rw end refl, Counts-refl w)
unlink_segment-Counts zero s p w (x ∷ xs) c enough = absurd (omega arith)
unlink_segment-Counts (suc fuel) s p w [] c enough =
    let end : (p == 0) ≡ true = ground arith in (w, rw end refl, Counts-refl w)
unlink_segment-Counts (suc fuel) s p w (x ∷ xs) c enough =
    let more : (p == 0) ≡ false = ground (arith, c.0, c.1) in
    elim (Bool-cases ((w.seg p).next == s)) [
      | inl hit ↦ (
        set_seg p (record (w.seg p) { next = (w.seg s).next }) w,
        rw (more, hit) refl,
        record {
          in_use = refl;
          free_pages = refl;
          abandoned = refl;
          num = refl;
          table = refl;
          memory = refl;
        },
      )
      | inr miss ↦
          let rest = subst (λ q. Chain (λ q. (w.seg q).next) (w.seg q).next xs) (sym c.0) c.2 in
          let (w', run, same) =
            unlink_segment-Counts fuel s (w.seg p).next w xs rest (omega arith) in
          (w', rw (more, miss) run, same)
    ]

pub all_remove-Counts :
    (s : ℕ) (w : World) (xs : List ℕ)
    → Chain (λ q. (w.seg q).next) w.segments xs
    → length xs ≤ w.num_segments
    → (w' : World) × (all_remove s w ≡ some w') × Counts w w'
unfolding all_remove
all_remove-Counts s w xs c enough = elim (Bool-cases (w.segments == s)) [
  | inl first ↦ (
    record w { g = record w.g { segments = (w.seg s).next } },
    rw first refl,
    record {
      in_use = refl;
      free_pages = refl;
      abandoned = refl;
      num = refl;
      table = refl;
      memory = refl;
    },
  )
  | inr later ↦
      let (w', run, same) = unlink_segment-Counts w.num_segments s w.segments w xs c enough in
      (w', rw later run, same)
]
