-- ===== src/Override/Routing.antt =====
-- Which of the two allocators a pointer goes to.
use hmalloc.Common.{
  ℕ, ◌≤◌, ◌<◌, ◌≡◌, refl, Bool, false, Option, none, some, arith, ltb, ◌==◌, if◌then◌else◌,
}
use hmalloc.Run.{done}
use hmalloc.Common.Word.{word}
use hmalloc.Common.Multiset.{count}
use hmalloc.Constants.{segment_size}
use hmalloc.Segment.{region_base}
use hmalloc.Segment.Recovery.{region_base-floor}
use hmalloc.Registry.Table.{IsKey}
use hmalloc.Registry.Lookup.{IsRegistry, region_owns-count}
use hmalloc.Os.{Kernel}
use hmalloc.Heap.{Build}
use hmalloc.Api.{Api, hm_free, hm_realloc, hm_usable_size}
use hmalloc.Override.{
  Next, Both, owns, keep_next, keep_next_free, next_free, next_realloc, next_usable, checked_free,
  checked_realloc, checked_usable,
}

-- The base of an address above the first region is no mark of the table.
region_base-IsKey : (p : ℕ) → segment_size ≤ p → p < word → IsKey (region_base p)
region_base-IsKey p above fits = rw (region_base-floor p fits) (omega arith, omega arith)

-- Whether the region of `p` stands in the registry.
abbrev pub registered : ℕ → Api → Bool
registered p s = ltb 0 (count (region_base p) s.registry.cells)

pub owns-registered :
    (p : ℕ) (s : Api)
    → IsRegistry s.registry
    → segment_size ≤ p
    → p < word
    → owns p s ≡ done (registered p s)
unfolding owns
owns-registered p s w above fits =
    rw (region_owns-count s.registry (region_base p) w (region_base-IsKey p above fits)) refl

module _ {F : Type 0} where
  -- The entry points send a pointer to our allocator exactly when its region stands in our registry. Any
  -- other goes to the next allocator, or nowhere where there is none, and leaves ours as it was; a pointer
  -- of ours leaves the next allocator as it was.
  pub checked-Routed :
      (k : Kernel) (b : Build) (n : Next F) (p size : ℕ) (s : Both F)
      → IsRegistry s.ours.registry
      → segment_size ≤ p
      → p < word
      → (checked_free n p s ≡ (
          if registered p s.ours
          then keep_next_free s.next (hm_free p s.ours)
          else done (next_free n.free p s)))
        × (checked_realloc k b n p size s ≡ (
            if registered p s.ours
            then keep_next s.next (hm_realloc k b p size s.ours)
            else done (next_realloc n.realloc p size s)))
        × (checked_usable n p s
            ≡ done
                (if registered p s.ours then hm_usable_size p s.ours else next_usable n.usable p s))
        × ((next_free n.free p s).ours ≡ s.ours)
        × ((next_realloc n.realloc p size s).1.ours ≡ s.ours)
  unfolding checked_free checked_realloc checked_usable
  checked-Routed k b n p size s w above fits =
      let not_null : (p == 0) ≡ false = ground arith in
      let own = owns-registered p s.ours w above fits in
      (
        rw (not_null, own) refl,
        rw (not_null, own) refl,
        rw (not_null, own) refl,
        keeps_free n.free,
        keeps_realloc n.realloc,
      )
    where
      keeps_free : (f : Option (ℕ → F → F)) → (next_free f p s).ours ≡ s.ours
      keeps_free none = refl
      keeps_free (some rf) = refl

      keeps_realloc : (f : Option (ℕ → ℕ → F → ℕ × F)) → (next_realloc f p size s).1.ours ≡ s.ours
      keeps_realloc none = refl
      keeps_realloc (some rr) = refl
