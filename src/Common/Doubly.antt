-- ===== src/Common/Doubly.antt =====
-- Lists in memory that are linked both ways.
use Prim.Native.Nat.{ℕ, ◌<◌, ◌≤◌}
use mathlib.Core.Path.{◌≡◌, refl, sym, subst, ◌∙◌}
use mathlib.Core.Logic.{◌≢◌}
use mathlib.Core.Bool.{true, false}
use mathlib.Core.List.{List, [], ◌∷◌, ◌++◌}
use native.Mathlib.Omega.{arith}
use hmalloc.Common.Tests.{◌==◌, if◌then◌else◌}
use hmalloc.Common.Multiset.{count, count-append}

module _ {N : Type 0} (next prev : N → ℕ) where
  -- From `p` on stand the nodes `xs`, after `before`.
  abbrev pub Doubly : (ℕ → N) → ℕ → ℕ → List ℕ → Type 0
  Doubly page before p [] = p ≡ 0
  Doubly page before p (x ∷ xs) =
      (p ≡ x) × (x ≢ 0) × ((prev (page x)) ≡ before) × Doubly page x (next (page x)) xs

  -- The nodes of a list that another memory links in the same way.
  pub Doubly-frame :
      (f g : ℕ → N) (before p : ℕ) (xs : List ℕ)
      → ((a : ℕ) → 0 < count a xs → ((next (g a)) ≡ (next (f a))) × ((prev (g a)) ≡ (prev (f a))))
      → Doubly f before p xs
      → Doubly g before p xs
  Doubly-frame f g before p [] same c = c
  Doubly-frame f g before p (x ∷ xs) same c =
      let e = same x (ground arith) in
      (
        c.0,
        c.1,
        e.1 ∙ c.2,
        subst (λ q. Doubly g x q xs) (sym e.0)
            (Doubly-frame f g x (next (f x)) xs (λ a h. same a (omega arith)) c.3),
      )

  -- `g` is `f` with the node `p` cut out: the one before it and the one after it are linked.
  pub record Cut (f g : ℕ → N) (p : ℕ) : Type 0 where
    pub next_lem :
        (a : ℕ) → a ≢ 0 → (next (g a)) ≡ (if a == (prev (f p)) then (next (f p)) else (next (f a)))
    pub prev_lem :
        (a : ℕ) → a ≢ 0 → (prev (g a)) ≡ (if a == (next (f p)) then (prev (f p)) else (prev (f a)))

  -- The node before `p` is the last one of `xs`.
  pub prev-last :
      (f : ℕ → N) (before h p x : ℕ) (xs ys : List ℕ)
      → Doubly f before h (x ∷ (xs ++ (p ∷ ys)))
      → 0 < count (prev (f p)) (x ∷ xs)
  prev-last f before h p x [] ys c = subst (λ q. 0 < count q (x ∷ [])) (sym c.3.2) (ground arith)
  prev-last f before h p x (y ∷ xs) ys c = omega (arith, prev-last f x (next (f x)) p y xs ys c.3)

  -- The node after `p` is the first one of `ys`, or none.
  pub next-first :
      (f : ℕ → N) (before h p : ℕ) (xs ys : List ℕ) (a : ℕ)
      → Doubly f before h (xs ++ (p ∷ ys))
      → a ≢ 0
      → count a ys ≡ 0
      → a ≢ (next (f p))
  next-first f before h p [] [] a c nz out = λ e. nz (e ∙ c.3)
  next-first f before h p [] (y ∷ ys) a c nz out = λ e. ground (arith, c.3.0)
  next-first f before h p (x ∷ xs) ys a c nz out = next-first f x (next (f x)) p xs ys a c.3 nz out

  pub Doubly-ne-null :
      (f : ℕ → N) (before h : ℕ) (xs : List ℕ) → Doubly f before h xs → count 0 xs ≡ 0
  Doubly-ne-null f before h [] c = refl
  Doubly-ne-null f before h (x ∷ xs) c = ground (arith, Doubly-ne-null f x (next (f x)) xs c.3)

  -- What follows the node that is cut out.
  pub Doubly-after :
      (f g : ℕ → N) (p x : ℕ) (ys : List ℕ)
      → Cut f g p
      → (prev (f p)) ≡ x
      → Doubly f p (next (f p)) ys
      → count x ys ≡ 0
      → ((a : ℕ) → count a ys ≤ 1)
      → Doubly g x (next (f p)) ys
  Doubly-after f g p x [] k e c out once = c
  Doubly-after f g p x (y ∷ ys) k e c out once =
      let at_y : (y == (next (f p))) ≡ true = ground (arith, c.0) in
      let not_x : (y == (prev (f p))) ≡ false = ground (arith, e) in
      let zero_out = Doubly-ne-null f y (next (f y)) ys c.3 in
      (
        c.0,
        c.1,
        k.prev_lem y c.1 ∙ (rw at_y e),
        subst (λ q. Doubly g y q ys) (sym (k.next_lem y c.1 ∙ (rw not_x refl)))
            (Doubly-frame f g y (next (f y)) ys
              (λ a h. (kept_next a h zero_out, kept_prev a h zero_out)) c.3),
      )
    where
      kept_next : (a : ℕ) → 0 < count a ys → count 0 ys ≡ 0 → (next (g a)) ≡ (next (f a))
      kept_next a h z =
          let nz : a ≢ 0 = λ q. omega (arith, z, subst (λ t. 0 < count t ys) q h) in
          let miss : (a == (prev (f p))) ≡ false = ground (arith, e, out) in
          k.next_lem a nz ∙ (rw miss refl)

      kept_prev : (a : ℕ) → 0 < count a ys → count 0 ys ≡ 0 → (prev (g a)) ≡ (prev (f a))
      kept_prev a h z =
          let miss : (a == (next (f p))) ≡ false = ground (arith, c.0, once y) in
          let nz : a ≢ 0 = λ q. omega (arith, z, subst (λ t. 0 < count t ys) q h) in
          k.prev_lem a nz ∙ (rw miss refl)

  -- Cutting a node out of a list that does not begin with it leaves the list of the others.
  pub Doubly-Cut :
      (f g : ℕ → N) (p : ℕ) (before h x : ℕ) (xs ys : List ℕ)
      → Cut f g p
      → Doubly f before h (x ∷ (xs ++ (p ∷ ys)))
      → ((a : ℕ) → count a (x ∷ (xs ++ (p ∷ ys))) ≤ 1)
      → Doubly g before h (x ∷ (xs ++ ys))
  Doubly-Cut f g p before h x [] ys k c once =
      let at_x : (x == (prev (f p))) ≡ true = ground (arith, c.3.2) in
      let out : count x ys ≡ 0 = ground (arith, once x) in
      let not_next : (x == (next (f p))) ≡ false =
        ground (arith, next-first f before h p (x ∷ []) ys x c c.1 out) in
      (
        c.0,
        c.1,
        k.prev_lem x c.1 ∙ (rw not_next c.2),
        subst (λ q. Doubly g x q ys) (sym (k.next_lem x c.1 ∙ (rw at_x refl)))
            (Doubly-after f g p x ys k c.3.2 c.3.3 out (λ a. omega (arith, once a))),
      )
  Doubly-Cut f g p before h x (y ∷ xs) ys k c once =
      let last = prev-last f x (next (f x)) p y xs ys c.3 in
      let apart = count-append x (y ∷ xs) (p ∷ ys) in
      let not_last : (x == (prev (f p))) ≡ false =
        (let alone : count x (y ∷ xs) ≡ 0 = ground (arith, once x, apart) in
          let ne : x ≢ (prev (f p)) =
            λ e. omega (arith, alone, subst (λ t. 0 < count t (y ∷ xs)) (sym e) last) in
          ground arith) in
      let out : count x ys ≡ 0 = ground (arith, once x, apart) in
      let not_next : (x == (next (f p))) ≡ false =
        ground (arith, next-first f before h p (x ∷ y ∷ xs) ys x c c.1 out) in
      (
        c.0,
        c.1,
        k.prev_lem x c.1 ∙ (rw not_next c.2),
        subst (λ q. Doubly g x q (y ∷ (xs ++ ys))) (sym (k.next_lem x c.1 ∙ (rw not_last refl)))
            (Doubly-Cut f g p x (next (f x)) y xs ys k c.3 (λ a. omega (arith, once a))),
      )
