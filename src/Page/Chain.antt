-- ===== src/Page/Chain.antt =====
-- Lists of blocks in memory: a chain of `next` pointers that ends in null.
use hmalloc.Common.{
  ℕ, zero, suc, ◌+◌, ◌^◌, ◌≤◌, ◌<◌, ◌≡◌, refl, sym, ap, subst, ◌∙◌, ◌≢◌, true, false, List, [], ◌∷◌,
  ◌++◌, arith, ◌==◌, length, update, update_ne, some,
}
use hmalloc.Common.Multiset.{count}
use hmalloc.Page.{Links, u32, last_block}

-- From `p` the links lead through the blocks `xs` to null.
abbrev pub Chain : Links → ℕ → List ℕ → Type 0
Chain link p [] = p ≡ 0
Chain link p (x ∷ xs) = (p ≡ x) × (x ≢ 0) × Chain link (link x) xs

-- A write to a block outside the chain leaves it alone.
pub Chain-update :
    (link : Links) (b v p : ℕ) (xs : List ℕ)
    → count b xs ≡ 0
    → Chain link p xs
    → Chain (update link b v) p xs
Chain-update link b v p [] out c = c
Chain-update link b v p (x ∷ xs) out c =
    let miss : (b == x) ≡ false = ground arith in
    (c.0, c.1, rw miss (Chain-update link b v (link x) xs (ground arith) c.2))

-- A chain stays where the links of its blocks do.
pub Chain-frame :
    (f g : Links) (p : ℕ) (xs : List ℕ)
    → ((a : ℕ) → 0 < count a xs → g a ≡ f a)
    → Chain f p xs
    → Chain g p xs
Chain-frame f g p [] same c = c
Chain-frame f g p (x ∷ xs) same c = (
  c.0,
  c.1,
  subst (λ q. Chain g q xs) (sym (same x (ground arith)))
      (Chain-frame f g (f x) xs (λ a here. same a (ground (arith, here))) c.2),
)

-- The chain is empty exactly when it starts at null.
pub Chain-null : (link : Links) (xs : List ℕ) → Chain link 0 xs → xs ≡ []
Chain-null link [] c = refl
Chain-null link (x ∷ xs) c = absurd (c.1 (sym c.0))

-- What the walk to the last block of a chain finds: the block, and the number of blocks.
pub record IsLast (link : Links) (q p : ℕ) (xs ys : List ℕ) (m : ℕ) (r : ℕ × ℕ) : Type 0 where
  pub inside : 0 < count r.0 xs
  pub counted : r.1 + 1 ≡ m + length xs
  pub joined : Chain (update link r.0 q) p (xs ++ ys)

IsLast-step :
    (link : Links) (p q x y : ℕ) (xs ys : List ℕ) (m : ℕ) (r : ℕ × ℕ)
    → count x (x ∷ y ∷ xs) ≤ 1
    → Chain link p (x ∷ y ∷ xs)
    → IsLast link q (link p) (y ∷ xs) ys (m + 1) r
    → IsLast link q p (x ∷ y ∷ xs) ys m r
IsLast-step link p q x y xs ys m r once c l =
    let other : r.0 ≢ x =
      λ e. absurd (ground (arith, once, subst (λ t. 0 < count t (y ∷ xs)) e l.inside)) in
    let kept : update link r.0 q x ≡ link p = update_ne link r.0 x q other ∙ ap link (sym c.0) in
    record {
      inside = ground (arith, l.inside);
      counted = omega (arith, l.counted);
      joined =
          (c.0, c.1, subst (λ t. Chain (update link r.0 q) t (y ∷ xs ++ ys)) (sym kept) l.joined);
    }

-- With enough fuel the walk ends at the last block, and linking that block to the start of another
-- chain joins the two.
pub last_block-IsLast :
    (n : ℕ) (link : Links) (p q x : ℕ) (xs ys : List ℕ) (m : ℕ)
    → length xs < n
    → m + length xs < 2 ^ 32
    → ((a : ℕ) → count a (x ∷ xs) + count a ys ≤ 1)
    → Chain link p (x ∷ xs)
    → Chain link q ys
    → (r : ℕ × ℕ) × (last_block n link p m ≡ some r) × IsLast link q p (x ∷ xs) ys m r
unfolding last_block
last_block-IsLast zero link p q x xs ys m fuel fits once c d = absurd (omega arith)
last_block-IsLast (suc n) link p q x [] ys m fuel fits once c d =
    let stop : (link p == 0) ≡ true = ground arith in
    let out : count p ys ≡ 0 = ground (arith, once x) in
    let self : update link p q x ≡ q = ground arith in
    (
      (p, m),
      rw (stop, last_block) refl,
      record {
        inside = ground arith;
        counted = omega arith;
        joined = (
          c.0,
          c.1,
          subst (λ t. Chain (update link p q) t ys) (sym self) (Chain-update link p q q ys out d),
        );
      },
    )
last_block-IsLast (suc n) link p q x (y ∷ xs) ys m fuel fits once c d =
    let more : (link p == 0) ≡ false = ground arith in
    let tick : u32 (m + 1) ≡ m + 1 = omega arith in
    let rest : Chain link (link p) (y ∷ xs) =
      subst (λ t. Chain link t (y ∷ xs)) (ap link (sym c.0)) c.2 in
    let (r, run, l) =
      last_block-IsLast n link (link p) q y xs ys (m + 1) (omega arith) (omega arith)
        (λ a. ground (arith, once a)) rest d in
    (
      r,
      rw (more, last_block) (subst (λ t. last_block n link (link p) t ≡ some r) (sym tick) run),
      IsLast-step link p q x y xs ys m r (omega (arith, once x)) c l,
    )

-- The walk alone ends on any chain that its fuel covers, at one of the blocks.
pub last_block_ends :
    (n : ℕ) (link : Links) (p x : ℕ) (xs : List ℕ) (m : ℕ)
    → length xs < n
    → Chain link p (x ∷ xs)
    → (r : ℕ × ℕ) × (last_block n link p m ≡ some r) × (0 < count r.0 (x ∷ xs))
unfolding last_block
last_block_ends zero link p x xs m fuel c = absurd (omega arith)
last_block_ends (suc n) link p x [] m fuel c =
    let stop : (link p == 0) ≡ true = ground arith in
    ((p, m), rw (stop, last_block) refl, ground arith)
last_block_ends (suc n) link p x (y ∷ xs) m fuel c =
    let more : (link p == 0) ≡ false = ground arith in
    let rest : Chain link (link p) (y ∷ xs) =
      subst (λ t. Chain link t (y ∷ xs)) (ap link (sym c.0)) c.2 in
    let (r, run, inside) = last_block_ends n link (link p) y xs (u32 (m + 1)) (omega arith) rest in
    (r, rw (more, last_block) run, ground (arith, inside))
