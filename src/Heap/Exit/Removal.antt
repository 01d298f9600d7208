-- ===== src/Heap/Exit/Removal.antt =====
-- The list of all heaps when one of them goes.
use hmalloc.Common.{
  ℕ, zero, suc, ◌≤◌, ◌<◌, ◌≡◌, refl, sym, ap, subst, ◌∙◌, ◌≢◌, inl, inr, true, false, List, [], ◌∷◌,
  arith, ℕ_discrete, ◌==◌, if◌then◌else◌, Bool-cases, length, update, update_self, update_ne,
}
use hmalloc.Run.{done}
use hmalloc.Common.Multiset.{count, erase}
use hmalloc.Page.Chain.{Chain, Chain-frame}
use hmalloc.Heap.{Heap, Process, set_heap}
use hmalloc.Heap.Exit.{heap_at, remove_heap}

-- The heaps `hs` stand behind the heap `at`, or behind `g_registry` for 0.
abbrev pub Heaps : ℕ → List ℕ → Process → Type 0
Heaps at hs s = Chain (λ h. (s.heaps h).reg_next) (heap_at at s) hs

-- What the removal of `h` from the heaps `hs` behind `at` leaves.
pub record Removed (at h : ℕ) (hs : List ℕ) (s s' : Process) : Type 0 where
  pub heaps : Heaps at (erase h hs) s'
  pub others : (a : ℕ) → a ≢ at → count a hs ≡ 0 → s'.heaps a ≡ s.heaps a
  pub head : at ≢ 0 → s'.g_registry ≡ s.g_registry
  pub world : s'.world ≡ s.world

-- The link behind `at` is set to `q`.
abbrev relinked : ℕ → ℕ → Process → Process
relinked at q s =
    if at == 0
    then record s { g_registry = q }
    else set_heap at (record (s.heaps at) { reg_next = q }) s

relinked-Removed :
    (at h : ℕ) (hs : List ℕ) (s : Process)
    → Heaps at (h ∷ hs) s
    → count at hs ≡ 0
    → count h hs ≡ 0
    → Removed at h (h ∷ hs) s (relinked at (s.heaps h).reg_next s)
unfolding heap_at
relinked-Removed at h hs s c out once =
    let self : (h == h) ≡ true = ground arith in
    let q = (s.heaps h).reg_next in
    elim (ℕ_discrete at 0) [
      | yes first ↦
          let null : (at == 0) ≡ true = ground arith in
          rw null (record {
            heaps = rw (null, self) c.2;
            others = λ a ne far. refl;
            head = λ nz. absurd (nz first);
            world = refl;
          })
      | no behind ↦
          let null : (at == 0) ≡ false = ground arith in
          let v = record (s.heaps at) { reg_next = q } in
          rw null (record {
            heaps =
                rw (null, self)
                  (subst (λ p. Chain (λ a. (update s.heaps at v a).reg_next) p hs)
                    (sym (ap (λ (u : Heap). u.reg_next) (update_self s.heaps at v)))
                    (Chain-frame (λ a. (s.heaps a).reg_next) (λ a. (update s.heaps at v a).reg_next)
                      q hs
                      (λ a here.
                        ap (λ (u : Heap). u.reg_next)
                          (update_ne s.heaps at a v (λ e. apart_of a here e)))
                      c.2));
            others = λ a ne far. update_ne s.heaps at a v (λ e. ne (sym e));
            head = λ nz. refl;
            world = refl;
          })
    ]
  where
    apart_of : (a : ℕ) → 0 < count a hs → at ≢ a
    apart_of a here e = omega (arith, out, subst (λ t. 0 < count t hs) (sym e) here)

heap_at-behind : (x : ℕ) (s : Process) → x ≢ 0 → heap_at x s ≡ (s.heaps x).reg_next
unfolding heap_at
heap_at-behind x s nz = let some_heap : (x == 0) ≡ false = ground arith in rw some_heap refl

remove_heap_end :
    (fuel at h : ℕ) (s : Process) → heap_at at s ≡ 0 → remove_heap fuel at h s ≡ done s
unfolding remove_heap
remove_heap_end zero at h s e =
    let null : (heap_at at s == 0) ≡ true = ground arith in rw (remove_heap, null) refl
remove_heap_end (suc fuel) at h s e =
    let null : (heap_at at s == 0) ≡ true = ground arith in rw (remove_heap, null) refl

-- The heap `x` behind `at` stays, and the removal goes on behind it.
passed :
    (at h x : ℕ) (hs : List ℕ) (s s' : Process)
    → x ≢ 0
    → h ≢ x
    → at ≢ x
    → count at hs ≡ 0
    → heap_at at s ≡ x
    → Removed x h hs s s'
    → Removed at h (x ∷ hs) s s'
unfolding heap_at
passed at h x hs s s' nz other apart out e r =
    let miss : (h == x) ≡ false = ground arith in
    let same : heap_at at s' ≡ heap_at at s = elim (Bool-cases (at == 0)) [
      | inl first ↦ rw first (r.head nz)
      | inr behind ↦ rw behind (ap (λ (u : Heap). u.reg_next) (r.others at apart out))
    ] in
    record {
      heaps = rw miss (
        same ∙ e,
        nz,
        subst (λ p. Chain (λ a. (s'.heaps a).reg_next) p (erase h hs)) (heap_at-behind x s' nz)
            r.heaps,
      );
      others = λ a ne far. r.others a (λ q. ground (arith, far)) (omega (arith, far));
      head = λ some_heap. r.head nz;
      world = r.world;
    }

-- Behind any place of a list of distinct heaps, the loop that takes a heap out of it ends, also where the
-- heap does not stand there: exactly that heap is gone, the others keep their order, and the pages, the
-- registries below and the heaps that stand elsewhere are as before.
pub remove_heap-Removed :
    (fuel at h : ℕ) (hs : List ℕ) (s : Process)
    → length hs ≤ fuel
    → Heaps at hs s
    → ((a : ℕ) → count a (at ∷ hs) ≤ 1)
    → (s' : Process) × (remove_heap fuel at h s ≡ done s') × Removed at h hs s s'
unfolding remove_heap
remove_heap-Removed fuel at h [] s enough c once = (
  s,
  remove_heap_end fuel at h s c,
  record { heaps = c; others = λ a ne far. refl; head = λ nz. refl; world = refl },
)
remove_heap-Removed zero at h (x ∷ hs) s enough c once = absurd (omega arith)
remove_heap-Removed (suc fuel) at h (x ∷ hs) s enough c once =
    let null : (heap_at at s == 0) ≡ false = ground (arith, c.0, c.1) in
    elim (ℕ_discrete h x) [
      | yes same ↦
          let hit : (heap_at at s == h) ≡ true = ground (arith, c.0) in
          let here : Heaps at (h ∷ hs) s = subst (λ t. Heaps at (t ∷ hs) s) (sym same) c in
          (
            relinked at (s.heaps h).reg_next s,
            rw (remove_heap, null, hit) refl,
            subst (λ t. Removed at h (t ∷ hs) s (relinked at (s.heaps h).reg_next s)) same
                (relinked-Removed at h hs s here (ground (arith, once at))
                  (ground (arith, once h))),
          )
      | no other ↦
          let miss : (heap_at at s == h) ≡ false = ground (arith, c.0) in
          let (s', run, r) =
            remove_heap-Removed fuel x h hs s (omega arith) (behind_x c.1 c.2)
              (λ a. ground (arith, once a)) in
          (
            s',
            rw (remove_heap, null, miss, c.0) run,
            passed at h x hs s s' c.1 (λ e. other e) (λ e. ground (arith, once at))
                (ground (arith, once at)) c.0 r,
          )
    ]
  where
    behind_x : x ≢ 0 → Chain (λ a. (s.heaps a).reg_next) (s.heaps x).reg_next hs → Heaps x hs s
    behind_x nz d =
        subst (λ p. Chain (λ a. (s.heaps a).reg_next) p hs) (sym (heap_at-behind x s nz)) d
