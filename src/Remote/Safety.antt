-- ===== src/Remote/Safety.antt =====
-- Every interleaving of the threads that free and of the owner.
use hmalloc.Common.{
  ℕ, ◌<◌, ◌≡◌, refl, sym, ap, subst, ◌∙◌, ◌≢◌, true, false, arith, ℕ_discrete, ◌==◌, update,
  update_self, update_ne,
}
use hmalloc.Common.Multiset.{count, erase}
use hmalloc.Page.{remote_free}
use hmalloc.Remote.{
  Pc, idle, freeing, loaded, stored, block_of, Shared, with_list, Step, begin, load, store, swap,
  retry, exchange, join, extend, pop, own_free, Reach, here, later,
}
use hmalloc.Remote.Invariant.{IsShared, Linked}
use hmalloc.Remote.Threads.{go-IsShared, begin-IsShared, store-IsShared, swap-IsShared}
use hmalloc.Remote.Owner.{
  exchange-IsShared, join-IsShared, extend-IsShared, pop-IsShared, own_free-IsShared,
}

-- The block that a thread in the middle of a free has.
mine : (s : Shared) (i b : ℕ) → IsShared s → block_of (s.pc i) ≡ b → b ≢ 0 → 0 < count b s.live
mine s i b w e nz = subst (λ t. 0 < count t s.live) e (w.held i (λ z. nz (sym e ∙ z)))

Step-IsShared : (s s' : Shared) → Step s s' → IsShared s → IsShared s'
Step-IsShared s s' (begin i b at held others e) w =
    subst IsShared (sym e) (begin-IsShared s i b w held others)
Step-IsShared s s' (load i b at e) w =
    let nz = subst (Linked s.view) at (w.linked i) in
    subst IsShared (sym e) (go-IsShared s i (loaded b s.thread_free) w (sym (ap block_of at)) nz)
Step-IsShared s s' (store i b head at e) w =
    let nz = subst (Linked s.view) at (w.linked i) in
    subst IsShared (sym e) (store-IsShared s i b head w at (mine s i b w (ap block_of at) nz))
Step-IsShared s s' (swap i b head at found e) w =
    let l = subst (Linked s.view) at (w.linked i) in
    subst IsShared (sym e) (swap-IsShared s i b head w at (mine s i b w (ap block_of at) l.0) found)
Step-IsShared s s' (retry i b head at e) w = subst IsShared (sym e) (
    go-IsShared s i (loaded b s.thread_free) w (sym (ap block_of at))
      (subst (Linked s.view) at (w.linked i)).0)
Step-IsShared s s' (exchange none_taken e) w =
    subst IsShared (sym e) (exchange-IsShared s w none_taken)
Step-IsShared s s' (join some_taken e) w = subst IsShared (sym e) (join-IsShared s w)
Step-IsShared s s' (extend none_taken left e) w = subst IsShared (sym e) (extend-IsShared s w left)
Step-IsShared s s' (pop none_taken some_free e) w =
    subst IsShared (sym e) (pop-IsShared s w some_free)
Step-IsShared s s' (own_free b none_taken held others e) w =
    subst IsShared (sym e) (own_free-IsShared s b w held others)

-- Whatever threads free into a page at once, in any interleaving with each other and with its owner, and
-- however often a compare-exchange fails: each block of the page stands once among those that the
-- program holds, those of the shared list, those that the owner has taken from it and those of the
-- owner's list, and no two threads are freeing one block.
pub Reach-IsShared : (s s' : Shared) → Reach s s' → IsShared s → IsShared s'
Reach-IsShared s s' here w = w
Reach-IsShared s s' (later {t} r st) w = Step-IsShared t s' st (Reach-IsShared s t r w)

-- `with_list b` after the link was stored is the whole free.
swapped :
    (s : Shared) (i b head : ℕ)
    → IsShared s
    → s.pc i ≡ stored b head
    → s.thread_free ≡ head
    → ((with_list b s.view).page ≡ (remote_free b s.view).page)
      × ((a : ℕ) → (with_list b s.view).link a ≡ (remote_free b s.view).link a)
unfolding remote_free
swapped s i b head w at found =
    let l = subst (Linked s.view) at (w.linked i) in
    (
      refl,
      λ a. elim (ℕ_discrete b a) [
        | yes same ↦
            let hit : (b == a) ≡ true = ground arith in
            rw hit (ap s.link (sym same) ∙ l.1 ∙ sym found)
        | no other ↦ let miss : (b == a) ≡ false = ground arith in rw miss refl
      ],
    )

-- What the page and the program's blocks are after the whole free of `b` at once.
pub record Freed (b : ℕ) (s s' : Shared) : Type 0 where
  pub page : s'.page ≡ (remote_free b s.view).page
  pub links : (a : ℕ) → s'.link a ≡ (remote_free b s.view).link a
  pub live : s'.live ≡ erase b s.live

abbrev moving : Pc → ℕ
moving idle = 0
moving (freeing b) = 1
moving (loaded b head) = 1
moving (stored b head) = 1

not_idle : (p : Pc) → moving p ≡ 1 → p ≡ idle → ⊥
not_idle p m e = absurd (omega (arith, m, ap moving e))

-- Where another thread than `i` moves, or none, `i` stays where it is.
stays :
    (s s' : Shared) (i j b head : ℕ) (p : Pc)
    → s.pc i ≡ stored b head
    → s'.pc i ≡ idle
    → s'.pc ≡ update s.pc j p
    → (p ≡ idle → ⊥)
    → ⊥
stays s s' i j b head p at done e ne = elim (ℕ_discrete j i) [
  | yes same ↦ ne (sym (update_self s.pc j p) ∙ ap (λ f. f j) (sym e) ∙ ap s'.pc same ∙ done)
  | no other ↦
      not_idle (stored b head) refl
        (sym at ∙ sym (update_ne s.pc j i p other) ∙ ap (λ f. f i) (sym e) ∙ done)
]

-- From a state in order on, in every interleaving: any step that takes a thread from its last access in
-- the free of `b` to the end of the free leaves what `remote_free` leaves of the page as it stands at
-- that moment, in the record and in every link, and `b` is not the program's any more.
pub Step-Freed :
    (s₀ s s' : Shared) (i b head : ℕ)
    → IsShared s₀
    → Reach s₀ s
    → s.pc i ≡ stored b head
    → Step s s'
    → s'.pc i ≡ idle
    → Freed b s s'
Step-Freed s₀ s s' i b head w r at (begin j c from held others e) done = absurd (
    stays s s' i j b head (freeing c) at done (ap (λ (t : Shared). t.pc) e)
      (not_idle (freeing c) refl))
Step-Freed s₀ s s' i b head w r at (load j c from e) done = absurd (
    stays s s' i j b head (loaded c s.thread_free) at done (ap (λ (t : Shared). t.pc) e)
      (not_idle (loaded c s.thread_free) refl))
Step-Freed s₀ s s' i b head w r at (store j c h from e) done = absurd (
    stays s s' i j b head (stored c h) at done (ap (λ (t : Shared). t.pc) e)
      (not_idle (stored c h) refl))
Step-Freed s₀ s s' i b head w r at (swap j c h from found e) done = elim (ℕ_discrete j i) [
  | no other ↦ absurd (
      not_idle (stored b head) refl
        (sym at ∙ sym (update_ne s.pc j i idle other) ∙ ap (λ (t : Shared). t.pc i) (sym e) ∙ done))
  | yes same ↦
      let sw = swapped s j c h (Reach-IsShared s₀ s r w) from found in
      subst (λ t. Freed t s s') (ap block_of (sym from ∙ ap s.pc same ∙ at))
        (record {
          page = ap (λ (t : Shared). t.view.page) e ∙ sw.0;
          links = λ a. ap (λ (t : Shared). t.view.link a) e ∙ sw.1 a;
          live = ap (λ (t : Shared). t.live) e;
        })
]
Step-Freed s₀ s s' i b head w r at (retry j c h from e) done = absurd (
    stays s s' i j b head (loaded c s.thread_free) at done (ap (λ (t : Shared). t.pc) e)
      (not_idle (loaded c s.thread_free) refl))
Step-Freed s₀ s s' i b head w r at (exchange none_taken e) done =
    absurd (not_idle (stored b head) refl (sym at ∙ ap (λ (t : Shared). t.pc i) (sym e) ∙ done))
Step-Freed s₀ s s' i b head w r at (join some_taken e) done =
    absurd (not_idle (stored b head) refl (sym at ∙ ap (λ (t : Shared). t.pc i) (sym e) ∙ done))
Step-Freed s₀ s s' i b head w r at (extend none_taken left e) done =
    absurd (not_idle (stored b head) refl (sym at ∙ ap (λ (t : Shared). t.pc i) (sym e) ∙ done))
Step-Freed s₀ s s' i b head w r at (pop none_taken some_free e) done =
    absurd (not_idle (stored b head) refl (sym at ∙ ap (λ (t : Shared). t.pc i) (sym e) ∙ done))
Step-Freed s₀ s s' i b head w r at (own_free c none_taken held others e) done =
    absurd (not_idle (stored b head) refl (sym at ∙ ap (λ (t : Shared). t.pc i) (sym e) ∙ done))
