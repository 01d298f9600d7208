-- ===== src/Remote/Progress.antt =====
-- A thread that frees a block waits for nobody.
use hmalloc.Common.{ℕ, zero, suc, ◌≡◌, refl, sym, subst, ◌≢◌, true, false, arith, ℕ_discrete, ◌==◌}
use hmalloc.Common.{update_self}
use hmalloc.Common.Multiset.{erase}
use hmalloc.Remote.{
  Pc, idle, freeing, loaded, stored, Shared, go, load, store, swap, retry, Reach, here, later,
  own_step, run_alone, with_list,
}

-- The state after one step of thread `i`, which stood at `q`.
record Next (i : ℕ) (s : Shared) (q : Pc) (list : ℕ) (s' : Shared) : Type 0 where
  reach : Reach s s'
  at : s'.pc i ≡ q
  same : s'.thread_free ≡ list

module _ (i : ℕ) (s : Shared) (b : ℕ) where
  after_freeing :
      s.pc i ≡ freeing b → Next i s (loaded b s.thread_free) s.thread_free (own_step i (s.pc i) s)
  unfolding own_step
  after_freeing e =
      let t = go i (loaded b s.thread_free) s in
      let step : own_step i (s.pc i) s ≡ t = rw e refl in
      subst (Next i s (loaded b s.thread_free) s.thread_free) (sym step) (record {
        reach = later here (load i b e refl);
        at = update_self s.pc i (loaded b s.thread_free);
        same = refl;
      })

  after_loaded :
      (head : ℕ)
      → s.pc i ≡ loaded b head
      → Next i s (stored b head) s.thread_free (own_step i (s.pc i) s)
  unfolding own_step
  after_loaded head e =
      let t = own_step i (loaded b head) s in
      let step : own_step i (s.pc i) s ≡ t = rw e refl in
      subst (Next i s (stored b head) s.thread_free) (sym step) (record {
        reach = later here (store i b head e refl);
        at = update_self s.pc i (stored b head);
        same = refl;
      })

  after_stored :
      (head : ℕ)
      → s.pc i ≡ stored b head
      → s.thread_free ≡ head
      → Next i s idle b (own_step i (s.pc i) s)
  unfolding own_step
  after_stored head e found =
      let hit : (s.thread_free == head) ≡ true = ground arith in
      let t = go i idle (record s { view = with_list b s.view; live = erase b s.live }) in
      let step : own_step i (s.pc i) s ≡ t = rw (e, hit) refl in
      subst (Next i s idle b) (sym step) (record {
        reach = later here (swap i b head e found refl);
        at = update_self s.pc i idle;
        same = refl;
      })

  after_stale :
      (head : ℕ)
      → s.pc i ≡ stored b head
      → s.thread_free ≢ head
      → Next i s (loaded b s.thread_free) s.thread_free (own_step i (s.pc i) s)
  unfolding own_step
  after_stale head e lost =
      let miss : (s.thread_free == head) ≡ false = ground arith in
      let t = go i (loaded b s.thread_free) s in
      let step : own_step i (s.pc i) s ≡ t = rw (e, miss) refl in
      subst (Next i s (loaded b s.thread_free) s.thread_free) (sym step) (record {
        reach = later here (retry i b head e refl);
        at = update_self s.pc i (loaded b s.thread_free);
        same = refl;
      })

Reach-Reach : {s t u : Shared} → Reach s t → Reach t u → Reach s u
Reach-Reach a here = a
Reach-Reach a (later r st) = later (Reach-Reach a r) st

-- Within `n` steps of its own, thread `i` is done.
abbrev Ends : ℕ → ℕ → Shared → Type 0
Ends n i s = Reach s (run_alone n i s) × ((run_alone n i s).pc i ≡ idle)

Ends-Next :
    (n i : ℕ) (s : Shared) (q : Pc) (list : ℕ)
    → Next i s q list (own_step i (s.pc i) s)
    → Ends n i (own_step i (s.pc i) s)
    → Ends (suc n) i s
unfolding run_alone
Ends-Next n i s q list x r = (Reach-Reach x.reach r.0, r.1)

Ends-idle : (n i : ℕ) (s : Shared) → s.pc i ≡ idle → Ends n i s
unfolding run_alone own_step
Ends-idle zero i s e = (here, e)
Ends-idle (suc n) i s e =
    let stay : own_step i (s.pc i) s ≡ s = rw e refl in
    subst (λ t. Reach s (run_alone n i t) × ((run_alone n i t).pc i ≡ idle)) (sym stay)
      (Ends-idle n i s e)

module _ (n i b : ℕ) where
  Ends-stored : (s : Shared) → s.pc i ≡ stored b s.thread_free → Ends (suc n) i s
  Ends-stored s e =
      let x = after_stored i s b s.thread_free e refl in
      Ends-Next n i s idle b x (Ends-idle n i _ x.at)

  Ends-loaded : (s : Shared) → s.pc i ≡ loaded b s.thread_free → Ends (suc (suc n)) i s
  Ends-loaded s e =
      let x = after_loaded i s b s.thread_free e in
      Ends-Next (suc n) i s (stored b s.thread_free) s.thread_free x
        (Ends-stored _ (subst (λ t. (own_step i (s.pc i) s).pc i ≡ stored b t) (sym x.same) x.at))

  Ends-stale : (s : Shared) (head : ℕ) → s.pc i ≡ stored b head → Ends (suc (suc (suc n))) i s
  Ends-stale s head e = elim (ℕ_discrete s.thread_free head) [
    | yes found ↦
        let x = after_stored i s b head e found in
        Ends-Next (suc (suc n)) i s idle b x (Ends-idle (suc (suc n)) i _ x.at)
    | no lost ↦
        let x = after_stale i s b head e lost in
        Ends-Next (suc (suc n)) i s (loaded b s.thread_free) s.thread_free x
          (Ends-loaded _ (subst (λ t. (own_step i (s.pc i) s).pc i ≡ loaded b t) (sym x.same) x.at))
  ]

Ends-from : (i : ℕ) (s : Shared) (q : Pc) → s.pc i ≡ q → Ends 4 i s
Ends-from i s idle e = Ends-idle 4 i s e
Ends-from i s (freeing b) e =
    let x = after_freeing i s b e in
    Ends-Next 3 i s (loaded b s.thread_free) s.thread_free x (
      Ends-loaded 1 i b _
        (subst (λ t. (own_step i (s.pc i) s).pc i ≡ loaded b t) (sym x.same) x.at))
Ends-from i s (loaded b head) e =
    let x = after_loaded i s b head e in
    Ends-Next 3 i s (stored b head) s.thread_free x (Ends-stale 0 i b _ head x.at)
Ends-from i s (stored b head) e = Ends-stale 1 i b s head e

-- Wherever a thread stands in its free, and whatever the others have done to the list before: if it runs
-- alone from there on and its compare-exchange fails only where the list has changed, four more steps of
-- its own, steps of the interleaving all, end the free.
pub run_alone-idle :
    (s : Shared) (i : ℕ) → Reach s (run_alone 4 i s) × ((run_alone 4 i s).pc i ≡ idle)
run_alone-idle s i = Ends-from i s (s.pc i) refl
