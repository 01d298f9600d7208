-- ===== src/Remote/Owner.antt =====
-- The steps of the owner of the page.
use hmalloc.Common.{
  refl, length-append, update_ne, ℕ, ◌+◌, ◌*◌, ◌<◌, ◌≡◌, refl, sym, ap, subst, ◌∙◌, ◌≢◌, inl, inr,
  List, [], ◌∷◌, ◌++◌, arith, ◌==◌, Bool-cases, length,
}
use hmalloc.Common.Multiset.{count, erase, count-erase, length-erase, count-append}
use hmalloc.Page.{PageView, page_collect, page_extend, page_pop, local_free, extend_batch, u32_sub}
use hmalloc.Page.Chain.{Chain, Chain-null}
use hmalloc.Page.Invariant.{IsPage}
use hmalloc.Page.Collect.{page_collect-IsPage, page_collect-link}
use hmalloc.Page.Allocate.{page_pop-Popped}
use hmalloc.Page.Release.{local_free-IsPage}
use hmalloc.Page.Extend.{ascend, page_extend-IsPage, page_extend-link}
use hmalloc.Remote.{Pc, idle, freeing, loaded, stored, block_of, Shared, with_list, join_taken}
use hmalloc.Remote.Invariant.{IsShared, Linked, IsPage-with_list, once_shared, live-append}

Chain-frame :
    (f g : ℕ → ℕ) (p : ℕ) (xs : List ℕ)
    → ((a : ℕ) → 0 < count a xs → g a ≡ f a)
    → Chain f p xs
    → Chain g p xs
Chain-frame f g p [] same c = c
Chain-frame f g p (x ∷ xs) same c = (
  c.0,
  c.1,
  subst (λ q. Chain g q xs) (sym (same x (ground arith)))
      (Chain-frame f g (f x) xs (λ a h. same a (omega arith)) c.2),
)

-- Links that a step leaves alone stay as the threads have set them.
Linked-frame :
    (v v' : PageView) (q : Pc)
    → (block_of q ≢ 0 → v'.link (block_of q) ≡ v.link (block_of q))
    → Linked v q
    → Linked v' q
Linked-frame v v' idle same l = tt
Linked-frame v v' (freeing b) same l = l
Linked-frame v v' (loaded b h) same l = l
Linked-frame v v' (stored b h) same l = (l.0, same l.0 ∙ l.1)

-- A step of the owner on its own lists, which keeps the shared list and the links of its blocks and of
-- the live ones.
owner-IsShared :
    (s : Shared) (w : IsShared s) (v : PageView) (taken : ℕ) (live got local : List ℕ)
    → IsPage (with_list taken v) (w.remote ++ live) got local
    → v.thread_free ≡ s.thread_free
    → ((a : ℕ) → 0 < count a (w.remote ++ live) → v.link a ≡ s.link a)
    → ((j : ℕ) → block_of (s.pc j) ≢ 0 → 0 < count (block_of (s.pc j)) live)
    → IsShared (record s { view = v; taken = taken; live = live })
owner-IsShared s w v taken live got local page list same held = record {
  remote = w.remote;
  got = got;
  local = local;
  page = page;
  chain =
      subst (λ t. Chain v.link t w.remote) (sym list)
        (Chain-frame s.link v.link s.thread_free w.remote
          (λ a h. same a (omega (arith, count-append a w.remote live))) w.chain);
  held = held;
  apart = w.apart;
  linked = λ j.
      Linked-frame s.view v (s.pc j)
        (λ nz.
          same (block_of (s.pc j))
            (omega (arith, count-append (block_of (s.pc j)) w.remote live, held j nz)))
        (w.linked j);
}

-- The exchange takes the whole shared list at once.
pub exchange-IsShared :
    (s : Shared)
    → IsShared s
    → s.taken ≡ 0
    → IsShared (record s { view = with_list 0 s.view; taken = s.thread_free })
exchange-IsShared s w none_taken =
    let nothing : w.got ≡ [] =
      Chain-null s.link w.got (subst (λ t. Chain s.link t w.got) none_taken w.page.remote_chain) in
    let none : (a : ℕ) → count a w.got ≡ 0 = λ a. ap (count a) nothing in
    record {
      remote = [];
      got = w.remote;
      local = w.local;
      page =
          IsPage-with_list (with_list s.taken s.view) s.thread_free (w.remote ++ s.live) s.live
            w.got w.remote w.local w.page w.chain
            (λ a. omega (arith, count-append a w.remote s.live, none a))
            (omega (arith, length-append w.remote s.live, ap length nothing));
      chain = refl;
      held = w.held;
      apart = w.apart;
      linked = λ j. Linked-frame s.view (with_list 0 s.view) (s.pc j) (λ nz. refl) (w.linked j);
    }

-- The list that the exchange returned joins the owner's list, whatever other threads do to the shared
-- list meanwhile.
pub join-IsShared :
    (s : Shared) → IsShared s → IsShared (record s { view = join_taken s; taken = 0 })
unfolding join_taken
join-IsShared s w =
    let v = with_list s.taken s.view in
    let page = (page_collect-IsPage v (w.remote ++ s.live) w.got w.local w.page).0 in
    owner-IsShared s w (join_taken s) 0 s.live [] (w.got ++ w.local)
      (IsPage-with_list (page_collect v) 0 (w.remote ++ s.live) (w.remote ++ s.live) [] []
        (w.got ++ w.local) page refl (λ a. refl) refl)
      refl (page_collect-link v (w.remote ++ s.live) w.got w.local w.page) w.held

page_extend-with_list :
    (v : PageView) (t : ℕ) → page_extend (with_list t v) ≡ with_list t (page_extend v)
unfolding page_extend extend_batch
page_extend-with_list v t = elim (Bool-cases (u32_sub v.capacity v.reserved == 0)) [
  | inl full ↦ rw full refl
  | inr left ↦ rw left refl
]

page_extend-thread_free : (v : PageView) → (page_extend v).thread_free ≡ v.thread_free
unfolding page_extend
page_extend-thread_free v = ground arith

pub extend-IsShared :
    (s : Shared)
    → IsShared s
    → s.reserved < s.capacity
    → IsShared (record s { view = page_extend s.view })
extend-IsShared s w left =
    let v = with_list s.taken s.view in
    let page = page_extend-IsPage v (w.remote ++ s.live) w.got w.local w.page left in
    let link = page_extend-link v (w.remote ++ s.live) w.got w.local w.page left in
    let e = page_extend-with_list s.view s.taken in
    let grown =
      ascend (s.area + s.reserved * s.block_size) s.block_size (extend_batch v.page) w.local in
    owner-IsShared s w (page_extend s.view) s.taken s.live w.got grown
      (subst (λ u. IsPage u (w.remote ++ s.live) w.got grown) e page)
      (page_extend-thread_free s.view)
      (λ a h. ap (λ u. u.link a) (sym e) ∙ link a (omega (arith, h))) w.held

pub pop-IsShared :
    (s : Shared)
    → IsShared s
    → s.free ≢ 0
    → IsShared (record s { view = (page_pop s.view).1; live = (page_pop s.view).0 ∷ s.live })
unfolding page_pop
pop-IsShared s w some_free =
    let v = with_list s.taken s.view in
    let p = page_pop-Popped v (w.remote ++ s.live) w.got w.local w.page some_free in
    owner-IsShared s w (page_pop s.view).1 s.taken (s.free ∷ s.live) w.got p.rest
      (IsPage-with_list (page_pop v).1 s.taken (s.free ∷ (w.remote ++ s.live))
        (w.remote ++ (s.free ∷ s.live)) w.got w.got p.rest p.valid p.valid.remote_chain
        (λ a.
          omega (arith, count-append a w.remote s.live, count-append a w.remote (s.free ∷ s.live)))
        (omega (arith, length-append w.remote s.live, length-append w.remote (s.free ∷ s.live))))
      refl (λ a h. refl) (λ j nz. omega (arith, w.held j nz))

pub own_free-IsShared :
    (s : Shared) (b : ℕ)
    → IsShared s
    → 0 < count b s.live
    → ((j : ℕ) → block_of (s.pc j) ≢ b)
    → IsShared (record s { view = local_free b s.view; live = erase b s.live })
unfolding local_free
own_free-IsShared s b w h others =
    let v = with_list s.taken s.view in
    let held = live-append w b h in
    let page = local_free-IsPage v (w.remote ++ s.live) w.got w.local w.page b held in
    owner-IsShared s w (local_free b s.view) s.taken (erase b s.live) w.got (b ∷ w.local)
      (IsPage-with_list (local_free b v) s.taken (erase b (w.remote ++ s.live))
        (w.remote ++ erase b s.live) w.got w.got (b ∷ w.local) page page.remote_chain
        (λ a. omega (
          arith,
          count-append a w.remote s.live,
          count-append a w.remote (erase b s.live),
          count-erase a b s.live h,
          count-erase a b (w.remote ++ s.live) held,
        ))
        (omega (
          arith,
          length-append w.remote s.live,
          length-append w.remote (erase b s.live),
          length-erase b s.live h,
          length-erase b (w.remote ++ s.live) held,
        )))
      refl
      (λ a k. update_ne s.link b a s.free (λ e. ground (
        arith,
        once_shared w b,
        h,
        count-append b w.remote (erase b s.live),
        count-erase b b s.live h,
        subst (λ t. 0 < count t (w.remote ++ erase b s.live)) (sym e) k,
      )))
      (λ j nz. ground (arith, count-erase (block_of (s.pc j)) b s.live h, w.held j nz, others j))
