-- ===== src/Remote/Threads.antt =====
-- The steps of the threads that free.
use hmalloc.Common.{
  ℕ, ◌<◌, ◌≡◌, refl, sym, ap, subst, ◌∙◌, ◌≢◌, false, ◌∷◌, ◌++◌, arith, ◌==◌, update, length-append,
  update_self,
}
use hmalloc.Common.Multiset.{count, erase, count-erase, length-erase, count-append}
use hmalloc.Page.{PageView}
use hmalloc.Page.Chain.{Chain, Chain-update}
use hmalloc.Remote.{Pc, idle, freeing, loaded, stored, block_of, Shared, with_list, go}
use hmalloc.Remote.Invariant.{
  IsShared, Linked, IsPage-with_list, IsPage-link, once_shared, live-append, live-ne-null,
  block_of-update, at-update, Apart-update,
}

-- A step of one thread with the block that it has, which stores nothing.
pub go-IsShared :
    (s : Shared) (i : ℕ) (p : Pc)
    → IsShared s
    → block_of p ≡ block_of (s.pc i)
    → Linked s.view p
    → IsShared (go i p s)
go-IsShared s i p w e here =
    let same = block_of-update s.pc i p e in
    record {
      remote = w.remote;
      got = w.got;
      local = w.local;
      page = w.page;
      chain = w.chain;
      held = λ j h. rw (same j) (w.held j (rw (← same j) h));
      apart = λ j k ne h. rw (same j, same k) (w.apart j k ne (rw (← same j) h));
      linked = at-update (Linked s.view) s.pc i p here (λ j ne. w.linked j);
    }

-- A thread starts to free a live block that no other thread is freeing.
pub begin-IsShared :
    (s : Shared) (i b : ℕ)
    → IsShared s
    → 0 < count b s.live
    → ((j : ℕ) → block_of (s.pc j) ≢ b)
    → IsShared (go i (freeing b) s)
begin-IsShared s i b w h others = record {
  remote = w.remote;
  got = w.got;
  local = w.local;
  page = w.page;
  chain = w.chain;
  held =
      at-update (λ q. block_of q ≢ 0 → 0 < count (block_of q) s.live) s.pc i (freeing b) (λ n. h)
        (λ j ne. w.held j);
  apart = Apart-update s.pc i (freeing b) w.apart (λ j ne n. others j);
  linked = at-update (Linked s.view) s.pc i (freeing b) (live-ne-null w b h) (λ j ne. w.linked j);
}

-- A store to the link of one thread's block keeps what the others have linked.
Linked-store :
    (v : PageView) (b head : ℕ) (q : Pc)
    → b ≢ block_of q
    → Linked v q
    → Linked (record v { link = update v.link b head }) q
Linked-store v b head idle ne l = tt
Linked-store v b head (freeing c) ne l = l
Linked-store v b head (loaded c h) ne l = l
Linked-store v b head (stored c h) ne l =
    let miss : (b == c) ≡ false = ground arith in rw miss (l.0, l.1)

-- A thread links its block to the head that it has loaded. Nobody reads that link yet.
pub store-IsShared :
    (s : Shared) (i b head : ℕ)
    → IsShared s
    → s.pc i ≡ loaded b head
    → 0 < count b s.live
    → IsShared
        (go i (stored b head) (record s { view = record s.view { link = update s.link b head } }))
store-IsShared s i b head w at h =
    let mine : block_of (s.pc i) ≡ b = ap block_of at in
    let nonzero = live-ne-null w b h in
    let same = block_of-update s.pc i (stored b head) (sym mine) in
    let v : PageView = record s.view { link = update s.link b head } in
    record {
      remote = w.remote;
      got = w.got;
      local = w.local;
      page =
          IsPage-link (with_list s.taken s.view) b head (w.remote ++ s.live) w.got w.local w.page
            (live-append w b h);
      chain =
          Chain-update s.link b head s.thread_free w.remote (omega (arith, once_shared w b, h))
            w.chain;
      held = λ j n. rw (same j) (w.held j (rw (← same j) n));
      apart = λ j k ne n. rw (same j, same k) (w.apart j k ne (rw (← same j) n));
      linked =
          at-update (Linked v) s.pc i (stored b head) (nonzero, update_self s.link b head)
            (λ j ne.
              Linked-store s.view b head (s.pc j)
                (λ e. w.apart i j ne (λ z. nonzero (sym mine ∙ z)) (mine ∙ e)) (w.linked j));
    }

-- The compare-exchange puts the block in front of the list.
pub swap-IsShared :
    (s : Shared) (i b head : ℕ)
    → IsShared s
    → s.pc i ≡ stored b head
    → 0 < count b s.live
    → s.thread_free ≡ head
    → IsShared (go i idle (record s { view = with_list b s.view; live = erase b s.live }))
swap-IsShared s i b head w at h found =
    let mine : block_of (s.pc i) ≡ b = ap block_of at in
    let nonzero = live-ne-null w b h in
    let link : s.link b ≡ s.thread_free = (subst (Linked s.view) at (w.linked i)).1 ∙ sym found in
    record {
      remote = b ∷ w.remote;
      got = w.got;
      local = w.local;
      page =
          IsPage-with_list (with_list s.taken s.view) s.taken (w.remote ++ s.live)
            ((b ∷ w.remote) ++ erase b s.live) w.got w.got w.local w.page w.page.remote_chain
            (λ a. ground (
              arith,
              count-append a w.remote s.live,
              count-append a w.remote (erase b s.live),
              count-erase a b s.live h,
            ))
            (omega (
              arith,
              length-append w.remote s.live,
              length-append w.remote (erase b s.live),
              length-erase b s.live h,
            ));
      chain = (refl, nonzero, subst (λ t. Chain s.link t w.remote) (sym link) w.chain);
      held =
          at-update (λ q. block_of q ≢ 0 → 0 < count (block_of q) (erase b s.live)) s.pc i idle
            (λ n. absurd (n refl))
            (λ j ne n.
              let other : block_of (s.pc j) ≢ b =
                λ e. w.apart i j ne (λ z. nonzero (sym mine ∙ z)) (mine ∙ sym e) in
              ground (arith, count-erase (block_of (s.pc j)) b s.live h, w.held j n, other));
      apart = Apart-update s.pc i idle w.apart (λ j ne n e. n e);
      linked = at-update (Linked s.view) s.pc i idle tt (λ j ne. w.linked j);
    }
