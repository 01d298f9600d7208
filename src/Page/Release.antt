-- ===== src/Page/Release.antt =====
-- Blocks given back: by the owner (`heap_free`, first branch) and by another thread
-- (`heap_free_remote`).
use hmalloc.Common.{ℕ, ◌+◌, ◌<◌, ◌≡◌, refl, sym, subst, ◌≢◌, List, ◌∷◌, arith, update}
use hmalloc.Common.Multiset.{count, erase, count-erase, length-erase}
use hmalloc.Page.Chain.{Chain, Chain-update}
use hmalloc.Page.Invariant.{blocks, blocks_place, IsPage, once, capacity-le}
use hmalloc.Page.{PageView, local_free, remote_free, u32_sub}

module _ (v : PageView) (live remote local : List ℕ) (w : IsPage v live remote local) (b : ℕ)
    (held : 0 < count b live) where
  pub carved : 0 < count b (blocks v.area v.block_size v.reserved)
  carved = omega (arith, w.split b)

  pub not_null : b ≢ 0
  not_null =
      let (i, lt, e) = blocks_place v.area v.block_size v.reserved b carved in
      omega (arith, w.placed)

  -- The owner's free moves a live block to the front of the local list.
  pub local_free-IsPage : IsPage (local_free b v) (erase b live) remote (b ∷ local)
  unfolding local_free
  local_free-IsPage =
      let small = capacity-le w in
      let shorter = length-erase b live held in
      let down : u32_sub v.used 1 + 1 ≡ v.used = omega (arith, w.total, w.started, w.counted) in
      let self : update v.link b v.free b ≡ v.free = ground arith in
      record {
        sized = w.sized;
        aligned = w.aligned;
        room = w.room;
        started = w.started;
        placed = w.placed;
        area_aligned = w.area_aligned;
        area_fits = w.area_fits;
        local_chain = (
          refl,
          not_null,
          subst (λ t. Chain (update v.link b v.free) t local) (sym self)
              (Chain-update v.link b v.free v.free local (omega (arith, once w b)) w.local_chain),
        );
        remote_chain =
            Chain-update v.link b v.free v.thread_free remote (omega (arith, once w b))
              w.remote_chain;
        counted = omega (arith, w.counted);
        total = omega (arith, w.total);
        split = λ a. omega (arith, w.split a, count-erase a b live held);
      }

  -- A free by another thread moves a live block to the front of the remote list; the owner's count
  -- stays as it is.
  pub remote_free-IsPage : IsPage (remote_free b v) (erase b live) (b ∷ remote) local
  unfolding remote_free
  remote_free-IsPage =
      let shorter = length-erase b live held in
      let self : update v.link b v.thread_free b ≡ v.thread_free = ground arith in
      record {
        sized = w.sized;
        aligned = w.aligned;
        room = w.room;
        started = w.started;
        placed = w.placed;
        area_aligned = w.area_aligned;
        area_fits = w.area_fits;
        local_chain =
            Chain-update v.link b v.thread_free v.free local (omega (arith, once w b))
              w.local_chain;
        remote_chain = (
          refl,
          not_null,
          subst (λ t. Chain (update v.link b v.thread_free) t remote) (sym self)
              (Chain-update v.link b v.thread_free v.thread_free remote (omega (arith, once w b))
                w.remote_chain),
        );
        counted = omega (arith, w.counted);
        total = w.total;
        split = λ a. omega (arith, w.split a, count-erase a b live held);
      }
