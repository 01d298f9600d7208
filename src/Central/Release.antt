-- ===== src/Central/Release.antt =====
-- `pool_return` and its callers: they return, and the account of pages stays balanced.
use hmalloc.Common.{
  ℕ, ◌+◌, ◌*◌, ◌≤◌, ◌≡◌, refl, sym, ap, subst, ◌∙◌, inl, inr, false, some, List, [], ◌∷◌, arith,
  ltb, ◌==◌, Bool-cases, length, ◌≢◌, update_ne, update_self,
}
use hmalloc.Common.Word.{wrap, wrap_sub}
use hmalloc.Page.Chain.{Chain}
use hmalloc.Segment.{Page, usable_pages_per_segment, segment_of}
use hmalloc.Os.{os_free}
use hmalloc.Registry.Table.{IsKey}
use hmalloc.Registry.Lookup.{IsRegistry}
use hmalloc.Registry.Unregister.{region_unregister-Unregistered}
use hmalloc.Page.{u32}
use hmalloc.Central.{
  segment_cache, set_page, World, set_seg, avail_remove, unmap_segment, pool_push, pool_return,
  central_release_page,
}
use hmalloc.Central.Balance.{
  Balanced, Keeps, Keeps-avail_push, Keeps-avail_remove, all_remove-Counts, Keeps-set_seg,
}

-- What the loops need: a list of all segments that ends and is as long as it is counted, and a registry in
-- order.
pub record IsCentral (w : World) : Type 0 where
  pub all : List ℕ
  pub chain : Chain (λ q. (w.seg q).next) w.segments all
  pub counted : length all ≤ w.num_segments
  pub table : IsRegistry w.registry

Chain-next :
    (f g : ℕ → ℕ) (p : ℕ) (xs : List ℕ) → ((q : ℕ) → g q ≡ f q) → Chain f p xs → Chain g p xs
Chain-next f g p [] e c = c
Chain-next f g p (x ∷ xs) e c =
    (c.0, c.1, subst (λ q. Chain g q xs) (sym (e x)) (Chain-next f g (f x) xs e c.2))

IsCentral-Keeps : (w w' : World) → Keeps w w' → IsCentral w → IsCentral w'
IsCentral-Keeps w w' k c = record {
  all = c.all;
  chain =
      subst (λ h. Chain (λ q. (w'.seg q).next) h c.all) (sym k.head)
        (Chain-next (λ q. (w.seg q).next) (λ q. (w'.seg q).next) w.segments c.all k.next c.chain);
  counted = rw (k.counts.num) c.counted;
  table = subst IsRegistry (sym k.counts.table) c.table;
}

-- One page more is free than before, but for those of the segments that are gone.
pub record Returned (pg : ℕ) (w w' : World) : Type 0 where
  pub in_use : w'.pages_in_use ≡ w.pages_in_use
  pub abandoned : w'.abandoned_count ≡ w.abandoned_count
  pub pages :
      wrap (w'.free_page_count + 63 * w.num_segments)
      ≡ wrap (w.free_page_count + 1 + 63 * w'.num_segments)
  pub others : (a : ℕ) → pg ≢ a → w'.page a ≡ w.page a
  pub freed : ((w'.page pg).in_use ≡ false) × ((w'.page pg).owner ≡ 0)

unmap_segment-Counts :
    (s : ℕ) (w : World)
    → IsCentral w
    → IsKey s
    → (w' : World) × (unmap_segment s w ≡ some w')
      × (w'.pages_in_use ≡ w.pages_in_use)
      × (w'.abandoned_count ≡ w.abandoned_count)
      × (w'.free_page_count ≡ wrap_sub w.free_page_count 63)
      × (w'.num_segments ≡ wrap_sub w.num_segments 1)
      × (w'.page ≡ w.page)
unfolding unmap_segment
unmap_segment-Counts s w c key =
    let k = Keeps-avail_remove s w in
    let c' = IsCentral-Keeps w (avail_remove s w) k c in
    let (w₁, run, same) = all_remove-Counts s (avail_remove s w) c'.all c'.chain c'.counted in
    let (r, gone, done) =
      region_unregister-Unregistered w₁.registry s (subst IsRegistry (sym same.table) c'.table)
        key in
    (
      record w₁ {
        g = record w₁.g {
          num_segments = wrap_sub w₁.num_segments 1;
          free_segments = wrap_sub w₁.free_segments 1;
          free_page_count = wrap_sub w₁.free_page_count 63;
        };
        registry = r;
        os = os_free s (w₁.seg s).mmap_size w₁.os;
      },
      rw (run, gone) refl,
      same.in_use ∙ k.counts.in_use,
      same.abandoned ∙ k.counts.abandoned,
      ap (λ n. wrap_sub n 63) (same.free_pages ∙ k.counts.free_pages),
      ap (λ n. wrap_sub n 1) (same.num ∙ k.counts.num),
      same.memory ∙ k.counts.memory,
    )

record Pushed (pg : ℕ) (w w' : World) : Type 0 where
  pub in_use : w'.pages_in_use ≡ w.pages_in_use
  pub free_pages : w'.free_page_count ≡ wrap (w.free_page_count + 1)
  pub abandoned : w'.abandoned_count ≡ w.abandoned_count
  pub num : w'.num_segments ≡ w.num_segments
  pub central : IsCentral w'
  pub others : (a : ℕ) → pg ≢ a → w'.page a ≡ w.page a
  pub freed : ((w'.page pg).in_use ≡ false) × ((w'.page pg).owner ≡ 0)

Pushed-Keeps : (pg : ℕ) (w u v : World) → Keeps u v → Pushed pg w u → Pushed pg w v
Pushed-Keeps pg w u v k p = record {
  in_use = k.counts.in_use ∙ p.in_use;
  free_pages = k.counts.free_pages ∙ p.free_pages;
  abandoned = k.counts.abandoned ∙ p.abandoned;
  num = k.counts.num ∙ p.num;
  central = IsCentral-Keeps u v k p.central;
  others = λ a ne. ap (λ f. f a) k.counts.memory ∙ p.others a ne;
  freed = (
    ap (λ f. (f pg).in_use) k.counts.memory ∙ p.freed.0,
    ap (λ f. (f pg).owner) k.counts.memory ∙ p.freed.1,
  );
}

pool_push-Pushed : (pg s : ℕ) (w : World) → IsCentral w → Pushed pg w (pool_push pg s w)
unfolding pool_push
pool_push-Pushed pg s w₀ c =
    let v = w₀.seg s in
    let w₁ =
      set_page pg
        (record (w₀.page pg) {
          in_use = false;
          owner = 0;
          free = 0;
          block_size = 0;
          prev = 0;
          next = v.free_list;
        })
        w₀ in
    let w₂ = set_seg s (record v { free_list = pg; free_count = u32 (v.free_count + 1) }) w₁ in
    let w₃ = record w₂ { g = record w₂.g { free_page_count = wrap (w₂.free_page_count + 1) } } in
    let c₂ =
      IsCentral-Keeps w₀
        (set_seg s (record v { free_list = pg; free_count = u32 (v.free_count + 1) }) w₀)
        (Keeps-set_seg w₀ s _ refl) c in
    let p₃ : Pushed pg w₀ w₃ = record {
      in_use = refl;
      free_pages = refl;
      abandoned = refl;
      num = refl;
      central = record { all = c₂.all; chain = c₂.chain; counted = c₂.counted; table = c₂.table };
      others = λ a ne. update_ne w₀.page pg a _ ne;
      freed = (
        ap (λ (u : Page). u.in_use) (update_self w₀.page pg _),
        ap (λ (u : Page). u.owner) (update_self w₀.page pg _),
      );
    } in
    elim (Bool-cases (v.free_count == 0)) [
      | inl was_empty ↦ rw was_empty (Pushed-Keeps pg w₀ w₃ _ (Keeps-avail_push s w₃) p₃)
      | inr others ↦ rw others p₃
    ]

-- A page can be returned to its pool: the loops end, and one page more is free, but for those of the
-- segment that is unmapped.
pool_return-Returned :
    (pg : ℕ) (w : World)
    → IsCentral w
    → IsKey (segment_of (w.page pg).area)
    → (w' : World) × (pool_return pg w ≡ some w') × Returned pg w w'
unfolding pool_return
pool_return-Returned pg w c key =
    let s = segment_of (w.page pg).area in
    let w₁ = pool_push pg s w in
    let p = pool_push-Pushed pg s w c in
    let w₂ = record w₁ { g = record w₁.g { free_segments = wrap (w₁.free_segments + 1) } } in
    let c₂ : IsCentral w₂ = record {
      all = p.central.all;
      chain = p.central.chain;
      counted = p.central.counted;
      table = p.central.table;
    } in
    elim (Bool-cases ((w₁.seg s).free_count == usable_pages_per_segment)) [
      | inr partly ↦ (
        w₁,
        rw partly refl,
        record {
          in_use = p.in_use;
          abandoned = p.abandoned;
          pages = omega (arith, p.free_pages, p.num);
          others = p.others;
          freed = p.freed;
        },
      )
      | inl idle ↦ elim (Bool-cases (ltb segment_cache w₂.free_segments)) [
        | inr cached ↦ (
          w₂,
          rw (idle, cached) refl,
          record {
            in_use = p.in_use;
            abandoned = p.abandoned;
            pages = omega (arith, p.free_pages, p.num);
            others = p.others;
            freed = p.freed;
          },
        )
        | inl spare ↦
            let (w₃, run, in_use, abandoned, free, num, memory) =
              unmap_segment-Counts s w₂ c₂ key in
            (
              w₃,
              rw (idle, spare) run,
              record {
                in_use = in_use ∙ p.in_use;
                abandoned = abandoned ∙ p.abandoned;
                pages = omega (arith, free, num, p.free_pages, p.num);
                others = λ a ne. ap (λ f. f a) memory ∙ p.others a ne;
                freed = (
                  ap (λ f. (f pg).in_use) memory ∙ p.freed.0,
                  ap (λ f. (f pg).owner) memory ∙ p.freed.1,
                );
              },
            )
      ]
    ]

pub central_release_page-others :
    (pg : ℕ) (w : World)
    → IsCentral w
    → IsKey (segment_of (w.page pg).area)
    → Balanced w
    → (w' : World) × (central_release_page pg w ≡ some w')
      × Balanced w'
      × ((a : ℕ) → pg ≢ a → w'.page a ≡ w.page a)
      × (w'.pages_in_use ≡ wrap_sub w.pages_in_use 1)
      × ((w'.page pg).in_use ≡ false)
      × ((w'.page pg).owner ≡ 0)
unfolding central_release_page
central_release_page-others pg w c key balanced =
    let w₀ = record w { g = record w.g { pages_in_use = wrap_sub w.pages_in_use 1 } } in
    let c₀ : IsCentral w₀ = record {
      all = c.all;
      chain = c.chain;
      counted = c.counted;
      table = c.table;
    } in
    let (w', run, r) = pool_return-Returned pg w₀ c₀ key in
    (
      w',
      run,
      omega (arith, r.in_use, r.abandoned, r.pages, balanced),
      r.others,
      r.in_use,
      r.freed.0,
      r.freed.1,
    )
