-- ===== src/Central/Account.antt =====
-- `central_release_page` as a whole: the places of the pages and their account.
use hmalloc.Common.{ℕ, ◌<◌, ◌≡◌, sym, subst, ◌∙◌, ◌≢◌, some, List, length}
use mathlib.Core.Option.{some-injective}
use hmalloc.Common.Multiset.{count, erase}
use hmalloc.Registry.Table.{IsKey}
use hmalloc.Segment.{segment_of}
use hmalloc.Central.{World, central_release_page}
use hmalloc.Central.Balance.{Balanced}
use hmalloc.Central.Release.{IsCentral, central_release_page-others}
use hmalloc.Central.Pool.{mapped, IsPool, home, records, used-place}
use hmalloc.Central.Return.{central_release_page-IsPool}
use hmalloc.Central.Arith.{in_stock}
use hmalloc.Central.Places.{eq_le}

-- Where every page is in one place and the account of pages is balanced, a heap can release a page that
-- it has: the call returns, whether or not the segment is unmapped. The page is then no heap's, every
-- page is in one place, the account is balanced, and no other page is written.
pub central_release_page-Released :
    (pg : ℕ) (used : List ℕ) (w : World)
    → 0 < count pg used
    → IsPool used w
    → Balanced w
    → (w' : World) × (central_release_page pg w ≡ some w')
      × IsPool (erase pg used) w'
      × Balanced w'
      × ((a : ℕ) → pg ≢ a → w'.page a ≡ w.page a)
central_release_page-Released pg used w here v balanced =
    let (w₁, run, v', lost, link, others) = central_release_page-IsPool pg used w here v in
    let (member, one, once, nowhere) = used-place v pg here in
    let at : segment_of (w.page pg).area ≡ home pg =
      v.area pg (in_stock (count (home pg) v.all) (count pg (records 63 (home pg))) member one) in
    let c : IsCentral w = record {
      all = v.all;
      chain = v.chain;
      counted = eq_le (length v.all) w.num_segments v.counted;
      table = (mapped v (home pg) member).registry;
    } in
    let (w₂, ran, balanced', same, counted, unused, unowned) =
      central_release_page-others pg w c (subst IsKey (sym at) (v.based (home pg) member).0)
        balanced in
    (w₁, run, v', subst Balanced (some-injective _ _ (sym ran ∙ run)) balanced', others)
