-- ===== src/Tests/FetchTests.antt =====
-- A replica that waits for a block it has not heard of, and one that delivers the last of the chain.
use kauri_public.Base.{
  ℕ, ◌≡◌, refl, true, false, [], ◌∷◌, ◌==◌, contains, set_insert, add32, if◌then◌else◌,
}
use kauri_public.Base.Exec.{ok}
use kauri_public.Base.Maps
use kauri_public.Entity.Block.{Block}
use kauri_public.Entity.Storage
use kauri_public.Core.State.{get_delivered_blk}
use kauri_public.Core.Deliver.{deliver_parents}
use kauri_public.Net.Fetch.{Fetch, timeout_cb, deliver_fetched, when_all, verify_blk}
use kauri_public.Net.Fetch.Settled.{Settles, when_all-Settles}
use kauri_public.Net.Fetch.Asked.{ask_all, ask_all-requests}
use kauri_public.Tests.Samples.{plain, chain_block, follower}

-- Block 4 has been fetched, and is not delivered yet.
abbrev fetched_block : ℕ → Block plain
fetched_block n = if n == 4 then record (chain_block 4) { delivered = false } else chain_block n

abbrev fetcher : Fetch plain
fetcher = record {
  core = record follower { heap = record { cell = fetched_block; next = 5 } };
  blk_fetch_waiting = [];
  blk_delivery_waiting = 104 ∷ [];
  requests = [];
  fetched_for = [];
  delivered_for = [];
  fetched = 0;
  part_fetched = 0;
  delivered = 0;
  part_delivered = 0;
  part_parent_size = 0;
}

verify_fetched : verify_blk fetcher.core 4 ≡ ok true
unfolding verify_blk
verify_fetched = refl

when_all-delivers : (when_all 4 (ok true) fetcher).1.delivered_for ≡ (104, true) ∷ []
unfolding deliver_fetched Maps.find contains Storage.is_blk_delivered Storage.find_blk set_insert
    deliver_parents get_delivered_blk add32
when_all-delivers = refl

when_all-Settles_example : Settles fetcher 4 (ok true) (when_all 4 (ok true) fetcher).1
when_all-Settles_example = when_all-Settles 4 (ok true) fetcher

ask_all-requests_example :
    let t = ask_all 120 (7 ∷ 8 ∷ 7 ∷ []) fetcher in
    (t.requests ≡ (120, 7) ∷ [])
    × ((timeout_cb 120 t).requests ≡ (120, 7) ∷ (120, 7) ∷ (120, 8) ∷ [])
unfolding Maps.find Storage.is_blk_fetched contains set_insert
ask_all-requests_example = ask_all-requests 120 7 (8 ∷ 7 ∷ []) fetcher refl refl
