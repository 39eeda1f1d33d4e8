-- ===== src/Net/Fetch.antt =====
-- Blocks that are fetched from other replicas and then delivered: `FetchContext` of
-- include/hotstuff/hotstuff.h, and `on_fetch_blk`, `on_deliver_blk` and `async_fetch_blk` of
-- `HotStuffBase` in src/hotstuff.cpp. A promise is named by the hash it is for; those resolved are
-- appended to `fetched_for` and `delivered_for`, and the requests sent to `requests`. The times of the
-- deliveries and the numbers of requests to each replica, which are only printed, are left out.
pub mod Settled
pub mod Asked
use kauri_public.Base.{
  ℕ, ◌+◌, ◌%◌, Bool, true, false, ◌&&◌, Option, none, some, List, [], ◌∷◌, ◌++◌, ◌==◌, is_some,
  length, set_insert, set_erase, contains, u32_mod, if◌then◌else◌,
}
use kauri_public.Base.Exec.{Result, ok, err, Exec, undefined, ◌>>=◌, ◌>>◌}
use kauri_public.Base.Maps
use kauri_public.Crypto.Scheme.{Scheme}
use kauri_public.Entity.Config
use kauri_public.Entity.Storage
use kauri_public.Core.State.{HotStuffCore, at}
use kauri_public.Core.Deliver.{u64_mod, on_deliver_blk}

-- `blk_fetch_waiting` has the replicas of each context. A set of replicas, whose order is
-- not fixed in the code, is here in the order in which they came.
pub record Fetch (C : Scheme) : Type 0 where
  pub core : HotStuffCore C
  pub blk_fetch_waiting : List (ℕ × List ℕ)
  pub blk_delivery_waiting : List ℕ
  pub requests : List (ℕ × ℕ)
  pub fetched_for : List (ℕ × ℕ)
  pub delivered_for : List (ℕ × Bool)
  pub fetched : ℕ
  pub part_fetched : ℕ
  pub delivered : ℕ
  pub part_delivered : ℕ
  pub part_parent_size : ℕ

abbrev pub context : Option (List ℕ) → List ℕ
context none = []
context (some replicas) = replicas

module _ {C : Scheme} where
  -- FetchContext::send
  abbrev pub send : ℕ → ℕ → Fetch C → Fetch C
  send h replica s = record s { requests = s.requests ++ (h, replica) ∷ [] }

  unfoldable pub send_each : ℕ → List ℕ → Fetch C → Fetch C
  send_each h [] s = s
  send_each h (r ∷ rs) s = send_each h rs (send h r s)

  abbrev timeout_of : ℕ → Option (List ℕ) → Fetch C → Fetch C
  timeout_of h none s = s
  timeout_of h (some replicas) s = send_each h replicas s

  -- The timer of the context for `h`, which is set again.
  unfoldable pub timeout_cb : ℕ → Fetch C → Fetch C
  unfolding send_each Maps.find
  timeout_cb h s = timeout_of h (Maps.find h s.blk_fetch_waiting) s

  -- The first replica is asked at once; every replica is remembered.
  unfoldable pub add_replica : ℕ → List ℕ → ℕ → Bool → Fetch C → Fetch C
  unfolding Maps.put
  add_replica h replicas replica fetch_now s =
      let t = if length replicas == 0 && fetch_now then send h replica s else s in
      record t { blk_fetch_waiting = Maps.put h (set_insert replica replicas) t.blk_fetch_waiting }

  abbrev with_replica : ℕ → List ℕ → Option ℕ → Bool → Fetch C → Fetch C
  with_replica h replicas none fetch_now s = record s {
    blk_fetch_waiting = Maps.put h replicas s.blk_fetch_waiting;
  }
  with_replica h replicas (some replica) fetch_now s = add_replica h replicas replica fetch_now s

  -- The promise is resolved at once if the block is there.
  unfoldable pub async_fetch_blk : ℕ → Option ℕ → Bool → Fetch C → Fetch C
  unfolding Maps.find Maps.put add_replica Storage.is_blk_fetched
  async_fetch_blk h replica fetch_now s =
      if Storage.is_blk_fetched s.core.storage h
      then s
      else with_replica h (context (Maps.find h s.blk_fetch_waiting)) replica fetch_now s

  unfoldable pub on_fetch_blk : ℕ → Fetch C → Fetch C
  unfolding Maps.find Maps.erase
  on_fetch_blk b s =
      let h = (at s.core b).hash in
      let t : Fetch C = record s {
        part_fetched = (s.part_fetched + 1) % u32_mod;
        fetched = (s.fetched + 1) % u64_mod;
      } in
      if is_some (Maps.find h s.blk_fetch_waiting)
      then record t {
        fetched_for = t.fetched_for ++ (h, b) ∷ [];
        blk_fetch_waiting = Maps.erase h t.blk_fetch_waiting;
      }
      else t

  -- The handler of responses, once the blocks are in the storage.
  unfoldable pub resp_blk_handler : List ℕ → Fetch C → Fetch C
  unfolding on_fetch_blk
  resp_blk_handler [] s = s
  resp_blk_handler (b ∷ bs) s = resp_blk_handler bs (on_fetch_blk b s)

  unfoldable pub all_delivered : HotStuffCore C → List ℕ → Bool
  unfolding Storage.is_blk_delivered
  all_delivered s [] = true
  all_delivered s (h ∷ hs) = Storage.is_blk_delivered s.heap s.storage h && all_delivered s hs

  abbrev count : ℕ → Bool → Fetch C → Fetch C
  count b false s = s
  count b true s = record s {
    part_parent_size = (s.part_parent_size + length (at s.core b).parent_hashes) % u32_mod;
    part_delivered = (s.part_delivered + 1) % u32_mod;
    delivered = (s.delivered + 1) % u64_mod;
  }

  -- The promise for the hash is resolved or rejected, where one waits.
  abbrev pub settle : ℕ → Bool → Fetch C → Bool × Fetch C
  settle h valid s =
      if contains h s.blk_delivery_waiting
      then (
        valid,
        record s {
          delivered_for = s.delivered_for ++ (h, valid) ∷ [];
          blk_delivery_waiting = set_erase h s.blk_delivery_waiting;
        },
      )
      else (true, s)

  abbrev settled : ℕ → ℕ → Result Bool × HotStuffCore C → Exec (Fetch C) Bool
  settled b h (err e, c) s = (err e, record s { core = c })
  settled b h (ok valid, c) s =
      let (res, t) = settle h valid (count b valid (record s { core = c })) in (ok res, t)

  -- HotStuffBase::on_deliver_blk
  unfoldable pub deliver_fetched : ℕ → Exec (Fetch C) Bool
  unfolding all_delivered on_deliver_blk
  deliver_fetched b s =
      if all_delivered s.core (at s.core b).parent_hashes
      then settled b (at s.core b).hash (on_deliver_blk b s.core) s
      else (err undefined, s)

  abbrev verified_by : HotStuffCore C → Option C.QuorumCert → Result Bool
  verified_by s none = err undefined
  verified_by s (some qc) =
      if C.obj_hash qc == (at s s.b0).hash
      then ok true
      else C.verify (Config.get_pubkey s.config) qc

  -- Block::verify
  unfoldable pub verify_blk : HotStuffCore C → ℕ → Result Bool
  verify_blk s b = verified_by s (at s b).qc

  -- What waits for all of a block's promises: the verdict, and then the delivery.
  abbrev pub when_all : ℕ → Result Bool → Exec (Fetch C) Bool
  when_all b (err e) s = (err e, s)
  when_all b (ok false) s = (ok false, s)
  when_all b (ok true) s = deliver_fetched b s
