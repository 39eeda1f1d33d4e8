-- ===== src/Core/Setup.antt =====
-- The constructor of `HotStuffCore`, its initialisation, its options and the promises that it hands
-- out, from src/consensus.cpp.
use kauri_public.Base.{
  ℕ, ◌+◌, ◌-◌, ◌%◌, Bool, false, none, some, [], ◌∷◌, set_insert, ◌==◌, if◌then◌else◌,
}
use kauri_public.Crypto.Scheme.{Scheme}
use kauri_public.Entity.Config
use kauri_public.Entity.Config.{ReplicaConfig, ReplicaInfo}
use kauri_public.Entity.Block.{bare_block}
use kauri_public.Entity.Storage
use kauri_public.Core.State.{HotStuffCore, at, set_blk}
use kauri_public.Core.Deliver.{u64_mod}
use kauri_public.Core.Votes.{Promise, pending}

-- What no constructor sets: the counters of the figures, the options, the time of the last block.
pub record Unset : Type 0 where
  pub summed_latency : ℕ
  pub processed_blocks : ℕ
  pub fanout : ℕ
  pub piped_latency : ℕ
  pub async_blocks : ℕ
  pub last_block_time : ℕ

module _ {C : Scheme} where
  -- HotStuffCore(id, priv_key); the clock belongs to the environment. The block b0 is the one object
  -- in memory; the cells of the other addresses hold a block that is not delivered.
  unfoldable pub new_core : ℕ → C.PrivKey → Unset → (ℕ → ℕ) → HotStuffCore C
  unfolding bare_block Storage.add_blk Storage.empty_storage
  new_core id priv_key unset clock =
      let cells : Storage.Heap C = record {
        cell = λ a. bare_block C (a == 0) (if a == 0 then 1 else 0);
        next = 1;
      } in
      record {
        b0 = 0;
        b_lock = 0;
        b_exec = 0;
        tails = 0 ∷ [];
        waiting = record {
          qc_waiting = [];
          propose_waiting = 0;
          receive_proposal_waiting = 1;
          hqc_update_waiting = 2;
          next_promise = 3;
        };
        vote_disabled = false;
        figures = record {
          summed_latency = unset.summed_latency;
          processed_blocks = unset.processed_blocks;
          proposal_time = [];
          stats = [];
        };
        id = id;
        config = record {
          replica_map = [];
          nreplicas = 0;
          nmajority = 0;
          fanout = unset.fanout;
          piped_latency = unset.piped_latency;
          async_blocks = unset.async_blocks;
        };
        priv_key = priv_key;
        hqc = none;
        vheight = 0;
        storage = (Storage.add_blk cells Storage.empty_storage 0).1;
        piped_queue = [];
        rdy_queue = [];
        b_normal_height = 0;
        piped_submitted = false;
        last_block_time = unset.last_block_time;
        heap = cells;
        outbox = [];
        clock = clock;
        reads = 0;
      }

  -- `config.nmajority = config.nreplicas - nfaulty`, a `size_t`
  unfoldable pub on_init : ℕ → HotStuffCore C → HotStuffCore C
  unfolding set_blk
  on_init nfaulty s =
      let qc = C.create_quorum_cert s.config.nreplicas (at s s.b0).hash in
      set_blk s.b0
        (record (at s s.b0) { qc = some qc; self_qc = some (C.clone qc); qc_ref = some s.b0 })
        (record s {
          config = record (s.config) {
            nmajority = (s.config.nreplicas + u64_mod - nfaulty) % u64_mod;
          };
          hqc = some (s.b0, C.clone qc);
        })

  unfoldable pub add_replica : ℕ → ℕ → C.PubKey → HotStuffCore C → HotStuffCore C
  unfolding set_blk Config.add_replica
  add_replica rid peer_id pubkey s =
      set_blk s.b0 (record (at s s.b0) { voted = set_insert rid (at s s.b0).voted })
        (record s {
          config =
              Config.add_replica rid (record { id = rid; peer_id = peer_id; pubkey = pubkey })
                s.config;
        })

  unfoldable pub set_fanout : ℕ → HotStuffCore C → HotStuffCore C
  set_fanout fanout s = record s { config = record (s.config) { fanout = fanout } }

  unfoldable pub set_piped_latency : ℕ → ℕ → HotStuffCore C → HotStuffCore C
  set_piped_latency piped_latency async_blocks s = record s {
    config = record (s.config) { piped_latency = piped_latency; async_blocks = async_blocks };
  }

  unfoldable pub set_vote_disabled : Bool → HotStuffCore C → HotStuffCore C
  set_vote_disabled f s = record s { vote_disabled = f }

  -- The promise on which the returned one waits.
  unfoldable pub async_wait_proposal : HotStuffCore C → Promise
  async_wait_proposal s = pending s.waiting.propose_waiting

  unfoldable pub async_wait_receive_proposal : HotStuffCore C → Promise
  async_wait_receive_proposal s = pending s.waiting.receive_proposal_waiting

  unfoldable pub async_hqc_update : HotStuffCore C → Promise
  async_hqc_update s = pending s.waiting.hqc_update_waiting
