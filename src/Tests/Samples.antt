-- ===== src/Tests/Samples.antt =====
-- A replica that has received a chain of blocks, each with a certificate of the one before.
use kauri_public.Base.{ℕ, zero, suc, ◌+◌, ◌≡◌, refl, true, false, none, some, List, [], ◌∷◌, arith}
use kauri_public.Crypto.Scheme.{Scheme}
use kauri_public.Crypto.Dummy.{QuorumCertDummy, dummy_scheme}
use kauri_public.Entity.Block.{Block}
use kauri_public.Core.State.{HotStuffCore, Proposal}
use kauri_public.Core.Update.Chain.{Falls}

abbrev pub sample_hash : List ℕ → List ℕ → QuorumCertDummy → List ℕ → ℕ
sample_hash [] cmds qc extra = 100
sample_hash (p ∷ ps) cmds qc extra = p + 1

abbrev pub plain : Scheme
plain = dummy_scheme 0 sample_hash

abbrev pub sample_cert : ℕ → QuorumCertDummy
sample_cert h = record { obj_hash = h; qty = 3 }

-- Block `n` has height `n`, the hash `100 + n` and one command.
abbrev pub chain_block : ℕ → Block plain
chain_block zero = record {
  parent_hashes = [];
  cmds = [];
  qc = some (sample_cert 100);
  extra = [];
  hash = 100;
  parents = [];
  qc_ref = some 0;
  self_qc = some (sample_cert 100);
  height = 0;
  delivered = true;
  decision = 1;
  voted = 0 ∷ 1 ∷ 2 ∷ 3 ∷ [];
}
chain_block (suc n) = record {
  parent_hashes = (100 + n) ∷ [];
  cmds = n ∷ [];
  qc = some (sample_cert (100 + n));
  extra = [];
  hash = 101 + n;
  parents = some n ∷ [];
  qc_ref = some n;
  self_qc = none;
  height = suc n;
  delivered = true;
  decision = 0;
  voted = [];
}

-- Replica 1 of four; the chain is in memory, and nothing has been voted for or committed.
abbrev pub follower : HotStuffCore plain
follower = record {
  b0 = 0;
  b_lock = 0;
  b_exec = 0;
  tails = 4 ∷ [];
  waiting = record {
    qc_waiting = (2, 7) ∷ [];
    propose_waiting = 0;
    receive_proposal_waiting = 1;
    hqc_update_waiting = 2;
    next_promise = 8;
  };
  vote_disabled = false;
  figures = record { summed_latency = 0; processed_blocks = 0; proposal_time = []; stats = [] };
  id = 1;
  config = record {
    replica_map = [];
    nreplicas = 4;
    nmajority = 3;
    fanout = 2;
    piped_latency = 10;
    async_blocks = 0;
  };
  priv_key = tt;
  hqc = some (0, sample_cert 100);
  vheight = 0;
  storage = record {
    blk_cache = (100, 0) ∷ (101, 1) ∷ (102, 2) ∷ (103, 3) ∷ (104, 4) ∷ [];
    cmd_cache = [];
  };
  piped_queue = [];
  rdy_queue = [];
  b_normal_height = 0;
  piped_submitted = false;
  last_block_time = 0;
  heap = record { cell = chain_block; next = 5 };
  outbox = [];
  clock = λ n. n;
  reads = 0;
}

abbrev pub proposal : ℕ → Proposal
proposal b = record { proposer = 0; blk = b }

chain_block-height : (n : ℕ) → (chain_block n).height ≡ n
chain_block-height zero = refl
chain_block-height (suc n) = refl

pub chain_block-Falls : Falls chain_block
chain_block-Falls zero p h = absurd (ground arith)
chain_block-Falls (suc n) p h =
    let same : n ≡ p = ground arith in omega (arith, chain_block-height p, same)
