-- ===== src/Core/State.antt =====
-- The data members of `HotStuffCore`, and the steps of its methods that others are made of.
-- The pure virtual methods and the promises are outputs: they are appended to `outbox`, and what
-- the owner of the object does about them are further calls.
use kauri_public.Base.{ℕ, ◌+◌, Bool, Option, none, some, List, [], ◌∷◌, ◌++◌, ltb, if◌then◌else◌}
use kauri_public.Base.Exec.{ok, err, Exec, need, undefined, not_delivered}
use kauri_public.Base.Maps
use kauri_public.Crypto.Scheme.{Scheme}
use kauri_public.Entity.Config.{ReplicaConfig}
use kauri_public.Entity.Block.{Block}
use kauri_public.Entity.Storage
use kauri_public.Entity.Storage.{Heap, EntityStorage}

-- The certificate is not null, as `on_receive_vote` asserts; `hsc` is the object itself.
pub record Vote (C : Scheme) : Type 0 where
  pub voter : ℕ
  pub blk_hash : ℕ
  pub cert : C.PartCert

pub record Proposal : Type 0 where
  pub proposer : ℕ
  pub blk : ℕ

pub record Finality : Type 0 where
  pub rid : ℕ
  pub decision : ℕ
  pub cmd_idx : ℕ
  pub cmd_height : ℕ
  pub cmd_hash : ℕ
  pub blk_hash : ℕ

-- Calls of virtual methods, and promises that are resolved with a value.
pub data Event (C : Scheme) : Type 0 where
  decide : Finality → Event C
  consensus : ℕ → Event C
  broadcast : Proposal → Event C
  vote : Proposal → Vote C → Event C
  resolve_qc : ℕ → Event C
  resolve_proposal : ℕ → Proposal → Event C
  resolve_hqc : ℕ → Event C

-- Figures for the log. `proposal_time` and `stats` are in microseconds.
pub record Figures : Type 0 where
  pub summed_latency : ℕ
  pub processed_blocks : ℕ
  pub proposal_time : List (ℕ × ℕ)
  pub stats : List (ℕ × ℕ)

-- Promises are numbered in the order in which they are made.
pub record Waiting : Type 0 where
  pub qc_waiting : List (ℕ × ℕ)
  pub propose_waiting : ℕ
  pub receive_proposal_waiting : ℕ
  pub hqc_update_waiting : ℕ
  pub next_promise : ℕ

-- `hqc` is a pair of null pointers until `on_init`. `clock n` is what call `n` of `gettimeofday`
-- returns, in microseconds; `b_normal_height` is the bit pattern of an `int`.
pub record HotStuffCore (C : Scheme) : Type 0 where
  pub b0 : ℕ
  pub b_lock : ℕ
  pub b_exec : ℕ
  pub tails : List ℕ
  pub waiting : Waiting
  pub vote_disabled : Bool
  pub figures : Figures
  pub id : ℕ
  pub config : ReplicaConfig C
  pub priv_key : C.PrivKey
  pub hqc : Option (ℕ × C.QuorumCert)
  pub vheight : ℕ
  pub storage : EntityStorage
  pub piped_queue : List ℕ
  pub rdy_queue : List ℕ
  pub b_normal_height : ℕ
  pub piped_submitted : Bool
  pub last_block_time : ℕ
  pub heap : Heap C
  pub outbox : List (Event C)
  pub clock : ℕ → ℕ
  pub reads : ℕ

module _ {C : Scheme} where
  -- *b
  abbrev pub at : HotStuffCore C → ℕ → Block C
  at s b = s.heap.cell b

  abbrev pub blk_at : ℕ → Exec (HotStuffCore C) (Block C)
  blk_at b s = (ok (at s b), s)

  unfoldable pub set_blk : ℕ → Block C → HotStuffCore C → HotStuffCore C
  unfolding Storage.write
  set_blk b v s = record s { heap = Storage.write s.heap b v }

  unfoldable pub emit : Event C → HotStuffCore C → HotStuffCore C
  emit e s = record s { outbox = s.outbox ++ e ∷ [] }

  unfoldable pub gettimeofday : Exec (HotStuffCore C) ℕ
  gettimeofday s = (ok (s.clock s.reads), record s { reads = s.reads + 1 })

  abbrev pub must_be_delivered : Option ℕ → Exec (HotStuffCore C) ℕ
  must_be_delivered none s = (err not_delivered, s)
  must_be_delivered (some b) s = (if (at s b).delivered then ok b else err not_delivered, s)

  unfoldable pub get_delivered_blk : ℕ → Exec (HotStuffCore C) ℕ
  unfolding Storage.find_blk
  get_delivered_blk h s = must_be_delivered (Storage.find_blk s.storage h) s

  unfoldable pub get_potentially_not_delivered_blk : ℕ → Exec (HotStuffCore C) ℕ
  unfolding Storage.find_blk
  get_potentially_not_delivered_blk h s = need (Storage.find_blk s.storage h) not_delivered s

  unfoldable pub sanity_check_delivered : ℕ → Exec (HotStuffCore C) (Unit {0})
  sanity_check_delivered b s = (if (at s b).delivered then ok tt else err not_delivered, s)

  -- A promise is taken out, a new one put in its place, and the old one resolved.
  unfoldable pub on_hqc_update : HotStuffCore C → HotStuffCore C
  unfolding emit
  on_hqc_update s = emit (resolve_hqc s.waiting.hqc_update_waiting) (record s {
    waiting = record (s.waiting) {
      hqc_update_waiting = s.waiting.next_promise;
      next_promise = s.waiting.next_promise + 1;
    };
  })

  unfoldable pub on_propose_ : Proposal → HotStuffCore C → HotStuffCore C
  unfolding emit
  on_propose_ prop s = emit (resolve_proposal s.waiting.propose_waiting prop) (record s {
    waiting = record (s.waiting) {
      propose_waiting = s.waiting.next_promise;
      next_promise = s.waiting.next_promise + 1;
    };
  })

  unfoldable pub on_receive_proposal_ : Proposal → HotStuffCore C → HotStuffCore C
  unfolding emit
  on_receive_proposal_ prop s =
      emit (resolve_proposal s.waiting.receive_proposal_waiting prop) (record s {
        waiting = record (s.waiting) {
          receive_proposal_waiting = s.waiting.next_promise;
          next_promise = s.waiting.next_promise + 1;
        };
      })

  abbrev pub resolve_waiting : ℕ → Option ℕ → HotStuffCore C → HotStuffCore C
  resolve_waiting b none s = s
  resolve_waiting b (some p) s = record s {
    waiting = record (s.waiting) { qc_waiting = Maps.erase b s.waiting.qc_waiting };
    outbox = s.outbox ++ resolve_qc p ∷ [];
  }

  unfoldable pub on_qc_finish : ℕ → HotStuffCore C → HotStuffCore C
  on_qc_finish b s = resolve_waiting b (Maps.find b s.waiting.qc_waiting) s

  abbrev pub set_hqc : ℕ → Option C.QuorumCert → Exec (HotStuffCore C) (Unit {0})
  set_hqc b none s = (err undefined, s)
  set_hqc b (some q) s = (ok tt, on_hqc_update (record s { hqc = some (b, C.clone q) }))

  abbrev pub raise_hqc :
      Option (ℕ × C.QuorumCert) → ℕ → Option C.QuorumCert → Exec (HotStuffCore C) (Unit {0})
  raise_hqc none b qc s = (err undefined, s)
  raise_hqc (some (top, cert)) b qc s =
      if ltb (at s top).height (at s b).height then set_hqc b qc s else (ok tt, s)

  unfoldable pub update_hqc : ℕ → Option C.QuorumCert → Exec (HotStuffCore C) (Unit {0})
  unfolding on_hqc_update
  update_hqc b qc s = raise_hqc s.hqc b qc s
