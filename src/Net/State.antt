-- ===== src/Net/State.antt =====
-- The data members of `HotStuffBase` of include/hotstuff/hotstuff.h, and what its handlers share.
-- A peer is a number. What waits for promises is in `deferred`, and runs by a later call; what the
-- network is told to send is appended to `sends`.
use kauri_public.Base.{
  ℕ, Bool, false, ◌&&◌, Option, none, some, List, [], ◌∷◌, ◌++◌, ◌==◌, contains, if◌then◌else◌,
}
use kauri_public.Base.Exec.{Result, ok, err, Exec, need, undefined, mismatched_cert, ◌>>=◌, ◌>>◌}
use kauri_public.Crypto.Scheme.{Scheme}
use kauri_public.Entity.Storage
use kauri_public.Core.State.{
  HotStuffCore, Vote, Proposal, Finality, at, set_blk, get_potentially_not_delivered_blk,
}
use kauri_public.Core.Propose.{process_block}
use kauri_public.Wire.Messages.{VoteRelay}

-- pn.send_msg(message, peer)
pub data Send (C : Scheme) : Type 0 where
  send_propose : Proposal → ℕ → Send C
  send_vote : Vote C → ℕ → Send C
  send_relay : VoteRelay C → ℕ → Send C

-- The bodies of `then` of the handlers. The promises are the delivery of the block, asked of the
-- peer where it is not there, and the check of the certificate.
pub data Deferred (C : Scheme) : Type 0 where
  check_vote : ℕ → Vote C → ℕ → Deferred C
  check_relay : ℕ → VoteRelay C → ℕ → Deferred C
  await_delivery : Proposal → ℕ → Deferred C

-- `proposer` is what the pacemaker's `get_proposer` answers.
pub record HotStuffBase (C : Scheme) : Type 0 where
  pub core : HotStuffCore C
  pub proposer : ℕ
  pub number_of_children : ℕ
  pub parent_peer : ℕ
  pub child_peers : List ℕ
  pub sends : List (Send C)
  pub deferred : List (Deferred C)
  -- the commands: those whose callbacks wait, the buffers, and the calls made for them
  pub blk_size : ℕ
  pub decision_waiting : List ℕ
  pub cmd_pending_buffer : List ℕ
  pub final_buffer : List ℕ
  pub part_decided : ℕ
  pub executed : List Finality
  pub replies : List Finality

module _ {C : Scheme} where
  abbrev pub with_core :
      {A : Type 0} → Result A × HotStuffCore C → HotStuffBase C → Result A × HotStuffBase C
  with_core (r, c) s = (r, record s { core = c })

  -- A method of the base class.
  abbrev pub on_core : {A : Type 0} → Exec (HotStuffCore C) A → Exec (HotStuffBase C) A
  on_core m s = with_core (m s.core) s

  abbrev pub is_proposer : HotStuffBase C → Bool
  is_proposer s = s.core.id == s.proposer

  -- blk->self_qc, which is followed
  abbrev pub cert_of : ℕ → Exec (HotStuffCore C) C.QuorumCert
  cert_of b s = need (at s b).self_qc undefined s

  abbrev pub put_cert : ℕ → C.QuorumCert → HotStuffCore C → HotStuffCore C
  put_cert b qc s = set_blk b (record (at s b) { self_qc = some qc }) s

  -- `process_block(blk, false)` of a block that is not delivered
  abbrev pub process_if_new : Option ℕ → Exec (HotStuffCore C) (Unit {0})
  process_if_new none s = (err undefined, s)
  process_if_new (some b) s =
      if (at s b).delivered then (ok tt, s) else (process_block b false >> (λ t. (ok tt, t))) s

  -- A vote for a piped block of one's own makes it a normal block.
  unfoldable pub normalize_piped : ℕ → Exec (HotStuffBase C) (Unit {0})
  unfolding process_block Storage.find_blk
  normalize_piped h s =
      if is_proposer s && contains h s.core.piped_queue
      then on_core (process_if_new (Storage.find_blk s.core.storage h)) s
      else (ok tt, s)

  abbrev pub put_part : ℕ → C.QuorumCert → Option C.QuorumCert → Exec (HotStuffCore C) (Unit {0})
  put_part b made none s = (err mismatched_cert, put_cert b made s)
  put_part b made (some qc) s = (ok tt, put_cert b qc s)

  abbrev pub make_cert : ℕ → Option C.QuorumCert → Exec (HotStuffCore C) (Unit {0})
  make_cert b (some qc) s = (ok tt, s)
  make_cert b none s =
      let h = (at s b).hash in
      let made = C.create_quorum_cert s.config.nreplicas h in
      put_part b made (C.add_part s.id (C.create_part_cert s.priv_key h) made) s

  -- A block that is not delivered, and without a certificate of votes, gets one with its own vote.
  unfoldable pub own_cert : ℕ → Exec (HotStuffCore C) (Unit {0})
  unfolding set_blk
  own_cert b s = if (at s b).delivered then (ok tt, s) else make_cert b (at s b).self_qc s

  -- What `vote_handler` and `vote_relay_handler` do first: the block and its certificate.
  unfoldable pub prepare : ℕ → Exec (HotStuffBase C) (ℕ × C.QuorumCert)
  unfolding normalize_piped own_cert get_potentially_not_delivered_blk
  prepare h = do
    normalize_piped h
    b ← on_core (get_potentially_not_delivered_blk h)
    on_core (own_cert b)
    qc ← on_core (cert_of b)
    λ s. (ok (b, qc), s)

  abbrev pub defer : Deferred C → HotStuffBase C → HotStuffBase C
  defer d s = record s { deferred = s.deferred ++ d ∷ [] }

  abbrev pub tell : Send C → HotStuffBase C → HotStuffBase C
  tell m s = record s { sends = s.sends ++ m ∷ [] }
