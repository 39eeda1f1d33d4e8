-- ===== src/Net/Votes.antt =====
-- `vote_handler`, `propose_handler` and `do_vote` of src/hotstuff.cpp.
use kauri_public.Base.{
  ℕ, ◌+◌, Bool, true, false, ◌&&◌, Option, none, some, List, [], ◌∷◌, ◌++◌, ◌==◌, if◌then◌else◌,
}
use kauri_public.Base.Exec.{
  Result, ok, err, Exec, modify, undefined, mismatched_cert, invalid_signature, unreachable_line,
  ◌>>=◌, ◌>>◌,
}
use kauri_public.Crypto.Scheme.{Scheme}
use kauri_public.Entity.Config
use kauri_public.Entity.Storage
use kauri_public.Core.State.{
  HotStuffCore, Vote, Proposal, at, set_blk, update_hqc, on_qc_finish, get_delivered_blk,
}
use kauri_public.Core.Votes.{on_receive_proposal}
use kauri_public.Net.State.{
  Send, send_propose, send_vote, send_relay, check_vote, await_delivery, HotStuffBase, on_core,
  is_proposer, cert_of, put_cert, put_part, prepare, defer, tell,
}

-- if (blk->hash == piped_queue.front()) piped_queue.pop_front(), where the queue is not empty
abbrev pub pop_if_front : ℕ → List ℕ → List ℕ
pop_if_front h [] = []
pop_if_front h (x ∷ xs) = if h == x then xs else x ∷ xs

module _ {C : Scheme} where
  abbrev pub keys : HotStuffBase C → ℕ → Result C.PubKey
  keys s = Config.get_pubkey s.core.config

  -- cert->has_n(numberOfChildren + 1)
  abbrev pub has_subtree : HotStuffBase C → C.QuorumCert → Bool
  has_subtree s qc = C.has_n (s.number_of_children + 1) qc

  unfoldable pub vote_handler : Option ℕ → Vote C → Exec (HotStuffBase C) (Unit {0})
  unfolding prepare
  vote_handler none v s = (ok tt, s)
  vote_handler (some peer) v s =
      (do
        (b, qc) ← prepare v.blk_hash
        λ t. (
          ok tt,
          if C.has_n t.core.config.nmajority qc then t else defer (check_vote b v peer) t,
        ))
        s

  -- The loop over the piped blocks at an inner replica. An element that is erased leaves the loop with
  -- an iterator that is not valid.
  unfoldable pub confirm_piped : HotStuffCore C → List ℕ → Result (Unit {0})
  confirm_piped s [] = ok tt
  confirm_piped s (h ∷ hs) =
      let rest = confirm_piped s hs in
      elim (Storage.find_blk s.storage h) [
        | none ↦ err undefined
        | some b ↦
            if (at s b).delivered
            then elim (at s b).qc [
              | none ↦ err undefined
              | some qc ↦ if C.has_n s.config.nmajority qc then err undefined else rest
            ]
            else rest
      ]

  abbrev pub tidied : ℕ → Result (Unit {0}) → Exec (HotStuffCore C) (Unit {0})
  tidied b (err e) s = (err e, s)
  tidied b (ok _) s = (ok tt, record s { piped_queue = pop_if_front (at s b).hash s.piped_queue })

  unfoldable pub tidy_piped : ℕ → Exec (HotStuffCore C) (Unit {0})
  unfolding confirm_piped
  tidy_piped b s = tidied b (confirm_piped s s.piped_queue) s

  -- What is done with the verdict on a certificate that was computed: it goes up the tree if it is
  -- good; if not, `bad` is the outcome.
  abbrev pub relay_if :
      Result (Unit {0}) → ℕ → C.QuorumCert → Result Bool → Exec (HotStuffBase C) (Unit {0})
  relay_if bad h qc (err e) s = (err e, s)
  relay_if bad h qc (ok false) s = (bad, s)
  relay_if bad h qc (ok true) s =
      (ok tt, tell (send_relay (record { blk_hash = h; cert = C.clone qc }) s.parent_peer) s)

  unfoldable pub relay_up :
      Result (Unit {0}) → ℕ → ℕ → C.QuorumCert → Exec (HotStuffBase C) (Unit {0})
  unfolding set_blk
  relay_up bad b h qc s =
      let qc' = C.compute qc in
      relay_if bad h qc' (C.verify (keys s) qc') (record s { core = put_cert b qc' s.core })

  abbrev pub inner_added : ℕ → ℕ → Option C.QuorumCert → Exec (HotStuffBase C) (Unit {0})
  inner_added b h none s = (err mismatched_cert, s)
  inner_added b h (some qc) s =
      let t : HotStuffBase C = record s { core = put_cert b qc s.core } in
      if has_subtree s qc then (on_core (tidy_piped b) >> relay_up (ok tt) b h qc) t else (ok tt, t)

  -- The vote at a replica that is not the proposer.
  unfoldable pub inner_vote : ℕ → Vote C → C.QuorumCert → Exec (HotStuffBase C) (Unit {0})
  unfolding set_blk tidy_piped relay_up
  inner_vote b v qc s =
      if has_subtree s qc
      then (ok tt, s)
      else inner_added b v.blk_hash (C.add_part v.voter v.cert qc) s

  -- A certificate with a quorum raises `hqc`.
  unfoldable pub finish_blk : ℕ → C.QuorumCert → Exec (HotStuffCore C) (Unit {0})
  unfolding update_hqc on_qc_finish
  finish_blk b qc = do update_hqc b (some qc); modify (on_qc_finish b)

  -- Replica 0 does not verify.
  abbrev pub finish_if : Bool → Result Bool → ℕ → C.QuorumCert → Exec (HotStuffCore C) (Unit {0})
  finish_if true verdict b qc s = finish_blk b qc s
  finish_if false (err e) b qc s = (err e, s)
  finish_if false (ok false) b qc s = (err invalid_signature, s)
  finish_if false (ok true) b qc s = finish_blk b qc s

  abbrev pub root_added : ℕ → Option C.QuorumCert → Exec (HotStuffCore C) (Unit {0})
  root_added b none s = (err mismatched_cert, s)
  root_added b (some qc) s =
      let qc' = C.compute qc in
      if C.obj_hash qc == (at s b).hash && C.has_n s.config.nmajority qc
      then finish_if (s.id == 0) (C.verify (Config.get_pubkey s.config) qc') b qc'
          (put_cert b qc' s)
      else (ok tt, put_cert b qc s)

  unfoldable pub root_vote : ℕ → Vote C → C.QuorumCert → Exec (HotStuffCore C) (Unit {0})
  unfolding set_blk finish_blk
  root_vote b v qc s = root_added b (C.add_part v.voter v.cert qc) s

  -- Once the block is delivered and the vote checked. The verdict is logged, and not looked at.
  unfoldable pub vote_checked : ℕ → Vote C → Bool → Exec (HotStuffBase C) (Unit {0})
  unfolding inner_vote root_vote
  vote_checked b v valid s =
      (do
        qc ← on_core (cert_of b)
        λ t. if is_proposer t then on_core (root_vote b v qc) t else inner_vote b v qc t)
        s

  -- `do_vote`, once the pacemaker's `beat_resp` has named the proposer.
  abbrev pub keep_own_vote :
      ℕ → Option C.QuorumCert → Vote C → Proposal → Exec (HotStuffCore C) (Unit {0})
  keep_own_vote b (some qc) v prop s = (ok tt, s)
  keep_own_vote b none v prop s =
      let made = C.create_quorum_cert s.config.nreplicas (at s prop.blk).hash in
      put_part b made (C.add_part v.voter v.cert made) s

  abbrev pub vote_of_leaf : List ℕ → Proposal → Vote C → Exec (HotStuffBase C) (Unit {0})
  vote_of_leaf [] prop v s = (ok tt, tell (send_vote v s.parent_peer) s)
  vote_of_leaf (_ ∷ _) prop v s =
      on_core
        (do b ← get_delivered_blk v.blk_hash; (λ c. keep_own_vote b (at c b).self_qc v prop c)) s

  unfoldable pub do_vote : Proposal → Vote C → ℕ → Exec (HotStuffBase C) (Unit {0})
  unfolding set_blk get_delivered_blk
  do_vote prop v proposer s =
      if proposer == s.core.id
      then (err unreachable_line, s)
      else vote_of_leaf s.child_peers prop v s

  abbrev pub send_all : Proposal → List ℕ → List (Send C)
  send_all prop [] = []
  send_all prop (p ∷ ps) = send_propose prop p ∷ send_all prop ps

  unfoldable pub do_broadcast_proposal : Proposal → HotStuffBase C → HotStuffBase C
  do_broadcast_proposal prop s = record s { sends = s.sends ++ send_all prop s.child_peers }

  -- The message is passed on to the children as it came, and then parsed: `prop` is what it holds.
  unfoldable pub propose_handler : Option ℕ → Proposal → HotStuffBase C → HotStuffBase C
  unfolding do_broadcast_proposal
  propose_handler none prop s = s
  propose_handler (some peer) prop s =
      defer (await_delivery prop peer) (do_broadcast_proposal prop s)

  unfoldable pub proposal_delivered : Proposal → Exec (HotStuffBase C) (Unit {0})
  unfolding on_receive_proposal
  proposal_delivered prop = on_core (on_receive_proposal prop)
