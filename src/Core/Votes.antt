-- ===== src/Core/Votes.antt =====
-- `on_receive_vote`, `async_qc_finish` and `on_receive_proposal` of src/consensus.cpp.
pub mod Sent
pub mod Rule
pub mod Count
pub mod Once
pub mod History
use kauri_public.Base.{
  ℕ, zero, suc, ◌+◌, Bool, true, false, not, Option, none, some, List, [], ◌∷◌, ◌++◌, ltb, leb,
  ◌==◌, ◌&&◌, ◌||◌, contains, set_insert, length, if◌then◌else◌,
}
use kauri_public.Base.Exec.{
  Result, ok, err, Exec, pure, raise, lift, need, modify, undefined, mismatched_cert, ◌>>=◌, ◌>>◌,
}
use kauri_public.Base.Maps
use kauri_public.Crypto.Scheme.{Scheme}
use kauri_public.Entity.Block.{Block}
use kauri_public.Core.State.{
  HotStuffCore, Vote, Proposal, Event, vote, at, set_blk, emit, get_delivered_blk,
  sanity_check_delivered, update_hqc, on_qc_finish, on_receive_proposal_,
}
use kauri_public.Core.Update.{walk_from, update}

-- A promise that is resolved already, or one that is in the books.
pub data Promise : Type 0 where
  resolved : Promise
  pending : ℕ → Promise

-- Whether the walk down to the height of the lock ended at the lock.
abbrev pub on_lock : ℕ → Result (List ℕ × ℕ) → Result Bool
on_lock b_lock (err e) = err e
on_lock b_lock (ok (path, last)) = ok (last == b_lock)

module _ {C : Scheme} where
  abbrev pub has_quorum : HotStuffCore C → Option C.QuorumCert → Bool
  has_quorum s none = false
  has_quorum s (some qc) = C.has_n s.config.nmajority qc

  -- `self_qc`, made anew where it is null
  abbrev pub self_qc_or_new : HotStuffCore C → ℕ → C.QuorumCert
  self_qc_or_new s b = elim (at s b).self_qc [
    | none ↦ C.create_quorum_cert s.config.nreplicas (at s b).hash
    | some qc ↦ qc
  ]

  abbrev pub put_self_qc : ℕ → C.QuorumCert → HotStuffCore C → HotStuffCore C
  put_self_qc b qc s = set_blk b (record (at s b) { self_qc = some qc }) s

  -- The certificate has a quorum: compute it, raise `hqc`, and wake who waits for it.
  unfoldable pub finish_qc : ℕ → C.QuorumCert → Exec (HotStuffCore C) (Unit {0})
  unfolding set_blk update_hqc on_qc_finish
  finish_qc b qc s =
      (do
        modify (put_self_qc b (C.compute qc))
        update_hqc b (some (C.compute qc))
        modify (on_qc_finish b))
        s

  abbrev pub with_part : ℕ → Option C.QuorumCert → Exec (HotStuffCore C) (Unit {0})
  with_part b none s = (err mismatched_cert, s)
  with_part b (some qc) s =
      if C.has_n s.config.nmajority qc
      then finish_qc b qc (put_self_qc b qc s)
      else (ok tt, put_self_qc b qc s)

  -- A certificate that is made here stays where `add_part` throws.
  unfoldable pub add_own_part : ℕ → Vote C → Exec (HotStuffCore C) (Unit {0})
  unfolding set_blk finish_qc
  add_own_part b v s =
      let qc = self_qc_or_new s b in with_part b (C.add_part v.voter v.cert qc) (put_self_qc b qc s)

  unfoldable pub count_vote : ℕ → Vote C → Exec (HotStuffCore C) (Unit {0})
  unfolding add_own_part
  count_vote b v s =
      if not (v.voter == s.id)
      then (ok tt, s)
      else if has_quorum s (at s b).qc
      then (ok tt, s)
      else add_own_part b v s

  unfoldable pub take_vote : ℕ → Vote C → Exec (HotStuffCore C) (Unit {0})
  unfolding set_blk count_vote
  take_vote b v s =
      if contains v.voter (at s b).voted
      then (ok tt, s)
      else count_vote b v
          (set_blk b (record (at s b) { voted = set_insert v.voter (at s b).voted }) s)

  unfoldable pub on_receive_vote : Vote C → Exec (HotStuffCore C) (Unit {0})
  unfolding get_delivered_blk take_vote
  on_receive_vote v = do b ← get_delivered_blk v.blk_hash; take_vote b v

  abbrev pub finished : HotStuffCore C → ℕ → Bool
  finished s b =
      (has_quorum s (at s b).self_qc && not (length (at s b).voted == 0))
      || leb s.config.nmajority (length (at s b).voted)

  abbrev pub waiting_for : Option ℕ → ℕ → HotStuffCore C → Promise × HotStuffCore C
  waiting_for (some p) b s = (pending p, s)
  waiting_for none b s = (
    pending s.waiting.next_promise,
    record s {
      waiting = record (s.waiting) {
        qc_waiting = Maps.insert b s.waiting.next_promise s.waiting.qc_waiting;
        next_promise = s.waiting.next_promise + 1;
      };
    },
  )

  unfoldable pub async_qc_finish : ℕ → HotStuffCore C → Promise × HotStuffCore C
  async_qc_finish b s =
      if finished s b then (resolved, s) else waiting_for (Maps.find b s.waiting.qc_waiting) b s

  abbrev pub qc_ref_above_lock : HotStuffCore C → Option ℕ → Bool
  qc_ref_above_lock s none = false
  qc_ref_above_lock s (some r) = ltb (at s s.b_lock).height (at s r).height

  -- The opinion on a block: higher than what was voted for, and justified by a higher certificate
  -- than the lock, or on the locked branch.
  unfoldable pub opinion_of : HotStuffCore C → ℕ → Result Bool
  opinion_of s b =
      if ltb s.vheight (at s b).height
      then if qc_ref_above_lock s (at s b).qc_ref
        then ok true
        else on_lock s.b_lock (walk_from s.heap.cell (at s s.b_lock).height b)
      else ok false

  abbrev pub finish_ref : Option ℕ → HotStuffCore C → HotStuffCore C
  finish_ref none s = s
  finish_ref (some r) s = on_qc_finish r s

  abbrev pub own_vote : HotStuffCore C → ℕ → Vote C
  own_vote s b = record {
    voter = s.id;
    blk_hash = (at s b).hash;
    cert = C.create_part_cert s.priv_key (at s b).hash;
  }

  abbrev pub cast : Proposal → Bool → HotStuffCore C → HotStuffCore C
  cast prop opinion s =
      if opinion && not s.vote_disabled then emit (vote prop (own_vote s prop.blk)) s else s

  unfoldable pub answer : Proposal → Bool → HotStuffCore C → HotStuffCore C
  unfolding emit on_qc_finish on_receive_proposal_
  answer prop opinion s =
      let t = if opinion then record s { vheight = (at s prop.blk).height } else s in
      cast prop opinion (on_receive_proposal_ prop (finish_ref (at t prop.blk).qc_ref t))

  unfoldable pub on_receive_proposal : Proposal → Exec (HotStuffCore C) (Unit {0})
  unfolding sanity_check_delivered update opinion_of answer
  on_receive_proposal prop = do
    sanity_check_delivered prop.blk
    update prop.blk
    opinion ← (λ s. (opinion_of s prop.blk, s))
    modify (answer prop opinion)
