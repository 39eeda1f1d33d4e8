-- ===== src/Core/Votes/History.antt =====
-- Proposals and votes in any order.
use kauri_public.Base.{ℕ, Bool, true, false, Option, none, some, List, [], ◌∷◌, if◌then◌else◌}
use kauri_public.Base.Maps
use kauri_public.Crypto.Scheme.{Scheme}
use kauri_public.Core.State.{HotStuffCore, Proposal, Vote}
use kauri_public.Core.Setup.{set_vote_disabled}
use kauri_public.Core.Votes.{
  on_receive_proposal, on_receive_vote, async_qc_finish, finished, waiting_for, resolved,
}
use kauri_public.Core.Votes.Sent.{votes}
use kauri_public.Core.Votes.Count.{Calm, on_receive_vote-Calm}
use kauri_public.Core.Votes.Once.{VotesInOrder, heights-place, on_receive_proposal-VotesInOrder}

-- What a replica that does not propose is called with: a proposal, a vote, a wait for a certificate,
-- and the switch for its votes.
pub data Input (C : Scheme) : Type 0 where
  receive_proposal : Proposal → Input C
  receive_vote : Vote C → Input C
  wait_for_qc : ℕ → Input C
  disable_votes : Bool → Input C

module _ {C : Scheme} where
  -- A call that throws leaves what it did before.
  unfoldable pub handle : Input C → HotStuffCore C → HotStuffCore C
  unfolding on_receive_proposal on_receive_vote async_qc_finish set_vote_disabled
  handle (receive_proposal prop) s = (on_receive_proposal prop s).1
  handle (receive_vote v) s = (on_receive_vote v s).1
  handle (wait_for_qc b) s = (async_qc_finish b s).1
  handle (disable_votes f) s = set_vote_disabled f s

  unfoldable pub handle_all : List (Input C) → HotStuffCore C → HotStuffCore C
  unfolding handle
  handle_all [] s = s
  handle_all (x ∷ xs) s = handle_all xs (handle x s)

  Calm-VotesInOrder : (s t : HotStuffCore C) → Calm s t → VotesInOrder s → VotesInOrder t
  Calm-VotesInOrder s t calm h =
      rw
        (
          calm.sent,
          calm.vheight,
          heights-place s.heap.cell t.heap.cell (votes s.outbox) (λ a. (calm.cells a).height),
        )
        h

  waiting_for-VotesInOrder :
      (o : Option ℕ) (b : ℕ) (s : HotStuffCore C)
      → VotesInOrder s
      → VotesInOrder (waiting_for o b s).1
  waiting_for-VotesInOrder none b s h = h
  waiting_for-VotesInOrder (some p) b s h = h

  async_qc_finish-VotesInOrder :
      (b : ℕ) (s : HotStuffCore C) → VotesInOrder s → VotesInOrder (async_qc_finish b s).1
  unfolding async_qc_finish
  async_qc_finish-VotesInOrder b s h = go (finished s b)
    where
      go :
          (over : Bool)
          → VotesInOrder
              (if over then (resolved, s) else waiting_for (Maps.find b s.waiting.qc_waiting) b s).1
      go true = h
      go false = waiting_for-VotesInOrder (Maps.find b s.waiting.qc_waiting) b s h

  pub handle-VotesInOrder :
      (x : Input C) (s : HotStuffCore C) → VotesInOrder s → VotesInOrder (handle x s)
  unfolding handle set_vote_disabled
  handle-VotesInOrder (receive_proposal prop) s h = on_receive_proposal-VotesInOrder prop s h
  handle-VotesInOrder (receive_vote v) s h = Calm-VotesInOrder s _ (on_receive_vote-Calm v s) h
  handle-VotesInOrder (wait_for_qc b) s h = async_qc_finish-VotesInOrder b s h
  handle-VotesInOrder (disable_votes f) s h = h

  -- If the blocks that a replica has voted for rise strictly in height, up to the height of its last
  -- vote, then they do so after any sequence of proposals, votes, waits and switches, handled or
  -- refused: no two votes are for blocks of one height.
  pub handle_all-VotesInOrder :
      (xs : List (Input C)) (s : HotStuffCore C) → VotesInOrder s → VotesInOrder (handle_all xs s)
  unfolding handle_all
  handle_all-VotesInOrder [] s h = h
  handle_all-VotesInOrder (x ∷ xs) s h =
      handle_all-VotesInOrder xs (handle x s) (handle-VotesInOrder x s h)
