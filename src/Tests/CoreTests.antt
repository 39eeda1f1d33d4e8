-- ===== src/Tests/CoreTests.antt =====
-- The core on the sample chain.
use kauri_public.Base.{
  ℕ, ◌+◌, ◌<◌, ◌≡◌, ◌≢◌, refl, inr, true, false, none, List, [], ◌∷◌, arith, ◌==◌, contains, add32,
  if◌then◌else◌,
}
use kauri_public.Entity.Block.{Block}
use kauri_public.Base.Exec.{ok, err, diverged}
use kauri_public.Base.Maps
use kauri_public.Core.State.{Vote, HotStuffCore, get_delivered_blk}
use kauri_public.Core.Deliver.{deliver_parents, on_deliver_blk}
use kauri_public.Core.Deliver.Done.{Delivered, on_deliver_blk-Delivered}
use kauri_public.Core.Update.{walk, update, commit}
use kauri_public.Core.Update.Chain.{Branch, stop, down, walk-terminates}
use kauri_public.Core.Update.Commit.{mark, branch_events, commit_lem}
use kauri_public.Core.Update.Order.{committed, InOrder, update-InOrder}
use kauri_public.Core.Update.Monotone.{Advances, update-Advances}
use kauri_public.Core.Update.Progress.{update-commits}
use kauri_public.Core.Update.Decision.{Outcome, update-Outcome}
use kauri_public.Core.Votes.{opinion_of}
use kauri_public.Core.Votes.Sent.{votes}
use kauri_public.Core.Votes.Once.{VotesInOrder}
use kauri_public.Core.Votes.History.{
  Input, receive_proposal, receive_vote, handle_all, handle_all-VotesInOrder,
}
use kauri_public.Core.Votes.Rule.{Justified, opinion_of-Justified, Justified-opinion_of}
use kauri_public.Tests.Samples.{
  plain, sample_cert, chain_block, follower, proposal, chain_block-Falls,
}

-- The fourth block completes a three-chain, which commits the first.
update_commits : committed (update 4 follower).1.outbox ≡ 1 ∷ []
unfolding update committed
update_commits = refl

abbrev vote_for : ℕ → Vote plain
vote_for b = record { voter = 2; blk_hash = 100 + b; cert = record { obj_hash = 100 + b } }

abbrev some_inputs : List (Input plain)
some_inputs =
    receive_proposal (proposal 3)
    ∷ receive_vote (vote_for 3)
    ∷ receive_proposal (proposal 2)
    ∷ receive_proposal (proposal 4)
    ∷ []

-- The second of the three proposals is for a lower block, and is not voted for.
votes-handle_all : votes (handle_all some_inputs follower).outbox ≡ 3 ∷ 4 ∷ []
unfolding handle_all votes Maps.find Maps.erase contains get_delivered_blk
votes-handle_all = refl

handle_all-VotesInOrder_example : VotesInOrder (handle_all some_inputs follower)
unfolding votes
handle_all-VotesInOrder_example = handle_all-VotesInOrder some_inputs follower (omega arith)

update-Outcome_example : Outcome follower (update 4 follower).1 4
update-Outcome_example = update-Outcome 4 follower

update-InOrder_example : InOrder (update 4 follower).1
unfolding committed
update-InOrder_example =
    update-InOrder 4 follower (record { falls = chain_block-Falls; rising = omega arith })

update-Advances_example : Advances follower (update 4 follower).1
update-Advances_example = update-Advances 4 follower

abbrev branch_of_two : Branch chain_block 0 2 (2 ∷ 1 ∷ []) 0
branch_of_two = down (omega arith) refl (down (omega arith) refl (stop (omega arith)))

commit_lem_example : commit 2 follower ≡ (
  ok tt,
  record follower {
    heap = record (follower.heap) { cell = mark (1 ∷ 2 ∷ []) chain_block };
    outbox = branch_events 1 chain_block (1 ∷ 2 ∷ []);
    b_exec = 2;
  },
)
commit_lem_example = commit_lem follower 2 0 (2 ∷ 1 ∷ []) chain_block-Falls branch_of_two

walk-terminates_example : walk chain_block 5 0 4 ≢ err diverged
walk-terminates_example = walk-terminates chain_block 5 0 4 chain_block-Falls (omega arith)

opinion_of-Justified_example : (0 < 2) × Justified follower 2
unfolding opinion_of
opinion_of-Justified_example = opinion_of-Justified follower 2 refl

Justified-opinion_of_example : opinion_of follower 2 ≡ ok true
Justified-opinion_of_example =
    Justified-opinion_of follower 2 chain_block-Falls (omega arith)
      (inr (2 ∷ 1 ∷ [], branch_of_two))

-- The fifth block has been fetched, and is not yet linked to the fourth.
abbrev fetched_cell : ℕ → Block plain
fetched_cell a =
    if a == 5
    then record (chain_block 5) { parents = []; qc_ref = none; height = 0; delivered = false }
    else chain_block a

abbrev fetched : HotStuffCore plain
fetched = record follower { heap = record { cell = fetched_cell; next = 6 } }

on_deliver_blk-Delivered_example : Delivered fetched (on_deliver_blk 5 fetched).1 5
unfolding on_deliver_blk Maps.find deliver_parents contains get_delivered_blk add32
on_deliver_blk-Delivered_example =
    on_deliver_blk-Delivered 5 fetched (on_deliver_blk 5 fetched).1 refl

update-commits_example :
    (t : HotStuffCore plain) × (update 4 follower ≡ (ok tt, t))
    × (t.b_exec ≡ 1)
    × (committed t.outbox ≡ 1 ∷ [])
unfolding committed
update-commits_example =
    update-commits 4 3 2 1 (sample_cert 103) (1 ∷ []) follower chain_block-Falls (λ e. ground arith)
      refl refl refl
      (record {
        ref2 = refl;
        ref1 = refl;
        direct2 = refl;
        direct1 = refl;
        open1 = refl;
        open0 = refl;
      })
      (down (omega arith) refl (stop (omega arith)))
