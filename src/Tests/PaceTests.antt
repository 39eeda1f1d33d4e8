-- ===== src/Tests/PaceTests.antt =====
-- The pacemakers on the sample chain.
use kauri_public.Base.{ℕ, zero, suc, ◌≡◌, refl, none, List, [], ◌∷◌, arith}
use kauri_public.Base.Exec.{ok}
use kauri_public.Base.Maps
use kauri_public.Core.State.{HotStuffCore}
use kauri_public.Pace.HighTail.{HighTail, hqc_updated}
use kauri_public.Pace.HighTail.Highest.{Rooted, Highest, hqc_updated-Highest}
use kauri_public.Pace.WaitQc.{init_wait}
use kauri_public.Pace.WaitQc.Beats.{
  Input, beat_asked, announced, finished_for, handle_all, EachOnce, handle_all-EachOnce,
}
use kauri_public.Tests.Samples.{plain, chain_block, follower, proposal, chain_block-Falls}

chain_block-Rooted : (floor : ℕ) → Rooted chain_block floor
chain_block-Rooted floor zero h = absurd (omega arith)
chain_block-Rooted floor (suc n) h = (n, refl)

abbrev old_tail : HighTail
old_tail = record { hqc_tail = 0; parent_limit = 1 }

abbrev forked : HotStuffCore plain
forked = record follower { tails = 1 ∷ 4 ∷ 3 ∷ [] }

-- Block 1 is below block 2, and of the tails above it block 4 is the highest.
hqc_updated-tail : hqc_updated forked 2 old_tail ≡ ok (record old_tail { hqc_tail = 4 })
unfolding hqc_updated
hqc_updated-tail = refl

hqc_updated-Highest_example :
    (out : HighTail) × (hqc_updated forked 2 old_tail ≡ ok out)
    × Highest forked 2 2 (1 ∷ 4 ∷ 3 ∷ []) out.hqc_tail
hqc_updated-Highest_example =
    hqc_updated-Highest forked 2 old_tail chain_block-Falls (chain_block-Rooted 2)

abbrev some_inputs : List (Input plain)
some_inputs = beat_asked ∷ beat_asked ∷ announced (proposal 4) ∷ finished_for 8 ∷ beat_asked ∷ []

-- The genesis block has its votes; the second beat waits for block 4.
handle_all-beats :
    let s = handle_all some_inputs (init_wait none follower) in
    (s.answered ≡ (0, 1) ∷ (1, 1) ∷ []) × (s.waiting ≡ []) × (s.pending_beats ≡ 2 ∷ [])
unfolding handle_all init_wait Maps.find
handle_all-beats = (refl, refl, refl)

handle_all-EachOnce_example : EachOnce (handle_all some_inputs (init_wait none follower))
handle_all-EachOnce_example = handle_all-EachOnce none follower some_inputs
