-- ===== src/Tests/TurnTests.antt =====
-- The round-robin proposer on the sample chain.
use kauri_public.Base.{
  ℕ, ◌*◌, ◌^◌, ◌<◌, ◌≡◌, refl, some, List, [], ◌∷◌, arith, contains, set_insert, false,
}
use kauri_public.Base.Maps
use kauri_public.Base.Exec.{ok}
use kauri_public.Pace.HighTail.{HighTail}
use kauri_public.Pace.RoundRobin.{RoundRobin, until_rotation, init_round_robin, timer_fired}
use kauri_public.Pace.RoundRobin.Turns.{rotate_times, each_replica-proposes}
use kauri_public.Pace.RoundRobin.Beats.{
  Input, beat_asked, announced, timer_ran_out, decided, impeached, handle_all, AtMostOnce,
  handle_all-AtMostOnce,
}
use kauri_public.Tests.Samples.{plain, follower}

abbrev low_tail : HighTail
low_tail = record { hqc_tail = 3; parent_limit = 1 }

abbrev started : RoundRobin plain
started = init_round_robin 4 1 low_tail follower

each_replica-proposes_example :
    (k : ℕ) × (k < 4)
    × (t : RoundRobin plain) × (rotate_times k started ≡ (ok tt, t))
    × (t.proposer ≡ 3)
    × (t.core ≡ follower)
    × (t.exp_timeout ≡ 4 * 2 ^ k)
unfolding init_round_robin
each_replica-proposes_example =
    each_replica-proposes started 3 (omega arith) (omega arith) (omega arith)

abbrev some_inputs : List (Input plain)
some_inputs =
    beat_asked
    ∷ impeached
    ∷ timer_ran_out
    ∷ beat_asked
    ∷ announced (record { proposer = 1; blk = 4 })
    ∷ decided 4
    ∷ beat_asked
    ∷ beat_asked
    ∷ []

-- The beats before and in the rotation are answered at once. The first one of the new proposer has
-- the certificate of the genesis block, the next one comes while `locked`.
handle_all-turn :
    let s = handle_all some_inputs started in
    (s.answered ≡ (0, 0) ∷ (1, 1) ∷ (2, 1) ∷ [])
    × (s.waiting ≡ [])
    × (s.pending_beats ≡ 3 ∷ [])
    × (s.elected ≡ 1)
    × (s.rotating ≡ false)
unfolding handle_all init_round_robin Maps.find Maps.insert contains set_insert
handle_all-turn = (refl, refl, refl, refl, refl)

-- A proposer that is out of time proposes, and then waits to rotate.
timer_fired-turn :
    (timer_fired (handle_all (impeached ∷ []) started)).1.timer ≡ some (until_rotation 1)
unfolding handle_all init_round_robin timer_fired Maps.find Maps.insert contains set_insert
timer_fired-turn = refl

handle_all-AtMostOnce_example :
    AtMostOnce (handle_all some_inputs (init_round_robin 4 1 low_tail follower))
handle_all-AtMostOnce_example = handle_all-AtMostOnce 4 1 low_tail follower some_inputs
