-- ===== src/Tests/PoolTests.antt =====
-- Two threads that verify three tasks, of which one is bad.
use kauri_public.Base.{ℕ, ◌≡◌, refl, Bool, true, false, some, List, [], ◌∷◌, arith, ltb}
use kauri_public.Base.Maps
use kauri_public.Pool.{
  VeriPool, running, stopped, assertion_failed, idle, Turn, submit, wake, pick, finish, wake_main,
  collect, new_pool, turns,
}
use kauri_public.Pool.Queues.{occurrences, held}
use kauri_public.Pool.Order.{Fine, answered}
use kauri_public.Pool.Answers.{turns-Fine, turns-all_answered}

abbrev is_good : ℕ → Bool
is_good n = ltb 0 n

-- The second task is taken first, and comes back last.
abbrev some_turns : List (Turn ℕ)
some_turns =
    submit 10 5
    ∷ submit 11 0
    ∷ wake 0
    ∷ wake 1
    ∷ pick 0 1
    ∷ pick 1 0
    ∷ submit 12 7
    ∷ finish 1
    ∷ wake_main
    ∷ collect 0
    ∷ pick 1 0
    ∷ finish 0
    ∷ finish 1
    ∷ collect 1
    ∷ collect 0
    ∷ pick 0 0
    ∷ pick 1 0
    ∷ []

abbrev at_rest : VeriPool ℕ
at_rest = record {
  burst_size = 128;
  in_queue = [];
  out_queue = [];
  workers = idle ∷ idle ∷ [];
  collecting = some 125;
  pms = [];
  results = (10, true) ∷ (11, false) ∷ (12, true) ∷ [];
  issued = (0, 5) ∷ (1, 0) ∷ (2, 7) ∷ [];
  next_promise = 3;
  resolved = (0, true) ∷ (2, true) ∷ (1, false) ∷ [];
}

turns-at_rest : turns is_good some_turns (running (new_pool 2 128)) ≡ running at_rest
unfolding turns new_pool Maps.find Maps.insert Maps.put Maps.erase
turns-at_rest = refl

-- An address that is in use.
turns_twice :
    turns is_good (submit 10 5 ∷ submit 10 6 ∷ []) (running (new_pool 2 128))
    ≡ stopped assertion_failed
unfolding turns new_pool Maps.find Maps.insert
turns_twice = refl

turns-Fine_example : Fine is_good (turns is_good some_turns (running (new_pool 2 128)))
turns-Fine_example = turns-Fine is_good some_turns 2 128

turns-all_answered_example : occurrences 1 (answered at_rest.resolved) ≡ 1
unfolding held
turns-all_answered_example =
    turns-all_answered is_good some_turns 2 128 1 at_rest turns-at_rest refl refl (λ k. refl)
      (omega arith)
