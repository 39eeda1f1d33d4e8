-- ===== src/Pace/RoundRobin/Beats.antt =====
-- No beat of the round-robin proposer is answered twice.
use kauri_public.Base.{
  ℕ, ◌+◌, ◌≤◌, ◌≡◌, ap, Bool, true, false, not, ◌&&◌, List, [], ◌∷◌, ◌++◌, arith, ◌==◌, ltb,
  if◌then◌else◌,
}
use kauri_public.Crypto.Scheme.{Scheme}
use kauri_public.Core.State.{HotStuffCore, Proposal}
use kauri_public.Pace.HighTail.{HighTail}
use kauri_public.Pace.WaitQc.Beats.{times, times_fst, times-append, times_fst-append}
use kauri_public.Pace.RoundRobin.{
  RoundRobin, answer_beat, proposer_schedule_next, proposal_made, proposal_received, qc_finished,
  stop_rotate, repropose, timer_fired, on_consensus, impeach, fresh_round_robin, init_round_robin,
  beat,
}
use kauri_public.Pace.RoundRobin.Moves.{
  Takes, places, made-Takes, next-Takes, received-Takes, times_waiter, times_waiting,
}
use kauri_public.Pace.RoundRobin.Rounds.{
  qc_finished-Takes, timer_fired-Takes, on_consensus-Takes, impeach-Takes, repropose-Takes,
  stop_rotate-Takes,
}

-- What happens to the pacemaker. The core and the tail of the parents are changed by their own
-- inputs.
pub data Input (C : Scheme) : Type 0 where
  beat_asked : Input C
  announced : Proposal → Input C
  received : Proposal → Input C
  finished_for : ℕ → Input C
  timer_ran_out : Input C
  decided : ℕ → Input C
  impeached : Input C
  commands_waiting : List ℕ → Input C
  core_moved : HotStuffCore C → Input C
  tail_moved : HighTail → Input C

module _ {C : Scheme} where
  -- No beat stands in two places, and none that was not handed out stands anywhere.
  abbrev pub AtMostOnce : RoundRobin C → Type 0
  AtMostOnce s = (x : ℕ) → places x s ≤ (if ltb x s.next_beat then 1 else 0)

  unfoldable pub handle : Input C → RoundRobin C → RoundRobin C
  unfolding beat proposal_made proposal_received qc_finished timer_fired on_consensus impeach
      repropose
  handle beat_asked s = beat s
  handle (announced prop) s = proposal_made prop s
  handle (received prop) s = proposal_received prop s
  handle (finished_for p) s = (qc_finished p s).1
  handle timer_ran_out s = (timer_fired s).1
  handle (decided b) s = on_consensus b s
  handle impeached s = (impeach s).1
  handle (commands_waiting cmds) s = (repropose cmds s).1
  handle (core_moved core) s = record s { core = core }
  handle (tail_moved tail) s = record s { high_tail = tail }

  unfoldable pub handle_all : List (Input C) → RoundRobin C → RoundRobin C
  unfolding handle
  handle_all [] s = s
  handle_all (i ∷ is) s = handle_all is (handle i s)

  Takes-AtMostOnce : (s t : RoundRobin C) → Takes [] s t → AtMostOnce s → AtMostOnce t
  unfolding times_waiter
  Takes-AtMostOnce s t (e, h) k x =
      let bound = ap {B = ℕ} (λ n. if ltb x n then 1 else 0) e in omega (arith, h x, k x, bound)

  beat-AtMostOnce : (s : RoundRobin C) → AtMostOnce s → AtMostOnce (beat s)
  unfolding beat times times_fst
  beat-AtMostOnce s h = go (not s.rotating && s.proposer == s.core.id)
    where
      fits :
          (x next a b : ℕ)
          → a ≤ (if ltb x next then 1 else 0)
          → b ≡ a + ((if next == x then 1 else 0) + 0)
          → b ≤ (if ltb x (next + 1) then 1 else 0)
      fits x next a b le e = ground arith

      pushed : RoundRobin C
      pushed = record s {
        pending_beats = s.pending_beats ++ s.next_beat ∷ [];
        next_beat = s.next_beat + 1;
      }

      at_once : RoundRobin C
      at_once = answer_beat s.next_beat (record s { next_beat = s.next_beat + 1 })

      go : (c : Bool) → AtMostOnce (if c then proposer_schedule_next pushed else at_once)
      go true = Takes-AtMostOnce pushed (proposer_schedule_next pushed) (next-Takes pushed) λ x.
          fits x s.next_beat (places x s) (places x pushed) (h x)
            (omega (arith, times-append x s.pending_beats (s.next_beat ∷ [])))
      go false = λ x.
          fits x s.next_beat (places x s) (places x at_once) (h x)
            (omega (arith, times_fst-append x s.answered ((s.next_beat, s.proposer) ∷ [])))

  handle-AtMostOnce : (i : Input C) (s : RoundRobin C) → AtMostOnce s → AtMostOnce (handle i s)
  unfolding handle
  handle-AtMostOnce beat_asked s = beat-AtMostOnce s
  handle-AtMostOnce (announced prop) s =
      Takes-AtMostOnce s (proposal_made prop s) (made-Takes prop s)
  handle-AtMostOnce (received prop) s =
      Takes-AtMostOnce s (proposal_received prop s) (received-Takes prop s)
  handle-AtMostOnce (finished_for p) s =
      Takes-AtMostOnce s (qc_finished p s).1 (qc_finished-Takes p s)
  handle-AtMostOnce timer_ran_out s = Takes-AtMostOnce s (timer_fired s).1 (timer_fired-Takes s)
  handle-AtMostOnce (decided b) s = Takes-AtMostOnce s (on_consensus b s) (on_consensus-Takes b s)
  handle-AtMostOnce impeached s = Takes-AtMostOnce s (impeach s).1 (impeach-Takes s)
  handle-AtMostOnce (commands_waiting cmds) s =
      Takes-AtMostOnce s (repropose cmds s).1 (repropose-Takes cmds s)
  handle-AtMostOnce (core_moved core) s = λ h. h
  handle-AtMostOnce (tail_moved tail) s = λ h. h

  run-AtMostOnce :
      (is : List (Input C)) (s : RoundRobin C) → AtMostOnce s → AtMostOnce (handle_all is s)
  unfolding handle_all
  run-AtMostOnce [] s h = h
  run-AtMostOnce (i ∷ is) s h = run-AtMostOnce is (handle i s) (handle-AtMostOnce i s h)

  -- From the start of the round-robin proposer, after any sequence of beats, proposals made and
  -- received, certificates that are complete, timers, decisions, impeachments and deferred
  -- proposals, with any change of the core and of the tail of the parents between them: each beat
  -- stands in at most one place (it is pending, it waits for a certificate, or it has been
  -- answered), and only a beat that was asked for stands anywhere. So no beat is answered twice.
  pub handle_all-AtMostOnce :
      (base_timeout prop_delay : ℕ) (tail : HighTail) (core : HotStuffCore C) (is : List (Input C))
      → AtMostOnce (handle_all is (init_round_robin base_timeout prop_delay tail core))
  unfolding init_round_robin times times_waiting times_fst
  handle_all-AtMostOnce base_timeout prop_delay tail core is =
      let s = fresh_round_robin base_timeout prop_delay tail core in
      run-AtMostOnce is (stop_rotate s)
        (Takes-AtMostOnce s (stop_rotate s) (stop_rotate-Takes s) (λ x. omega arith))
