-- ===== src/Pace/RoundRobin/Rounds.antt =====
-- What the rounds and the rotations of the round-robin proposer do to the beats.
use kauri_public.Base.{
  ℕ, zero, suc, ◌+◌, ◌*◌, ◌%◌, ◌^◌, ◌∙◌, Bool, true, false, Option, none, some, List, [], ◌∷◌,
  arith, ◌==◌, if◌then◌else◌,
}
use kauri_public.Base.Exec.{Exec, Result, ok, err, continue, undefined, pure, modify, bind-keeps}
use kauri_public.Base.Maps
use kauri_public.Crypto.Scheme.{Scheme}
use kauri_public.Core.State.{Proposal}
use kauri_public.Core.Votes.{Promise, resolved, pending}
use kauri_public.Pace.RoundRobin.{
  RoundRobin, Waiter, for_beat, for_round, Timer, until_proposal, until_rotation, ready, unready,
  is_blk, reject, take_proposal, propose, await_round, propose_round, then_round, do_new_consensus,
  call_back, call_back_all, qc_finished, reject_all, rotate, elect, stop_rotate, repropose,
  time_out, timer_fired, on_consensus, impeach,
}
use kauri_public.Pace.RoundRobin.Moves.{
  Takes, Takes-refl, Takes-trans, either-Takes, either-Takes_exec, reject-Takes, wait_for-Takes,
  answer_beat-Takes, made-Takes, times_waiter, ready-unready,
}

module _ {C : Scheme} where
  pub propose_round-Takes : (cmds : List ℕ) (s : RoundRobin C) → Takes [] s (propose_round cmds s).1
  unfolding propose_round
  propose_round-Takes cmds s =
      bind-keeps (λ t. Takes [] s t) (propose cmds) await_round s (Takes-refl s)
        λ b t h.
          let prop : Proposal = record { proposer = t.core.id; blk = b } in
          let u = take_proposal prop t in
          Takes-trans [] s u (await_round b t).1 (Takes-trans [] s t u h (made-Takes prop t))
            (reject-Takes u.pm_qc_manual u)

  pub then_round-Takes :
      (next : Exec (RoundRobin C) (Unit {0})) (left : ℕ) (pm : Promise) (s : RoundRobin C)
      → Takes [] s (next s).1
      → Takes [] s (then_round next left pm s).1
  unfolding times_waiter
  then_round-Takes next left resolved s h = h
  then_round-Takes next left (pending p) s h =
      let (e, k) = wait_for-Takes p (for_round left) s in (e, λ x. omega (arith, k x))

  pub do_new_consensus-Takes :
      (left : ℕ) (cmds : List ℕ) (s : RoundRobin C) → Takes [] s (do_new_consensus left cmds s).1
  unfolding do_new_consensus
  do_new_consensus-Takes zero cmds s =
      bind-keeps (λ t. Takes [] s t) (propose_round cmds) (then_round (pure tt) 0) s
        (propose_round-Takes cmds s)
        λ pm t h.
          Takes-trans [] s t (then_round (pure tt) 0 pm t).1 h
            (then_round-Takes (pure tt) 0 pm t (Takes-refl t))
  do_new_consensus-Takes (suc left) cmds s =
      let next : Exec (RoundRobin C) (Unit {0}) = do_new_consensus left [] in
      bind-keeps (λ t. Takes [] s t) (propose_round cmds) (then_round next (suc left)) s
        (propose_round-Takes cmds s)
        λ pm t h.
          Takes-trans [] s t (then_round next (suc left) pm t).1 h
            (then_round-Takes next (suc left) pm t (do_new_consensus-Takes left [] t))

  pub call_back-Takes : (w : Waiter) (s : RoundRobin C) → Takes (w ∷ []) s (call_back w s).1
  unfolding times_waiter
  call_back-Takes (for_beat b) s = answer_beat-Takes b s
  call_back-Takes (for_round zero) s = Takes-refl s
  call_back-Takes (for_round (suc left)) s =
      let (e, h) = do_new_consensus-Takes left [] s in (e, λ x. omega (arith, h x))

  pub call_back_all-Takes :
      (ws : List Waiter) (s : RoundRobin C) → Takes ws s (call_back_all ws s).1
  unfolding call_back_all times_waiter
  call_back_all-Takes [] s = Takes-refl s
  call_back_all-Takes (w ∷ ws) s = go (call_back w s) (call_back-Takes w s) (call_back_all-Takes ws)
    where
      go :
          (r : Result (Unit {0}) × RoundRobin C)
          → Takes (w ∷ []) s r.1
          → ((t : RoundRobin C) → Takes ws t (call_back_all ws t).1)
          → Takes (w ∷ ws) s (continue r (λ a. call_back_all ws)).1
      go (err e, t) (same, h) rest = (same, λ x. omega (arith, h x))
      go (ok a, t) (same, h) rest =
          let (same', k) = rest t in (same' ∙ same, λ x. omega (arith, h x, k x))

  pub qc_finished-Takes : (p : ℕ) (s : RoundRobin C) → Takes [] s (qc_finished p s).1
  unfolding qc_finished times_waiter
  qc_finished-Takes p s =
      let (e, h) =
        call_back_all-Takes (ready p s.waiting) (record s { waiting = unready p s.waiting }) in
      (e, λ x. omega (arith, h x, ready-unready x p s.waiting))

  pub reject_all-Takes : (s : RoundRobin C) → Takes [] s (reject_all s)
  reject_all-Takes s =
      let t : RoundRobin C = record (reject s.pm_qc_finish s) { pm_wait_propose = false } in
      Takes-trans [] s t (reject_all s) (reject-Takes s.pm_qc_finish s)
        (reject-Takes t.pm_qc_manual t)

  abbrev turned : RoundRobin C → RoundRobin C
  turned s = record s {
    hears_own = true;
    hears_others = true;
    prop_blk = [];
    rotating = true;
    proposer = ((s.proposer + 1) % s.core.config.nreplicas) % 2 ^ 16;
  }

  pub rotate-Takes : (s : RoundRobin C) → Takes [] s (rotate s).1
  unfolding rotate
  rotate-Takes s =
      let t = turned s in
      either-Takes_exec (s.core.config.nreplicas == 0) s (err undefined, s)
        (
          ok tt,
          record (reject_all t) {
            timer = some (until_proposal s.exp_timeout);
            exp_timeout = s.exp_timeout * 2;
          },
        )
        (Takes-refl s) (reject_all-Takes t)

  pub elect-Takes : (s : RoundRobin C) → Takes [] s (elect s)
  unfolding elect
  elect-Takes s =
      either-Takes (s.proposer == s.core.id) s (record s { elected = s.elected + 1 }) s
        (Takes-refl s) (Takes-refl s)

  pub stop_rotate-Takes : (s : RoundRobin C) → Takes [] s (stop_rotate s)
  unfolding stop_rotate
  stop_rotate-Takes s =
      let r = reject_all (record s { timer = none }) in
      let t : RoundRobin C = record r {
        rotating = false;
        locked = false;
        last_proposed = s.core.b0;
        pm_wait_propose = true;
      } in
      Takes-trans [] s t (elect t) (reject_all-Takes (record s { timer = none })) (elect-Takes t)

  pub repropose-Takes : (cmds : List ℕ) (s : RoundRobin C) → Takes [] s (repropose cmds s).1
  unfolding repropose
  repropose-Takes [] s = Takes-refl s
  repropose-Takes (cmd ∷ cmds) s = do_new_consensus-Takes 3 (cmd ∷ cmds) s

  either_way :
      (c : Bool) (s : RoundRobin C)
      → Takes [] s ((if c then do_new_consensus 3 [] else pure tt) s).1
  either_way true s = do_new_consensus-Takes 3 [] s
  either_way false s = Takes-refl s

  pub timer_fired-Takes : (s : RoundRobin C) → Takes [] s (timer_fired s).1
  unfolding timer_fired
  timer_fired-Takes s = go s.timer (record s { timer = none })
    where
      go : (o : Option Timer) (s : RoundRobin C) → Takes [] s (time_out o s).1
      go none s = Takes-refl s
      go (some (until_rotation d)) s = rotate-Takes s
      go (some (until_proposal d)) s =
          bind-keeps (λ t. Takes [] s t)
            (if s.proposer == s.core.id then do_new_consensus 3 [] else pure tt)
            (λ a. modify (λ t. record t { timer = some (until_rotation t.prop_delay) })) s
            (either_way (s.proposer == s.core.id) s) (λ a t h. h)

  pub on_consensus-Takes : (b : ℕ) (s : RoundRobin C) → Takes [] s (on_consensus b s)
  unfolding on_consensus
  on_consensus-Takes b s =
      let t : RoundRobin C = record s { timer = none; exp_timeout = s.base_timeout } in
      either-Takes (is_blk (Maps.find t.proposer t.prop_blk) b) s (stop_rotate t) t
        (stop_rotate-Takes t) (Takes-refl t)

  pub impeach-Takes : (s : RoundRobin C) → Takes [] s (impeach s).1
  unfolding impeach
  impeach-Takes s =
      either-Takes_exec s.rotating s (ok tt, s) (rotate s) (Takes-refl s) (rotate-Takes s)
