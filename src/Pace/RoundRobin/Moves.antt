-- ===== src/Pace/RoundRobin/Moves.antt =====
-- Where the beats of the round-robin proposer stand, and what rejecting, waiting and scheduling do to
-- them. The counting of the pacemaker that waits for a certificate serves here too.
use kauri_public.Base.{
  ℕ, ◌+◌, ◌≤◌, ◌≡◌, refl, ◌∙◌, ap, inl, inr, Bool, true, false, not, Option, none, some, List, [],
  ◌∷◌, ◌++◌, arith, ◌==◌, Bool-cases, contains, if◌then◌else◌,
}
use kauri_public.Base.Exec.{Result}
use kauri_public.Crypto.Scheme.{Scheme}
use kauri_public.Core.State.{Proposal}
use kauri_public.Core.Votes.{Promise, resolved, pending, async_qc_finish}
use kauri_public.Pace.WaitQc.Beats.{times, times_fst, times_fst-append}
use kauri_public.Pace.RoundRobin.{
  RoundRobin, Waiter, for_beat, for_round, ready, unready, promise_of, note_blk, reject,
  answer_beat, wait_for, beat_after, ask_qc, schedule, proposer_schedule_next, last_is,
  proposal_made, proposal_received,
}

abbrev pub is_beat : ℕ → Waiter → ℕ
is_beat x (for_beat y) = if y == x then 1 else 0
is_beat x (for_round k) = 0

unfoldable pub times_waiter : ℕ → List Waiter → ℕ
times_waiter x [] = 0
times_waiter x (w ∷ ws) = is_beat x w + times_waiter x ws

unfoldable pub times_waiting : ℕ → List (ℕ × Waiter) → ℕ
times_waiting x [] = 0
times_waiting x ((p, w) ∷ ws) = is_beat x w + times_waiting x ws

pub times_waiting-append :
    (x : ℕ) (ws vs : List (ℕ × Waiter))
    → times_waiting x (ws ++ vs) ≡ times_waiting x ws + times_waiting x vs
unfolding times_waiting
times_waiting-append x [] vs = omega arith
times_waiting-append x ((p, w) ∷ ws) vs = omega (arith, times_waiting-append x ws vs)

pub ready-unready :
    (x p : ℕ) (ws : List (ℕ × Waiter))
    → times_waiter x (ready p ws) + times_waiting x (unready p ws) ≡ times_waiting x ws
unfolding times_waiter times_waiting ready unready
ready-unready x p [] = refl
ready-unready x p ((q, w) ∷ ws) =
    let ih = ready-unready x p ws in
    elim (Bool-cases (q == p)) [
      | inl same ↦ rw same (omega (arith, ih))
      | inr other ↦ rw other (omega (arith, ih))
    ]

module _ {C : Scheme} where
  -- In how many places a beat stands.
  abbrev pub places : ℕ → RoundRobin C → ℕ
  places x s = times x s.pending_beats + (times_waiting x s.waiting + times_fst x s.answered)

  -- The beats of the waiters `ws` may come in, others only move or are dropped.
  abbrev pub Takes : List Waiter → RoundRobin C → RoundRobin C → Type 0
  Takes ws s t =
      (t.next_beat ≡ s.next_beat) × ((x : ℕ) → places x t ≤ times_waiter x ws + places x s)

  pub Takes-refl : (s : RoundRobin C) → Takes [] s s
  Takes-refl s = (refl, λ x. omega arith)

  pub Takes-trans :
      (ws : List Waiter) (s t u : RoundRobin C) → Takes ws s t → Takes [] t u → Takes ws s u
  unfolding times_waiter
  Takes-trans ws s t u (e, h) (e', k) = (e' ∙ e, λ x. omega (arith, h x, k x))

  pub either-Takes :
      (c : Bool) (s t u : RoundRobin C)
      → Takes [] s t
      → Takes [] s u
      → Takes [] s (if c then t else u)
  either-Takes true s t u h k = h
  either-Takes false s t u h k = k

  pub either-Takes_exec :
      (c : Bool) (s : RoundRobin C) (t u : Result (Unit {0}) × RoundRobin C)
      → Takes [] s t.1
      → Takes [] s u.1
      → Takes [] s (if c then t else u).1
  either-Takes_exec true s t u h k = h
  either-Takes_exec false s t u h k = k

  pub reject-Takes : (o : Option ℕ) (s : RoundRobin C) → Takes [] s (reject o s)
  unfolding reject times_waiter
  reject-Takes none s = Takes-refl s
  reject-Takes (some p) s = (refl, λ x. omega (arith, ready-unready x p s.waiting))

  pub wait_for-Takes : (p : ℕ) (w : Waiter) (s : RoundRobin C) → Takes (w ∷ []) s (wait_for p w s)
  unfolding times_waiter times_waiting
  wait_for-Takes p w s = elim (Bool-cases (contains p s.rejected)) [
    | inl gone ↦ rw gone (refl, λ x. omega arith)
    | inr there ↦
        rw there (refl, λ x. omega (arith, times_waiting-append x s.waiting ((p, w) ∷ [])))
  ]

  pub answer_beat-Takes : (b : ℕ) (s : RoundRobin C) → Takes (for_beat b ∷ []) s (answer_beat b s)
  unfolding times_waiter times_fst
  answer_beat-Takes b s =
      (refl, λ x. omega (arith, times_fst-append x s.answered ((b, s.proposer) ∷ [])))

  pub beat_after-Takes :
      (b : ℕ) (pm : Promise) (s : RoundRobin C) → Takes (for_beat b ∷ []) s (beat_after b pm s)
  beat_after-Takes b resolved s = answer_beat-Takes b s
  beat_after-Takes b (pending p) s = wait_for-Takes p (for_beat b) s

  pub asked-Takes :
      (b : ℕ) (beats : List ℕ) (s : RoundRobin C)
      → s.pending_beats ≡ b ∷ beats
      → let t = reject s.pm_qc_finish (record s { pending_beats = beats }) in
        Takes [] s (ask_qc b (async_qc_finish t.last_proposed t.core) t)
  unfolding times_waiter times
  asked-Takes b beats s front =
      let r : RoundRobin C = record s { pending_beats = beats } in
      let t = reject s.pm_qc_finish r in
      let (pm, core) = async_qc_finish t.last_proposed t.core in
      let (e, h) = reject-Takes s.pm_qc_finish r in
      let (e', k) =
        beat_after-Takes b pm (record t { core = core; pm_qc_finish = promise_of pm }) in
      (e' ∙ e, λ x. let all = ap (times x) front in omega (arith, h x, k x, all))

  pub schedule-Takes :
      (beats : List ℕ) (s : RoundRobin C) → s.pending_beats ≡ beats → Takes [] s (schedule beats s)
  schedule-Takes [] s front = Takes-refl s
  schedule-Takes (b ∷ beats) s front =
      let t = reject s.pm_qc_finish (record s { pending_beats = beats }) in
      either-Takes (not s.locked) s (ask_qc b (async_qc_finish t.last_proposed t.core) t) s
        (asked-Takes b beats s front) (Takes-refl s)

  pub next-Takes : (s : RoundRobin C) → Takes [] s (proposer_schedule_next s)
  unfolding proposer_schedule_next
  next-Takes s = schedule-Takes s.pending_beats s refl

  pub last_is-Takes : (b : ℕ) (s : RoundRobin C) → Takes [] s (last_is b s)
  last_is-Takes b s =
      let t : RoundRobin C = record s { last_proposed = b; locked = false } in
      either-Takes s.pm_wait_propose s (proposer_schedule_next t) s (next-Takes t) (Takes-refl s)

  abbrev noted : Proposal → RoundRobin C → RoundRobin C
  noted prop s =
      if s.hears_own then record (note_blk s.core.id prop.blk s) { hears_own = s.rotating } else s

  pub noted-Takes : (prop : Proposal) (s : RoundRobin C) → Takes [] s (noted prop s)
  noted-Takes prop s =
      either-Takes s.hears_own s (record (note_blk s.core.id prop.blk s) { hears_own = s.rotating })
        s (Takes-refl s) (Takes-refl s)

  pub made-Takes : (prop : Proposal) (s : RoundRobin C) → Takes [] s (proposal_made prop s)
  unfolding proposal_made
  made-Takes prop s =
      let t = noted prop s in
      Takes-trans [] s t (last_is prop.blk t) (noted-Takes prop s) (last_is-Takes prop.blk t)

  pub received-Takes : (prop : Proposal) (s : RoundRobin C) → Takes [] s (proposal_received prop s)
  unfolding proposal_received
  received-Takes prop s =
      either-Takes s.hears_others s
        (record (note_blk prop.proposer prop.blk s) { hears_others = s.rotating }) s (Takes-refl s)
        (Takes-refl s)
