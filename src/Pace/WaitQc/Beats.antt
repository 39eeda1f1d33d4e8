-- ===== src/Pace/WaitQc/Beats.antt =====
-- No beat of `PMWaitQC` is lost, and none is answered twice.
use kauri_public.Base.{
  ℕ, ◌+◌, ◌≡◌, refl, sym, ◌∙◌, ap, inl, inr, Bool, true, false, ◌&&◌, Option, none, some, List, [],
  ◌∷◌, ◌++◌, arith, ◌==◌, ltb, le→ltb, Bool-cases, last?, if◌then◌else◌,
}
use kauri_public.Base.Exec.{Result, ok, err}
use kauri_public.Crypto.Scheme.{Scheme}
use kauri_public.Entity.Storage
use kauri_public.Core.State.{HotStuffCore, Proposal, gettimeofday}
use kauri_public.Core.Votes.{Promise, resolved, pending, async_qc_finish}
use kauri_public.Pace.WaitQc.{
  WaitQc, answers, others, get_proposer, submit, elapsed, far_ahead, recover_at, recover, may_pipe,
  next_while_locked, wait_for, read_clock, schedule, schedule_next, proposal_announced, qc_finished,
  beat, init_wait,
}

-- How often a beat stands in a list.
unfoldable pub times : ℕ → List ℕ → ℕ
times x [] = 0
times x (y ∷ ys) = (if y == x then 1 else 0) + times x ys

unfoldable pub times_fst : ℕ → List (ℕ × ℕ) → ℕ
times_fst x [] = 0
times_fst x ((y, z) ∷ ys) = (if y == x then 1 else 0) + times_fst x ys

unfoldable pub times_snd : ℕ → List (ℕ × ℕ) → ℕ
times_snd x [] = 0
times_snd x ((z, y) ∷ ys) = (if y == x then 1 else 0) + times_snd x ys

pub times-append : (x : ℕ) (ys zs : List ℕ) → times x (ys ++ zs) ≡ times x ys + times x zs
unfolding times
times-append x [] zs = omega arith
times-append x (y ∷ ys) zs = omega (arith, times-append x ys zs)

pub times_fst-append :
    (x : ℕ) (ys zs : List (ℕ × ℕ)) → times_fst x (ys ++ zs) ≡ times_fst x ys + times_fst x zs
unfolding times_fst
times_fst-append x [] zs = omega arith
times_fst-append x ((y, z) ∷ ys) zs = omega (arith, times_fst-append x ys zs)

times_snd-append :
    (x : ℕ) (ys zs : List (ℕ × ℕ)) → times_snd x (ys ++ zs) ≡ times_snd x ys + times_snd x zs
unfolding times_snd
times_snd-append x [] zs = omega arith
times_snd-append x ((z, y) ∷ ys) zs = omega (arith, times_snd-append x ys zs)

-- A resolved promise of the core moves beats from those that wait to those that are answered.
answers-others :
    (x p proposer : ℕ) (ws : List (ℕ × ℕ))
    → times_fst x (answers p proposer ws) + times_snd x (others p ws) ≡ times_snd x ws
unfolding times_fst times_snd answers others
answers-others x p proposer [] = refl
answers-others x p proposer ((q, pm) ∷ ws) =
    let ih = answers-others x p proposer ws in
    elim (Bool-cases (q == p)) [
      | inl same ↦ rw same (omega (arith, ih))
      | inr other ↦ rw other (omega (arith, ih))
    ]

-- What happens to the pacemaker; the core is changed by its own inputs.
pub data Input (C : Scheme) : Type 0 where
  beat_asked : Input C
  announced : Proposal → Input C
  finished_for : ℕ → Input C
  core_moved : HotStuffCore C → Input C

module _ {C : Scheme} where
  -- In how many places a beat stands.
  abbrev pub places : ℕ → WaitQc C → ℕ
  places x s = times x s.pending_beats + (times_snd x s.waiting + times_fst x s.answered)

  -- Each beat handed out stands in one place, and no other beat stands anywhere.
  abbrev pub EachOnce : WaitQc C → Type 0
  EachOnce s = (x : ℕ) → places x s ≡ (if ltb x s.next_beat then 1 else 0)

  -- The beats stay where they are, or one moves on.
  abbrev Kept : WaitQc C → WaitQc C → Type 0
  Kept s t = (t.next_beat ≡ s.next_beat) × ((x : ℕ) → places x t ≡ places x s)

  submit-Kept :
      (pm : ℕ) (pms : List ℕ) (s : WaitQc C) → s.pending_beats ≡ pm ∷ pms → Kept s (submit pm pms s)
  unfolding times times_fst
  submit-Kept pm pms s front = (
    refl,
    λ x.
        let all = ap (times x) front in
        omega (arith, all, times_fst-append x s.answered ((pm, get_proposer s) ∷ [])),
  )

  stay :
      (s t : WaitQc C)
      → t.next_beat ≡ s.next_beat
      → t.pending_beats ≡ s.pending_beats
      → t.waiting ≡ s.waiting
      → t.answered ≡ s.answered
      → Kept s t
  stay s t next beats waits done = (
    next,
    λ x.
        let a = ap (times x) beats in
        let b = ap (times_snd x) waits in let c = ap (times_fst x) done in omega (arith, a, b, c),
  )

  recover_at-Kept :
      (pm : ℕ) (pms : List ℕ) (now : ℕ) (o : Option ℕ) (s : WaitQc C)
      → s.pending_beats ≡ pm ∷ pms
      → Kept s (recover_at pm pms now o s).1
  recover_at-Kept pm pms now none s front = stay s s refl refl refl refl
  recover_at-Kept pm pms now (some b) s front =
      elim (Bool-cases (far_ahead s.core b && elapsed s.core now)) [
        | inl go ↦ rw go (submit-Kept pm pms s front)
        | inr wait ↦ rw wait (stay s s refl refl refl refl)
      ]

  recover-Kept :
      (pm : ℕ) (pms : List ℕ) (now : ℕ) (o : Option ℕ) (s : WaitQc C)
      → s.pending_beats ≡ pm ∷ pms
      → Kept s (recover pm pms now o s).1
  recover-Kept pm pms now none s front = stay s s refl refl refl refl
  recover-Kept pm pms now (some h) s front = elim (Bool-cases (ltb 0 s.core.b_normal_height)) [
    | inl go ↦ rw go (recover_at-Kept pm pms now (Storage.find_blk s.core.storage h) s front)
    | inr wait ↦ rw wait (stay s s refl refl refl refl)
  ]

  next_while_locked-Kept :
      (pm : ℕ) (pms : List ℕ) (now : ℕ) (s : WaitQc C)
      → s.pending_beats ≡ pm ∷ pms
      → Kept s (next_while_locked pm pms now s).1
  next_while_locked-Kept pm pms now s front = elim (Bool-cases (may_pipe s.core now)) [
    | inl go ↦ rw go (submit-Kept pm pms s front)
    | inr wait ↦ rw wait (recover-Kept pm pms now (last? s.core.piped_queue) s front)
  ]

  wait_for-Kept :
      (pm : ℕ) (pms : List ℕ) (r : Promise × HotStuffCore C) (s : WaitQc C)
      → s.pending_beats ≡ pm ∷ pms
      → Kept s (wait_for pm pms r s)
  unfolding times times_fst times_snd
  wait_for-Kept pm pms (resolved, c) s front = (
    refl,
    λ x.
        let all = ap (times x) front in
        omega (arith, all, times_fst-append x s.answered ((pm, get_proposer s) ∷ [])),
  )
  wait_for-Kept pm pms (pending p, c) s front = (
    refl,
    λ x.
        let all = ap (times x) front in
        omega (arith, all, times_snd-append x s.waiting ((p, pm) ∷ [])),
  )

  read_clock-Kept :
      (pm : ℕ) (pms : List ℕ) (r : Result ℕ × HotStuffCore C) (s : WaitQc C)
      → s.pending_beats ≡ pm ∷ pms
      → Kept s (read_clock r (next_while_locked pm pms) s).1
  read_clock-Kept pm pms (err e, c) s front = stay s (record s { core = c }) refl refl refl refl
  read_clock-Kept pm pms (ok now, c) s front =
      next_while_locked-Kept pm pms now (record s { core = c }) front

  either-Kept :
      (b : Bool) (s : WaitQc C) (x y : Result (Unit {0}) × WaitQc C)
      → Kept s x.1
      → Kept s y.1
      → Kept s (if b then x else y).1
  either-Kept true s x y h k = h
  either-Kept false s x y h k = k

  schedule-Kept : (pms : List ℕ) (s : WaitQc C) → s.pending_beats ≡ pms → Kept s (schedule pms s).1
  schedule-Kept [] s front = stay s s refl refl refl refl
  schedule-Kept (pm ∷ pms) s front =
      either-Kept s.locked s (read_clock (gettimeofday s.core) (next_while_locked pm pms) s)
        (ok tt, wait_for pm pms (async_qc_finish s.last_proposed s.core) s)
        (read_clock-Kept pm pms (gettimeofday s.core) s front)
        (wait_for-Kept pm pms (async_qc_finish s.last_proposed s.core) s front)

  Kept-EachOnce : (s t : WaitQc C) → Kept s t → EachOnce s → EachOnce t
  Kept-EachOnce s t k h x = k.1 x ∙ h x ∙ ap (λ n. if ltb x n then 1 else 0) (sym k.0)

  unfoldable pub handle : Input C → WaitQc C → WaitQc C
  unfolding beat proposal_announced qc_finished
  handle beat_asked s = (beat s).1
  handle (announced prop) s = (proposal_announced prop s).1
  handle (finished_for p) s = qc_finished p s
  handle (core_moved c) s = record s { core = c }

  unfoldable pub handle_all : List (Input C) → WaitQc C → WaitQc C
  unfolding handle
  handle_all [] s = s
  handle_all (i ∷ is) s = handle_all is (handle i s)

  beat-EachOnce : (s : WaitQc C) → EachOnce s → EachOnce (beat s).1
  unfolding beat schedule_next times
  beat-EachOnce s h =
      let t : WaitQc C = record s {
        pending_beats = s.pending_beats ++ s.next_beat ∷ [];
        next_beat = s.next_beat + 1;
      } in
      Kept-EachOnce t (schedule t.pending_beats t).1 (schedule-Kept t.pending_beats t refl) λ x.
        added x s.next_beat (times x s.pending_beats) (times_snd x s.waiting)
          (times_fst x s.answered) (times x (s.pending_beats ++ s.next_beat ∷ [])) (h x)
          (times-append x s.pending_beats (s.next_beat ∷ []))
    where
      added :
          (x next a b c d : ℕ)
          → a + (b + c) ≡ (if ltb x next then 1 else 0)
          → d ≡ a + ((if next == x then 1 else 0) + 0)
          → d + (b + c) ≡ (if ltb x (next + 1) then 1 else 0)
      added x next a b c d e e' = ground arith

  announced-EachOnce :
      (prop : Proposal) (s : WaitQc C) → EachOnce s → EachOnce (proposal_announced prop s).1
  unfolding proposal_announced schedule_next
  announced-EachOnce prop s h =
      let t : WaitQc C = record s { last_proposed = prop.blk; locked = false } in
      Kept-EachOnce t (schedule t.pending_beats t).1 (schedule-Kept t.pending_beats t refl) h

  finished-EachOnce : (p : ℕ) (s : WaitQc C) → EachOnce s → EachOnce (qc_finished p s)
  unfolding qc_finished
  finished-EachOnce p s h =
      Kept-EachOnce s (qc_finished p s)
        (
          refl,
          λ x. omega (
            arith,
            answers-others x p (get_proposer s) s.waiting,
            times_fst-append x s.answered (answers p (get_proposer s) s.waiting),
          ),
        )
        h

  handle-EachOnce : (i : Input C) (s : WaitQc C) → EachOnce s → EachOnce (handle i s)
  unfolding handle
  handle-EachOnce beat_asked s h = beat-EachOnce s h
  handle-EachOnce (announced prop) s h = announced-EachOnce prop s h
  handle-EachOnce (finished_for p) s h = finished-EachOnce p s h
  handle-EachOnce (core_moved c) s h = h

  kept_by_all : (is : List (Input C)) (s : WaitQc C) → EachOnce s → EachOnce (handle_all is s)
  unfolding handle_all
  kept_by_all [] s h = h
  kept_by_all (i ∷ is) s h = kept_by_all is (handle i s) (handle-EachOnce i s h)

  -- After any sequence of beats, proposals, finished certificates and changes of the core, also
  -- where one of them ends in an error, each beat handed out stands in just one place: it is
  -- pending, waits for a certificate, or is answered; and no other beat stands in any.
  pub handle_all-EachOnce :
      (fixed : Option ℕ) (core : HotStuffCore C) (is : List (Input C))
      → EachOnce (handle_all is (init_wait fixed core))
  unfolding times times_fst times_snd init_wait
  handle_all-EachOnce fixed core is =
      kept_by_all is (init_wait fixed core) λ x. rw (le→ltb x 0 (omega arith)) refl
