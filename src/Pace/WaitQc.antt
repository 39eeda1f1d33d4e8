-- ===== src/Pace/WaitQc.antt =====
-- `PMWaitQC`: a beat is a promise that the pacemaker resolves with a proposer when it is time to
-- propose. `PaceMakerDummy` names its own replica, `PaceMakerDummyFixed` a fixed one.
pub mod Beats
use kauri_public.Base.{
  ℕ, ◌+◌, ◌-◌, ◌/◌, Bool, true, false, not, ◌&&◌, ◌||◌, Option, none, some, List, [], ◌∷◌, ◌++◌,
  ◌==◌, ltb, leb, length, last?, if◌then◌else◌,
}
use kauri_public.Base.Exec.{Result, ok, err, Exec, undefined, ◌>>=◌, ◌>>◌}
use kauri_public.Crypto.Scheme.{Scheme}
use kauri_public.Entity.Config
use kauri_public.Entity.Storage
use kauri_public.Core.State.{HotStuffCore, Proposal, at, gettimeofday}
use kauri_public.Core.Votes.{Promise, resolved, pending, async_qc_finish}

-- `waiting` has each beat that waits for a promise of the core, after that promise; `answered` has
-- the beats that are resolved, each with the proposer.
pub record WaitQc (C : Scheme) : Type 0 where
  pub core : HotStuffCore C
  pub fixed : Option ℕ
  pub pending_beats : List ℕ
  pub last_proposed : ℕ
  pub locked : Bool
  pub next_beat : ℕ
  pub waiting : List (ℕ × ℕ)
  pub answered : List (ℕ × ℕ)

-- `(now - last) / 1000 > latency`, where the difference is a `long`: a negative one is not above.
abbrev pub elapsed_above : ℕ → ℕ → ℕ → Bool
elapsed_above latency now last = leb last now && ltb latency ((now - last) / 1000)

abbrev proposer_or : ℕ → Option ℕ → ℕ
proposer_or id none = id
proposer_or id (some p) = p

-- The beats that wait for the promise `p`, answered; and the others.
unfoldable pub answers : ℕ → ℕ → List (ℕ × ℕ) → List (ℕ × ℕ)
answers p proposer [] = []
answers p proposer ((q, pm) ∷ ws) =
    let rest = answers p proposer ws in if q == p then (pm, proposer) ∷ rest else rest

unfoldable pub others : ℕ → List (ℕ × ℕ) → List (ℕ × ℕ)
others p [] = []
others p ((q, pm) ∷ ws) = let rest = others p ws in if q == p then rest else (q, pm) ∷ rest

module _ {C : Scheme} where
  abbrev pub get_proposer : WaitQc C → ℕ
  get_proposer s = proposer_or s.core.id s.fixed

  -- An extra block, beside the one whose certificate is awaited.
  abbrev pub submit : ℕ → List ℕ → WaitQc C → WaitQc C
  submit pm pms s = record s {
    core = record (s.core) { piped_submitted = true };
    pending_beats = pms;
    answered = s.answered ++ (pm, get_proposer s) ∷ [];
  }

  abbrev pub elapsed : HotStuffCore C → ℕ → Bool
  elapsed s now = elapsed_above s.config.piped_latency now s.last_block_time

  -- The last piped block is far above the last normal one.
  abbrev pub far_ahead : HotStuffCore C → ℕ → Bool
  far_ahead s b =
      ltb (s.config.async_blocks + 10) (at s b).height
      && ltb s.b_normal_height ((at s b).height - (s.config.async_blocks + 10))

  abbrev pub recover_at : ℕ → List ℕ → ℕ → Option ℕ → Exec (WaitQc C) (Unit {0})
  recover_at pm pms now none s = (err undefined, s)
  recover_at pm pms now (some b) s =
      (ok tt, if far_ahead s.core b && elapsed s.core now then submit pm pms s else s)

  abbrev pub recover : ℕ → List ℕ → ℕ → Option ℕ → Exec (WaitQc C) (Unit {0})
  recover pm pms now none s = (ok tt, s)
  recover pm pms now (some h) s =
      if ltb 0 s.core.b_normal_height
      then recover_at pm pms now (Storage.find_blk s.core.storage h) s
      else (ok tt, s)

  abbrev pub may_pipe : HotStuffCore C → ℕ → Bool
  may_pipe s now =
      (ltb (length s.piped_queue) s.config.async_blocks && not s.piped_submitted) && elapsed s now

  abbrev pub next_while_locked : ℕ → List ℕ → ℕ → Exec (WaitQc C) (Unit {0})
  next_while_locked pm pms now s =
      if may_pipe s.core now
      then (ok tt, submit pm pms s)
      else recover pm pms now (last? s.core.piped_queue) s

  -- The promise of the core may be resolved already.
  abbrev pub wait_for : ℕ → List ℕ → Promise × HotStuffCore C → WaitQc C → WaitQc C
  wait_for pm pms (resolved, c) s = record s {
    core = c;
    pending_beats = pms;
    locked = true;
    answered = s.answered ++ (pm, get_proposer s) ∷ [];
  }
  wait_for pm pms (pending p, c) s = record s {
    core = c;
    pending_beats = pms;
    locked = true;
    waiting = s.waiting ++ (p, pm) ∷ [];
  }

  abbrev pub read_clock :
      Result ℕ × HotStuffCore C → (ℕ → Exec (WaitQc C) (Unit {0})) → Exec (WaitQc C) (Unit {0})
  read_clock (err e, c) k s = (err e, record s { core = c })
  read_clock (ok now, c) k s = k now (record s { core = c })

  abbrev pub schedule : List ℕ → Exec (WaitQc C) (Unit {0})
  schedule [] s = (ok tt, s)
  schedule (pm ∷ pms) s =
      if s.locked
      then read_clock (gettimeofday s.core) (next_while_locked pm pms) s
      else (ok tt, wait_for pm pms (async_qc_finish s.last_proposed s.core) s)

  unfoldable pub schedule_next : Exec (WaitQc C) (Unit {0})
  unfolding gettimeofday async_qc_finish
  schedule_next s = schedule s.pending_beats s

  -- The callback of `update_last_proposed`.
  unfoldable pub proposal_announced : Proposal → Exec (WaitQc C) (Unit {0})
  unfolding schedule_next
  proposal_announced prop s = schedule_next (record s { last_proposed = prop.blk; locked = false })

  -- The core resolves the promise `p`.
  unfoldable pub qc_finished : ℕ → WaitQc C → WaitQc C
  unfolding answers others
  qc_finished p s = record s {
    waiting = others p s.waiting;
    answered = s.answered ++ answers p (get_proposer s) s.waiting;
  }

  unfoldable pub init_wait : Option ℕ → HotStuffCore C → WaitQc C
  init_wait fixed core = record {
    core = core;
    fixed = fixed;
    pending_beats = [];
    last_proposed = core.b0;
    locked = false;
    next_beat = 0;
    waiting = [];
    answered = [];
  }

  -- A new beat; the promise is that of its number.
  unfoldable pub beat : Exec (WaitQc C) (Unit {0})
  unfolding schedule_next
  beat s = schedule_next (record s {
    pending_beats = s.pending_beats ++ s.next_beat ∷ [];
    next_beat = s.next_beat + 1;
  })

  unfoldable pub get_pending_size : WaitQc C → ℕ
  get_pending_size s = length s.pending_beats

  abbrev pub beat_resp : WaitQc C → ℕ → ℕ
  beat_resp s last_proposer = proposer_or last_proposer s.fixed
