-- ===== src/Pace/RoundRobin.antt =====
-- `PMRoundRobinProposer`: the proposer changes in turn when it is impeached. `PaceMakerRR` joins it
-- with `PMHighTail`. The timeouts are multiples of a unit, since doubling a `double` is exact. A
-- promise of the core that is rejected never calls back, whoever waits for it. The chains of
-- callbacks that `reg_proposal` starts write what is null only, so that many do what one does:
-- `hears_own` tells whether there is one, and `hears_others` does so for `reg_receive_proposal`. What
-- the owner does once a beat is answered is a further call.
pub mod Turns
pub mod Moves
pub mod Rounds
pub mod Beats
use kauri_public.Base.{
  ℕ, zero, suc, ◌+◌, ◌*◌, ◌%◌, ◌^◌, Bool, true, false, not, ◌&&◌, ◌||◌, Option, none, some, List,
  [], ◌∷◌, ◌++◌, ◌==◌, contains, length, if◌then◌else◌,
}
use kauri_public.Base.Exec.{Result, ok, err, Exec, pure, modify, undefined, ◌>>=◌, ◌>>◌}
use kauri_public.Base.Maps
use kauri_public.Crypto.Scheme.{Scheme}
use kauri_public.Entity.Config
use kauri_public.Core.State.{HotStuffCore, Proposal}
use kauri_public.Core.Propose.{on_propose}
use kauri_public.Core.Votes.{Promise, resolved, pending, async_qc_finish}
use kauri_public.Pace.HighTail
use kauri_public.Pace.HighTail.{HighTail, get_parents}

-- Who waits for a promise of the core: a beat, or `do_new_consensus` with so many rounds left.
pub data Waiter : Type 0 where
  for_beat : ℕ → Waiter
  for_round : ℕ → Waiter

-- `timer` runs to `on_exp_timeout`, or to `rotate`.
pub data Timer : Type 0 where
  until_proposal : ℕ → Timer
  until_rotation : ℕ → Timer

pub record RoundRobin (C : Scheme) : Type 0 where
  pub core : HotStuffCore C
  pub high_tail : HighTail
  pub base_timeout : ℕ
  pub exp_timeout : ℕ
  pub prop_delay : ℕ
  pub timer : Option Timer
  pub proposer : ℕ
  pub prop_blk : List (ℕ × ℕ)
  pub rotating : Bool
  pub hears_own : Bool
  pub hears_others : Bool
  pub pending_beats : List ℕ
  pub last_proposed : ℕ
  pub locked : Bool
  pub pm_qc_finish : Option ℕ
  pub pm_wait_propose : Bool
  pub pm_qc_manual : Option ℕ
  pub waiting : List (ℕ × Waiter)
  pub rejected : List ℕ
  pub next_beat : ℕ
  pub answered : List (ℕ × ℕ)
  pub elected : ℕ

-- The waiters for a promise, and the others.
unfoldable pub ready : ℕ → List (ℕ × Waiter) → List Waiter
ready p [] = []
ready p ((q, w) ∷ ws) = let rest = ready p ws in if q == p then w ∷ rest else rest

unfoldable pub unready : ℕ → List (ℕ × Waiter) → List (ℕ × Waiter)
unready p [] = []
unready p ((q, w) ∷ ws) = let rest = unready p ws in if q == p then rest else (q, w) ∷ rest

abbrev pub promise_of : Promise → Option ℕ
promise_of resolved = none
promise_of (pending p) = some p

abbrev pub is_blk : Option ℕ → ℕ → Bool
is_blk none b = false
is_blk (some a) b = a == b

module _ {C : Scheme} where
  -- pm.reject(), where a promise that is settled stays so
  unfoldable pub reject : Option ℕ → RoundRobin C → RoundRobin C
  unfolding unready
  reject none s = s
  reject (some p) s = record s { waiting = unready p s.waiting; rejected = p ∷ s.rejected }

  -- pm.resolve(proposer), for a beat
  abbrev pub answer_beat : ℕ → RoundRobin C → RoundRobin C
  answer_beat beat s = record s { answered = s.answered ++ (beat, s.proposer) ∷ [] }

  -- `.then(...)` on a promise that is pending, or was rejected
  abbrev pub wait_for : ℕ → Waiter → RoundRobin C → RoundRobin C
  wait_for p w s =
      if contains p s.rejected then s else record s { waiting = s.waiting ++ (p, w) ∷ [] }

  abbrev pub beat_after : ℕ → Promise → RoundRobin C → RoundRobin C
  beat_after beat resolved s = answer_beat beat s
  beat_after beat (pending p) s = wait_for p (for_beat beat) s

  abbrev pub ask_qc : ℕ → Promise × HotStuffCore C → RoundRobin C → RoundRobin C
  ask_qc beat (pm, core) s =
      record (beat_after beat pm (record s { core = core; pm_qc_finish = promise_of pm })) {
        locked = true;
      }

  abbrev pub schedule : List ℕ → RoundRobin C → RoundRobin C
  schedule [] s = s
  schedule (beat ∷ beats) s =
      let t = reject s.pm_qc_finish (record s { pending_beats = beats }) in
      if not s.locked then ask_qc beat (async_qc_finish t.last_proposed t.core) t else s

  unfoldable pub proposer_schedule_next : RoundRobin C → RoundRobin C
  unfolding reject async_qc_finish
  proposer_schedule_next s = schedule s.pending_beats s

  abbrev pub note_blk : ℕ → ℕ → RoundRobin C → RoundRobin C
  note_blk rid b s = record s { prop_blk = Maps.insert rid b s.prop_blk }

  abbrev pub last_is : ℕ → RoundRobin C → RoundRobin C
  last_is b s =
      if s.pm_wait_propose
      then proposer_schedule_next (record s { last_proposed = b; locked = false })
      else s

  -- The callbacks of `reg_proposal` and of `proposer_update_last_proposed`.
  unfoldable pub proposal_made : Proposal → RoundRobin C → RoundRobin C
  unfolding proposer_schedule_next
  proposal_made prop s =
      last_is prop.blk (
        if s.hears_own
        then record (note_blk s.core.id prop.blk s) { hears_own = s.rotating }
        else s)

  -- The callback of `reg_receive_proposal`.
  unfoldable pub proposal_received : Proposal → RoundRobin C → RoundRobin C
  proposal_received prop s =
      if s.hears_others
      then record (note_blk prop.proposer prop.blk s) { hears_others = s.rotating }
      else s

  abbrev pub proposed : Result ℕ × HotStuffCore C → Exec (RoundRobin C) ℕ
  proposed (r, core) s = (r, record s { core = core })

  -- hsc->on_propose(cmds, get_parents(), bytearray_t())
  abbrev pub propose : List ℕ → Exec (RoundRobin C) ℕ
  propose cmds s = proposed (on_propose cmds (get_parents s.high_tail) [] s.core) s

  abbrev pub await_manual : Promise × HotStuffCore C → Exec (RoundRobin C) Promise
  await_manual (pm, core) s = (ok pm, record s { core = core; pm_qc_manual = promise_of pm })

  -- The proposal is announced, by `on_propose` still, to `PMHighTail` too.
  abbrev pub take_proposal : Proposal → RoundRobin C → RoundRobin C
  take_proposal prop s = record (proposal_made prop s) {
    high_tail = HighTail.proposal_made prop s.high_tail;
  }

  -- The certificate of the proposal is waited for.
  abbrev pub await_round : ℕ → Exec (RoundRobin C) Promise
  await_round b s =
      let t = take_proposal (record { proposer = s.core.id; blk = b }) s in
      let u = reject t.pm_qc_manual t in await_manual (async_qc_finish b u.core) u

  unfoldable pub propose_round : List ℕ → Exec (RoundRobin C) Promise
  unfolding on_propose get_parents HighTail.proposal_made proposal_made reject async_qc_finish
  propose_round cmds = do b ← propose cmds; await_round b

  abbrev pub then_round :
      Exec (RoundRobin C) (Unit {0}) → ℕ → Promise → Exec (RoundRobin C) (Unit {0})
  then_round next left resolved s = next s
  then_round next left (pending p) s = (ok tt, wait_for p (for_round left) s)

  -- do_new_consensus(x, cmds), where `3 - x` rounds are left
  unfoldable pub do_new_consensus : ℕ → List ℕ → Exec (RoundRobin C) (Unit {0})
  unfolding propose_round
  do_new_consensus zero cmds = do pm ← propose_round cmds; then_round (pure tt) 0 pm
  do_new_consensus (suc left) cmds = do
    pm ← propose_round cmds
    then_round (do_new_consensus left []) (suc left) pm

  abbrev pub call_back : Waiter → Exec (RoundRobin C) (Unit {0})
  call_back (for_beat beat) s = (ok tt, answer_beat beat s)
  call_back (for_round zero) s = (ok tt, s)
  call_back (for_round (suc left)) s = do_new_consensus left [] s

  unfoldable pub call_back_all : List Waiter → Exec (RoundRobin C) (Unit {0})
  unfolding do_new_consensus
  call_back_all [] = pure tt
  call_back_all (w ∷ ws) = do call_back w; call_back_all ws

  -- The core resolves the promise `p`, which has no effect if it was rejected.
  unfoldable pub qc_finished : ℕ → Exec (RoundRobin C) (Unit {0})
  unfolding call_back_all ready unready
  qc_finished p s = call_back_all (ready p s.waiting) (record s { waiting = unready p s.waiting })

  abbrev pub reject_all : RoundRobin C → RoundRobin C
  reject_all s =
      let t = record (reject s.pm_qc_finish s) { pm_wait_propose = false } in
      reject t.pm_qc_manual t

  -- `proposer` is a `uint16_t`.
  unfoldable pub rotate : Exec (RoundRobin C) (Unit {0})
  unfolding reject
  rotate s = if s.core.config.nreplicas == 0 then (err undefined, s) else (
    ok tt,
    record (reject_all (record s {
      hears_own = true;
      hears_others = true;
      prop_blk = [];
      rotating = true;
      proposer = ((s.proposer + 1) % s.core.config.nreplicas) % 2 ^ 16;
    })) { timer = some (until_proposal s.exp_timeout); exp_timeout = s.exp_timeout * 2 },
  )

  -- The closure that an elected proposer defers is counted in `elected`.
  unfoldable pub elect : RoundRobin C → RoundRobin C
  elect s = if s.proposer == s.core.id then record s { elected = s.elected + 1 } else s

  unfoldable pub stop_rotate : RoundRobin C → RoundRobin C
  unfolding reject elect
  stop_rotate s = elect (record (reject_all (record s { timer = none })) {
    rotating = false;
    locked = false;
    last_proposed = s.core.b0;
    pm_wait_propose = true;
  })

  -- The deferred closure, where `pending` are the hashes of `decision_waiting`.
  unfoldable pub repropose : List ℕ → Exec (RoundRobin C) (Unit {0})
  unfolding do_new_consensus
  repropose [] s = (ok tt, s)
  repropose (cmd ∷ cmds) s = do_new_consensus 3 (cmd ∷ cmds) s

  abbrev pub time_out : Option Timer → Exec (RoundRobin C) (Unit {0})
  time_out none s = (ok tt, s)
  time_out (some (until_rotation d)) s = rotate s
  time_out (some (until_proposal d)) s =
      (do
        (if s.proposer == s.core.id then do_new_consensus 3 [] else pure tt)
        modify (λ t. record t { timer = some (until_rotation t.prop_delay) }))
        s

  -- The timer fires, for `on_exp_timeout` or for `rotate`.
  unfoldable pub timer_fired : Exec (RoundRobin C) (Unit {0})
  unfolding rotate do_new_consensus
  timer_fired s = time_out s.timer (record s { timer = none })

  unfoldable pub on_consensus : ℕ → RoundRobin C → RoundRobin C
  unfolding stop_rotate
  on_consensus b s =
      let t = record s { timer = none; exp_timeout = s.base_timeout } in
      if is_blk (Maps.find t.proposer t.prop_blk) b then stop_rotate t else t

  unfoldable pub impeach : Exec (RoundRobin C) (Unit {0})
  unfolding rotate
  impeach s = if s.rotating then (ok tt, s) else rotate s

  -- PMRoundRobinProposer(ec, base_timeout, prop_delay)
  abbrev pub fresh_round_robin : ℕ → ℕ → HighTail → HotStuffCore C → RoundRobin C
  fresh_round_robin base_timeout prop_delay high_tail core = record {
    core = core;
    high_tail = high_tail;
    base_timeout = base_timeout;
    exp_timeout = base_timeout;
    prop_delay = prop_delay;
    timer = none;
    proposer = 0;
    prop_blk = [];
    rotating = false;
    hears_own = false;
    hears_others = false;
    pending_beats = [];
    last_proposed = core.b0;
    locked = false;
    pm_qc_finish = none;
    pm_wait_propose = false;
    pm_qc_manual = none;
    waiting = [];
    rejected = [];
    next_beat = 0;
    answered = [];
    elected = 0;
  }

  -- init()
  unfoldable pub init_round_robin : ℕ → ℕ → HighTail → HotStuffCore C → RoundRobin C
  unfolding stop_rotate
  init_round_robin base_timeout prop_delay high_tail core =
      stop_rotate (fresh_round_robin base_timeout prop_delay high_tail core)

  -- A new beat; the promise is that of its number.
  unfoldable pub beat : RoundRobin C → RoundRobin C
  unfolding proposer_schedule_next
  beat s =
      if not s.rotating && s.proposer == s.core.id
      then proposer_schedule_next (record s {
        pending_beats = s.pending_beats ++ s.next_beat ∷ [];
        next_beat = s.next_beat + 1;
      })
      else answer_beat s.next_beat (record s { next_beat = s.next_beat + 1 })

  unfoldable pub get_pending_size : RoundRobin C → ℕ
  get_pending_size s = length s.pending_beats

  abbrev pub beat_resp : RoundRobin C → ℕ → ℕ
  beat_resp s last_proposer = s.proposer
