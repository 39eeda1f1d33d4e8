-- ===== src/Net/Beat.antt =====
-- `beat` and `do_decide` of src/hotstuff.cpp, and the buffer of commands that `start` registers.
pub mod Buffer
use kauri_public.Base.{
  ℕ, ◌+◌, ◌-◌, ◌/◌, ◌%◌, Bool, true, false, not, ◌&&◌, ◌||◌, none, some, List, [], ◌∷◌, ◌++◌, ◌==◌,
  length, ltb, leb, contains, set_insert, remove_first, u32_mod, if◌then◌else◌,
}
use kauri_public.Base.Exec.{Result, ok, err, Exec, modify, pure, undefined, ◌>>=◌, ◌>>◌}
use kauri_public.Crypto.Scheme.{Scheme}
use kauri_public.Entity.Storage
use kauri_public.Core.State.{HotStuffCore, Finality, at, gettimeofday}
use kauri_public.Core.Propose.{make_block_for, on_propose}
use kauri_public.Net.State.{HotStuffBase, on_core}
use kauri_public.Net.Votes.{do_broadcast_proposal}

-- What the pacemaker answers: `get_parents`, which is not empty, and `get_current_proposal`.
pub record Advice : Type 0 where
  pub parent : ℕ
  pub uncles : List ℕ
  pub current : ℕ

-- `(now - last) / 1000 < latency`, where the difference is a `long`, which may be negative.
abbrev pub elapsed_below : ℕ → ℕ → ℕ → Bool
elapsed_below latency now last =
    if leb last now
    then ltb ((now - last) / 1000) latency
    else ltb 0 latency || leb 1000 (last - now)

module _ {C : Scheme} where
  -- The highest of `highest` and the piped blocks.
  unfoldable pub highest_of : HotStuffCore C → ℕ → List ℕ → Result ℕ
  highest_of s highest [] = ok highest
  highest_of s highest (h ∷ hs) = elim (Storage.find_blk s.storage h) [
    | none ↦ err undefined
    | some b ↦ highest_of s (if ltb (at s highest).height (at s b).height then b else highest) hs
  ]

  -- The new block stands on the highest block if that is above the parent. Its certificate is the
  -- highest one, while its `qc_ref` is the last proposal.
  unfoldable pub make_piped : ℕ → Advice → List ℕ → Exec (HotStuffCore C) ℕ
  unfolding make_block_for
  make_piped highest adv cmds s =
      if ltb (at s adv.parent).height (at s highest).height
      then make_block_for (λ _. adv.current) highest (adv.parent ∷ adv.uncles) cmds [] s
      else make_block_for (λ _. adv.current) adv.parent adv.uncles cmds [] s

  abbrev stamp : Exec (HotStuffCore C) (Unit {0})
  stamp = do now ← gettimeofday; modify (λ s. record s { last_block_time = now })

  -- A block beside the one that waits for its certificate.
  unfoldable pub propose_piped : Advice → Exec (HotStuffBase C) (Unit {0})
  unfolding highest_of make_piped gettimeofday do_broadcast_proposal
  propose_piped adv s =
      (do
        highest ← (λ t. (highest_of t.core adv.current t.core.piped_queue, t))
        b ← on_core (make_piped highest adv s.final_buffer)
        on_core (modify (λ c. record c { piped_queue = c.piped_queue ++ (at c b).hash ∷ [] }))
        on_core stamp
        modify (λ t. do_broadcast_proposal (record { proposer = t.core.id; blk = b }) t)
        on_core (modify (λ c. record c { piped_submitted = false })))
        s

  -- Too soon after the last block, and nothing piped.
  abbrev pub omits : HotStuffCore C → ℕ → Bool
  omits s now =
      length s.piped_queue == 0 && elapsed_below s.config.piped_latency now s.last_block_time

  abbrev pub propose_now : Advice → Exec (HotStuffBase C) (Unit {0})
  propose_now adv s =
      (do
        on_core stamp
        b ← on_core (on_propose s.final_buffer (adv.parent ∷ adv.uncles) [])
        pure tt)
        s

  abbrev pub propose_at : Advice → ℕ → Exec (HotStuffBase C) (Unit {0})
  propose_at adv now s =
      if ltb (length s.core.piped_queue) s.core.config.async_blocks
        && not (adv.current == s.core.b0)
      then (if omits s.core now then (ok tt, s) else propose_piped adv s)
      else propose_now adv s

  -- What `beat` does once the pacemaker's promise has named the proposer. The clock is read twice.
  unfoldable pub beat : ℕ → Advice → Exec (HotStuffBase C) (Unit {0})
  unfolding gettimeofday propose_piped on_propose
  beat proposer adv s =
      if ltb (s.core.config.async_blocks + 1) (length s.core.piped_queue)
      then (ok tt, s)
      else if not (proposer == s.core.id)
      then (ok tt, s)
      else (do _ ← on_core gettimeofday; now ← on_core gettimeofday; propose_at adv now) s

  abbrev pub reply : ℕ → HotStuffBase C → HotStuffBase C
  reply cmd s = record s {
    replies =
        s.replies
        ++ record {
          rid = s.core.id;
          decision = 0;
          cmd_idx = 0;
          cmd_height = 0;
          cmd_hash = cmd;
          blk_hash = 0;
        }
          ∷ [];
  }

  -- A command from the queue: it is buffered or only answered.
  unfoldable pub buffer_cmd : ℕ → HotStuffBase C → HotStuffBase C
  buffer_cmd cmd s =
      if ltb (length s.cmd_pending_buffer) s.blk_size && length s.final_buffer == 0
      then record (reply cmd s) {
        decision_waiting = set_insert cmd s.decision_waiting;
        cmd_pending_buffer = s.cmd_pending_buffer ++ cmd ∷ [];
      }
      else reply cmd s

  -- final_buffer = std::move(cmd_pending_buffer), if it is empty
  unfoldable pub fill_final : HotStuffBase C → HotStuffBase C
  fill_final s =
      if length s.final_buffer == 0
      then record s { final_buffer = s.cmd_pending_buffer; cmd_pending_buffer = [] }
      else s

  abbrev pub has_block : HotStuffBase C → Bool
  has_block s = leb s.blk_size (length s.cmd_pending_buffer) || not (length s.final_buffer == 0)

  -- The handler of the queue of commands: it stops at the first command after which there are enough
  -- for a block, and calls `beat`. The answer is whether it did; the other commands stay in the queue.
  unfoldable pub take_cmds : List ℕ → HotStuffBase C → Bool × List ℕ × HotStuffBase C
  unfolding buffer_cmd fill_final
  take_cmds [] s = (false, [], s)
  take_cmds (cmd ∷ cmds) s =
      let skip = take_cmds cmds s in
      let t = buffer_cmd cmd s in
      let next = take_cmds cmds t in
      if not (s.proposer == s.core.id)
      then skip
      else if has_block t
      then (true, cmds, fill_final t)
      else next

  -- The callback of a command is called once, after the command is executed.
  unfoldable pub do_decide : Finality → HotStuffBase C → HotStuffBase C
  do_decide fin s =
      let t : HotStuffBase C = record s {
        part_decided = (s.part_decided + 1) % u32_mod;
        executed = s.executed ++ fin ∷ [];
      } in
      if contains fin.cmd_hash t.decision_waiting
      then record t {
        replies = t.replies ++ fin ∷ [];
        decision_waiting = remove_first fin.cmd_hash t.decision_waiting;
      }
      else t
