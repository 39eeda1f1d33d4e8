-- ===== src/Net/Beat/Buffer.antt =====
-- The buffers of commands: when a block is full, and what happens to it then.
use kauri_public.Base.{
  ℕ, ◌+◌, ◌≤◌, ◌<◌, ◌≡◌, ◌≢◌, refl, sym, ◌∙◌, ap, true, false, not, ◌&&◌, List, [], ◌∷◌, ◌++◌,
  arith, ◌==◌, ==_iff, ltb, length, length-append, if◌then◌else◌,
}
use mathlib.Core.List.{append_assoc}
use kauri_public.Crypto.Scheme.{Scheme}
use kauri_public.Net.State.{HotStuffBase}
use kauri_public.Net.Beat.{buffer_cmd, fill_final, has_block, take_cmds}

module _ {C : Scheme} where
  -- A command that is buffered.
  abbrev Room : HotStuffBase C → Type 0
  Room s = (length s.cmd_pending_buffer < s.blk_size) × (s.final_buffer ≡ [])

  record Buffered (cmd : ℕ) (s t : HotStuffBase C) : Type 0 where
    pending : t.cmd_pending_buffer ≡ s.cmd_pending_buffer ++ cmd ∷ []
    final : t.final_buffer ≡ s.final_buffer
    size : t.blk_size ≡ s.blk_size
    proposer : t.proposer ≡ s.proposer
    id : t.core.id ≡ s.core.id

  buffer_cmd-Buffered : (cmd : ℕ) (s : HotStuffBase C) → Room s → Buffered cmd s (buffer_cmd cmd s)
  unfolding buffer_cmd
  buffer_cmd-Buffered cmd s room =
      let yes_room : ltb (length s.cmd_pending_buffer) s.blk_size && length s.final_buffer == 0
          ≡ true =
        room_is (length s.cmd_pending_buffer) s.blk_size s.final_buffer room.0 room.1 in
      rw yes_room (record { pending = refl; final = refl; size = refl; proposer = refl; id = refl })
    where
      room_is : (n k : ℕ) (f : List ℕ) → n < k → f ≡ [] → ltb n k && length f == 0 ≡ true
      room_is n k f less empty = rw empty (ground arith)

  -- One command: enough for a block, or not.
  take_cmds-full :
      (cmd : ℕ) (cmds : List ℕ) (s : HotStuffBase C)
      → s.proposer ≡ s.core.id
      → has_block (buffer_cmd cmd s) ≡ true
      → take_cmds (cmd ∷ cmds) s ≡ (true, cmds, fill_final (buffer_cmd cmd s))
  unfolding take_cmds
  take_cmds-full cmd cmds s own full =
      ap
        (λ d.
          if not d
          then take_cmds cmds s
          else if has_block (buffer_cmd cmd s)
          then (true, cmds, fill_final (buffer_cmd cmd s))
          else take_cmds cmds (buffer_cmd cmd s))
        ((==_iff s.proposer s.core.id).1 own)
      ∙ ap
          (λ d.
            if d
            then (true, cmds, fill_final (buffer_cmd cmd s))
            else take_cmds cmds (buffer_cmd cmd s))
          full

  take_cmds-more :
      (cmd : ℕ) (cmds : List ℕ) (s : HotStuffBase C)
      → s.proposer ≡ s.core.id
      → has_block (buffer_cmd cmd s) ≡ false
      → take_cmds (cmd ∷ cmds) s ≡ take_cmds cmds (buffer_cmd cmd s)
  unfolding take_cmds
  take_cmds-more cmd cmds s own short =
      ap
        (λ d.
          if not d
          then take_cmds cmds s
          else if has_block (buffer_cmd cmd s)
          then (true, cmds, fill_final (buffer_cmd cmd s))
          else take_cmds cmds (buffer_cmd cmd s))
        ((==_iff s.proposer s.core.id).1 own)
      ∙ ap
          (λ d.
            if d
            then (true, cmds, fill_final (buffer_cmd cmd s))
            else take_cmds cmds (buffer_cmd cmd s))
          short

  has_block-full :
      (t : HotStuffBase C) → t.blk_size ≤ length t.cmd_pending_buffer → has_block t ≡ true
  has_block-full t enough = ground arith

  has_block-short :
      (t : HotStuffBase C)
      → length t.cmd_pending_buffer < t.blk_size
      → length t.final_buffer ≡ 0
      → has_block t ≡ false
  has_block-short t few none_final = ground arith

  has_block-filled : (t : HotStuffBase C) → length t.final_buffer ≢ 0 → has_block t ≡ true
  has_block-filled t filled = ground arith

  fill_final-fills :
      (t : HotStuffBase C)
      → t.final_buffer ≡ []
      → ((fill_final t).final_buffer ≡ t.cmd_pending_buffer)
        × ((fill_final t).cmd_pending_buffer ≡ [])
  unfolding fill_final
  fill_final-fills t empty =
      let zero_length : length t.final_buffer == 0 ≡ true = ap (λ f. length f == 0) empty in
      rw zero_length (refl, refl)

  -- Where the replica is the proposer, nothing is in the final buffer, and the commands `xs`, at least
  -- one, fill the pending buffer up to the size of a block: they are taken, the others stay in the
  -- queue, `beat` is called, and the final buffer holds the pending commands and `xs` in their order.
  pub take_cmds-fills :
      (x : ℕ) (xs rest : List ℕ) (s : HotStuffBase C)
      → s.proposer ≡ s.core.id
      → s.final_buffer ≡ []
      → length s.cmd_pending_buffer + length (x ∷ xs) ≡ s.blk_size
      → (t : HotStuffBase C) × (take_cmds ((x ∷ xs) ++ rest) s ≡ (true, rest, t))
        × (t.final_buffer ≡ s.cmd_pending_buffer ++ x ∷ xs)
        × (t.cmd_pending_buffer ≡ [])
  unfolding take_cmds
  take_cmds-fills x [] rest s own empty full =
      let room : Room s = (omega arith, empty) in
      let one = buffer_cmd-Buffered x s room in
      let t = buffer_cmd x s in
      let size : t.blk_size ≤ length t.cmd_pending_buffer =
        omega
          (arith, one.size, ap length one.pending, length-append s.cmd_pending_buffer (x ∷ [])) in
      let (filled, cleared) = fill_final-fills t (one.final ∙ empty) in
      (
        fill_final t,
        take_cmds-full x rest s own (has_block-full t size),
        filled ∙ one.pending,
        cleared,
      )
  take_cmds-fills x (y ∷ ys) rest s own empty full =
      let room : Room s = (omega arith, empty) in
      let one = buffer_cmd-Buffered x s room in
      let t = buffer_cmd x s in
      let grown : length t.cmd_pending_buffer ≡ length s.cmd_pending_buffer + 1 =
        ap length one.pending ∙ length-append s.cmd_pending_buffer (x ∷ []) in
      let (u, run, filled, cleared) =
        take_cmds-fills y ys rest t (one.proposer ∙ own ∙ sym one.id) (one.final ∙ empty)
          (omega (arith, grown, one.size)) in
      (
        u,
        take_cmds-more x ((y ∷ ys) ++ rest) s own
              (has_block-short t (omega (arith, grown, one.size)) (ap length (one.final ∙ empty)))
            ∙ run,
        filled
            ∙ ap (λ p. p ++ y ∷ ys) one.pending
            ∙ append_assoc s.cmd_pending_buffer (x ∷ []) (y ∷ ys),
        cleared,
      )

  -- Once the final buffer holds a block, no command is buffered.
  kept_final :
      (cmd : ℕ) (s : HotStuffBase C)
      → length s.final_buffer ≢ 0
      → ((fill_final (buffer_cmd cmd s)).final_buffer ≡ s.final_buffer)
        × ((fill_final (buffer_cmd cmd s)).cmd_pending_buffer ≡ s.cmd_pending_buffer)
        × ((buffer_cmd cmd s).final_buffer ≡ s.final_buffer)
  unfolding fill_final buffer_cmd
  kept_final cmd s filled =
      let no_room : ltb (length s.cmd_pending_buffer) s.blk_size && length s.final_buffer == 0
          ≡ false =
        ground arith in
      let full : length s.final_buffer == 0 ≡ false = ground arith in
      rw no_room (rw full (refl, refl, refl))

  -- Where the replica is the proposer and the final buffer is not empty, the next command starts a beat
  -- at once, and the buffers stay as they are.
  pub take_cmds-repeats :
      (cmd : ℕ) (cmds : List ℕ) (s : HotStuffBase C)
      → s.proposer ≡ s.core.id
      → length s.final_buffer ≢ 0
      → (t : HotStuffBase C) × (take_cmds (cmd ∷ cmds) s ≡ (true, cmds, t))
        × (t.final_buffer ≡ s.final_buffer)
        × (t.cmd_pending_buffer ≡ s.cmd_pending_buffer)
  take_cmds-repeats cmd cmds s own filled =
      let (final, pending, same) = kept_final cmd s filled in
      (
        fill_final (buffer_cmd cmd s),
        take_cmds-full cmd cmds s own
            (has_block-filled (buffer_cmd cmd s) (λ e. filled (ap length (sym same) ∙ e))),
        final,
        pending,
      )
