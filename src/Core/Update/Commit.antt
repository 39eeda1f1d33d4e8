-- ===== src/Core/Update/Commit.antt =====
-- What `update` does when it commits a branch.
use mathlib.Core.Path.{fun_ext}
use mathlib.Core.List.{append_assoc, append-nil}
use kauri_public.Base.{
  ℕ, suc, ◌+◌, ◌≡◌, refl, ap, List, [], ◌∷◌, ◌++◌, reverse, arith, ◌==◌, contains, if◌then◌else◌,
}
use kauri_public.Base.Exec.{ok, err, safety_breached}
use kauri_public.Crypto.Scheme.{Scheme}
use kauri_public.Entity.Block.{Block}
use kauri_public.Entity.Storage
use kauri_public.Core.State.{HotStuffCore, Event, decide, consensus, at, set_blk, emit}
use kauri_public.Core.Update.{decide_cmds, commit_one, commit_all, commit}
use kauri_public.Core.Update.Chain.{Falls, Branch, Branch-walk}

module _ {C : Scheme} where
  -- The announcements for one block: the block, then its commands by their index.
  unfoldable pub cmd_events : ℕ → Block C → ℕ → List ℕ → List (Event C)
  cmd_events id blk i [] = []
  cmd_events id blk i (cmd ∷ cmds) =
      decide (record {
        rid = id;
        decision = 1;
        cmd_idx = i;
        cmd_height = blk.height;
        cmd_hash = cmd;
        blk_hash = blk.hash;
      })
      ∷ cmd_events id blk (i + 1) cmds

  abbrev pub blk_events : ℕ → ℕ → Block C → List (Event C)
  blk_events id b blk = consensus b ∷ cmd_events id blk 0 blk.cmds

  unfoldable pub branch_events : ℕ → (ℕ → Block C) → List ℕ → List (Event C)
  branch_events id cell [] = []
  branch_events id cell (b ∷ bs) = blk_events id b (cell b) ++ branch_events id cell bs

  -- The blocks of a list are marked as decided, and nothing else is written.
  abbrev pub mark : List ℕ → (ℕ → Block C) → ℕ → Block C
  mark bs cell a = if contains a bs then record (cell a) { decision = 1 } else cell a

  decide_cmds_lem :
      (b i : ℕ) (cmds : List ℕ) (s : HotStuffCore C)
      → decide_cmds b i cmds s ≡ record s { outbox = s.outbox ++ cmd_events s.id (at s b) i cmds }
  unfolding decide_cmds cmd_events
  decide_cmds_lem b i [] s = rw append-nil
  decide_cmds_lem b i (cmd ∷ cmds) s = rw (decide_cmds_lem b (i + 1) cmds, append_assoc)

  abbrev committed_state : List ℕ → HotStuffCore C → HotStuffCore C
  committed_state bs s = record s {
    heap = record (s.heap) { cell = mark bs s.heap.cell };
    outbox = s.outbox ++ branch_events s.id s.heap.cell bs;
  }

  abbrev mark_one : ℕ → (ℕ → Block C) → ℕ → Block C
  mark_one b cell a = if a == b then record (cell b) { decision = 1 } else cell a

  mark-mark_one :
      (b : ℕ) (bs : List ℕ) (cell : ℕ → Block C) (a : ℕ)
      → mark bs (mark_one b cell) a ≡ mark (b ∷ bs) cell a
  unfolding contains
  mark-mark_one b bs cell a = ground arith

  cmd_events-mark_one :
      (id b a i : ℕ) (cmds : List ℕ) (cell : ℕ → Block C)
      → cmd_events id (mark_one b cell a) i cmds ≡ cmd_events id (cell a) i cmds
  unfolding cmd_events
  cmd_events-mark_one id b a i [] cell = refl
  cmd_events-mark_one id b a i (cmd ∷ cmds) cell =
      ground (arith, cmd_events-mark_one id b a (i + 1) cmds cell)

  cmds-mark_one : (b a : ℕ) (cell : ℕ → Block C) → (mark_one b cell a).cmds ≡ (cell a).cmds
  cmds-mark_one b a cell = ground arith

  branch_events-mark_one :
      (id b : ℕ) (bs : List ℕ) (cell : ℕ → Block C)
      → branch_events id (mark_one b cell) bs ≡ branch_events id cell bs
  unfolding branch_events
  branch_events-mark_one id b [] cell = refl
  branch_events-mark_one id b (a ∷ bs) cell = ground (
    arith,
    branch_events-mark_one id b bs cell,
    cmds-mark_one b a cell,
    cmd_events-mark_one id b a 0 (cell a).cmds cell,
  )

  commit_one_lem :
      (b : ℕ) (s : HotStuffCore C)
      → commit_one b s ≡ record s {
        heap = record (s.heap) { cell = mark_one b s.heap.cell };
        outbox = s.outbox ++ blk_events s.id b (at s b);
      }
  unfolding commit_one set_blk Storage.write emit
  commit_one_lem b s = rw (
    decide_cmds_lem,
    append_assoc,
    cmds-mark_one b b s.heap.cell,
    cmd_events-mark_one s.id b b 0 (at s b).cmds s.heap.cell,
  )

  -- `commit_all` marks the blocks of the list and announces each with its commands, in order.
  pub commit_all_lem : (bs : List ℕ) (s : HotStuffCore C) → commit_all bs s ≡ committed_state bs s
  unfolding commit_all branch_events contains
  commit_all_lem [] s = rw append-nil
  commit_all_lem (b ∷ bs) s =
      rw
        (
          commit_one_lem b s,
          commit_all_lem bs,
          append_assoc,
          branch_events-mark_one s.id b bs s.heap.cell,
        )
        (ap (cells s) (fun_ext (mark-mark_one b bs s.heap.cell)))
    where
      cells : HotStuffCore C → (ℕ → Block C) → HotStuffCore C
      cells t cell = record t {
        heap = record (t.heap) { cell = cell };
        outbox = t.outbox ++ branch_events t.id t.heap.cell (b ∷ bs);
      }

  -- Committing `b`, with direct parents lower than their children: if the branch of `b` above the
  -- height of `b_exec` ends at `b_exec`, exactly its blocks are marked and announced, lowest first,
  -- and `b` is the new `b_exec`; if it ends elsewhere, "safety breached" is thrown and nothing has
  -- changed.
  pub commit_lem :
      (s : HotStuffCore C) (b last : ℕ) (queue : List ℕ)
      → Falls s.heap.cell
      → Branch s.heap.cell (at s s.b_exec).height b queue last
      → commit b s ≡ (
          if last == s.b_exec
          then (
            ok tt,
            record s {
              heap = record (s.heap) { cell = mark (reverse queue) s.heap.cell };
              outbox = s.outbox ++ branch_events s.id s.heap.cell (reverse queue);
              b_exec = b;
            },
          )
          else (err safety_breached, s))
  unfolding commit
  commit_lem s b last queue falls br =
      rw
        (
          Branch-walk s.heap.cell (suc (at s b).height) falls br (omega arith),
          commit_all_lem (reverse queue) s,
        )
        refl
