-- ===== src/Core/Update.antt =====
-- `HotStuffCore::update` of src/consensus.cpp, in its three-step form: the build leaves
-- `HOTSTUFF_TWO_STEP` undefined.
pub mod Chain
pub mod Commit
pub mod Rule
pub mod Order
pub mod Monotone
pub mod Decision
pub mod Progress
use kauri_public.Base.{
  ℕ, zero, suc, ◌+◌, Bool, true, false, not, Option, none, some, List, [], ◌∷◌, ◌++◌, reverse, ltb,
  ◌==◌, if◌then◌else◌,
}
use kauri_public.Base.Exec.{
  Result, ok, err, Exec, pure, raise, lift, modify, undefined, diverged, safety_breached, ◌>>=◌,
  ◌>>◌,
}
use kauri_public.Crypto.Scheme.{Scheme}
use kauri_public.Entity.Block.{Block, first_of_list}
use kauri_public.Core.State.{
  HotStuffCore, Finality, Event, decide, consensus, at, set_blk, emit, update_hqc,
}

-- The test `p != q` of two pointers.
abbrev pub same_pointer : Option ℕ → Option ℕ → Bool
same_pointer none none = true
same_pointer (some a) (some b) = a == b
same_pointer _ _ = false

-- `blk->decision`, as a condition
abbrev pub decided : ℕ → Bool
decided d = not (d == 0)

-- Cases on parents[0]: read out of range, null, or a block.
abbrev pub step_to : Result (Option ℕ) → (ℕ → Result (List ℕ × ℕ)) → Result (List ℕ × ℕ)
step_to (err e) k = err e
step_to (ok none) k = err undefined
step_to (ok (some p)) k = k p

abbrev pub pushed : ℕ → Result (List ℕ × ℕ) → Result (List ℕ × ℕ)
pushed b (err e) = err e
pushed b (ok (q, last)) = ok (b ∷ q, last)

module _ {C : Scheme} where
  -- for (b = blk; b->height > floor; b = b->parents[0]) commit_queue.push_back(b);
  -- the queue and the block at which the loop ends
  unfoldable pub walk : (ℕ → Block C) → ℕ → ℕ → ℕ → Result (List ℕ × ℕ)
  walk cell zero floor b = err diverged
  walk cell (suc fuel) floor b = elim (ltb floor (cell b).height) [
    | true ↦ pushed b (step_to (first_of_list (cell b).parents) (λ p. walk cell fuel floor p))
    | false ↦ ok ([], b)
  ]

  -- A height is left behind in each round, so the height of the start is fuel enough.
  abbrev pub walk_from : (ℕ → Block C) → ℕ → ℕ → Result (List ℕ × ℕ)
  walk_from cell floor b = walk cell (suc (cell b).height) floor b

  unfoldable pub decide_cmds : ℕ → ℕ → List ℕ → HotStuffCore C → HotStuffCore C
  unfolding emit
  decide_cmds b i [] s = s
  decide_cmds b i (cmd ∷ cmds) s = decide_cmds b (i + 1) cmds (
      emit
        (decide (record {
          rid = s.id;
          decision = 1;
          cmd_idx = i;
          cmd_height = (at s b).height;
          cmd_hash = cmd;
          blk_hash = (at s b).hash;
        }))
        s)

  unfoldable pub commit_one : ℕ → HotStuffCore C → HotStuffCore C
  unfolding set_blk emit decide_cmds
  commit_one b s =
      let t = emit (consensus b) (set_blk b (record (at s b) { decision = 1 }) s) in
      decide_cmds b 0 (at t b).cmds t

  unfoldable pub commit_all : List ℕ → HotStuffCore C → HotStuffCore C
  unfolding commit_one
  commit_all [] s = s
  commit_all (b ∷ bs) s = commit_all bs (commit_one b s)

  abbrev pub commit_walked : ℕ → Result (List ℕ × ℕ) → Exec (HotStuffCore C) (Unit {0})
  commit_walked b (err e) s = (err e, s)
  commit_walked b (ok (queue, last)) s =
      if last == s.b_exec
      then (ok tt, record (commit_all (reverse queue) s) { b_exec = b })
      else (err safety_breached, s)

  unfoldable pub commit : ℕ → Exec (HotStuffCore C) (Unit {0})
  unfolding walk commit_all
  commit b s = commit_walked b (walk_from s.heap.cell (at s s.b_exec).height b) s

  -- if (blk2->parents[0] != blk1 || blk1->parents[0] != blk) return;
  abbrev pub if_direct :
      Result (Option ℕ) → ℕ → Exec (HotStuffCore C) (Unit {0}) → Exec (HotStuffCore C) (Unit {0})
  if_direct (err e) b k s = (err e, s)
  if_direct (ok p) b k s = if same_pointer p (some b) then k s else (ok tt, s)

  abbrev pub raise_lock : ℕ → HotStuffCore C → HotStuffCore C
  raise_lock b s = if ltb (at s s.b_lock).height (at s b).height then record s { b_lock = b } else s

  unfoldable pub update_blk : ℕ → ℕ → Option ℕ → Exec (HotStuffCore C) (Unit {0})
  unfolding commit
  update_blk blk2 blk1 none s = (ok tt, s)
  update_blk blk2 blk1 (some blk) s =
      if decided (at s blk).decision
      then (ok tt, s)
      else if_direct (first_of_list (at s blk2).parents) blk1
          (if_direct (first_of_list (at s blk1).parents) blk (commit blk)) s

  unfoldable pub update_blk1 : ℕ → Option ℕ → Exec (HotStuffCore C) (Unit {0})
  unfolding update_blk
  update_blk1 blk2 none s = (ok tt, s)
  update_blk1 blk2 (some blk1) s =
      if decided (at s blk1).decision
      then (ok tt, s)
      else update_blk blk2 blk1 (at s blk1).qc_ref (raise_lock blk1 s)

  unfoldable pub update_blk2 : ℕ → Option ℕ → Exec (HotStuffCore C) (Unit {0})
  unfolding update_hqc update_blk1
  update_blk2 nblk none s = (ok tt, s)
  update_blk2 nblk (some blk2) s =
      if decided (at s blk2).decision
      then (ok tt, s)
      else (update_hqc blk2 (at s nblk).qc >> (λ t. update_blk1 blk2 (at t blk2).qc_ref t)) s

  unfoldable pub update : ℕ → Exec (HotStuffCore C) (Unit {0})
  unfolding update_blk2
  update nblk s = update_blk2 nblk (at s nblk).qc_ref s
