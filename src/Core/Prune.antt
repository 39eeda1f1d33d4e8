-- ===== src/Core/Prune.antt =====
-- `HotStuffCore::prune` of src/consensus.cpp. `get_cnt` stands for the number of counted pointers to a
-- block, given the state and the stack.
pub mod Edges
pub mod Cuts
pub mod Pruned
use kauri_public.Base.{ℕ, zero, suc, Option, none, some, List, [], ◌∷◌}
use kauri_public.Base.Exec.{Result, ok, err, Exec, undefined, diverged}
use kauri_public.Crypto.Scheme.{Scheme}
use kauri_public.Entity.Block.{Block}
use kauri_public.Entity.Storage
use kauri_public.Core.State.{HotStuffCore, at, set_blk}

-- back() and pop_back() of a vector `p ∷ ps`
unfoldable pub back : Option ℕ → List (Option ℕ) → Option ℕ
back p [] = p
back p (q ∷ qs) = back q qs

unfoldable pub pop_back : Option ℕ → List (Option ℕ) → List (Option ℕ)
pop_back p [] = []
pop_back p (q ∷ qs) = p ∷ pop_back q qs

abbrev pub skip_to : List (Option ℕ) → (ℕ → Result (Option ℕ)) → Result (Option ℕ)
skip_to [] k = ok none
skip_to (none ∷ ps) k = err undefined
skip_to (some p ∷ ps) k = k p

module _ {C : Scheme} where
  -- for (start = b_exec; staleness; staleness--, start = start->parents[0])
  --     if (!start->parents.size()) return;
  unfoldable pub skip_blocks : (ℕ → Block C) → ℕ → ℕ → Result (Option ℕ)
  skip_blocks cell zero b = ok (some b)
  skip_blocks cell (suc staleness) b = skip_to (cell b).parents (skip_blocks cell staleness)

  -- blk->qc_ref = nullptr; blk->parents.pop_back();
  unfoldable pub cut : ℕ → List (Option ℕ) → HotStuffCore C → HotStuffCore C
  unfolding set_blk
  cut b ps s = set_blk b (record (at s b) { qc_ref = none; parents = ps }) s

  module _ (get_cnt : HotStuffCore C → List (Option ℕ) → ℕ → ℕ) where
    unfoldable pub release : ℕ → List (Option ℕ) → HotStuffCore C → HotStuffCore C
    unfolding Storage.try_release_blk
    release b stack s = record s {
      storage = (Storage.try_release_blk s.heap s.storage (get_cnt s stack b) b).1;
    }

    -- The block `b` is on top of the stack, over `stack`; `k` is the rest of the loop.
    abbrev pub prune_blk :
        ℕ
        → List (Option ℕ)
        → List (Option ℕ)
        → (List (Option ℕ) → Exec (HotStuffCore C) (Unit {0}))
        → Exec (HotStuffCore C) (Unit {0})
    prune_blk b [] stack k s = k stack (release b (some b ∷ stack) s)
    prune_blk b (p ∷ ps) stack k s = k (back p ps ∷ some b ∷ stack) (cut b (pop_back p ps) s)

    unfoldable pub prune_loop : ℕ → List (Option ℕ) → Exec (HotStuffCore C) (Unit {0})
    unfolding back pop_back cut release
    prune_loop fuel [] s = (ok tt, s)
    prune_loop zero (top ∷ stack) s = (err diverged, s)
    prune_loop (suc fuel) (none ∷ stack) s = (err undefined, s)
    prune_loop (suc fuel) (some b ∷ stack) s =
        prune_blk b (at s b).parents stack (prune_loop fuel) s

    abbrev pub prune_from : ℕ → Result (Option ℕ) → Exec (HotStuffCore C) (Unit {0})
    prune_from fuel (err e) s = (err e, s)
    prune_from fuel (ok none) s = (ok tt, s)
    prune_from fuel (ok (some start)) s =
        prune_loop fuel (some start ∷ []) (cut start (at s start).parents s)

    unfoldable pub prune : ℕ → ℕ → Exec (HotStuffCore C) (Unit {0})
    unfolding skip_blocks prune_loop
    prune fuel staleness s = prune_from fuel (skip_blocks s.heap.cell staleness s.b_exec) s
