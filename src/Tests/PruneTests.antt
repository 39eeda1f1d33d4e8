-- ===== src/Tests/PruneTests.antt =====
-- Pruning the sample chain.
use kauri_public.Base.{ℕ, zero, suc, ◌≡◌, refl, Option, none, some, List, [], ◌∷◌, arith}
use kauri_public.Base.Exec.{ok}
use kauri_public.Base.Maps
use kauri_public.Core.State.{HotStuffCore, at}
use kauri_public.Core.Prune.{prune}
use kauri_public.Core.Prune.Cuts.{PointsBelow, edges}
use kauri_public.Core.Prune.Edges.{sum}
use kauri_public.Core.Prune.Pruned.{HasPruned, prune-HasPruned}
use kauri_public.Tests.Samples.{plain, follower}

-- Block 3 has been executed.
abbrev executed : HotStuffCore plain
executed = record follower { b_exec = 3 }

-- Two pointers to each block.
abbrev two : HotStuffCore plain → List (Option ℕ) → ℕ → ℕ
two s stack b = 2

abbrev pruned : HotStuffCore plain
pruned = (prune two 9 1 executed).1

-- From block 2 down the blocks have no parents and are released; block 3 keeps its parent.
prune-chain :
    ((at pruned 3).parents ≡ some 2 ∷ [])
    × ((at pruned 2).parents ≡ [])
    × ((at pruned 1).parents ≡ [])
    × ((at pruned 2).qc_ref ≡ none)
    × ((at pruned 0).qc_ref ≡ some 0)
    × (pruned.storage.blk_cache ≡ (103, 3) ∷ (104, 4) ∷ [])
unfolding prune Maps.erase
prune-chain = (refl, refl, refl, refl, refl, refl)

executed-PointsBelow : PointsBelow executed
executed-PointsBelow zero lt = tt
executed-PointsBelow (suc n) lt = (omega arith, tt)

executed-edges : edges executed ≡ 4
unfolding edges sum
executed-edges = refl

prune-HasPruned_example :
    (t : HotStuffCore plain) × (prune two 9 1 executed ≡ (ok tt, t)) × HasPruned 1 executed t
prune-HasPruned_example =
    prune-HasPruned two 9 1 executed executed-PointsBelow (omega arith)
      (omega (arith, executed-edges))
