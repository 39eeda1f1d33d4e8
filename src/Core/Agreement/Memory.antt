-- ===== src/Core/Agreement/Memory.antt =====
-- The memory of one replica as a part of the tree of blocks that the replicas share.
use kauri_public.Base.{
  ℕ, ◌≤◌, ◌≡◌, refl, inl, inr, true, Option, none, some, List, arith, contains, All, All-contains,
  Bool-cases,
}
use kauri_public.Base.Exec.{Result, ok}
use kauri_public.Crypto.Scheme.{Scheme}
use kauri_public.Entity.Block.{Block}
use kauri_public.Core.State.{HotStuffCore, at}
use kauri_public.Core.Update.{decided}
use kauri_public.Core.Update.Chain.{IsParent, Branch, stop, down}
use kauri_public.Core.Update.Commit.{mark}
use kauri_public.Core.Agreement.Tree.{Tree, IsTree, Extends, same, up}
use kauri_public.Core.Agreement.Ballots.{LockIsCertified}

module _ {C : Scheme} where
  abbrev pub hash_of : (ℕ → Block C) → Option ℕ → Option ℕ
  hash_of cell none = none
  hash_of cell (some b) = some (cell b).hash

  abbrev pub lock_hash : HotStuffCore C → ℕ
  lock_hash s = (at s s.b_lock).hash

  -- The delivered blocks are linked in memory as their hashes are in the tree.
  pub record Agrees (T : Tree) (cell : ℕ → Block C) : Type 0 where
    pub height : (b : ℕ) → (cell b).delivered ≡ true → T.height (cell b).hash ≡ (cell b).height
    pub parent :
        (b p : ℕ)
        → (cell b).delivered ≡ true
        → IsParent cell p b
        → ((cell p).delivered ≡ true) × (T.parent (cell b).hash ≡ some (cell p).hash)
    pub ref :
        (b : ℕ) → (cell b).delivered ≡ true → T.ref (cell b).hash ≡ hash_of cell (cell b).qc_ref
    pub ref_in :
        (b r : ℕ) → (cell b).delivered ≡ true → (cell b).qc_ref ≡ some r → (cell r).delivered ≡ true

  -- The lock is a delivered and certified block, and no decided block is higher.
  pub record Sound (T : Tree) (cell : ℕ → Block C) (lock : ℕ) : Type 0 where
    pub lock_in : (cell lock).delivered ≡ true
    pub cert : LockIsCertified T (cell lock).hash
    pub old :
        (b : ℕ)
        → decided (cell b).decision ≡ true
        → ((cell b).delivered ≡ true) × (T.height (cell b).hash ≤ T.height (cell lock).hash)

  -- The lock is as high as what is two certificates below the block.
  abbrev pub Bound : Tree → ℕ → HotStuffCore C → Type 0
  Bound T h t =
      (c d : ℕ) → T.ref h ≡ some c → T.ref c ≡ some d → T.height d ≤ T.height (lock_hash t)

  -- What holds after an action on a block of the hash `h`, whether it returned or threw.
  abbrev pub Locked : Tree → ℕ → Result (Unit {0}) × HotStuffCore C → Type 0
  Locked T h r = Sound T r.1.heap.cell r.1.b_lock × (r.0 ≡ ok tt → Bound T h r.1)

  module _ (T : Tree) (tree : IsTree T) where
    -- A branch in memory is one of the tree.
    pub Branch-Extends :
        (cell : ℕ → Block C) {floor b last : ℕ} {queue : List ℕ}
        → Agrees T cell
        → (cell b).delivered ≡ true
        → Branch cell floor b queue last
        → Extends T (cell last).hash (cell b).hash
    Branch-Extends cell ag d (stop low) = same
    Branch-Extends cell ag d (down {b} {p} high e br) =
        let (dp, up_to) = ag.parent b p d e in up up_to (Branch-Extends cell ag dp br)

    abbrev pub Low : (ℕ → Block C) → ℕ → ℕ → Type 0
    Low cell top a = ((cell a).delivered ≡ true) × (T.height (cell a).hash ≤ top)

    pub Branch-Low :
        (cell : ℕ → Block C) (top : ℕ) {floor b last : ℕ} {queue : List ℕ}
        → Agrees T cell
        → (cell b).delivered ≡ true
        → T.height (cell b).hash ≤ top
        → Branch cell floor b queue last
        → All (Low cell top) queue
    Branch-Low cell top ag d k (stop low) = tt
    Branch-Low cell top ag d k (down {b} {p} high e br) =
        let (dp, up_to) = ag.parent b p d e in
        (
          (d, k),
          Branch-Low cell top ag dp (omega (arith, tree.rises (cell b).hash (cell p).hash up_to))
              br,
        )

    pub mark-hash :
        (bs : List ℕ) (cell : ℕ → Block C) (a : ℕ)
        → ((mark bs cell a).hash ≡ (cell a).hash)
          × ((mark bs cell a).delivered ≡ (cell a).delivered)
    mark-hash bs cell a = elim (Bool-cases (contains a bs)) [
      | inl hit ↦ rw hit (refl, refl)
      | inr miss ↦ rw miss (refl, refl)
    ]

    pub mark-Low :
        (bs : List ℕ) (cell : ℕ → Block C) (top a : ℕ)
        → All (Low cell top) bs
        → (decided (cell a).decision ≡ true → Low cell top a)
        → decided (mark bs cell a).decision ≡ true
        → Low cell top a
    mark-Low bs cell top a low old e = elim (Bool-cases (contains a bs)) [
      | inl hit ↦ All-contains (Low cell top) a bs low hit
      | inr miss ↦ old (rw miss at e)
    ]
