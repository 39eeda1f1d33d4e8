-- ===== src/Core/Agreement/Commits.antt =====
-- The blocks that `update` of src/consensus.cpp announces lie below a block that could be committed.
use kauri_public.Base.{
  ℕ, ◌<◌, ◌≡◌, sym, ◌∙◌, ap, subst, true, some, List, [], ◌∷◌, arith, reverse, All, All-append,
  All-reverse,
}
use kauri_public.Crypto.Scheme.{Scheme}
use kauri_public.Entity.Block.{Block}
use kauri_public.Core.State.{HotStuffCore, at}
use kauri_public.Core.Update.{update}
use kauri_public.Core.Update.Chain.{Branch, stop, down}
use kauri_public.Core.Update.Rule.{ThreeChain}
use kauri_public.Core.Update.Order.{committed}
use kauri_public.Core.Update.Decision.{Outcome, kept, extended, update-Outcome}
use kauri_public.Core.Update.Monotone.{update-Advances}
use kauri_public.Core.Agreement.Tree.{
  Tree, IsTree, Chain, Extends, same, up, Extends-trans, Extends-le,
}
use kauri_public.Core.Agreement.Memory.{Agrees, hash_of}

-- The block is on the branch of one that three certificates in a row allow to commit.
abbrev pub Tip : Tree → ℕ → Type 0
Tip T h = (tip : ℕ) × Chain T tip × (0 < T.height tip) × Extends T h tip

module _ {C : Scheme} where
  abbrev pub Announced : Tree → HotStuffCore C → Type 0
  Announced T s = All (λ a. Tip T (at s a).hash) (committed s.outbox)

  Tips-hash :
      (T : Tree) (c d : ℕ → Block C) (xs : List ℕ)
      → ((a : ℕ) → (d a).hash ≡ (c a).hash)
      → All (λ a. Tip T (c a).hash) xs
      → All (λ a. Tip T (d a).hash) xs
  Tips-hash T c d [] e h = tt
  Tips-hash T c d (x ∷ xs) e h = (subst (Tip T) (sym (e x)) h.0, Tips-hash T c d xs e h.1)

  -- Where nothing is announced and no hash changes.
  pub same-Announced :
      (T : Tree) (s t : HotStuffCore C)
      → committed t.outbox ≡ committed s.outbox
      → ((a : ℕ) → (at t a).hash ≡ (at s a).hash)
      → Announced T s
      → Announced T t
  same-Announced T s t e h k =
      subst (All (λ a. Tip T (at t a).hash)) (sym e)
        (Tips-hash T s.heap.cell t.heap.cell (committed s.outbox) h k)

  module _ (T : Tree) (tree : IsTree T) where
    ThreeChain-Chain :
        (cell : ℕ → Block C) (nblk blk2 blk1 blk : ℕ)
        → Agrees T cell
        → (cell nblk).delivered ≡ true
        → (cell nblk).qc_ref ≡ some blk2
        → ThreeChain cell blk2 blk1 blk
        → Chain T (cell blk).hash × ((cell blk).delivered ≡ true)
    ThreeChain-Chain cell nblk blk2 blk1 blk ag d r c =
        let d2 = ag.ref_in nblk blk2 d r in
        let d1 = ag.ref_in blk2 blk1 d2 c.ref2 in
        (
          record {
            blk1 = (cell blk1).hash;
            blk2 = (cell blk2).hash;
            nblk = (cell nblk).hash;
            ref0 = ag.ref blk1 d1 ∙ ap (hash_of cell) c.ref1;
            ref1 = ag.ref blk2 d2 ∙ ap (hash_of cell) c.ref2;
            ref2 = ag.ref nblk d ∙ ap (hash_of cell) r;
            direct1 = (ag.parent blk1 blk d1 c.direct1).1;
            direct2 = (ag.parent blk2 blk1 d2 c.direct2).1;
          },
          ag.ref_in blk1 blk d1 c.ref1,
        )

    Branch-Tips :
        (cell : ℕ → Block C) (tip floor b last : ℕ) {queue : List ℕ}
        → Agrees T cell
        → Chain T tip
        → (cell b).delivered ≡ true
        → Extends T (cell b).hash tip
        → Branch cell floor b queue last
        → All (λ a. Tip T (cell a).hash) queue
    Branch-Tips cell tip floor b last ag chain d ext (stop low) = tt
    Branch-Tips cell tip floor b last ag chain d ext (down {p = p} high e br) =
        let (dp, link) = ag.parent b p d e in
        (
          (tip, chain, omega (arith, ag.height b d, Extends-le T tree ext), ext),
          Branch-Tips cell tip floor p last ag chain dp (Extends-trans T (up link same) ext) br,
        )

    pub update-Announced :
        (s : HotStuffCore C) (b : ℕ)
        → Agrees T s.heap.cell
        → (at s b).delivered ≡ true
        → Announced T s
        → Announced T (update b s).1
    update-Announced s b ag d k = go (update-Outcome b s)
      where
        t : HotStuffCore C
        t = (update b s).1

        go : Outcome s t b → Announced T t
        go (kept _ out) = same-Announced T s t out (λ a. ((update-Advances b s).place a).hash) k
        go (extended blk2 blk1 blk queue r c br e out) =
            let (chain, db) = ThreeChain-Chain s.heap.cell b blk2 blk1 blk ag d r c in
            subst (All (λ a. Tip T (at t a).hash)) (sym out) (
              Tips-hash T s.heap.cell t.heap.cell _ (λ a. ((update-Advances b s).place a).hash)
                (All-append _ (committed s.outbox) (reverse queue) k (
                  All-reverse _ queue (
                    Branch-Tips s.heap.cell (at s blk).hash (at s s.b_exec).height blk s.b_exec ag
                      chain db same br))))
