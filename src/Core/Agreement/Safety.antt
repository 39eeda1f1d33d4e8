-- ===== src/Core/Agreement/Safety.antt =====
-- Replicas that run the core of src/consensus.cpp do not commit conflicting blocks.
use kauri_public.Base.{
  ℕ, suc, ◌-◌, ◌*◌, ◌≤◌, ◌<◌, ◌≡◌, ◌⊎◌, inl, inr, Bool, true, false, List, [], arith, leb, leb→le,
  contains, All-contains, Bool-cases,
}
use kauri_public.Crypto.Scheme.{Scheme}
use kauri_public.Core.State.{HotStuffCore, at}
use kauri_public.Core.Update.Order.{committed}
use kauri_public.Core.Agreement.Tree.{
  Tree, IsTree, Certified, Extends, Extends-trans, Extends-linear,
}
use kauri_public.Core.Agreement.Quorum.{count, quorums_meet}
use kauri_public.Core.Agreement.Ballots.{Cast, Meet, Chain-Extends}
use kauri_public.Core.Agreement.Commits.{Tip}
use kauri_public.Core.Agreement.Calls.{Call, play_all, ballots, Follows, Obeys, Begins}
use kauri_public.Core.Agreement.Run.{play_all-Obeys}

-- The replicas `0`, ..., `nreplicas - 1`, with the calls that each handles; `signers b r` tells
-- whether replica `r` signed the certificate of the block `b`.
pub record Network (C : Scheme) : Type 0 where
  pub tree : Tree
  pub nreplicas : ℕ
  pub nfaulty : ℕ
  pub faulty : ℕ → Bool
  pub start : ℕ → HotStuffCore C
  pub calls : ℕ → List (Call C)
  pub signers : ℕ → ℕ → Bool

-- What the network relies on. Fewer than a third of the replicas are faulty, with those among them
-- that propose; the others handle the calls as the core does, in a memory that agrees with the tree
-- and with new blocks at free addresses; a certificate has `nmajority` signers; and a signature of
-- a replica that is not faulty is that of a vote, sent before the replica was locked on the block.
pub record Assumptions {C : Scheme} (N : Network C) : Type 0 where
  pub is_tree : IsTree N.tree
  pub few : 3 * N.nfaulty < N.nreplicas
  pub few_faulty : count N.nreplicas N.faulty ≤ N.nfaulty
  pub begins : (r : ℕ) → N.faulty r ≡ false → Begins N.tree (N.start r)
  pub follows : (r : ℕ) → N.faulty r ≡ false → Follows N.tree (N.calls r) (N.start r)
  pub quorums :
      (b : ℕ)
      → Certified N.tree b
      → 0 < N.tree.height b
      → N.nreplicas - N.nfaulty ≤ count N.nreplicas (N.signers b)
  pub unforged :
      (b r : ℕ)
      → N.signers b r ≡ true
      → N.faulty r ≡ false
      → Cast b (ballots (N.calls r) (N.start r) [])

module _ {C : Scheme} where
  abbrev pub final : Network C → ℕ → HotStuffCore C
  final N r = play_all (N.calls r) (N.start r)

  module _ (N : Network C) (h : Assumptions N) where
    final-Obeys :
        (r : ℕ) → N.faulty r ≡ false → Obeys N.tree (final N r) (ballots (N.calls r) (N.start r) [])
    final-Obeys r ok =
        let begin = h.begins r ok in
        play_all-Obeys N.tree h.is_tree (N.calls r) (N.start r) [] (h.follows r ok) (record {
          memory = begin.memory;
          votes = record { rules = tt; last = tt; locks = tt; sound = begin.sound };
          announced = rw begin.nothing tt;
        })

    meet : Meet N.tree h.is_tree
    meet a b ca cb pa pb =
        let (r, sa, sb, ok) =
          quorums_meet N.nreplicas N.nfaulty (N.signers a) (N.signers b) N.faulty h.few h.few_faulty
            (h.quorums a ca pa) (h.quorums b cb pb) in
        (
          ballots (N.calls r) (N.start r) [],
          (final-Obeys r ok).votes.rules,
          h.unforged a r sa ok,
          h.unforged b r sb ok,
        )

    Tips-Agree : (a b : ℕ) → Tip N.tree a → Tip N.tree b → Extends N.tree a b ⊎ Extends N.tree b a
    Tips-Agree a b (ta, ca, pa, ea) (tb, cb, pb, eb) =
        elim (Bool-cases (leb (N.tree.height ta) (N.tree.height tb))) [
          | inl low ↦
              on_one tb
                (Extends-trans N.tree ea (
                  Chain-Extends N.tree h.is_tree meet (suc (N.tree.height tb)) tb ta (omega arith)
                    (cb.blk1, cb.ref0) ca pa (leb→le _ _ low)))
                eb
          | inr high ↦ on_one ta ea (
              Extends-trans N.tree eb (
                Chain-Extends N.tree h.is_tree meet (suc (N.tree.height ta)) ta tb (omega arith)
                  (ca.blk1, ca.ref0) cb pb (ground arith)))
        ]
      where
        on_one :
            (t : ℕ)
            → Extends N.tree a t
            → Extends N.tree b t
            → Extends N.tree a b ⊎ Extends N.tree b a
        on_one t ha hb = elim (Bool-cases (leb (N.tree.height a) (N.tree.height b))) [
          | inl low ↦ inl (Extends-linear N.tree h.is_tree ha hb (leb→le _ _ low))
          | inr high ↦ inr (Extends-linear N.tree h.is_tree hb ha (ground arith))
        ]

    -- Agreement. Where each block above the first stands on the branch of the block that it carries a
    -- certificate of (which the code does not check), fewer than a third of the replicas are faulty,
    -- those that propose among them, the others start out with nothing announced and handle received
    -- proposals, votes, waits, switches, stored blocks and deliveries, in memories that agree with
    -- the tree and with blocks stored at free addresses, every certified block has as many signers as
    -- there are replicas that need not be faulty, and signatures of the others are of votes sent
    -- before they were locked on the block: of any two blocks that two replicas which are not faulty
    -- have announced as committed, one is on the branch of the other.
    pub commits-Agree :
        (p q a b : ℕ)
        → N.faulty p ≡ false
        → N.faulty q ≡ false
        → contains a (committed (final N p).outbox) ≡ true
        → contains b (committed (final N q).outbox) ≡ true
        → Extends N.tree (at (final N p) a).hash (at (final N q) b).hash
          ⊎ Extends N.tree (at (final N q) b).hash (at (final N p) a).hash
    commits-Agree p q a b okp okq ina inb =
        Tips-Agree (at (final N p) a).hash (at (final N q) b).hash
          (All-contains (λ x. Tip N.tree (at (final N p) x).hash) a _ (final-Obeys p okp).announced
            ina)
          (All-contains (λ x. Tip N.tree (at (final N q) x).hash) b _ (final-Obeys q okq).announced
            inb)
