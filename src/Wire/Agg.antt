-- ===== src/Wire/Agg.antt =====
-- Blocks, proposals and relays as `HotStuffAgg` sends them, with the certificates of
-- include/hotstuff/crypto.h. A copy of a certificate has a count of 0, and what is read has that of its
-- signers.
use kauri_public.Base.{ℕ, ◌^◌, ◌<◌, ◌≡◌, refl, sym, ◌∙◌, ap, inr, some, List, [], ◌++◌, length, All}
use kauri_public.Crypto.AggBls.Interface.{Library}
use kauri_public.Crypto.AggBls.{QuorumCertAgg, bls_scheme, clone}
use kauri_public.Crypto.AggBls.Count.{IsCounted}
use kauri_public.Crypto.Scheme.{Scheme}
use kauri_public.Entity.Block.{Block}
use kauri_public.Core.State.{HotStuffCore, Proposal, at}
use kauri_public.Wire.Stream.{Codec, RoundTrips, Wire, WireLaws, Below}
use kauri_public.Wire.Entities.{serialize, unserialize, read_block, unserialize-serialize}
use kauri_public.Wire.Proposals.{put_proposal, get_proposal, Kept, get_proposal-put_proposal}
use kauri_public.Wire.Messages.{VoteRelay, put_relay, get_relay, get_relay-put_relay}
use kauri_public.Wire.Certs.{cert_codec, received, CanBeSent, AllOf, cert_codec-Reads}

-- A block with fewer than 2^32 parents, commands and extra bytes, and hashes of 256 bits.
pub record IsInRange {C : Scheme} (b : Block C) : Type 0 where
  pub parents : All (Below 256) b.parent_hashes
  pub cmds : All (Below 256) b.cmds
  pub few_parents : length b.parent_hashes < 2 ^ 32
  pub few_cmds : length b.cmds < 2 ^ 32
  pub few_bytes : length b.extra < 2 ^ 32

module _ (W : Wire) (L : Library) (sigs : Codec L.Sig) (bits : Codec L.Bits)
    (dummy : QuorumCertAgg L) (block_hash : List ℕ → List ℕ → QuorumCertAgg L → List ℕ → ℕ) where
  abbrev pub Agg : Scheme
  Agg = bls_scheme L dummy block_hash

  module _ (laws : WireLaws W) (P : L.Sig → Type 0) (sigs-get : RoundTrips sigs P)
      (Q : L.Bits → Type 0) (bits-get : RoundTrips bits Q) where
    -- A block in range with a BLS certificate in range, which never holds an aggregate and parts at
    -- once, is written, whatever the counter of the certificate is. What is written, with anything
    -- after it, is read as a fresh block with the same parent hashes, commands and extra bytes, with a
    -- certificate of the same hash, signers and aggregate and the count of its signers, and with the
    -- hash computed from these, and the rest is left.
    pub unserialize-serialize_bls :
        (b : Block Agg) (qc : QuorumCertAgg L)
        → b.qc ≡ some qc
        → CanBeSent W L sigs bits laws P sigs-get Q bits-get qc
        → IsInRange b
        → (out : List ℕ) × (serialize {C = Agg} W (cert_codec W L sigs bits) b ≡ some out)
          × ((rest : List ℕ)
              → unserialize {C = Agg} W (cert_codec W L sigs bits) (out ++ rest)
                ≡ some (
                  read_block {C = Agg} W
                      (cert_codec W L sigs bits)
                      b.parent_hashes
                      b.cmds
                      (received W L sigs bits qc)
                      b.extra,
                  rest,
                ))
    unserialize-serialize_bls b qc carried good range =
        unserialize-serialize {C = Agg} W (cert_codec W L sigs bits) laws
          (CanBeSent W L sigs bits laws P sigs-get Q bits-get) (received W L sigs bits)
          (cert_codec-Reads W L sigs bits laws P sigs-get Q bits-get) b qc carried good
          range.parents range.cmds range.few_parents range.few_cmds range.few_bytes

    -- A proposal of such a block, with a proposer below 2^16, that one replica writes and another one
    -- reads: the proposer is the same, and the block is the stored one of the hash computed from what
    -- was read. It is the one that was stored before, if there was one, and else a fresh block with the
    -- parent hashes, commands and extra bytes that were sent, and with a certificate of the same hash,
    -- signers and aggregate and the count of its signers.
    pub get_proposal-put_proposal_bls :
        (s r : HotStuffCore Agg) (prop : Proposal) (qc : QuorumCertAgg L) (rest : List ℕ)
        → (at s prop.blk).qc ≡ some qc
        → CanBeSent W L sigs bits laws P sigs-get Q bits-get qc
        → prop.proposer < 2 ^ 16
        → IsInRange (at s prop.blk)
        → let b = at s prop.blk in
          let v =
            read_block {C = Agg} W
              (cert_codec W L sigs bits)
              b.parent_hashes
              b.cmds
              (received W L sigs bits qc)
              b.extra in
          (out : List ℕ) × (got : Proposal) × (t : HotStuffCore Agg) × (put_proposal W
              (cert_codec W L sigs bits)
              s
              prop
            ≡ some out)
          × (get_proposal W (cert_codec W L sigs bits) r (out ++ rest) ≡ some ((got, t), rest))
          × (got.proposer ≡ prop.proposer)
          × Kept v r t got.blk
    get_proposal-put_proposal_bls s r prop qc rest carried good rid range =
        get_proposal-put_proposal {C = Agg} W (cert_codec W L sigs bits) laws
          (CanBeSent W L sigs bits laws P sigs-get Q bits-get) (received W L sigs bits)
          (cert_codec-Reads W L sigs bits laws P sigs-get Q bits-get) s r prop qc rest carried good
          rid range.parents range.cmds range.few_parents range.few_cmds range.few_bytes

    clone-received :
        (q : QuorumCertAgg L)
        → IsCounted q
        → received W L sigs bits (clone q) ≡ record q { sigs = [] }
    unfolding clone
    clone-received q counted = ap (λ n. record q { sigs = []; n = n }) (sym counted)

    clone-CanBeSent :
        (q : QuorumCertAgg L)
        → q.obj_hash < 2 ^ 256
        → Q q.rids
        → AllOf W L sigs bits laws P sigs-get Q bits-get q.the_sig
        → CanBeSent W L sigs bits laws P sigs-get Q bits-get (clone q)
    unfolding clone
    clone-CanBeSent q h rids sig = (h, rids, sig, inr refl)

    -- The relay that a replica sends carries a copy of a certificate, which has lost its count and the
    -- parts that were not aggregated. If the certificate is in range and its counter agreed with its
    -- signers, then the relay is written, and what is written, with anything after it, is read as a
    -- relay for the same block with the hash, signers and aggregate of the original, and with the count
    -- that the copy has lost, and the rest is left.
    pub get_relay-put_relay_bls :
        (q : QuorumCertAgg L) (blk_hash : ℕ)
        → blk_hash < 2 ^ 256
        → q.obj_hash < 2 ^ 256
        → Q q.rids
        → AllOf W L sigs bits laws P sigs-get Q bits-get q.the_sig
        → IsCounted q
        → let v : VoteRelay Agg = record { blk_hash = blk_hash; cert = clone q } in
          (out : List ℕ) × (put_relay W (cert_codec W L sigs bits) v ≡ some out)
          × ((rest : List ℕ)
              → get_relay W (cert_codec W L sigs bits) (out ++ rest)
                ≡ some (record v { cert = record q { sigs = [] } }, rest))
    get_relay-put_relay_bls q blk_hash h hq rids sig counted =
        let v : VoteRelay Agg = record { blk_hash = blk_hash; cert = clone q } in
        let (out, put, got) =
          get_relay-put_relay W {C = Agg} (cert_codec W L sigs bits)
            (CanBeSent W L sigs bits laws P sigs-get Q bits-get) (received W L sigs bits) v laws
            (cert_codec-Reads W L sigs bits laws P sigs-get Q bits-get) h
            (clone-CanBeSent q hq rids sig) in
        (
          out,
          put,
          λ rest.
              got rest ∙ ap (λ c. some (record v { cert = c }, rest)) (clone-received q counted),
        )
