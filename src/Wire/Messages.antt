-- ===== src/Wire/Messages.antt =====
-- The messages: `Vote`, `VoteRelay` and `Finality` of include/hotstuff/consensus.h, `MsgReqBlock` of
-- src/hotstuff.cpp, and `CommandDummy` of include/hotstuff/client.h.
use kauri_public.Base.{
  ℕ, ◌^◌, ◌<◌, ◌≡◌, refl, ap, Bool, true, false, Option, none, some, List, [], ◌++◌, length, ◌==◌,
  All, if◌then◌else◌,
}
use mathlib.Core.List.{append_assoc}
use kauri_public.Crypto.Scheme.{Scheme}
use kauri_public.Core.State.{Vote, Finality}
use kauri_public.Wire.Stream.{
  Get, Codec, PartialCodec, Reads, RoundTrips, done, ◌>>=◌, Wire, WireLaws, Below, put_all, get_all,
  get_all-put_all,
}
use kauri_public.Wire.Entities.{put_size, get_size, get_size-put_size}

pub record VoteRelay (C : Scheme) : Type 0 where
  pub blk_hash : ℕ
  pub cert : C.QuorumCert

pub record CommandDummy : Type 0 where
  pub cid : ℕ
  pub n : ℕ

module _ (W : Wire) where
  abbrev put_if_decided : Finality → Bool → List ℕ
  put_if_decided f true = W.hash.put f.blk_hash
  put_if_decided f false = []

  -- `decision` is an `int8_t`, here its bit pattern.
  unfoldable pub put_finality : Finality → List ℕ
  put_finality f =
      W.u16.put f.rid
      ++ (W.u8.put f.decision
          ++ (W.u32.put f.cmd_idx
              ++ (W.u32.put f.cmd_height
                  ++ (W.hash.put f.cmd_hash ++ put_if_decided f (f.decision == 1)))))

  -- The hash of the block stays what it was, `old`, where the decision is not 1.
  abbrev get_if_decided : ℕ → Bool → Get ℕ
  get_if_decided old true = W.hash.get
  get_if_decided old false = done old

  unfoldable pub get_finality : ℕ → Get Finality
  get_finality old = do
    rid ← W.u16.get
    decision ← W.u8.get
    cmd_idx ← W.u32.get
    cmd_height ← W.u32.get
    cmd_hash ← W.hash.get
    blk_hash ← get_if_decided old (decision == 1)
    done (record {
      rid = rid;
      decision = decision;
      cmd_idx = cmd_idx;
      cmd_height = cmd_height;
      cmd_hash = cmd_hash;
      blk_hash = blk_hash;
    })

  pub record IsFinality (f : Finality) : Type 0 where
    pub rid : f.rid < 2 ^ 16
    pub decision : f.decision < 2 ^ 8
    pub cmd_idx : f.cmd_idx < 2 ^ 32
    pub cmd_height : f.cmd_height < 2 ^ 32
    pub cmd_hash : f.cmd_hash < 2 ^ 256
    pub blk_hash : f.blk_hash < 2 ^ 256

  last_field :
      (f : Finality) (d : Bool) (old : ℕ) (rest : List ℕ)
      → WireLaws W
      → f.blk_hash < 2 ^ 256
      → get_if_decided old d (put_if_decided f d ++ rest)
        ≡ some (if d then f.blk_hash else old, rest)
  last_field f true old rest laws h = laws.hash-get f.blk_hash rest h
  last_field f false old rest laws h = refl

  -- A finality within the ranges of its fields is read as it was written, but that the hash of the
  -- block is not sent where the decision is not 1.
  pub get_finality-put_finality :
      (f : Finality) (old : ℕ) (rest : List ℕ)
      → WireLaws W
      → IsFinality f
      → get_finality old (put_finality f ++ rest)
        ≡ some (record f { blk_hash = if f.decision == 1 then f.blk_hash else old }, rest)
  unfolding get_finality put_finality
  get_finality-put_finality f old rest laws h = simp append_assoc (
      rw
        (
          laws.u16-get f.rid _ h.rid,
          laws.u8-get f.decision _ h.decision,
          laws.u32-get f.cmd_idx _ h.cmd_idx,
          laws.u32-get f.cmd_height _ h.cmd_height,
          laws.hash-get f.cmd_hash _ h.cmd_hash,
          last_field f (f.decision == 1) old rest laws h.blk_hash,
        )
        refl)

  unfoldable pub put_command : CommandDummy → List ℕ
  put_command c = W.u32.put c.cid ++ W.u32.put c.n

  unfoldable pub get_command : Get CommandDummy
  get_command = do cid ← W.u32.get; n ← W.u32.get; done (record { cid = cid; n = n })

  -- MsgReqBlock(blk_hashes), and the constructor that reads it
  unfoldable pub put_req_block : List ℕ → List ℕ
  unfolding put_size put_all
  put_req_block hashes = put_size W (length hashes) ++ put_all W.hash hashes

  unfoldable pub get_req_block : Get (List ℕ)
  unfolding get_size get_all
  get_req_block = do n ← get_size W; get_all W.hash n

  -- A request for fewer than 2^32 blocks, by hashes of 256 bits, is read as it was written.
  pub get_req_block-put_req_block :
      (hashes rest : List ℕ)
      → WireLaws W
      → length hashes < 2 ^ 32
      → All (Below 256) hashes
      → get_req_block (put_req_block hashes ++ rest) ≡ some (hashes, rest)
  unfolding get_req_block put_req_block
  get_req_block-put_req_block hashes rest laws n h = simp append_assoc (
      rw
        (
          get_size-put_size W (length hashes) _ laws n,
          get_all-put_all W.hash (Below 256) laws.hash-get hashes rest h,
        )
        refl)

  module _ {C : Scheme} (parts : Codec C.PartCert) where
    unfoldable pub put_vote : Vote C → List ℕ
    put_vote v = W.u16.put v.voter ++ (W.hash.put v.blk_hash ++ parts.put v.cert)

    unfoldable pub get_vote : Get (Vote C)
    get_vote = do
      voter ← W.u16.get
      blk_hash ← W.hash.get
      cert ← parts.get
      done (record { voter = voter; blk_hash = blk_hash; cert = cert })

    get_vote-put_vote :
        (P : C.PartCert → Type 0) (v : Vote C) (rest : List ℕ)
        → WireLaws W
        → RoundTrips parts P
        → v.voter < 2 ^ 16
        → v.blk_hash < 2 ^ 256
        → P v.cert
        → get_vote (put_vote v ++ rest) ≡ some (v, rest)
    unfolding get_vote put_vote
    get_vote-put_vote P v rest laws parts-get voter hash good = simp append_assoc (
        rw
          (
            laws.u16-get v.voter _ voter,
            laws.hash-get v.blk_hash _ hash,
            parts-get v.cert rest good,
          )
          refl)

  abbrev after_hash : ℕ → Option (List ℕ) → Option (List ℕ)
  after_hash h none = none
  after_hash h (some bytes) = some (W.hash.put h ++ bytes)

  module _ {C : Scheme} (certs : PartialCodec C.QuorumCert) where
    -- `none` where writing the certificate throws.
    unfoldable pub put_relay : VoteRelay C → Option (List ℕ)
    put_relay v = after_hash v.blk_hash (certs.put v.cert)

    unfoldable pub get_relay : Get (VoteRelay C)
    get_relay = do
      blk_hash ← W.hash.get
      cert ← certs.get
      done (record { blk_hash = blk_hash; cert = cert })

    -- The round trip of a relay, from what its certificate is read as.
    pub get_relay-put_relay :
        (P : C.QuorumCert → Type 0) (norm : C.QuorumCert → C.QuorumCert) (v : VoteRelay C)
        → WireLaws W
        → Reads certs P norm
        → v.blk_hash < 2 ^ 256
        → P v.cert
        → (out : List ℕ) × (put_relay v ≡ some out)
          × ((rest : List ℕ)
              → get_relay (out ++ rest) ≡ some (record v { cert = norm v.cert }, rest))
    unfolding get_relay put_relay
    get_relay-put_relay P norm v laws certs-get hash good =
        let (bytes, put, got) = certs-get v.cert good in
        (
          W.hash.put v.blk_hash ++ bytes,
          ap (after_hash v.blk_hash) put,
          λ rest. simp append_assoc (rw (laws.hash-get v.blk_hash _ hash, got rest) refl),
        )
