-- ===== src/Crypto/Secp.antt =====
-- `PartCertSecp256k1` and `QuorumCertSecp256k1` of include/hotstuff/crypto.h and src/crypto.cpp: one
-- signature for each signer. The secp256k1 library and `salticidae::Bits` are parameters.
pub mod Signers
pub mod Calls
use kauri_public.Base.{
  ℕ, zero, suc, ◌+◌, Bool, true, false, Option, none, some, List, [], ◌∷◌, leb, ◌==◌, length,
  if◌then◌else◌,
}
use kauri_public.Base.Exec.{Result, ok, err}
use kauri_public.Base.Maps
use kauri_public.Crypto.Scheme.{Scheme}
use kauri_public.Crypto.AggBls.Interface.{Library}

-- `Library` has the bits, and the signatures of one scheme: here those of secp256k1. `no_sig` is what
-- `SigSecp256k1()` makes.
pub record PartCertSecp (L : Library) : Type 0 where
  pub obj_hash : ℕ
  pub sig : L.Sig

pub record QuorumCertSecp (L : Library) : Type 0 where
  pub obj_hash : ℕ
  pub rids : L.Bits
  pub sigs : List (ℕ × L.Sig)

-- QuorumCertSecp256k1(config, obj_hash)
unfoldable pub create : (L : Library) → ℕ → ℕ → QuorumCertSecp L
create L nreplicas hash = record { obj_hash = hash; rids = L.clear_bits nreplicas; sigs = [] }

module _ {L : Library} where
  -- sigs.insert(..); rids.set(rid)
  unfoldable pub take_sig : ℕ → L.Sig → QuorumCertSecp L → QuorumCertSecp L
  unfolding Maps.insert
  take_sig rid s c = record c { rids = L.set_bit rid c.rids; sigs = Maps.insert rid s c.sigs }

  unfoldable pub add_part : ℕ → PartCertSecp L → QuorumCertSecp L → Option (QuorumCertSecp L)
  unfolding take_sig
  add_part rid pc c = if pc.obj_hash == c.obj_hash then some (take_sig rid pc.sig c) else none

  unfoldable pub take_sigs : List (ℕ × L.Sig) → QuorumCertSecp L → QuorumCertSecp L
  unfolding take_sig
  take_sigs [] c = c
  take_sigs ((rid, s) ∷ rest) c = take_sigs rest (take_sig rid s c)

  unfoldable pub merge_quorum : QuorumCertSecp L → QuorumCertSecp L → Option (QuorumCertSecp L)
  unfolding take_sigs
  merge_quorum other c =
      if other.obj_hash == c.obj_hash then some (take_sigs other.sigs c) else none

  unfoldable pub has_n : ℕ → QuorumCertSecp L → Bool
  has_n n c = leb n (length c.sigs)

  unfoldable pub compute : QuorumCertSecp L → QuorumCertSecp L
  compute c = c

  unfoldable pub clone : QuorumCertSecp L → QuorumCertSecp L
  clone c = c

  module _ (no_sig : L.Sig) where
    -- sigs[i], which puts a signature there where there is none
    abbrev sig_or_new : Option L.Sig → ℕ → QuorumCertSecp L → L.Sig × QuorumCertSecp L
    sig_or_new (some s) i c = (s, c)
    sig_or_new none i c = (no_sig, record c { sigs = Maps.insert i no_sig c.sigs })

    abbrev check_with :
        Result L.Key
        → L.Sig × QuorumCertSecp L
        → (QuorumCertSecp L → Result Bool × QuorumCertSecp L)
        → Result Bool × QuorumCertSecp L
    check_with (err e) (s, c) rest = (err e, c)
    check_with (ok key) (s, c) rest =
        if L.verify_one key c.obj_hash s then rest c else (ok false, c)

    -- The bits `i`, .., `i + k - 1`.
    unfoldable pub check_sigs :
        (ℕ → Result L.Key) → ℕ → ℕ → QuorumCertSecp L → Result Bool × QuorumCertSecp L
    unfolding Maps.find Maps.insert
    check_sigs keys zero i c = (ok true, c)
    check_sigs keys (suc k) i c =
        let skip = check_sigs keys k (i + 1) c in
        if L.get_bit c.rids i
        then check_with (keys i) (sig_or_new (Maps.find i c.sigs) i c) (check_sigs keys k (i + 1))
        else skip

    -- The number of signatures is not looked at.
    unfoldable pub verify : (ℕ → Result L.Key) → QuorumCertSecp L → Result Bool × QuorumCertSecp L
    unfolding check_sigs
    verify keys c = check_sigs keys (L.size_bits c.rids) 0 c

-- `HotStuffSecp256k1`. What `verify` writes is left out: it writes nothing to a certificate whose bits
-- agree with its signatures.
abbrev pub secp_scheme :
    (L : Library)
    → L.Sig
    → QuorumCertSecp L
    → (List ℕ → List ℕ → QuorumCertSecp L → List ℕ → ℕ)
    → Scheme
secp_scheme L no_sig dummy block_hash = record {
  PrivKey = L.Secret;
  PubKey = L.Key;
  PartCert = PartCertSecp L;
  QuorumCert = QuorumCertSecp L;
  create_part_cert = λ k h. record { obj_hash = h; sig = L.sign k h };
  part_obj_hash = λ p. p.obj_hash;
  part_verify = λ k p. L.verify_one k p.obj_hash p.sig;
  create_quorum_cert = create L;
  add_part = add_part;
  merge_quorum = merge_quorum;
  has_n = has_n;
  compute = compute;
  clone = clone;
  obj_hash = λ q. q.obj_hash;
  verify = λ keys q. (verify no_sig keys q).0;
  dummy = dummy;
  block_hash = block_hash;
}
