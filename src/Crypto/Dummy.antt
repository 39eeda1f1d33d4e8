-- ===== src/Crypto/Dummy.antt =====
-- `PartCertDummy` and `QuorumCertDummy` of include/hotstuff/crypto.h: certificates that are counted
-- and not signed.
use kauri_public.Base.{ℕ, ◌+◌, ◌%◌, ◌^◌, refl, Bool, true, Option, some, List, leb}
use kauri_public.Base.Exec.{ok}
use kauri_public.Crypto.Scheme.{Scheme, Lawful}

pub record PartCertDummy : Type 0 where
  pub obj_hash : ℕ

-- `qty` is a `size_t`.
pub record QuorumCertDummy : Type 0 where
  pub obj_hash : ℕ
  pub qty : ℕ

abbrev pub size_mod : ℕ
size_mod = 2 ^ 64

-- The default constructor leaves `obj_hash` the default `uint256_t`, here `null_hash`.
abbrev pub default_cert : ℕ → QuorumCertDummy
default_cert null_hash = record { obj_hash = null_hash; qty = 1 }

abbrev pub create : ℕ → QuorumCertDummy
create hash = record { obj_hash = hash; qty = 1 }

abbrev pub add_part : ℕ → PartCertDummy → QuorumCertDummy → Option QuorumCertDummy
add_part rid pc qc = some (record qc { qty = (qc.qty + 1) % size_mod })

abbrev pub merge_quorum : QuorumCertDummy → QuorumCertDummy → Option QuorumCertDummy
merge_quorum other qc = some (record qc { qty = (qc.qty + other.qty) % size_mod })

abbrev pub has_n : ℕ → QuorumCertDummy → Bool
has_n n qc = leb n qc.qty

-- `HotStuffNoSig`; the hash of a block is code of a submodule.
abbrev pub dummy_scheme : ℕ → (List ℕ → List ℕ → QuorumCertDummy → List ℕ → ℕ) → Scheme
dummy_scheme null_hash block_hash = record {
  PrivKey = Unit {0};
  PubKey = Unit {0};
  PartCert = PartCertDummy;
  QuorumCert = QuorumCertDummy;
  create_part_cert = λ k h. record { obj_hash = h };
  part_obj_hash = λ p. p.obj_hash;
  part_verify = λ k p. true;
  create_quorum_cert = λ n h. create h;
  add_part = add_part;
  merge_quorum = merge_quorum;
  has_n = has_n;
  compute = λ q. q;
  clone = λ q. q;
  obj_hash = λ q. q.obj_hash;
  verify = λ keys q. ok true;
  dummy = default_cert null_hash;
  block_hash = block_hash;
}

pub dummy_scheme-Lawful :
    (null_hash : ℕ) (block_hash : List ℕ → List ℕ → QuorumCertDummy → List ℕ → ℕ)
    → Lawful (dummy_scheme null_hash block_hash)
dummy_scheme-Lawful null_hash block_hash = record {
  hash-create = λ n h. refl;
  hash-part = λ k h. refl;
  hash-clone = λ q. refl;
  hash-compute = λ q. refl;
  accepts = λ rid p q e. (record q { qty = (q.qty + 1) % size_mod }, refl, refl);
}
