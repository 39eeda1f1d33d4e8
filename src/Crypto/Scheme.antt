-- ===== src/Crypto/Scheme.antt =====
-- The classes `PartCert` and `QuorumCert` of include/hotstuff/crypto.h, as what the core calls of
-- them. A scheme is one choice of the four template arguments of `HotStuff` in
-- include/hotstuff/hotstuff.h. `block_hash` is `salticidae::get_hash` of a block's serialisation,
-- which is code of a submodule.
use kauri_public.Base.{ℕ, ◌≡◌, Bool, Option, some, List}
use kauri_public.Base.Exec.{Result}

pub record Scheme : Type 1 where
  pub PrivKey : Type 0
  pub PubKey : Type 0
  pub PartCert : Type 0
  pub QuorumCert : Type 0
  pub create_part_cert : PrivKey → ℕ → PartCert
  pub part_obj_hash : PartCert → ℕ
  pub part_verify : PubKey → PartCert → Bool
  -- the size of the configuration, and the hash
  pub create_quorum_cert : ℕ → ℕ → QuorumCert
  -- `none` where the method throws `std::invalid_argument`
  pub add_part : ℕ → PartCert → QuorumCert → Option QuorumCert
  pub merge_quorum : QuorumCert → QuorumCert → Option QuorumCert
  pub has_n : ℕ → QuorumCert → Bool
  pub compute : QuorumCert → QuorumCert
  pub clone : QuorumCert → QuorumCert
  pub obj_hash : QuorumCert → ℕ
  pub verify : (ℕ → Result PubKey) → QuorumCert → Result Bool
  -- `new QuorumCertDummy()`, the certificate that a genesis block is made with
  pub dummy : QuorumCert
  pub block_hash : List ℕ → List ℕ → QuorumCert → List ℕ → ℕ

-- What the core relies on: a certificate keeps its hash, and takes a part made for that hash.
pub record Lawful (C : Scheme) : Type 0 where
  pub hash-create : (n h : ℕ) → C.obj_hash (C.create_quorum_cert n h) ≡ h
  pub hash-part : (k : C.PrivKey) (h : ℕ) → C.part_obj_hash (C.create_part_cert k h) ≡ h
  pub hash-clone : (q : C.QuorumCert) → C.obj_hash (C.clone q) ≡ C.obj_hash q
  pub hash-compute : (q : C.QuorumCert) → C.obj_hash (C.compute q) ≡ C.obj_hash q
  pub accepts :
      (rid : ℕ) (p : C.PartCert) (q : C.QuorumCert)
      → C.part_obj_hash p ≡ C.obj_hash q
      → (q' : C.QuorumCert) × (C.add_part rid p q ≡ some q') × (C.obj_hash q' ≡ C.obj_hash q)
