-- ===== src/Crypto/AggBls.antt =====
-- `PartCertBLSAgg` and `QuorumCertAggBLS` of include/hotstuff/crypto.h and src/crypto.cpp. The bit
-- set is `salticidae::Bits` and the signatures are those of the BLS library: both are parameters.
pub mod Interface
pub mod Count
pub mod Aggregate
use kauri_public.Base.{
  ℕ, zero, suc, ◌+◌, Bool, true, false, Option, none, some, List, [], ◌∷◌, ◌++◌, leb, ◌==◌,
  if◌then◌else◌,
}
use kauri_public.Base.Exec.{Result, ok, err}
use kauri_public.Crypto.Scheme.{Scheme}
use Interface.{Library}

pub record PartCertAgg (L : Library) : Type 0 where
  pub obj_hash : ℕ
  pub sig : L.Sig

pub record QuorumCertAgg (L : Library) : Type 0 where
  pub obj_hash : ℕ
  pub rids : L.Bits
  pub the_sig : Option L.Sig
  pub sigs : List L.Sig
  pub n : ℕ

-- An aggregate goes back among the parts before a part is added.
abbrev pub unpack {ℓ} : {A : Type ℓ} → Option A → List A → List A
unpack (some s) [] = s ∷ []
unpack _ sigs = sigs

abbrev pub repack {ℓ} : {A : Type ℓ} → Option A → List A → Option A
repack (some s) [] = none
repack t sigs = t

abbrev pub as_list {ℓ} : {A : Type ℓ} → Option A → List A
as_list none = []
as_list (some s) = s ∷ []

module _ (L : Library) where
  -- The bits `i`, .., `i + k - 1` that are set, as `calculateN` counts them.
  unfoldable pub count_bits : L.Bits → ℕ → ℕ → ℕ
  count_bits b zero i = 0
  count_bits b (suc k) i =
      let rest = count_bits b k (i + 1) in if L.get_bit b i then rest + 1 else rest

  -- The bits `i`, .., `i + k - 1` of `new` are set in `b`.
  unfoldable pub merge_bits : L.Bits → ℕ → ℕ → L.Bits → L.Bits
  merge_bits new zero i b = b
  merge_bits new (suc k) i b =
      merge_bits new k (i + 1) (if L.get_bit new i then L.set_bit i b else b)

  -- The keys of the bits `i`, .., `i + k - 1`; `get_pubkey` throws for an unknown replica.
  unfoldable pub signers : (ℕ → Result L.Key) → L.Bits → ℕ → ℕ → Result (List L.Key)
  signers keys b zero i = ok []
  signers keys b (suc k) i =
      let rest = signers keys b k (i + 1) in
      if L.get_bit b i
      then elim (keys i) [
        | err e ↦ err e
        | ok key ↦ elim rest [ err e ↦ err e | ok ks ↦ ok (key ∷ ks) ]
      ]
      else rest

  abbrev pub verify_with : Option L.Sig → Result (List L.Key) → ℕ → Result Bool
  verify_with none keys h = ok false
  verify_with (some s) (err e) h = err e
  verify_with (some s) (ok keys) h = ok (L.fast_verify keys h s)

module _ {L : Library} where
  unfoldable pub calculate_n : QuorumCertAgg L → QuorumCertAgg L
  calculate_n c = record c { n = count_bits L c.rids (L.size_bits c.rids) 0 }

  unfoldable pub add_part : ℕ → PartCertAgg L → QuorumCertAgg L → Option (QuorumCertAgg L)
  unfolding calculate_n
  add_part rid pc c =
      if pc.obj_hash == c.obj_hash
      then some (
          calculate_n (record c {
            rids = L.set_bit rid c.rids;
            the_sig = repack c.the_sig c.sigs;
            sigs = unpack c.the_sig c.sigs ++ pc.sig ∷ [];
          }))
      else none

  unfoldable pub merge_quorum : QuorumCertAgg L → QuorumCertAgg L → Option (QuorumCertAgg L)
  unfolding calculate_n
  merge_quorum other c =
      if other.obj_hash == c.obj_hash
      then some (
          calculate_n (record c {
            rids = merge_bits L other.rids (L.size_bits other.rids) 0 c.rids;
            the_sig = repack c.the_sig c.sigs;
            sigs = unpack c.the_sig c.sigs ++ (other.sigs ++ as_list other.the_sig);
          }))
      else none

  unfoldable pub has_n : ℕ → QuorumCertAgg L → Bool
  has_n t c = leb t c.n

  abbrev pub compute_with : Option L.Sig → QuorumCertAgg L → QuorumCertAgg L
  compute_with none c = record c { the_sig = some (L.aggregate c.sigs); sigs = [] }
  compute_with (some s) c = c

  unfoldable pub compute : QuorumCertAgg L → QuorumCertAgg L
  compute c = compute_with c.the_sig c

  -- The copy constructor: it copies neither `sigs` nor `n`.
  unfoldable pub clone : QuorumCertAgg L → QuorumCertAgg L
  clone c = record c { sigs = []; n = 0 }

  unfoldable pub verify : (ℕ → Result L.Key) → QuorumCertAgg L → Result Bool
  unfolding signers
  verify keys c = verify_with L c.the_sig (signers L keys c.rids (L.size_bits c.rids) 0) c.obj_hash

-- QuorumCertAggBLS(config, obj_hash)
unfoldable pub create : (L : Library) → ℕ → ℕ → QuorumCertAgg L
create L nreplicas hash = record {
  obj_hash = hash;
  rids = L.clear_bits nreplicas;
  the_sig = none;
  sigs = [];
  n = 0;
}

-- `HotStuffAgg`. A genesis block is made with another class, `dummy`, which `on_init` replaces.
abbrev pub bls_scheme :
    (L : Library) → QuorumCertAgg L → (List ℕ → List ℕ → QuorumCertAgg L → List ℕ → ℕ) → Scheme
bls_scheme L dummy block_hash = record {
  PrivKey = L.Secret;
  PubKey = L.Key;
  PartCert = PartCertAgg L;
  QuorumCert = QuorumCertAgg L;
  create_part_cert = λ k h. record { obj_hash = h; sig = L.sign k h };
  part_obj_hash = λ p. p.obj_hash;
  part_verify = λ k p. L.verify_one k p.obj_hash p.sig;
  create_quorum_cert = create L;
  add_part = add_part;
  merge_quorum = merge_quorum;
  has_n = has_n;
  compute = compute;
  clone = clone;
  obj_hash = λ q. q.obj_hash;
  verify = verify;
  dummy = dummy;
  block_hash = block_hash;
}
