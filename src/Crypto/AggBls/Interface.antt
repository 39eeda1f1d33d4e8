-- ===== src/Crypto/AggBls/Interface.antt =====
-- What `QuorumCertAggBLS` calls of `salticidae::Bits` and of the BLS library.
use kauri_public.Base.{ℕ, ◌<◌, ◌≡◌, Bool, false, List, ◌∷◌, ◌++◌, ◌||◌, ◌==◌}

pub record Library : Type 1 where
  -- `bls::G2Element`, `bls::G1Element`, `bls::PrivateKey`
  pub Sig : Type 0
  pub Key : Type 0
  pub Secret : Type 0
  pub sign : Secret → ℕ → Sig
  -- `PopSchemeMPL::Verify`, `Aggregate` and `FastAggregateVerify`
  pub verify_one : Key → ℕ → Sig → Bool
  pub aggregate : List Sig → Sig
  pub fast_verify : List Key → ℕ → Sig → Bool
  -- `salticidae::Bits`
  pub Bits : Type 0
  pub clear_bits : ℕ → Bits
  pub set_bit : ℕ → Bits → Bits
  pub get_bit : Bits → ℕ → Bool
  pub size_bits : Bits → ℕ

-- A bit set of a fixed size.
pub record BitLaws (L : Library) : Type 0 where
  pub size-clear : (n : ℕ) → L.size_bits (L.clear_bits n) ≡ n
  pub get-clear : (n i : ℕ) → L.get_bit (L.clear_bits n) i ≡ false
  pub size-set : (i : ℕ) (b : L.Bits) → L.size_bits (L.set_bit i b) ≡ L.size_bits b
  pub get-set :
      (i j : ℕ) (b : L.Bits)
      → i < L.size_bits b
      → L.get_bit (L.set_bit i b) j ≡ (i == j || L.get_bit b j)

-- Aggregation is a sum: a sum of sums is the sum of all.
pub record SumLaws (L : Library) : Type 0 where
  pub aggregate-aggregate :
      (xs ys : List L.Sig) → L.aggregate (L.aggregate xs ∷ ys) ≡ L.aggregate (xs ++ ys)
