-- ===== src/Tests/CryptoTests.antt =====
-- The certificates, with a bit set that is a function and a signature that is a number.
use kauri_public.Base.{
  ℕ, ◌+◌, ◌*◌, ◌≤◌, ◌<◌, ◌≡◌, refl, Bool, true, false, none, List, [], ◌∷◌, ◌++◌, ◌||◌, ◌==◌,
  length, arith,
}
use kauri_public.Base.Exec.{Result, ok}
use kauri_public.Crypto.AggBls.Interface.{Library, BitLaws, SumLaws}
use kauri_public.Crypto.AggBls.{
  QuorumCertAgg, PartCertAgg, count_bits, create, add_part, merge_quorum, merge_bits, compute,
  verify, signers,
}
use kauri_public.Crypto.AggBls.Count.{n-add_part, n-merge_quorum, IsCounted}
use kauri_public.Crypto.AggBls.Aggregate.{Call, part, combine, calls, all_offered, verify-calls}

abbrev sum_of : List ℕ → ℕ
sum_of [] = 0
sum_of (x ∷ xs) = x + sum_of xs

abbrev pub toy_library : Library
toy_library = record {
  Sig = ℕ;
  Key = ℕ;
  Secret = ℕ;
  sign = λ k h. k + h;
  verify_one = λ k h s. s == k + h;
  aggregate = sum_of;
  fast_verify = λ ks h s. s == sum_of ks + length ks * h;
  Bits = ℕ × (ℕ → Bool);
  clear_bits = λ n. (n, λ _. false);
  set_bit = λ i b. (b.0, λ j. i == j || b.1 j);
  get_bit = λ b i. b.1 i;
  size_bits = λ b. b.0;
}

pub toy_library-BitLaws : BitLaws toy_library
toy_library-BitLaws = record {
  size-clear = λ n. refl;
  get-clear = λ n i. refl;
  size-set = λ i b. refl;
  get-set = λ i j b h. refl;
}

sum_of-append : (xs ys : List ℕ) → sum_of xs + sum_of ys ≡ sum_of (xs ++ ys)
sum_of-append [] ys = omega arith
sum_of-append (x ∷ xs) ys = omega (arith, sum_of-append xs ys)

toy_library-SumLaws : SumLaws toy_library
toy_library-SumLaws = record { aggregate-aggregate = sum_of-append }

abbrev signed_by : List ℕ → QuorumCertAgg toy_library
signed_by rids = record {
  obj_hash = 9;
  rids = (4, λ j. among rids j);
  the_sig = none;
  sigs = [];
  n = length rids;
}
  where
    among : List ℕ → ℕ → Bool
    among [] j = false
    among (r ∷ rs) j = r == j || among rs j

abbrev part_of : ℕ → PartCertAgg toy_library
part_of k = record { obj_hash = 9; sig = k + 9 }

abbrev pub toy_keys : ℕ → Result ℕ
toy_keys i = ok (i * 10)

n-add_part_example :
    let c = create toy_library 4 9 in
    let c' : QuorumCertAgg toy_library = record c {
      rids = (4, λ j. 2 == j || false);
      sigs = 29 ∷ [];
      n = 1;
    } in
    (c'.n ≡ 1) × IsCounted c'
unfolding create add_part count_bits
n-add_part_example =
    n-add_part toy_library-BitLaws 2 (part_of 20) (create toy_library 4 9) _ (omega arith) refl refl

abbrev left : QuorumCertAgg toy_library
left = signed_by (0 ∷ 1 ∷ [])

abbrev right : QuorumCertAgg toy_library
right = signed_by (1 ∷ 3 ∷ [])

abbrev both : QuorumCertAgg toy_library
both = record left { rids = merge_bits toy_library right.rids 4 0 left.rids; n = 3 }

n-merge_quorum_example :
    ((j : ℕ) → j < 4 → both.rids.1 j ≡ (left.rids.1 j || right.rids.1 j))
    × (left.n ≤ both.n)
    × (right.n ≤ both.n)
    × (both.n ≤ left.n + right.n)
unfolding count_bits merge_quorum merge_bits
n-merge_quorum_example = n-merge_quorum toy_library-BitLaws right left both refl refl refl refl

abbrev toy_calls : List (Call toy_library)
toy_calls = part 1 (part_of 10) ∷ combine ∷ part 3 (part_of 30) ∷ []

verify-calls_example :
    verify toy_keys (compute (calls (create toy_library 4 9) toy_calls)) ≡ ok true
unfolding create calls all_offered signers
verify-calls_example = verify-calls toy_library-SumLaws toy_keys 4 9 toy_calls
