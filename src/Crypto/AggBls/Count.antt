-- ===== src/Crypto/AggBls/Count.antt =====
-- How `QuorumCertAggBLS` counts: by replicas, not by messages.
use kauri_public.Base.{
  ℕ, zero, suc, ◌+◌, ◌≤◌, ◌<◌, ◌≡◌, refl, not, ◌&&◌, ◌||◌, some, arith, leb, ltb, if◌then◌else◌,
}
use kauri_public.Crypto.AggBls.Interface.{Library, BitLaws}
use kauri_public.Crypto.AggBls.{
  QuorumCertAgg, PartCertAgg, count_bits, add_part, merge_bits, merge_quorum,
}

-- The counter agrees with the bits.
abbrev pub IsCounted : {L : Library} → QuorumCertAgg L → Type 0
IsCounted {L} c = c.n ≡ count_bits L c.rids (L.size_bits c.rids) 0

module _ {L : Library} (laws : BitLaws L) where
  count_bits-set :
      (b : L.Bits) (i k j : ℕ)
      → i < L.size_bits b
      → count_bits L (L.set_bit i b) k j
        ≡ count_bits L b k j + (if (leb j i && ltb i (j + k)) && not (L.get_bit b i) then 1 else 0)
  unfolding count_bits
  count_bits-set b i zero j h = ground arith
  count_bits-set b i (suc k) j h =
      ground (arith, laws.get-set i j b, count_bits-set b i k (j + 1) h)

  -- Let the counter of a certificate agree with its bits, and a part of a replica in range be taken:
  -- the counter grows by one if the replica is new and stays if it has already signed, and it still
  -- agrees with the bits.
  pub n-add_part :
      (rid : ℕ) (pc : PartCertAgg L) (c c' : QuorumCertAgg L)
      → rid < L.size_bits c.rids
      → IsCounted c
      → add_part rid pc c ≡ some c'
      → (c'.n ≡ (if L.get_bit c.rids rid then c.n else c.n + 1)) × IsCounted c'
  unfolding add_part
  n-add_part rid pc c c' h counted taken = (
    ground (arith, count_bits-set c.rids rid (L.size_bits c.rids) 0 h, laws.size-set rid c.rids),
    ground arith,
  )

  size-merge_bits :
      (new b : L.Bits) (k i : ℕ) → L.size_bits (merge_bits L new k i b) ≡ L.size_bits b
  unfolding merge_bits
  size-merge_bits new b zero i = refl
  size-merge_bits new b (suc k) i = ground (
    arith,
    size-merge_bits new (L.set_bit i b) k (i + 1),
    size-merge_bits new b k (i + 1),
    laws.size-set i b,
  )

  get-merge_bits :
      (new b : L.Bits) (k i j : ℕ)
      → i + k ≤ L.size_bits b
      → L.get_bit (merge_bits L new k i b) j
        ≡ (L.get_bit b j || ((leb i j && ltb j (i + k)) && L.get_bit new j))
  unfolding merge_bits
  get-merge_bits new b zero i j h = ground arith
  get-merge_bits new b (suc k) i j h = ground (
    arith,
    get-merge_bits new (L.set_bit i b) k (i + 1) j,
    get-merge_bits new b k (i + 1) j,
    laws.size-set i b,
    laws.get-set i j b,
  )

  -- `new` has no bit at or above its size, and no more bits than `b`.
  merge_bits-union :
      (new b : L.Bits) (j : ℕ)
      → L.size_bits new ≡ L.size_bits b
      → j < L.size_bits b
      → L.get_bit (merge_bits L new (L.size_bits new) 0 b) j ≡ (L.get_bit b j || L.get_bit new j)
  merge_bits-union new b j same h = ground (arith, get-merge_bits new b (L.size_bits new) 0 j)

  count_bits-merge :
      (a b c : L.Bits) (k i : ℕ)
      → ((j : ℕ) → j < i + k → L.get_bit c j ≡ (L.get_bit a j || L.get_bit b j))
      → (count_bits L a k i ≤ count_bits L c k i)
        × (count_bits L b k i ≤ count_bits L c k i)
        × (count_bits L c k i ≤ count_bits L a k i + count_bits L b k i)
  unfolding count_bits
  count_bits-merge a b c zero i h = omega arith
  count_bits-merge a b c (suc k) i h =
      ground
        (arith, h i (omega arith), count_bits-merge a b c k (i + 1) (λ j lt. h j (omega arith)))

  -- Let two certificates of one configuration have counters that agree with their bits, and the merge
  -- be taken: it holds the union of their signers, and counts as many as either and no more than both
  -- together.
  pub n-merge_quorum :
      (other c c' : QuorumCertAgg L)
      → L.size_bits other.rids ≡ L.size_bits c.rids
      → IsCounted other
      → IsCounted c
      → merge_quorum other c ≡ some c'
      → ((j : ℕ)
          → j < L.size_bits c.rids
          → L.get_bit c'.rids j ≡ (L.get_bit c.rids j || L.get_bit other.rids j))
        × (c.n ≤ c'.n)
        × (other.n ≤ c'.n)
        × (c'.n ≤ c.n + other.n)
  unfolding merge_quorum
  n-merge_quorum other c c' same counted_other counted taken =
      let united : L.Bits = merge_bits L other.rids (L.size_bits other.rids) 0 c.rids in
      let union =
        λ (j : ℕ) (lt : j < L.size_bits c.rids). merge_bits-union other.rids c.rids j same lt in
      let rids : c'.rids ≡ united = ground arith in
      let counts =
        count_bits-merge c.rids other.rids united (L.size_bits c.rids) 0
          (λ j lt. union j (omega arith)) in
      let size = size-merge_bits other.rids c.rids (L.size_bits other.rids) 0 in
      (
        λ j lt. rw rids (union j lt),
        ground (arith, counts, size),
        ground (arith, counts, size),
        ground (arith, counts, size),
      )
