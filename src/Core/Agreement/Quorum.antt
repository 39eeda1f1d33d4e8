-- ===== src/Core/Agreement/Quorum.antt =====
-- Two quorums of `nmajority` replicas, `nreplicas - nfaulty` in `on_init` of src/consensus.cpp, share
-- a replica that is not faulty, where `nfaulty` is less than a third of the replicas.
use kauri_public.Base.{
  ℕ, zero, suc, ◌+◌, ◌*◌, ◌-◌, ◌≤◌, ◌<◌, ◌≡◌, ◌&&◌, not, Bool, true, false, Bool-cases, inl, inr,
  arith, if◌then◌else◌,
}

-- How many of the numbers below `n` a test picks.
unfoldable pub count : ℕ → (ℕ → Bool) → ℕ
count zero p = 0
count (suc n) p = (if p n then 1 else 0) + count n p

-- If few enough numbers are not counted by the tests, both of them and not the third pick one.
shared :
    (n : ℕ) (p q faulty : ℕ → Bool)
    → n + count n faulty < count n p + count n q
    → (r : ℕ) × (p r ≡ true) × (q r ≡ true) × (faulty r ≡ false)
unfolding count
shared zero p q faulty h = absurd (omega arith)
shared (suc n) p q faulty h = elim (Bool-cases (p n && q n && not (faulty n))) [
  | inl hit ↦ (n, ground arith, ground arith, ground arith)
  | inr miss ↦ shared n p q faulty (ground arith)
]

pub quorums_meet :
    (n f : ℕ) (p q faulty : ℕ → Bool)
    → 3 * f < n
    → count n faulty ≤ f
    → n - f ≤ count n p
    → n - f ≤ count n q
    → (r : ℕ) × (p r ≡ true) × (q r ≡ true) × (faulty r ≡ false)
quorums_meet n f p q faulty many few hp hq = shared n p q faulty (omega arith)
