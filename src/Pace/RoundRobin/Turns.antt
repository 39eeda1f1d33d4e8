-- ===== src/Pace/RoundRobin/Turns.antt =====
-- Every replica gets its turn as the proposer.
use native.Mathlib.Nat.{mod-eq_of_lt, mod_self, mul_assoc, mul-one, pow-succ'}
use kauri_public.Base.{
  ℕ, zero, suc, ◌+◌, ◌-◌, ◌*◌, ◌%◌, ◌^◌, ◌≤◌, ◌<◌, ◌≡◌, refl, sym, subst, ◌∙◌, ap, true, false,
  Option, none, [], some, arith, ◌==◌, if◌then◌else◌, inl, inr, Bool-cases, ltb,
}
use kauri_public.Base.Exec.{Exec, ok, continue, pure, ◌>>◌}
use kauri_public.Crypto.Scheme.{Scheme}
use kauri_public.Pace.RoundRobin.{RoundRobin, reject, reject_all, rotate, until_proposal}

module _ {C : Scheme} where
  -- So many rotations, one after the other.
  unfoldable pub rotate_times : ℕ → Exec (RoundRobin C) (Unit {0})
  unfolding rotate
  rotate_times zero = pure tt
  rotate_times (suc k) = do rotate; rotate_times k

  -- What a rotation leaves alone and what it sets.
  record Turned (s t : RoundRobin C) : Type 0 where
    core : t.core ≡ s.core
    proposer : t.proposer ≡ ((s.proposer + 1) % s.core.config.nreplicas) % 2 ^ 16
    timeout : t.exp_timeout ≡ s.exp_timeout * 2

  -- The fields that rejecting a promise leaves alone.
  record Alike (s t : RoundRobin C) : Type 0 where
    core : t.core ≡ s.core
    proposer : t.proposer ≡ s.proposer
    timeout : t.exp_timeout ≡ s.exp_timeout

  reject-Alike : (o : Option ℕ) (s : RoundRobin C) → Alike s (reject o s)
  unfolding reject
  reject-Alike none s = record { core = refl; proposer = refl; timeout = refl }
  reject-Alike (some p) s = record { core = refl; proposer = refl; timeout = refl }

  reject_all-Alike : (s : RoundRobin C) → Alike s (reject_all s)
  reject_all-Alike s =
      let t : RoundRobin C = record (reject s.pm_qc_finish s) { pm_wait_propose = false } in
      let a = reject-Alike s.pm_qc_finish s in
      let b = reject-Alike t.pm_qc_manual t in
      record {
        core = b.core ∙ a.core;
        proposer = b.proposer ∙ a.proposer;
        timeout = b.timeout ∙ a.timeout;
      }

  rotate-Turned :
      (s : RoundRobin C)
      → 0 < s.core.config.nreplicas
      → (t : RoundRobin C) × (rotate s ≡ (ok tt, t)) × Turned s t
  unfolding rotate
  rotate-Turned s pos =
      let n = s.core.config.nreplicas in
      let u : RoundRobin C = record s {
        hears_own = true;
        hears_others = true;
        prop_blk = [];
        rotating = true;
        proposer = ((s.proposer + 1) % n) % 2 ^ 16;
      } in
      let t : RoundRobin C = record (reject_all u) {
        timer = some (until_proposal s.exp_timeout);
        exp_timeout = s.exp_timeout * 2;
      } in
      let a = reject_all-Alike u in
      let some_replica : (n == 0) ≡ false = ground arith in
      (t, rw some_replica refl, record { core = a.core; proposer = a.proposer; timeout = refl })

-- The proposer after so many rotations, out of `n` replicas.
unfoldable proposer_after : ℕ → ℕ → ℕ → ℕ
proposer_after n zero p = p
proposer_after n (suc k) p = proposer_after n k (if ltb (p + 1) n then p + 1 else 0)

-- The numbers from `p` on are reached upwards, and those below `p` after a start at 0.
proposer_after-up : (n k p : ℕ) → p + k < n → proposer_after n k p ≡ p + k
unfolding proposer_after
proposer_after-up n zero p h = omega arith
proposer_after-up n (suc k) p h =
    let up : ltb (p + 1) n ≡ true = ground arith in
    rw up (proposer_after-up n k (p + 1) (omega arith) ∙ omega arith)

proposer_after-around :
    (n j k m p : ℕ)
    → p + suc j ≡ n
    → m ≡ suc j + k
    → p < n
    → proposer_after n m p ≡ proposer_after n k 0
unfolding proposer_after
proposer_after-around n j k zero p h e lt = absurd (omega arith)
proposer_after-around n zero k (suc m) p h e lt =
    let top : ltb (p + 1) n ≡ false = ground arith in
    let rest : m ≡ k = omega arith in rw (top, rest) refl
proposer_after-around n (suc j) k (suc m) p h e lt =
    let up : ltb (p + 1) n ≡ true = ground arith in
    rw up (proposer_after-around n j k m (p + 1) (omega arith) (omega arith) (omega arith))

proposer_after-reaches :
    (n p r : ℕ) → p < n → r < n → (k : ℕ) × (k < n) × (proposer_after n k p ≡ r)
proposer_after-reaches n p r hp hr = elim (Bool-cases (ltb r p)) [
  | inl low ↦
      let lt : r < p = ground arith in
      let j = n - p - 1 in
      (
        suc j + r,
        omega arith,
        proposer_after-around n j r (suc j + r) p (omega arith) refl hp
            ∙ proposer_after-up n r 0 (omega arith)
            ∙ omega arith,
      )
  | inr high ↦
      let le : p ≤ r = ground arith in
      (r - p, omega arith, proposer_after-up n (r - p) p (omega arith) ∙ omega arith)
]

-- What `rotate` computes, where `proposer` has room for each replica.
next-proposer :
    (n p : ℕ) → p < n → n ≤ 2 ^ 16 → ((p + 1) % n) % 2 ^ 16 ≡ (if ltb (p + 1) n then p + 1 else 0)
next-proposer n p h room = elim (Bool-cases (ltb (p + 1) n)) [
  | inl below ↦
      let lt : p + 1 < n = ground arith in
      rw below (ap (λ m. m % 2 ^ 16) (mod-eq_of_lt lt) ∙ mod-eq_of_lt (omega arith))
  | inr top ↦
      let all : p + 1 ≡ n = ground arith in
      rw top (ap (λ m. (m % n) % 2 ^ 16) all ∙ ap (λ m. m % 2 ^ 16) (mod_self n))
]

next-below : (n p : ℕ) → p < n → (if ltb (p + 1) n then p + 1 else 0) < n
next-below n p h = ground arith

module _ {C : Scheme} where
  -- The proposer, the timeout and what the core is, after so many rotations.
  record After (k : ℕ) (s t : RoundRobin C) : Type 0 where
    core : t.core ≡ s.core
    proposer : t.proposer ≡ proposer_after s.core.config.nreplicas k s.proposer
    timeout : t.exp_timeout ≡ s.exp_timeout * 2 ^ k

  then-After :
      (k : ℕ) (s t u : RoundRobin C)
      → s.proposer < s.core.config.nreplicas
      → s.core.config.nreplicas ≤ 2 ^ 16
      → Turned s t
      → After k t u
      → After (suc k) s u
  unfolding proposer_after
  then-After k s t u h room d a =
      let n = s.core.config.nreplicas in
      let same = ap (λ c. c.config.nreplicas) d.core in
      record {
        core = a.core ∙ d.core;
        proposer =
            a.proposer
            ∙ ap (λ m. proposer_after m k t.proposer) same
            ∙ ap (proposer_after n k) (d.proposer ∙ next-proposer n s.proposer h room);
        timeout =
            a.timeout
            ∙ ap (λ m. m * 2 ^ k) d.timeout
            ∙ mul_assoc s.exp_timeout 2 (2 ^ k)
            ∙ ap (λ m. s.exp_timeout * m) (sym (pow-succ' 2 k));
      }

  rotate_times-After :
      (k : ℕ) (s : RoundRobin C)
      → s.proposer < s.core.config.nreplicas
      → s.core.config.nreplicas ≤ 2 ^ 16
      → (t : RoundRobin C) × (rotate_times k s ≡ (ok tt, t)) × After k s t
  unfolding rotate_times proposer_after
  rotate_times-After zero s h room =
      (s, refl, record { core = refl; proposer = refl; timeout = sym (mul-one s.exp_timeout) })
  rotate_times-After (suc k) s h room =
      let (t, turned, d) = rotate-Turned s (omega arith) in
      let same = ap (λ c. c.config.nreplicas) d.core in
      let (u, rest, a) =
        rotate_times-After k t
          (rw same (
            subst (λ p. p < s.core.config.nreplicas)
              (sym (d.proposer ∙ next-proposer s.core.config.nreplicas s.proposer h room))
              (next-below s.core.config.nreplicas s.proposer h)))
          (rw same room) in
      (u, ap (λ r. continue r (λ _. rotate_times k)) turned ∙ rest, then-After k s t u h room d a)

  -- Among at most 2^16 replicas, where the proposer is one of them, each replica becomes the
  -- proposer after fewer rotations in a row than there are replicas. None of these rotations
  -- fails or touches the core, and each doubles the timeout.
  pub each_replica-proposes :
      (s : RoundRobin C) (r : ℕ)
      → s.proposer < s.core.config.nreplicas
      → s.core.config.nreplicas ≤ 2 ^ 16
      → r < s.core.config.nreplicas
      → (k : ℕ) × (k < s.core.config.nreplicas)
        × (t : RoundRobin C) × (rotate_times k s ≡ (ok tt, t))
        × (t.proposer ≡ r)
        × (t.core ≡ s.core)
        × (t.exp_timeout ≡ s.exp_timeout * 2 ^ k)
  each_replica-proposes s r h room hr =
      let (k, few, there) = proposer_after-reaches s.core.config.nreplicas s.proposer r h hr in
      let (t, ran, a) = rotate_times-After k s h room in
      (k, few, t, ran, a.proposer ∙ there, a.core, a.timeout)
