-- ===== src/Crypto/Secp/Signers.antt =====
-- The bits of `QuorumCertSecp256k1` say whose signatures it has, and `verify` checks all of these.
use kauri_public.Base.{
  true_ne_false, some_injective, ℕ, zero, suc, ◌+◌, ◌≤◌, ◌<◌, ◌≡◌, ◌≢◌, refl, sym, ◌∙◌, ap, subst,
  inl, inr, Bool, true, false, some, arith, ◌==◌, ==_iff, is_some, Bool-cases, Option-cases,
  if◌then◌else◌,
}
use kauri_public.Base.Exec.{Result, ok, err}
use kauri_public.Base.Maps
use kauri_public.Crypto.AggBls.Interface.{Library}
use kauri_public.Crypto.Secp.{QuorumCertSecp, check_with, check_sigs}

module _ {L : Library} where
  -- A bit is set where there is a signature.
  abbrev pub InSync : QuorumCertSecp L → Type 0
  InSync c = (i : ℕ) → L.get_bit c.rids i ≡ is_some (Maps.find i c.sigs)

  -- A signer whose key is known and whose signature is good.
  abbrev pub SignedBy : (ℕ → Result L.Key) → QuorumCertSecp L → ℕ → Type 0
  SignedBy keys c i =
      (key : L.Key) × (s : L.Sig) × (keys i ≡ ok key)
      × (Maps.find i c.sigs ≡ some s)
      × (L.verify_one key c.obj_hash s ≡ true)

  abbrev pub AllSigned : (ℕ → Result L.Key) → QuorumCertSecp L → ℕ → ℕ → Type 0
  AllSigned keys c first end =
      (i : ℕ) → first ≤ i → i < end → L.get_bit c.rids i ≡ true → SignedBy keys c i

  pub record Checked (no_sig : L.Sig) (keys : ℕ → Result L.Key) (k i : ℕ) (c : QuorumCertSecp L)
      : Type 0 where
    pub same : (check_sigs no_sig keys k i c).1 ≡ c
    pub sound : (check_sigs no_sig keys k i c).0 ≡ ok true → AllSigned keys c i (i + k)
    pub complete : AllSigned keys c i (i + k) → (check_sigs no_sig keys k i c).0 ≡ ok true

  module _ (no_sig : L.Sig) (keys : ℕ → Result L.Key) where
    check_skip :
        (k i : ℕ) (c : QuorumCertSecp L)
        → L.get_bit c.rids i ≡ false
        → check_sigs no_sig keys (suc k) i c ≡ check_sigs no_sig keys k (i + 1) c
    unfolding check_sigs
    check_skip k i c unset = rw unset refl

    check_set :
        (k i : ℕ) (c : QuorumCertSecp L) (s : L.Sig)
        → L.get_bit c.rids i ≡ true
        → Maps.find i c.sigs ≡ some s
        → check_sigs no_sig keys (suc k) i c
          ≡ check_with no_sig (keys i) (s, c) (check_sigs no_sig keys k (i + 1))
    unfolding check_sigs
    check_set k i c s set found = rw set (rw found refl)

    -- The loop goes on: what is true of the rest and of `i` is true of all.
    goes_on :
        (k i : ℕ) (c : QuorumCertSecp L)
        → check_sigs no_sig keys (suc k) i c ≡ check_sigs no_sig keys k (i + 1) c
        → (L.get_bit c.rids i ≡ true → SignedBy keys c i)
        → Checked no_sig keys k (i + 1) c
        → Checked no_sig keys (suc k) i c
    goes_on k i c step here ih = record {
      same = ap (λ r. r.1) step ∙ ih.same;
      sound = λ good j low high set. elim (Bool-cases (i == j)) [
        | inl at_i ↦
            let e : i ≡ j = (==_iff i j).0 at_i in
            subst (λ n. SignedBy keys c n) e (here (ap (L.get_bit c.rids) e ∙ set))
        | inr after ↦
            ih.sound (ap (λ r. r.0) (sym step) ∙ good) j
              (let ne : i ≢ j = λ e. ground arith in ground arith) (omega arith) set
      ];
      complete = λ all.
          ap (λ r. r.0) step
          ∙ ih.complete (λ j low high set. all j (omega arith) (omega arith) set);
    }

    -- The loop ends at `i`, whose signature is not good.
    stops :
        (k i : ℕ) (c : QuorumCertSecp L) (r : Result Bool)
        → check_sigs no_sig keys (suc k) i c ≡ (r, c)
        → r ≢ ok true
        → L.get_bit c.rids i ≡ true
        → (SignedBy keys c i → ⊥)
        → Checked no_sig keys (suc k) i c
    stops k i c r step bad set forged = record {
      same = ap (λ p. p.1) step;
      sound = λ good. absurd (bad (ap (λ p. p.0) (sym step) ∙ good));
      complete = λ all. absurd (forged (all i (omega arith) (omega arith) set));
    }

    check_set-Checked :
        (k i : ℕ) (c : QuorumCertSecp L) (s : L.Sig) (r : Result L.Key)
        → L.get_bit c.rids i ≡ true
        → Maps.find i c.sigs ≡ some s
        → keys i ≡ r
        → Checked no_sig keys k (i + 1) c
        → Checked no_sig keys (suc k) i c
    check_set-Checked k i c s (err e) set found known ih =
        stops k i c (err e)
          (check_set k i c s set found
            ∙ ap (λ r. check_with no_sig r (s, c) (check_sigs no_sig keys k (i + 1))) known)
          (λ e'. ground arith) set λ (key, s', known', found', good). clash key (sym known ∙ known')
      where
        clash : (key : L.Key) → ◌≡◌ {A = Result L.Key} (err e) (ok key) → ⊥
        clash key e' = cc
    check_set-Checked k i c s (ok key) set found known ih =
        elim (Bool-cases (L.verify_one key c.obj_hash s)) [
          | inl good ↦
              goes_on k i c
                (run
                  ∙ ap (λ d. if d then check_sigs no_sig keys k (i + 1) c else (ok false, c)) good)
                (λ _. (key, s, known, found, good)) ih
          | inr bad ↦
              stops k i c (ok false)
                (run
                  ∙ ap (λ d. if d then check_sigs no_sig keys k (i + 1) c else (ok false, c)) bad)
                (λ e. ground arith) set
                λ (key', s', known', found', good). true_ne_false (
                  sym good
                  ∙ ap (λ p. L.verify_one p c.obj_hash s')
                      (same_key key key' (sym known ∙ known') ∙ refl)
                  ∙ bad_for s' (some_injective s s' (sym found ∙ found')) bad)
        ]
      where
        run :
            check_sigs no_sig keys (suc k) i c
            ≡ check_with no_sig (ok key) (s, c) (check_sigs no_sig keys k (i + 1))
        run =
            check_set k i c s set found
            ∙ ap (λ r. check_with no_sig r (s, c) (check_sigs no_sig keys k (i + 1))) known

        same_key : (p q : L.Key) → ◌≡◌ {A = Result L.Key} (ok p) (ok q) → q ≡ p
        same_key p q e = cc

        bad_for :
            (s' : L.Sig)
            → s ≡ s'
            → L.verify_one key c.obj_hash s ≡ false
            → L.verify_one key c.obj_hash s' ≡ false
        bad_for s' e b = ap (L.verify_one key c.obj_hash) (sym e) ∙ b

    pub check_sigs-Checked : (k i : ℕ) (c : QuorumCertSecp L) → InSync c → Checked no_sig keys k i c
    unfolding check_sigs
    check_sigs-Checked zero i c sync = record {
      same = refl;
      sound = λ good j low high set. absurd (omega arith);
      complete = λ all. refl;
    }
    check_sigs-Checked (suc k) i c sync = elim (Bool-cases (L.get_bit c.rids i)) [
      | inl set ↦ elim (Option-cases (Maps.find i c.sigs)) [
        | inl missing ↦ absurd (true_ne_false (sym set ∙ sync i ∙ ap is_some missing))
        | inr (s, found) ↦
            check_set-Checked k i c s (keys i) set found refl (check_sigs-Checked k (i + 1) c sync)
      ]
      | inr unset ↦
          goes_on k i c (check_skip k i c unset) (λ set. absurd (true_ne_false (sym set ∙ unset)))
            (check_sigs-Checked k (i + 1) c sync)
    ]
