-- ===== src/Crypto/AggBls/Aggregate.antt =====
-- What `QuorumCertAggBLS` aggregates: however parts, merges and aggregations follow one another, the
-- signature is that of all contributions.
use kauri_public.Base.{
  ℕ, ◌≡◌, refl, sym, ap, ◌∙◌, ◌⊎◌, inl, inr, Option, none, some, List, [], ◌∷◌, ◌++◌, arith, ◌==◌,
  if◌then◌else◌, Bool-cases,
}
use mathlib.Core.List.{append-nil, append_assoc}
use kauri_public.Base.Exec.{Result}
use kauri_public.Crypto.AggBls.Interface.{Library, SumLaws}
use kauri_public.Crypto.AggBls.{
  QuorumCertAgg, PartCertAgg, as_list, repack, compute_with, add_part, merge_quorum, compute,
  verify, verify_with, create, signers,
}

-- The calls that change a certificate.
pub data Call (L : Library) : Type 0 where
  part : ℕ → PartCertAgg L → Call L
  merge : QuorumCertAgg L → Call L
  combine : Call L

-- What stands as the aggregate was aggregated.
abbrev SumOf : (L : Library) → Option L.Sig → Type 0
SumOf L o = (o ≡ none) ⊎ ((xs : List L.Sig) × (o ≡ some (L.aggregate xs)))

repack-SumOf :
    (L : Library) (o : Option L.Sig) (sigs : List L.Sig) → SumOf L o → SumOf L (repack o sigs)
repack-SumOf L none [] h = inl refl
repack-SumOf L none (x ∷ sigs) h = inl refl
repack-SumOf L (some s) [] h = inl refl
repack-SumOf L (some s) (x ∷ sigs) h = h

module _ {L : Library} where
  abbrev or_same : Option (QuorumCertAgg L) → QuorumCertAgg L → QuorumCertAgg L
  or_same none c = c
  or_same (some c') c = c'

  -- A call that throws leaves the certificate as it was.
  unfoldable pub call : QuorumCertAgg L → Call L → QuorumCertAgg L
  unfolding add_part merge_quorum compute
  call c (part rid pc) = or_same (add_part rid pc c) c
  call c (merge other) = or_same (merge_quorum other c) c
  call c combine = compute c

  unfoldable pub calls : QuorumCertAgg L → List (Call L) → QuorumCertAgg L
  unfolding call
  calls c [] = c
  calls c (x ∷ xs) = calls (call c x) xs

  -- The signatures that a certificate holds.
  abbrev pub parts : QuorumCertAgg L → List L.Sig
  parts c = as_list c.the_sig ++ c.sigs

  -- The signatures that the calls hand over, those for another hash left out.
  abbrev pub offered : ℕ → Call L → List L.Sig
  offered h (part rid pc) = if pc.obj_hash == h then pc.sig ∷ [] else []
  offered h (merge other) = if other.obj_hash == h then other.sigs ++ as_list other.the_sig else []
  offered h combine = []

  unfoldable pub all_offered : ℕ → List (Call L) → List L.Sig
  all_offered h [] = []
  all_offered h (x ∷ xs) = offered h x ++ all_offered h xs

  -- Never an aggregate and parts at once: what `serialize` checks.
  abbrev pub IsPacked : QuorumCertAgg L → Type 0
  IsPacked c = (c.the_sig ≡ none) ⊎ (c.sigs ≡ [])

  -- Every call keeps an aggregate and single parts apart, so that `serialize` never throws
  -- "sigs not aggregated before sending!".
  pub call-IsPacked : (c : QuorumCertAgg L) (x : Call L) → IsPacked c → IsPacked (call c x)
  unfolding call add_part merge_quorum compute
  call-IsPacked c (part rid pc) h = ground arith
  call-IsPacked c (merge other) h = ground arith
  call-IsPacked c combine h = ground arith

  pub hash-call : (c : QuorumCertAgg L) (x : Call L) → (call c x).obj_hash ≡ c.obj_hash
  unfolding call add_part merge_quorum compute
  hash-call c (part rid pc) = ground arith
  hash-call c (merge other) = ground arith
  hash-call c combine = ground arith

  parts-add_part :
      (c : QuorumCertAgg L) (rid : ℕ) (pc : PartCertAgg L)
      → IsPacked c
      → parts (call c (part rid pc)) ≡ parts c ++ offered c.obj_hash (part rid pc)
  unfolding call add_part
  parts-add_part c rid pc h = ground (arith, append-nil (parts c))

  parts-merge :
      (c other : QuorumCertAgg L)
      → IsPacked c
      → parts (call c (merge other)) ≡ parts c ++ offered c.obj_hash (merge other)
  unfolding call merge_quorum
  parts-merge c other h = ground (arith, append-nil (parts c))

  module _ (laws : SumLaws L) where
    -- An aggregate may stand for the parts that it was made of, also where more follow.
    parts-compute :
        (c : QuorumCertAgg L) (zs : List L.Sig)
        → L.aggregate (parts (compute c) ++ zs) ≡ L.aggregate (parts c ++ zs)
    unfolding compute
    parts-compute c zs = ground (arith, laws.aggregate-aggregate c.sigs zs)

    aggregate-call :
        (c : QuorumCertAgg L) (x : Call L) (zs : List L.Sig)
        → IsPacked c
        → L.aggregate (parts (call c x) ++ zs)
          ≡ L.aggregate (parts c ++ (offered c.obj_hash x ++ zs))
    aggregate-call c (part rid pc) zs h = ap L.aggregate (
        ap (λ xs. xs ++ zs) (parts-add_part c rid pc h)
        ∙ append_assoc (parts c) (offered c.obj_hash (part rid pc)) zs)
    aggregate-call c (merge other) zs h = ap L.aggregate (
        ap (λ xs. xs ++ zs) (parts-merge c other h)
        ∙ append_assoc (parts c) (offered c.obj_hash (merge other)) zs)
    aggregate-call c combine zs h = unfold call in parts-compute c zs

    pub aggregate-calls :
        (c : QuorumCertAgg L) (xs : List (Call L))
        → IsPacked c
        → L.aggregate (parts (calls c xs)) ≡ L.aggregate (parts c ++ all_offered c.obj_hash xs)
    unfolding calls all_offered
    aggregate-calls c [] h = rw append-nil
    aggregate-calls c (x ∷ xs) h =
        aggregate-calls (call c x) xs (call-IsPacked c x h)
        ∙ (rw (hash-call c x) (aggregate-call c x (all_offered c.obj_hash xs) h))

  calls-IsPacked : (c : QuorumCertAgg L) (xs : List (Call L)) → IsPacked c → IsPacked (calls c xs)
  unfolding calls
  calls-IsPacked c [] h = h
  calls-IsPacked c (x ∷ xs) h = calls-IsPacked (call c x) xs (call-IsPacked c x h)

  hash-calls : (c : QuorumCertAgg L) (xs : List (Call L)) → (calls c xs).obj_hash ≡ c.obj_hash
  unfolding calls
  hash-calls c [] = refl
  hash-calls c (x ∷ xs) = hash-calls (call c x) xs ∙ hash-call c x

  abbrev IsSum : QuorumCertAgg L → Type 0
  IsSum c = SumOf L c.the_sig

  compute-IsSum : (c : QuorumCertAgg L) → IsSum c → IsSum (compute c)
  unfolding compute
  compute-IsSum c (inl e) = inr (c.sigs, rw e)
  compute-IsSum c (inr (xs, e)) = inr (xs, rw (e, compute_with))

  rids-compute : (c : QuorumCertAgg L) → (compute c).rids ≡ c.rids
  unfolding compute
  rids-compute c = ground arith

  hash-compute : (c : QuorumCertAgg L) → (compute c).obj_hash ≡ c.obj_hash
  unfolding compute
  hash-compute c = ground arith

  call-IsSum : (c : QuorumCertAgg L) (x : Call L) → IsSum c → IsSum (call c x)
  unfolding call add_part merge_quorum
  call-IsSum c (part rid pc) h = elim (Bool-cases (pc.obj_hash == c.obj_hash)) [
    | inl same ↦ rw same (repack-SumOf L c.the_sig c.sigs h)
    | inr other ↦ rw other h
  ]
  call-IsSum c (merge cert) h = elim (Bool-cases (cert.obj_hash == c.obj_hash)) [
    | inl same ↦ rw same (repack-SumOf L c.the_sig c.sigs h)
    | inr other ↦ rw other h
  ]
  call-IsSum c combine h = compute-IsSum c h

  calls-IsSum : (c : QuorumCertAgg L) (xs : List (Call L)) → IsSum c → IsSum (calls c xs)
  unfolding calls
  calls-IsSum c [] h = h
  calls-IsSum c (x ∷ xs) h = calls-IsSum (call c x) xs (call-IsSum c x h)

  module _ (laws : SumLaws L) (keys : ℕ → Result L.Key) where
    the_sig-compute :
        (c : QuorumCertAgg L)
        → IsPacked c
        → IsSum c
        → (compute c).the_sig ≡ some (L.aggregate (parts c))
    unfolding compute
    the_sig-compute c h (inl none_yet) = rw none_yet
    the_sig-compute c (inl none_yet) (inr (xs, e)) = ground arith
    the_sig-compute c (inr empty) (inr (xs, e)) =
        rw (e, compute_with) (rw empty (ap some (sym (alone xs))))
      where
        alone : (xs : List L.Sig) → L.aggregate (L.aggregate xs ∷ []) ≡ L.aggregate xs
        alone xs = laws.aggregate-aggregate xs [] ∙ ap L.aggregate (append-nil xs)

    verify-compute :
        (c : QuorumCertAgg L)
        → IsPacked c
        → IsSum c
        → verify keys (compute c)
          ≡ verify_with L
              (some (L.aggregate (parts c)))
              (signers L keys c.rids (L.size_bits c.rids) 0)
              c.obj_hash
    unfolding verify
    verify-compute c h s = rw (the_sig-compute c h s, rids-compute c, hash-compute c) refl

    -- Where aggregation is a sum: start a certificate, let it take parts and other certificates and aggregate in any order, and
    -- aggregate at last: `verify` then asks the library about the keys of the signers that are set
    -- and the aggregate of exactly the signatures that were handed over for this hash.
    pub verify-calls :
        (n h : ℕ) (xs : List (Call L))
        → let c = calls (create L n h) xs in
          verify keys (compute c)
          ≡ verify_with L
              (some (L.aggregate (all_offered h xs)))
              (signers L keys c.rids (L.size_bits c.rids) 0)
              h
    unfolding create
    verify-calls n h xs =
        let c = calls (create L n h) xs in
        verify-compute c (calls-IsPacked (create L n h) xs (inl refl))
          (calls-IsSum (create L n h) xs (inl refl))
        ∙ (rw (aggregate-calls laws (create L n h) xs (inl refl), hash-calls (create L n h) xs)
            refl)
