-- ===== src/Crypto/Secp/Calls.antt =====
-- Any sequence of calls of `add_part` and `merge_quorum` on a `QuorumCertSecp256k1`.
use kauri_public.Base.{
  ℕ, ◌<◌, ◌≡◌, ◌↔◌, refl, sym, ◌∙◌, ap, subst, inl, inr, Bool, true, false, Option, none, some,
  List, [], ◌∷◌, arith, ◌==◌, ◌||◌, is_some, Bool-cases, All, if◌then◌else◌,
}
use kauri_public.Base.Exec.{Result, ok}
use kauri_public.Base.Maps
use kauri_public.Crypto.AggBls.Interface.{Library, BitLaws}
use kauri_public.Crypto.Secp.{
  PartCertSecp, QuorumCertSecp, create, take_sig, add_part, take_sigs, merge_quorum, verify,
}
use kauri_public.Crypto.Secp.Signers.{InSync, AllSigned, check_sigs-Checked}

pub data Call (L : Library) : Type 0 where
  part : ℕ → PartCertSecp L → Call L
  merge : QuorumCertSecp L → Call L

-- A call that throws leaves the certificate as it was.
abbrev after {ℓ} : {A : Type ℓ} → Option A → A → A
after none a = a
after (some b) a = b

module _ {L : Library} where
  unfoldable pub call : QuorumCertSecp L → Call L → QuorumCertSecp L
  unfolding add_part merge_quorum
  call c (part rid pc) = after (add_part rid pc c) c
  call c (merge other) = after (merge_quorum other c) c

  unfoldable pub run : QuorumCertSecp L → List (Call L) → QuorumCertSecp L
  unfolding call
  run c [] = c
  run c (x ∷ xs) = run (call c x) xs

  -- The signers are replicas of the configuration.
  abbrev pub Fits : ℕ → Call L → Type 0
  Fits n (part rid pc) = rid < n
  Fits n (merge other) = All (λ e. e.0 < n) other.sigs

  record Good (n : ℕ) (c : QuorumCertSecp L) : Type 0 where
    sync : InSync c
    size : L.size_bits c.rids ≡ n

  module _ (laws : BitLaws L) where
    take_sig-Good :
        (n rid : ℕ) (s : L.Sig) (c : QuorumCertSecp L)
        → rid < n
        → Good n c
        → Good n (take_sig rid s c)
    unfolding take_sig
    take_sig-Good n rid s c inside good = record {
      sync = λ i.
          laws.get-set rid i c.rids (omega (arith, good.size))
          ∙ ap (λ d. rid == i || d) (good.sync i)
          ∙ either i (rid == i) (Maps.find rid c.sigs) (Maps.find i c.sigs)
          ∙ ap is_some (sym (Maps.find-insert rid i s c.sigs));
      size = laws.size-set rid c.rids ∙ good.size;
    }
      where
        either :
            (i : ℕ) (d : Bool) (o o' : Option L.Sig)
            → (d || is_some o') ≡ is_some (if d then Maps.or_else o s else o')
        either i true none o' = refl
        either i true (some x) o' = refl
        either i false o o' = refl

    take_sigs-Good :
        (n : ℕ) (es : List (ℕ × L.Sig)) (c : QuorumCertSecp L)
        → All (λ e. e.0 < n) es
        → Good n c
        → Good n (take_sigs es c)
    unfolding take_sigs
    take_sigs-Good n [] c inside good = good
    take_sigs-Good n ((rid, s) ∷ es) c inside good =
        take_sigs-Good n es (take_sig rid s c) inside.1 (take_sig-Good n rid s c inside.0 good)

    call-Good :
        (n : ℕ) (c : QuorumCertSecp L) (x : Call L) → Fits n x → Good n c → Good n (call c x)
    unfolding call add_part merge_quorum
    call-Good n c (part rid pc) inside good = elim (Bool-cases (pc.obj_hash == c.obj_hash)) [
      | inl same ↦ rw same (take_sig-Good n rid pc.sig c inside good)
      | inr other ↦ rw other good
    ]
    call-Good n c (merge q) inside good = elim (Bool-cases (q.obj_hash == c.obj_hash)) [
      | inl same ↦ rw same (take_sigs-Good n q.sigs c inside good)
      | inr other ↦ rw other good
    ]

    run-Good :
        (n : ℕ) (c : QuorumCertSecp L) (xs : List (Call L))
        → All (Fits n) xs
        → Good n c
        → Good n (run c xs)
    unfolding run
    run-Good n c [] inside good = good
    run-Good n c (x ∷ xs) inside good =
        run-Good n (call c x) xs inside.1 (call-Good n c x inside.0 good)

    create-Good : (n h : ℕ) → Good n (create L n h)
    unfolding create Maps.find
    create-Good n h = record { sync = λ i. laws.get-clear n i; size = laws.size-clear n }

    -- On a certificate for `n` replicas that was made by any sequence of parts and merges whose
    -- signers are among them, also of ones that are refused: `verify` changes nothing, and it answers
    -- true just if each replica whose bit is set has a known key and a signature that it verifies.
    pub verify-run :
        (no_sig : L.Sig) (keys : ℕ → Result L.Key) (n h : ℕ) (xs : List (Call L))
        → All (Fits n) xs
        → let c = run (create L n h) xs in
          ((verify no_sig keys c).1 ≡ c)
          × (((verify no_sig keys c).0 ≡ ok true) ↔ AllSigned keys c 0 n)
    unfolding verify
    verify-run no_sig keys n h xs inside =
        let good = run-Good n (create L n h) xs inside (create-Good n h) in
        let c = run (create L n h) xs in
        let all = check_sigs-Checked no_sig keys (L.size_bits c.rids) 0 c good.sync in
        (
          all.same,
          (
            λ yes_all. subst (AllSigned keys c 0) (omega (arith, good.size)) (all.sound yes_all),
            λ signed. all.complete (subst (AllSigned keys c 0) (omega (arith, good.size)) signed),
          ),
        )
