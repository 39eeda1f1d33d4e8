-- ===== src/Net/Raises.antt =====
-- Which certificates `vote_handler` raises `hqc` with.
use kauri_public.Base.{
  ℕ, ◌≡◌, refl, sym, ◌∙◌, ap, subst, ◌⊎◌, inl, inr, Bool, true, false, ◌&&◌, Option, none, some,
  arith, ◌==◌, ==_iff, Bool-cases, if◌then◌else◌,
}
use kauri_public.Base.Exec.{Result, ok, err, continue, need, modify, undefined, bind-rule}
use kauri_public.Crypto.Scheme.{Scheme}
use kauri_public.Entity.Config
use kauri_public.Core.State.{HotStuffCore, Vote, at, set_blk, update_hqc, on_qc_finish}
use kauri_public.Net.State.{HotStuffBase, on_core, with_core, is_proposer, put_cert}
use kauri_public.Net.Votes.{
  keys, has_subtree, confirm_piped, tidied, tidy_piped, relay_if, relay_up, inner_added, inner_vote,
  finish_blk, finish_if, root_added, root_vote, vote_checked,
}
use kauri_public.Net.Relays.Quorum.{update_hqc-from, on_qc_finish-hqc}

module _ {C : Scheme} where
  -- `hqc` stays, or is a copy of an aggregate for `b` of a certificate with a quorum, which verifies
  -- unless this is replica 0.
  pub data Raised (s : HotStuffCore C) (b : ℕ) (t : HotStuffCore C) : Type 0 where
    same : t.hqc ≡ s.hqc → Raised s b t
    raised :
        (q : C.QuorumCert)
        → t.hqc ≡ some (b, C.clone (C.compute q))
        → C.has_n s.config.nmajority q ≡ true
        → C.obj_hash q ≡ (at s b).hash
        → (s.id ≡ 0) ⊎ (C.verify (Config.get_pubkey s.config) (C.compute q) ≡ ok true)
        → Raised s b t

  finish_blk-hqc :
      (b : ℕ) (q : C.QuorumCert) (s : HotStuffCore C)
      → ((finish_blk b q s).1.hqc ≡ s.hqc) ⊎ ((finish_blk b q s).1.hqc ≡ some (b, C.clone q))
  unfolding finish_blk
  finish_blk-hqc b q s =
      bind-rule (λ r. (r.1.hqc ≡ s.hqc) ⊎ (r.1.hqc ≡ some (b, C.clone q))) (update_hqc b (some q))
        (λ _. modify (on_qc_finish b)) s
        (λ e t run. subst (λ r. (r.1.hqc ≡ s.hqc) ⊎ (r.1.hqc ≡ some (b, C.clone q))) run first)
        λ a t run.
          subst (λ h. (h ≡ s.hqc) ⊎ (h ≡ some (b, C.clone q))) (sym (on_qc_finish-hqc b t))
            (subst (λ r. (r.1.hqc ≡ s.hqc) ⊎ (r.1.hqc ≡ some (b, C.clone q))) run first)
    where
      given : (p : C.QuorumCert) → ◌≡◌ {A = Option C.QuorumCert} (some q) (some p) → q ≡ p
      given p e = cc

      first :
          ((update_hqc b (some q) s).1.hqc ≡ s.hqc)
          ⊎ ((update_hqc b (some q) s).1.hqc ≡ some (b, C.clone q))
      first = elim (update_hqc-from b (some q) s) [
        | inl old ↦ inl old
        | inr (p, e, new) ↦ inr (new ∙ ap (λ c. some (b, C.clone c)) (sym (given p e)))
      ]

  finish_blk-Raised :
      (s t : HotStuffCore C) (b : ℕ) (q : C.QuorumCert)
      → t.hqc ≡ s.hqc
      → C.has_n s.config.nmajority q ≡ true
      → C.obj_hash q ≡ (at s b).hash
      → (s.id ≡ 0) ⊎ (C.verify (Config.get_pubkey s.config) (C.compute q) ≡ ok true)
      → Raised s b (finish_blk b (C.compute q) t).1
  finish_blk-Raised s t b q old enough hash good = elim (finish_blk-hqc b (C.compute q) t) [
    | inl kept ↦ same (kept ∙ old)
    | inr new ↦ raised q new enough hash good
  ]

  finish_if-Raised :
      (s t : HotStuffCore C) (b : ℕ) (q : C.QuorumCert) (zeroth : Bool) (verdict : Result Bool)
      → t.hqc ≡ s.hqc
      → C.has_n s.config.nmajority q ≡ true
      → C.obj_hash q ≡ (at s b).hash
      → (s.id == 0) ≡ zeroth
      → C.verify (Config.get_pubkey s.config) (C.compute q) ≡ verdict
      → Raised s b (finish_if zeroth verdict b (C.compute q) t).1
  finish_if-Raised s t b q true verdict old enough hash zero run =
      finish_blk-Raised s t b q old enough hash (inl ((==_iff s.id 0).0 zero))
  finish_if-Raised s t b q false (err e) old enough hash zero run = same old
  finish_if-Raised s t b q false (ok false) old enough hash zero run = same old
  finish_if-Raised s t b q false (ok true) old enough hash zero run =
      finish_blk-Raised s t b q old enough hash (inr run)

  root_added-Raised :
      (s : HotStuffCore C) (b : ℕ) (o : Option C.QuorumCert) → Raised s b (root_added b o s).1
  unfolding set_blk
  root_added-Raised s b none = same refl
  root_added-Raised s b (some q) =
      elim (Bool-cases (C.obj_hash q == (at s b).hash && C.has_n s.config.nmajority q)) [
        | inl done ↦ rw done (
            finish_if-Raised s (put_cert b (C.compute q) s) b q (s.id == 0)
              (C.verify (Config.get_pubkey s.config) (C.compute q)) refl
              (both (C.obj_hash q == (at s b).hash) (C.has_n s.config.nmajority q) done).1
              ((==_iff (C.obj_hash q) (at s b).hash).0
                (both (C.obj_hash q == (at s b).hash) (C.has_n s.config.nmajority q) done).0)
              refl refl)
        | inr short ↦ rw short (same refl)
      ]
    where
      both : (x y : Bool) → x && y ≡ true → (x ≡ true) × (y ≡ true)
      both x y e = ground arith

  relay_if-hqc :
      (s : HotStuffCore C) (t : HotStuffBase C) (bad : Result (Unit {0})) (h : ℕ) (q : C.QuorumCert)
      (verdict : Result Bool)
      → t.core.hqc ≡ s.hqc
      → (relay_if bad h q verdict t).1.core.hqc ≡ s.hqc
  relay_if-hqc s t bad h q (err e) k = k
  relay_if-hqc s t bad h q (ok false) k = k
  relay_if-hqc s t bad h q (ok true) k = k

  tidied-hqc :
      (s : HotStuffCore C) (t : HotStuffBase C) (b h : ℕ) (q : C.QuorumCert) (r : Result (Unit {0}))
      → t.core.hqc ≡ s.hqc
      → (continue (with_core (tidied b r t.core) t) (λ _. relay_up (ok tt) b h q)).1.core.hqc
        ≡ s.hqc
  unfolding relay_up set_blk
  tidied-hqc s t b h q (err e) k = k
  tidied-hqc s t b h q (ok x) k =
      let u : HotStuffBase C = (with_core (tidied b (ok x) t.core) t).1 in
      relay_if-hqc s (record u { core = put_cert b (C.compute q) u.core }) (ok tt) h (C.compute q)
        (C.verify (keys u) (C.compute q)) k

  inner_added-hqc :
      (s : HotStuffBase C) (b h : ℕ) (o : Option C.QuorumCert)
      → (inner_added b h o s).1.core.hqc ≡ s.core.hqc
  unfolding tidy_piped set_blk
  inner_added-hqc s b h none = refl
  inner_added-hqc s b h (some q) =
      let t : HotStuffBase C = record s { core = put_cert b q s.core } in
      elim (Bool-cases (has_subtree s q)) [
        | inl full ↦
            rw full (tidied-hqc s.core t b h q (confirm_piped t.core t.core.piped_queue) refl)
        | inr short ↦ rw short refl
      ]

  voted_with-Raised :
      (s : HotStuffBase C) (b : ℕ) (v : Vote C) (o : Option C.QuorumCert)
      → Raised s.core b
          (continue (with_core (need o undefined s.core) s) (λ q t.
            if is_proposer t then on_core (root_vote b v q) t else inner_vote b v q t)).1.core
  unfolding root_vote inner_vote
  voted_with-Raised s b v none = same refl
  voted_with-Raised s b v (some q) = elim (Bool-cases (is_proposer s)) [
    | inl root ↦ rw root (root_added-Raised s.core b (C.add_part v.voter v.cert q))
    | inr inner ↦ elim (Bool-cases (has_subtree s q)) [
      | inl full ↦ rw inner (rw full (same refl))
      | inr short ↦
          rw inner (rw short (same (inner_added-hqc s b v.blk_hash (C.add_part v.voter v.cert q))))
    ]
  ]

  -- After a vote `hqc` is what it was, or a copy of the aggregate of a certificate for the block, with
  -- the hash of the block and with a quorum; and that aggregate verifies, unless the replica is 0.
  pub vote_checked-Raised :
      (s : HotStuffBase C) (b : ℕ) (v : Vote C) (valid : Bool)
      → Raised s.core b (vote_checked b v valid s).1.core
  unfolding vote_checked
  vote_checked-Raised s b v valid = voted_with-Raised s b v (at s.core b).self_qc
