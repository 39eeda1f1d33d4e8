-- ===== src/Net/Sends.antt =====
-- What `vote_handler` and `vote_relay_handler` send up the tree.
use kauri_public.Base.{
  ℕ, ◌≡◌, refl, sym, ◌∙◌, ap, inl, inr, Bool, true, false, Option, none, some, [], ◌∷◌, ◌++◌,
  Bool-cases, if◌then◌else◌,
}
use kauri_public.Base.Exec.{Result, ok, err, continue, need, undefined, invalid_signature}
use kauri_public.Crypto.Scheme.{Scheme}
use kauri_public.Entity.Config
use kauri_public.Core.State.{Vote, at, set_blk}
use kauri_public.Wire.Messages.{VoteRelay}
use kauri_public.Net.State.{
  HotStuffBase, Send, send_relay, on_core, with_core, is_proposer, put_cert,
}
use kauri_public.Net.Votes.{
  keys, has_subtree, confirm_piped, tidied, tidy_piped, relay_if, relay_up, inner_added, inner_vote,
  root_vote, vote_checked,
}
use kauri_public.Net.Relays.{inner_merged, merged, takes_relay, relay_into, relay_checked}

-- What a certificate becomes, where there is one.
abbrev pub Becomes : {A : Type 0} → (A → Option A) → Option A → A → Type 0
Becomes {A} change old q = (c : A) × (old ≡ some c) × (change c ≡ some q)

module _ {C : Scheme} where
  -- A copy of `q`, for the block with the hash `h`, to the parent.
  abbrev pub relayed : HotStuffBase C → ℕ → C.QuorumCert → Send C
  relayed s h q = send_relay (record { blk_hash = h; cert = C.clone q }) s.parent_peer

  -- Nothing was sent; or a replica that is not the proposer sent one relay, of the aggregate of what
  -- the block's certificate has become, with more than `number_of_children` signers, where this
  -- verifies.
  pub data Sent (s : HotStuffBase C) (b h : ℕ) (change : C.QuorumCert → Option C.QuorumCert)
      (t : HotStuffBase C) : Type 0 where
    nothing : t.sends ≡ s.sends → Sent s b h change t
    one_relay :
        (q : C.QuorumCert)
        → t.sends ≡ s.sends ++ relayed s h (C.compute q) ∷ []
        → is_proposer s ≡ false
        → has_subtree s q ≡ true
        → C.verify (keys s) (C.compute q) ≡ ok true
        → Becomes change (at s.core b).self_qc q
        → Sent s b h change t

  module _ (change : C.QuorumCert → Option C.QuorumCert) (s : HotStuffBase C) (b h : ℕ) where
    relay_if-Sent :
        (t : HotStuffBase C) (bad : Result (Unit {0})) (q : C.QuorumCert) (verdict : Result Bool)
        → t.sends ≡ s.sends
        → t.parent_peer ≡ s.parent_peer
        → is_proposer s ≡ false
        → has_subtree s q ≡ true
        → Becomes change (at s.core b).self_qc q
        → C.verify (keys s) (C.compute q) ≡ verdict
        → Sent s b h change (relay_if bad h (C.compute q) verdict t).1
    relay_if-Sent t bad q (err e) same parent inner full w run = nothing same
    relay_if-Sent t bad q (ok false) same parent inner full w run = nothing same
    relay_if-Sent t bad q (ok true) same parent inner full w run =
        one_relay q
          (ap (λ xs. xs ++ relayed t h (C.compute q) ∷ []) same
            ∙ ap
                (λ p.
                  s.sends
                  ++ send_relay (record { blk_hash = h; cert = C.clone (C.compute q) }) p ∷ [])
                parent)
          inner full run w

    inner_merged-Sent :
        (q : C.QuorumCert)
        → is_proposer s ≡ false
        → Becomes change (at s.core b).self_qc q
        → Sent s b h change (inner_merged b h q s).1
    unfolding inner_merged relay_up set_blk
    inner_merged-Sent q inner w = elim (Bool-cases (has_subtree s q)) [
      | inl full ↦ rw full (
          relay_if-Sent (record s { core = put_cert b (C.compute q) (put_cert b q s.core) })
            (err invalid_signature) q (C.verify (keys s) (C.compute q)) refl refl inner full w refl)
      | inr short ↦ rw short (nothing refl)
    ]

    merged-Sent :
        (o : Option C.QuorumCert)
        → ((q : C.QuorumCert) → o ≡ some q → Becomes change (at s.core b).self_qc q)
        → Sent s b h change (merged b h o s).1
    merged-Sent none w = nothing refl
    merged-Sent (some q) w = elim (Bool-cases (is_proposer s)) [
      | inl root ↦ rw root (nothing refl)
      | inr inner ↦ rw inner (inner_merged-Sent q inner (w q refl))
    ]

    -- The block's own changes of the core keep what a relay depends on.
    relay_up-Sent :
        (t : HotStuffBase C) (bad : Result (Unit {0})) (q : C.QuorumCert)
        → t.sends ≡ s.sends
        → t.parent_peer ≡ s.parent_peer
        → t.core.config ≡ s.core.config
        → is_proposer s ≡ false
        → has_subtree s q ≡ true
        → Becomes change (at s.core b).self_qc q
        → Sent s b h change (relay_up bad b h q t).1
    unfolding relay_up set_blk
    relay_up-Sent t bad q same parent config inner full w =
        relay_if-Sent (record t { core = put_cert b (C.compute q) t.core }) bad q
          (C.verify (keys t) (C.compute q)) same parent inner full w
          (ap (λ g. C.verify (Config.get_pubkey g) (C.compute q)) (sym config))

    tidied-Sent :
        (t : HotStuffBase C) (q : C.QuorumCert) (r : Result (Unit {0}))
        → t.sends ≡ s.sends
        → t.parent_peer ≡ s.parent_peer
        → t.core.config ≡ s.core.config
        → is_proposer s ≡ false
        → has_subtree s q ≡ true
        → Becomes change (at s.core b).self_qc q
        → Sent s b h change
            (continue (with_core (tidied b r t.core) t) (λ _. relay_up (ok tt) b h q)).1
    tidied-Sent t q (err e) same parent config inner full w = nothing same
    tidied-Sent t q (ok x) same parent config inner full w =
        relay_up-Sent (with_core (tidied b (ok x) t.core) t).1 (ok tt) q same parent config inner
          full w

    inner_added-Sent :
        (o : Option C.QuorumCert)
        → is_proposer s ≡ false
        → ((q : C.QuorumCert) → o ≡ some q → Becomes change (at s.core b).self_qc q)
        → Sent s b h change (inner_added b h o s).1
    unfolding tidy_piped set_blk
    inner_added-Sent none inner w = nothing refl
    inner_added-Sent (some q) inner w =
        let t : HotStuffBase C = record s { core = put_cert b q s.core } in
        elim (Bool-cases (has_subtree s q)) [
          | inl full ↦ rw full (
              tidied-Sent t q (confirm_piped t.core t.core.piped_queue) refl refl refl inner full
                (w q refl))
          | inr short ↦ rw short (nothing refl)
        ]

  relay_into-Sent :
      (s : HotStuffBase C) (b : ℕ) (v : VoteRelay C) (o : Option C.QuorumCert)
      → (at s.core b).self_qc ≡ o
      → Sent s b v.blk_hash (C.merge_quorum v.cert) (relay_into b v o s).1
  relay_into-Sent s b v none e = nothing refl
  relay_into-Sent s b v (some c) e = elim (Bool-cases (takes_relay s b c)) [
    | inl takes ↦ rw takes (
        merged-Sent (C.merge_quorum v.cert) s b v.blk_hash (C.merge_quorum v.cert c)
          (λ q made. (c, e, made)))
    | inr stays ↦ rw stays (nothing refl)
  ]

  -- A relay makes a replica send nothing, or one relay for the same block to its parent, if it is not
  -- the proposer. What it sends is a copy of the aggregate of the block's certificate merged with the
  -- one in the relay, which verifies, where the merge counts at least `number_of_children + 1` signers.
  pub relay_checked-Sent :
      (s : HotStuffBase C) (b : ℕ) (v : VoteRelay C) (valid : Bool)
      → Sent s b v.blk_hash (C.merge_quorum v.cert) (relay_checked b v valid s).1
  unfolding relay_checked
  relay_checked-Sent s b v valid = relay_into-Sent s b v (at s.core b).self_qc refl

  inner_vote-Sent :
      (s : HotStuffBase C) (b : ℕ) (v : Vote C) (c : C.QuorumCert)
      → (at s.core b).self_qc ≡ some c
      → is_proposer s ≡ false
      → Sent s b v.blk_hash (C.add_part v.voter v.cert) (inner_vote b v c s).1
  unfolding inner_vote
  inner_vote-Sent s b v c e inner = elim (Bool-cases (has_subtree s c)) [
    | inl full ↦ rw full (nothing refl)
    | inr short ↦ rw short (
        inner_added-Sent (C.add_part v.voter v.cert) s b v.blk_hash (C.add_part v.voter v.cert c)
          inner (λ q made. (c, e, made)))
  ]

  voted_with-Sent :
      (s : HotStuffBase C) (b : ℕ) (v : Vote C) (o : Option C.QuorumCert)
      → (at s.core b).self_qc ≡ o
      → Sent s b v.blk_hash
          (C.add_part v.voter v.cert)
          (continue
            (with_core (need o undefined s.core) s)
            (λ q t. if is_proposer t then on_core (root_vote b v q) t else inner_vote b v q t)).1
  voted_with-Sent s b v none e = nothing refl
  voted_with-Sent s b v (some c) e = elim (Bool-cases (is_proposer s)) [
    | inl root ↦ rw root (nothing refl)
    | inr inner ↦ rw inner (inner_vote-Sent s b v c e inner)
  ]

  -- A vote makes a replica send nothing, or one relay for the voted block to its parent, if it is not
  -- the proposer. What it sends is a copy of the aggregate of the block's certificate with the vote
  -- added, which verifies, where the certificate then counts at least `number_of_children + 1` signers.
  pub vote_checked-Sent :
      (s : HotStuffBase C) (b : ℕ) (v : Vote C) (valid : Bool)
      → Sent s b v.blk_hash (C.add_part v.voter v.cert) (vote_checked b v valid s).1
  unfolding vote_checked
  vote_checked-Sent s b v valid = voted_with-Sent s b v (at s.core b).self_qc refl
