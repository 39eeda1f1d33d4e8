-- ===== src/Net/Relays/Checked.antt =====
-- Which certificates `vote_relay_handler` may raise `hqc` with.
use kauri_public.Base.{
  ℕ, ◌+◌, ◌≡◌, refl, ◌∙◌, sym, ap, subst, Bool, true, false, not, ◌&&◌, ◌||◌, Option, none, some,
  List, [], ◌∷◌, ◌++◌, arith, ◌==◌, Bool-cases, contains, length, All, All-append, inl, inr,
}
use kauri_public.Base.Exec.{Result, ok, err, invalid_signature, bind-rule, ◌>>◌}
use kauri_public.Crypto.Scheme.{Scheme}
use kauri_public.Entity.Config
use kauri_public.Entity.Storage
use kauri_public.Core.State.{HotStuffCore, at, set_blk}
use kauri_public.Core.Deliver.Parents.{at-set_blk}
use kauri_public.Wire.Messages.{VoteRelay}
use kauri_public.Net.State.{HotStuffBase, is_proposer, put_cert}
use kauri_public.Net.Votes.{has_subtree, relay_up, relay_if, finish_blk}
use kauri_public.Net.Relays.{
  resolve_all, finish_in_order, finish_verified, root_merged, inner_merged, merged, takes_relay,
  relay_into, relay_checked,
}
use kauri_public.Net.Relays.Quorum.{
  Certified, Sound, finish-Sound, resolve_ready-Sound, put_cert-Sound, put_certs-Sound,
}

module _ {C : Scheme} where
  same-Sound : (s : HotStuffCore C) → All (Certified s) s.rdy_queue → Sound s s
  same-Sound s h = record { ready = h; hqc = inl refl; config = refl }

  finish_blk-Sound :
      (s t : HotStuffCore C) (b : ℕ) (q : C.QuorumCert)
      → C.has_n s.config.nmajority q ≡ true
      → Sound s t
      → Sound s (finish_blk b q t).1
  unfolding finish_blk
  finish_blk-Sound s t b q enough h =
      finish-Sound s t b (some q)
        (λ q' e. ap (C.has_n s.config.nmajority) (sym (same q q' e)) ∙ enough) h
    where
      same : (q q' : C.QuorumCert) → ◌≡◌ {A = Option C.QuorumCert} (some q) (some q') → q ≡ q'
      same q q' e = cc

  with_piped-Sound :
      (s t : HotStuffCore C) (xs : List ℕ) → Sound s t → Sound s (record t { piped_queue = xs })
  with_piped-Sound s t xs h = record { ready = h.ready; hqc = h.hqc; config = h.config }

  finish_front-Sound :
      (s t : HotStuffCore C) (b : ℕ) (q : C.QuorumCert)
      → C.has_n s.config.nmajority q ≡ true
      → Sound s t
      → Sound s ((finish_blk b q >> resolve_all b) t).1
  finish_front-Sound s t b q enough h =
      bind-rule (λ r. Sound s r.1) (finish_blk b q) (λ _. resolve_all b) t
        (λ e u run. subst (λ r. Sound s r.1) run (finish_blk-Sound s t b q enough h))
        λ a u run.
          resolve_ready-Sound (length u.rdy_queue + 1) b s u
            (subst (λ r. Sound s r.1) run (finish_blk-Sound s t b q enough h))

  push_ready-Sound :
      (s t : HotStuffCore C) (h : ℕ)
      → Certified t h
      → Sound s t
      → Sound s (record t { rdy_queue = t.rdy_queue ++ h ∷ [] })
  push_ready-Sound s t h c k = record {
    ready = All-append (Certified t) t.rdy_queue (h ∷ []) k.ready (c, tt);
    hqc = k.hqc;
    config = k.config;
  }

  finish_in_order-Sound :
      (s t : HotStuffCore C) (b : ℕ) (q : C.QuorumCert) (xs : List ℕ)
      → C.has_n s.config.nmajority q ≡ true
      → Certified t (at t b).hash
      → Sound s t
      → Sound s (finish_in_order b q xs t).1
  finish_in_order-Sound s t b q [] enough own h = finish_blk-Sound s t b q enough h
  finish_in_order-Sound s t b q (x ∷ xs) enough own h = elim (Bool-cases ((at t b).hash == x)) [
    | inl front ↦ rw front (
        finish_front-Sound s (record t { piped_queue = xs }) b q enough (with_piped-Sound s t xs h))
    | inr behind ↦ elim (Bool-cases (contains (at t b).hash (x ∷ xs))) [
      | inl waits ↦ rw behind (rw waits (push_ready-Sound s t (at t b).hash own h))
      | inr away ↦ rw behind (rw away (finish_blk-Sound s t b q enough h))
    ]
  ]

  finish_verified-Sound :
      (s t : HotStuffCore C) (b : ℕ) (q : C.QuorumCert) (verdict : Result Bool)
      → C.has_n s.config.nmajority q ≡ true
      → Certified t (at t b).hash
      → Sound s t
      → Sound s (finish_verified b q verdict t).1
  finish_verified-Sound s t b q (err e) enough own h = h
  finish_verified-Sound s t b q (ok false) enough own h = h
  finish_verified-Sound s t b q (ok true) enough own h =
      finish_in_order-Sound s t b q t.piped_queue enough own h

  -- The block with its new certificate.
  own-Certified :
      (s : HotStuffCore C) (b : ℕ) (q : C.QuorumCert)
      → Storage.find_blk s.storage (at s b).hash ≡ some b
      → C.has_n s.config.nmajority q ≡ true
      → Certified (put_cert b q s) (at (put_cert b q s) b).hash
  unfolding set_blk
  own-Certified s b q stored enough =
      let now = at-set_blk b (record (at s b) { self_qc = some q }) s in
      (
        b,
        q,
        ap (λ v. Storage.find_blk s.storage v.hash) now ∙ stored,
        ap (λ v. v.self_qc) now,
        enough,
      )

  root_merged-Sound :
      (s : HotStuffCore C) (b : ℕ) (q old : C.QuorumCert)
      → (C.has_n s.config.nmajority q ≡ true → C.has_n s.config.nmajority (C.compute q) ≡ true)
      → Storage.find_blk s.storage (at s b).hash ≡ some b
      → (at s b).self_qc ≡ some old
      → C.has_n s.config.nmajority old ≡ false
      → All (Certified s) s.rdy_queue
      → Sound s (root_merged b q s).1
  unfolding root_merged
  root_merged-Sound s b q old law stored carried few h =
      elim (Bool-cases (C.has_n s.config.nmajority q)) [
        | inl enough ↦ rw enough (
            finish_verified-Sound s (put_cert b (C.compute q) s) b (C.compute q)
              (C.verify (Config.get_pubkey s.config) (C.compute q)) (law enough)
              (own-Certified s b (C.compute q) stored (law enough))
              (put_cert-Sound s b (C.compute q) old carried few h))
        | inr short ↦ rw short (put_cert-Sound s b q old carried few h)
      ]

  relay_if-Sound :
      (s : HotStuffCore C) (bad : Result (Unit {0})) (h : ℕ) (q : C.QuorumCert)
      (verdict : Result Bool) (t : HotStuffBase C)
      → Sound s t.core
      → Sound s (relay_if bad h q verdict t).1.core
  relay_if-Sound s bad h q (err e) t k = k
  relay_if-Sound s bad h q (ok false) t k = k
  relay_if-Sound s bad h q (ok true) t k = k

  inner_merged-Sound :
      (s : HotStuffBase C) (b h : ℕ) (q old : C.QuorumCert)
      → (at s.core b).self_qc ≡ some old
      → C.has_n s.core.config.nmajority old ≡ false
      → All (Certified s.core) s.core.rdy_queue
      → Sound s.core (inner_merged b h q s).1.core
  unfolding inner_merged relay_up set_blk
  inner_merged-Sound s b h q old carried few waiting = elim (Bool-cases (has_subtree s q)) [
    | inl full ↦ rw full (
        relay_if-Sound s.core (err invalid_signature) h (C.compute q)
          (C.verify (Config.get_pubkey s.core.config) (C.compute q))
          (record s { core = put_cert b (C.compute q) (put_cert b q s.core) })
          (put_certs-Sound s.core b q (C.compute q) old carried few waiting))
    | inr short ↦ rw short (put_cert-Sound s.core b q old carried few waiting)
  ]

  merged-Sound :
      (s : HotStuffBase C) (b h : ℕ) (o : Option C.QuorumCert) (old : C.QuorumCert)
      → ((q : C.QuorumCert)
          → C.has_n s.core.config.nmajority q ≡ true
          → C.has_n s.core.config.nmajority (C.compute q) ≡ true)
      → Storage.find_blk s.core.storage (at s.core b).hash ≡ some b
      → (at s.core b).self_qc ≡ some old
      → C.has_n s.core.config.nmajority old ≡ false
      → All (Certified s.core) s.core.rdy_queue
      → Sound s.core (merged b h o s).1.core
  merged-Sound s b h none old law stored carried few waiting = same-Sound s.core waiting
  merged-Sound s b h (some q) old law stored carried few waiting =
      elim (Bool-cases (is_proposer s)) [
        | inl root ↦ rw root (root_merged-Sound s.core b q old (law q) stored carried few waiting)
        | inr inner ↦ rw inner (inner_merged-Sound s b h q old carried few waiting)
      ]

  relay_into-Sound :
      (s : HotStuffBase C) (b : ℕ) (v : VoteRelay C) (o : Option C.QuorumCert)
      → ((q : C.QuorumCert)
          → C.has_n s.core.config.nmajority q ≡ true
          → C.has_n s.core.config.nmajority (C.compute q) ≡ true)
      → Storage.find_blk s.core.storage (at s.core b).hash ≡ some b
      → (at s.core b).self_qc ≡ o
      → All (Certified s.core) s.core.rdy_queue
      → Sound s.core (relay_into b v o s).1.core
  relay_into-Sound s b v none law stored carried waiting = same-Sound s.core waiting
  relay_into-Sound s b v (some q) law stored carried waiting =
      elim (Bool-cases (takes_relay s b q)) [
        | inl takes ↦ rw takes (
            merged-Sound s b v.blk_hash (C.merge_quorum v.cert q) q law stored carried
              (no_quorum (C.obj_hash q == (at s.core b).hash) (C.has_n s.core.config.nmajority q)
                (is_proposer s || not (has_subtree s q)) takes)
              waiting)
        | inr stays ↦ rw stays (same-Sound s.core waiting)
      ]
    where
      no_quorum : (x y z : Bool) → (x && not y) && z ≡ true → y ≡ false
      no_quorum x true z e = ground arith
      no_quorum x false z e = refl

  -- If aggregation keeps a quorum, the block is stored under its hash, and the blocks in `rdy_queue`
  -- are stored and have certificates with a quorum: after a relay they still do, `hqc` is what it was
  -- or a copy of a certificate with a quorum, and the configuration is the same, whatever the verdict.
  pub relay_checked-Sound :
      (s : HotStuffBase C) (b : ℕ) (v : VoteRelay C) (valid : Bool)
      → ((q : C.QuorumCert)
          → C.has_n s.core.config.nmajority q ≡ true
          → C.has_n s.core.config.nmajority (C.compute q) ≡ true)
      → Storage.find_blk s.core.storage (at s.core b).hash ≡ some b
      → All (Certified s.core) s.core.rdy_queue
      → Sound s.core (relay_checked b v valid s).1.core
  unfolding relay_checked
  relay_checked-Sound s b v valid law stored waiting =
      relay_into-Sound s b v (at s.core b).self_qc law stored refl waiting
