-- ===== src/Net/Relays/Quorum.antt =====
-- What waits in `rdy_queue` has a quorum, and only a certificate with a quorum raises `hqc`.
use kauri_public.Base.{
  true_ne_false, some_injective, ℕ, zero, suc, ◌≡◌, ◌≢◌, refl, sym, ◌∙◌, ap, subst, ◌⊎◌, inl, inr,
  Bool, true, false, Option, none, some, List, [], ◌∷◌, arith, ◌==◌, ==_iff, ltb, Bool-cases,
  contains, remove_first, All, All-remove_first, if◌then◌else◌,
}
use kauri_public.Base.Exec.{Result, ok, err, Exec, continue, modify, bind-rule, ◌>>◌}
use kauri_public.Base.Maps
use kauri_public.Crypto.Scheme.{Scheme}
use kauri_public.Entity.Storage
use kauri_public.Core.State.{
  HotStuffCore, at, set_blk, update_hqc, raise_hqc, set_hqc, on_hqc_update, on_qc_finish,
  resolve_waiting,
}
use kauri_public.Core.Deliver.Parents.{at-set_blk_ne}
use kauri_public.Net.State.{put_cert}
use kauri_public.Net.Relays.{find_ready, finish_ready, resolve_found, resolve_ready}
use kauri_public.Net.Relays.Queue.{
  Frame, update_hqc-Frame, on_qc_finish-Frame, Found, find_ready-Found, without, finish_ready-rule,
}

All-contains : (P : ℕ → Type 0) (h : ℕ) (xs : List ℕ) → All P xs → contains h xs ≡ true → P h
unfolding contains
All-contains P h [] all there = absurd (ground arith)
All-contains P h (x ∷ xs) all there = elim (Bool-cases (x == h)) [
  | inl same ↦ subst P ((==_iff x h).0 same) all.0
  | inr other ↦ All-contains P h xs all.1 (ground arith)
]

module _ {C : Scheme} where
  -- The block stored under `h` has a certificate of votes with a quorum.
  abbrev pub Certified : HotStuffCore C → ℕ → Type 0
  Certified s h =
      (b : ℕ) × (q : C.QuorumCert) × (Storage.find_blk s.storage h ≡ some b)
      × ((at s b).self_qc ≡ some q)
      × (C.has_n s.config.nmajority q ≡ true)

  -- `hqc` is what it was, or a copy of a certificate with a quorum.
  abbrev pub HqcFrom : HotStuffCore C → HotStuffCore C → Type 0
  HqcFrom s t =
      (t.hqc ≡ s.hqc)
      ⊎ ((b : ℕ) × (q : C.QuorumCert) × (t.hqc ≡ some (b, C.clone q))
          × (C.has_n s.config.nmajority q ≡ true))

  pub record Sound (s t : HotStuffCore C) : Type 0 where
    pub ready : All (Certified t) t.rdy_queue
    pub hqc : HqcFrom s t
    pub config : t.config ≡ s.config

  raise_hqc-from :
      (o : Option (ℕ × C.QuorumCert)) (b : ℕ) (qc : Option C.QuorumCert) (s : HotStuffCore C)
      → ((raise_hqc o b qc s).1.hqc ≡ s.hqc)
        ⊎ ((q : C.QuorumCert) × (qc ≡ some q) × ((raise_hqc o b qc s).1.hqc ≡ some (b, C.clone q)))
  unfolding on_hqc_update
  raise_hqc-from none b qc s = inl refl
  raise_hqc-from (some (top, cert)) b none s = inl (ground arith)
  raise_hqc-from (some (top, cert)) b (some q) s =
      elim (Bool-cases (ltb (at s top).height (at s b).height)) [
        | inl higher ↦ inr (
          q,
          refl,
          ap (λ (d : Bool). (if d then set_hqc b (some q) s else (ok tt, s)).1.hqc) higher,
        )
        | inr lower ↦
            inl (ap (λ (d : Bool). (if d then set_hqc b (some q) s else (ok tt, s)).1.hqc) lower)
      ]

  pub update_hqc-from :
      (b : ℕ) (qc : Option C.QuorumCert) (s : HotStuffCore C)
      → ((update_hqc b qc s).1.hqc ≡ s.hqc)
        ⊎ ((q : C.QuorumCert) × (qc ≡ some q) × ((update_hqc b qc s).1.hqc ≡ some (b, C.clone q)))
  unfolding update_hqc
  update_hqc-from b qc s = raise_hqc-from s.hqc b qc s

  pub on_qc_finish-hqc : (b : ℕ) (s : HotStuffCore C) → (on_qc_finish b s).hqc ≡ s.hqc
  unfolding on_qc_finish
  on_qc_finish-hqc b s = go (Maps.find b s.waiting.qc_waiting)
    where
      go : (o : Option ℕ) → (resolve_waiting b o s).hqc ≡ s.hqc
      go none = refl
      go (some p) = refl

  Certified-same :
      (s t : HotStuffCore C) (h : ℕ)
      → t.heap ≡ s.heap
      → t.storage ≡ s.storage
      → t.config ≡ s.config
      → Certified s h
      → Certified t h
  Certified-same s t h heap storage config (b, q, stored, carried, enough) = (
    b,
    q,
    ap (λ g. Storage.find_blk g h) storage ∙ stored,
    ap (λ g. (g.cell b).self_qc) heap ∙ carried,
    ap (λ c. C.has_n c.nmajority q) config ∙ enough,
  )

  All-Certified :
      (s t : HotStuffCore C) (hs : List ℕ)
      → t.heap ≡ s.heap
      → t.storage ≡ s.storage
      → t.config ≡ s.config
      → All (Certified s) hs
      → All (Certified t) hs
  All-Certified s t [] heap storage config h = tt
  All-Certified s t (x ∷ hs) heap storage config h =
      (Certified-same s t x heap storage config h.0, All-Certified s t hs heap storage config h.1)

  pub Sound-Frame : (s t u : HotStuffCore C) → Frame t u → HqcFrom s u → Sound s t → Sound s u
  Sound-Frame s t u f hqc h = record {
    ready =
        subst (All (Certified u)) (sym f.rdy)
          (All-Certified t u t.rdy_queue f.heap f.storage f.config h.ready);
    hqc = hqc;
    config = f.config ∙ h.config;
  }

  -- A certificate with a quorum may raise `hqc`.
  pub update_hqc-Sound :
      (s t : HotStuffCore C) (b : ℕ) (qc : Option C.QuorumCert)
      → ((q : C.QuorumCert) → qc ≡ some q → C.has_n s.config.nmajority q ≡ true)
      → Sound s t
      → Sound s (update_hqc b qc t).1
  update_hqc-Sound s t b qc enough h =
      Sound-Frame s t (update_hqc b qc t).1 (update_hqc-Frame b qc t)
        (elim (update_hqc-from b qc t) [
          | inl same ↦ elim h.hqc [
            | inl old ↦ inl (same ∙ old)
            | inr (c, q, e, n) ↦ inr (c, q, same ∙ e, n)
          ]
          | inr (q, e, new) ↦ inr (b, q, new, enough q e)
        ])
        h

  on_qc_finish-Sound : (s t : HotStuffCore C) (b : ℕ) → Sound s t → Sound s (on_qc_finish b t)
  on_qc_finish-Sound s t b h =
      Sound-Frame s t (on_qc_finish b t) (on_qc_finish-Frame b t)
        (elim h.hqc [
          | inl old ↦ inl (on_qc_finish-hqc b t ∙ old)
          | inr (c, q, e, n) ↦ inr (c, q, on_qc_finish-hqc b t ∙ e, n)
        ])
        h

  pub finish-Sound :
      (s t : HotStuffCore C) (b : ℕ) (qc : Option C.QuorumCert)
      → ((q : C.QuorumCert) → qc ≡ some q → C.has_n s.config.nmajority q ≡ true)
      → Sound s t
      → Sound s ((update_hqc b qc >> modify (on_qc_finish b)) t).1
  finish-Sound s t b qc enough h =
      bind-rule (λ r. Sound s r.1) (update_hqc b qc) (λ _. modify (on_qc_finish b)) t
        (λ e u run. subst (λ r. Sound s r.1) run (update_hqc-Sound s t b qc enough h))
        λ a u run.
          on_qc_finish-Sound s u b
            (subst (λ r. Sound s r.1) run (update_hqc-Sound s t b qc enough h))

  without-Sound : (s t : HotStuffCore C) (h : ℕ) → Sound s t → Sound s (without h t)
  without-Sound s t h k = record {
    ready =
        All-Certified t (without h t) (remove_first h t.rdy_queue) refl refl refl
          (All-remove_first (Certified t) h t.rdy_queue k.ready);
    hqc = k.hqc;
    config = k.config;
  }

  finish_ready-Sound :
      (s t : HotStuffCore C) (parent h b : ℕ)
      → Found t parent t.rdy_queue h b
      → Sound s t
      → Sound s (finish_ready h b t).1
  finish_ready-Sound s t parent h b f k =
      finish_ready-rule (λ r. Sound s r.1) h b t k
        λ r u e. go r u (
          subst (λ r. Sound s r.1) e
            (update_hqc-Sound s (without h t) b (at t b).self_qc enough (without-Sound s t h k)))
    where
      enough : (q : C.QuorumCert) → (at t b).self_qc ≡ some q → C.has_n s.config.nmajority q ≡ true
      enough q e =
          let (c, q', stored, carried, n) =
            All-contains (Certified t) h t.rdy_queue k.ready f.waiting in
          let same_b : c ≡ b = some_injective c b (sym stored ∙ f.stored) in
          let same_q : q' ≡ q =
            some_injective q' q (sym carried ∙ ap (λ a. (at t a).self_qc) same_b ∙ e) in
          ap (λ c. C.has_n c.nmajority q) (sym k.config)
          ∙ ap (C.has_n t.config.nmajority) (sym same_q)
          ∙ n

      go :
          (r : Result (Unit {0})) (u : HotStuffCore C)
          → Sound s u
          → Sound s (continue (r, u) (λ _ v. (ok (tt {0}), on_qc_finish b v))).1
      go (err x) u h' = h'
      go (ok y) u h' = on_qc_finish-Sound s u b h'

  resolve_found-Sound :
      (s t : HotStuffCore C) (parent : ℕ) (r : Result (Option (ℕ × ℕ)))
      (k : ℕ → Exec (HotStuffCore C) (Unit {0}))
      → find_ready t parent t.rdy_queue ≡ r
      → ((b : ℕ) (u : HotStuffCore C) → Sound s u → Sound s (k b u).1)
      → Sound s t
      → Sound s (resolve_found r k t).1
  resolve_found-Sound s t parent (err e) k found ih h = h
  resolve_found-Sound s t parent (ok none) k found ih h = h
  resolve_found-Sound s t parent (ok (some (x, b))) k found ih h =
      let round =
        finish_ready-Sound s t parent x b (find_ready-Found t parent t.rdy_queue x b found) h in
      bind-rule (λ r. Sound s r.1) (finish_ready x b) (λ _. k b) t
        (λ e u run. subst (λ r. Sound s r.1) run round)
        λ a u run. ih b u (subst (λ r. Sound s r.1) run round)

  pub resolve_ready-Sound :
      (fuel b : ℕ) (s t : HotStuffCore C) → Sound s t → Sound s (resolve_ready fuel b t).1
  unfolding resolve_ready
  resolve_ready-Sound zero b s t h = h
  resolve_ready-Sound (suc fuel) b s t h =
      resolve_found-Sound s t (at t b).hash (find_ready t (at t b).hash t.rdy_queue)
        (resolve_ready fuel) refl (λ c u k. resolve_ready-Sound fuel c s u k) h

  -- A block whose certificate has no quorum does not wait: it may be written.
  others-Certified :
      (s t : HotStuffCore C) (b h : ℕ) (old : C.QuorumCert)
      → ((c : ℕ) → c ≢ b → at t c ≡ at s c)
      → t.storage ≡ s.storage
      → t.config ≡ s.config
      → (at s b).self_qc ≡ some old
      → C.has_n s.config.nmajority old ≡ false
      → Certified s h
      → Certified t h
  others-Certified s t b h old others storage config carried few (c, q, stored, own, enough) =
      elim (Bool-cases (c == b)) [
        | inl same ↦
            let e : (at s c).self_qc ≡ some old =
              ap (λ a. (at s a).self_qc) ((==_iff c b).0 same) ∙ carried in
            absurd (
              true_ne_false (
                sym enough
                ∙ ap (C.has_n s.config.nmajority) (some_injective q old (sym own ∙ e))
                ∙ few))
        | inr other ↦
            let ne : c ≢ b = λ e. ground arith in
            (
              c,
              q,
              ap (λ g. Storage.find_blk g h) storage ∙ stored,
              ap (λ v. v.self_qc) (others c ne) ∙ own,
              ap (λ g. C.has_n g.nmajority q) config ∙ enough,
            )
      ]

  All-others :
      (s t : HotStuffCore C) (b : ℕ) (old : C.QuorumCert) (hs : List ℕ)
      → ((c : ℕ) → c ≢ b → at t c ≡ at s c)
      → t.storage ≡ s.storage
      → t.config ≡ s.config
      → (at s b).self_qc ≡ some old
      → C.has_n s.config.nmajority old ≡ false
      → All (Certified s) hs
      → All (Certified t) hs
  All-others s t b old [] others storage config carried few h = tt
  All-others s t b old (x ∷ hs) others storage config carried few h = (
    others-Certified s t b x old others storage config carried few h.0,
    All-others s t b old hs others storage config carried few h.1,
  )

  at-put_cert_ne :
      (s : HotStuffCore C) (b : ℕ) (q : C.QuorumCert) (c : ℕ)
      → c ≢ b
      → at (put_cert b q s) c ≡ at s c
  at-put_cert_ne s b q c ne = at-set_blk_ne c b (record (at s b) { self_qc = some q }) s ne

  pub put_cert-Sound :
      (s : HotStuffCore C) (b : ℕ) (q old : C.QuorumCert)
      → (at s b).self_qc ≡ some old
      → C.has_n s.config.nmajority old ≡ false
      → All (Certified s) s.rdy_queue
      → Sound s (put_cert b q s)
  unfolding set_blk
  put_cert-Sound s b q old carried few h = record {
    ready =
        All-others s (put_cert b q s) b old s.rdy_queue (at-put_cert_ne s b q) refl refl carried few
          h;
    hqc = inl refl;
    config = refl;
  }

  pub put_certs-Sound :
      (s : HotStuffCore C) (b : ℕ) (q q' old : C.QuorumCert)
      → (at s b).self_qc ≡ some old
      → C.has_n s.config.nmajority old ≡ false
      → All (Certified s) s.rdy_queue
      → Sound s (put_cert b q' (put_cert b q s))
  unfolding set_blk
  put_certs-Sound s b q q' old carried few h = record {
    ready =
        All-others s (put_cert b q' (put_cert b q s)) b old s.rdy_queue
          (λ c ne. at-put_cert_ne (put_cert b q s) b q' c ne ∙ at-put_cert_ne s b q c ne) refl refl
          carried few h;
    hqc = inl refl;
    config = refl;
  }
