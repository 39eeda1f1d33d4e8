-- ===== src/Core/Votes/Count.antt =====
-- What `on_receive_vote` leaves alone.
use kauri_public.Base.{
  ℕ, ◌≡◌, refl, sym, ◌∙◌, subst, inl, inr, not, Option, none, some, arith, ◌==◌, ==_iff, contains,
  set_insert, Bool-cases,
}
use kauri_public.Base.Exec.{bind-keeps, modify}
use kauri_public.Base.Maps
use kauri_public.Crypto.Scheme.{Scheme}
use kauri_public.Entity.Block.{Block}
use kauri_public.Entity.Storage
use kauri_public.Core.State.{
  HotStuffCore, Vote, resolve_qc, at, set_blk, update_hqc, on_qc_finish, resolve_waiting,
  get_delivered_blk, must_be_delivered,
}
use kauri_public.Core.Update.Monotone.{update_hqc-Advances, update_hqc-lock}
use kauri_public.Core.Update.Order.{committed, committed-silent}
use kauri_public.Core.Update.Decision.{update_hqc-Still}
use kauri_public.Core.Votes.{
  put_self_qc, has_quorum, self_qc_or_new, finish_qc, with_part, add_own_part, count_vote,
  take_vote, on_receive_vote,
}
use kauri_public.Core.Votes.Sent.{votes, votes-silent, update_hqc-Sent}

module _ {C : Scheme} where
  -- A block changes nothing but its certificates and its voters.
  pub record Settled (x y : Block C) : Type 0 where
    pub height : y.height ≡ x.height
    pub hash : y.hash ≡ x.hash
    pub parents : y.parents ≡ x.parents
    pub qc_ref : y.qc_ref ≡ x.qc_ref
    pub delivered : y.delivered ≡ x.delivered
    pub decision : y.decision ≡ x.decision

  pub Settled-refl : (x : Block C) → Settled x x
  Settled-refl x = record {
    height = refl;
    hash = refl;
    parents = refl;
    qc_ref = refl;
    delivered = refl;
    decision = refl;
  }

  Settled-trans : (x y z : Block C) → Settled x y → Settled y z → Settled x z
  Settled-trans x y z h k = record {
    height = k.height ∙ h.height;
    hash = k.hash ∙ h.hash;
    parents = k.parents ∙ h.parents;
    qc_ref = k.qc_ref ∙ h.qc_ref;
    delivered = k.delivered ∙ h.delivered;
    decision = k.decision ∙ h.decision;
  }

  -- No vote is sent and no block announced, the last vote and the lock stay, all blocks are settled.
  pub record Calm (s t : HotStuffCore C) : Type 0 where
    pub cells : (a : ℕ) → Settled (at s a) (at t a)
    pub sent : votes t.outbox ≡ votes s.outbox
    pub announced : committed t.outbox ≡ committed s.outbox
    pub vheight : t.vheight ≡ s.vheight
    pub lock : t.b_lock ≡ s.b_lock

  pub Calm-refl : (s : HotStuffCore C) → Calm s s
  Calm-refl s = record {
    cells = λ a. Settled-refl (at s a);
    sent = refl;
    announced = refl;
    vheight = refl;
    lock = refl;
  }

  set_blk-Settled :
      (b a : ℕ) (v : Block C) (u : HotStuffCore C)
      → Settled (at u b) v
      → Settled (at u a) (at (set_blk b v u) a)
  unfolding set_blk Storage.write
  set_blk-Settled b a v u e = elim (Bool-cases (a == b)) [
    | inl same ↦ rw same (subst (λ c. Settled (at u c) v) (sym ((==_iff a b).0 same)) e)
    | inr other ↦ rw other (Settled-refl (at u a))
  ]

  set_blk-Calm :
      (b : ℕ) (v : Block C) (s u : HotStuffCore C)
      → Settled (at u b) v
      → Calm s u
      → Calm s (set_blk b v u)
  unfolding set_blk
  set_blk-Calm b v s u e h = record {
    cells = λ a. Settled-trans (at s a) (at u a) _ (h.cells a) (set_blk-Settled b a v u e);
    sent = h.sent;
    announced = h.announced;
    vheight = h.vheight;
    lock = h.lock;
  }

  resolve_waiting-Calm :
      (b : ℕ) (o : Option ℕ) (s u : HotStuffCore C) → Calm s u → Calm s (resolve_waiting b o u)
  unfolding votes committed
  resolve_waiting-Calm b none s u h = h
  resolve_waiting-Calm b (some p) s u h = record {
    cells = h.cells;
    sent = votes-silent u.outbox (resolve_qc p) refl ∙ h.sent;
    announced = committed-silent u.outbox (resolve_qc p) refl ∙ h.announced;
    vheight = h.vheight;
    lock = h.lock;
  }

  update_hqc-Calm :
      (b : ℕ) (qc : Option C.QuorumCert) (s u : HotStuffCore C)
      → Calm s u
      → Calm s (update_hqc b qc u).1
  update_hqc-Calm b qc s u h =
      let same = update_hqc-Still u b qc u (record { heap = refl; exec = refl; out = refl }) in
      record {
        cells = λ a. subst (λ g. Settled (at s a) (g.cell a)) (sym same.heap) (h.cells a);
        sent = update_hqc-Sent (votes u.outbox) b qc u refl ∙ h.sent;
        announced = same.out ∙ h.announced;
        vheight = (update_hqc-Advances b qc u).vheight ∙ h.vheight;
        lock = update_hqc-lock b qc u ∙ h.lock;
      }

  put_self_qc-Calm :
      (b : ℕ) (qc : C.QuorumCert) (s u : HotStuffCore C) → Calm s u → Calm s (put_self_qc b qc u)
  put_self_qc-Calm b qc s u h =
      set_blk-Calm b (record (at u b) { self_qc = some qc }) s u
        (record {
          height = refl;
          hash = refl;
          parents = refl;
          qc_ref = refl;
          delivered = refl;
          decision = refl;
        })
        h

  finish_qc-Calm :
      (b : ℕ) (qc : C.QuorumCert) (s u : HotStuffCore C) → Calm s u → Calm s (finish_qc b qc u).1
  unfolding finish_qc on_qc_finish
  finish_qc-Calm b qc s u h =
      let v = put_self_qc b (C.compute qc) u in
      bind-keeps (Calm s) (update_hqc b (some (C.compute qc))) (λ _. modify (on_qc_finish b)) v
        (update_hqc-Calm b (some (C.compute qc)) s v (put_self_qc-Calm b (C.compute qc) s u h))
        λ _ w k. resolve_waiting-Calm b (Maps.find b w.waiting.qc_waiting) s w k

  with_part-Calm :
      (b : ℕ) (o : Option C.QuorumCert) (s u : HotStuffCore C)
      → Calm s u
      → Calm s (with_part b o u).1
  with_part-Calm b none s u h = h
  with_part-Calm b (some qc) s u h = elim (Bool-cases (C.has_n u.config.nmajority qc)) [
    | inl enough ↦
        rw enough (finish_qc-Calm b qc s (put_self_qc b qc u) (put_self_qc-Calm b qc s u h))
    | inr few ↦ rw few (put_self_qc-Calm b qc s u h)
  ]

  count_vote-Calm :
      (b : ℕ) (v : Vote C) (s u : HotStuffCore C) → Calm s u → Calm s (count_vote b v u).1
  unfolding count_vote add_own_part
  count_vote-Calm b v s u h = elim (Bool-cases (not (v.voter == u.id))) [
    | inl other ↦ rw other h
    | inr own ↦ elim (Bool-cases (has_quorum u (at u b).qc)) [
      | inl enough ↦ rw (own, enough) h
      | inr few ↦
          rw (own, few)
            (with_part-Calm b _ s (put_self_qc b (self_qc_or_new u b) u)
              (put_self_qc-Calm b (self_qc_or_new u b) s u h))
    ]
  ]

  take_vote-Calm :
      (b : ℕ) (v : Vote C) (s u : HotStuffCore C) → Calm s u → Calm s (take_vote b v u).1
  unfolding take_vote
  take_vote-Calm b v s u h = elim (Bool-cases (contains v.voter (at u b).voted)) [
    | inl twice ↦ rw twice h
    | inr once ↦ rw once (
        count_vote-Calm b v s _ (
          set_blk-Calm b (record (at u b) { voted = set_insert v.voter (at u b).voted }) s u
            (record {
              height = refl;
              hash = refl;
              parents = refl;
              qc_ref = refl;
              delivered = refl;
              decision = refl;
            })
            h))
  ]

  must_be_delivered-same : (o : Option ℕ) (s : HotStuffCore C) → (must_be_delivered o s).1 ≡ s
  must_be_delivered-same none s = refl
  must_be_delivered-same (some b) s = ground arith

  pub on_receive_vote-Calm : (v : Vote C) (s : HotStuffCore C) → Calm s (on_receive_vote v s).1
  unfolding on_receive_vote get_delivered_blk
  on_receive_vote-Calm v s =
      bind-keeps (Calm s) (get_delivered_blk v.blk_hash) (λ b. take_vote b v) s
        (rw (must_be_delivered-same (Storage.find_blk s.storage v.blk_hash) s) (Calm-refl s))
        λ b t k. take_vote-Calm b v s t k
