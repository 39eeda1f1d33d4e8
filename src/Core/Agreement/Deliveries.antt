-- ===== src/Core/Agreement/Deliveries.antt =====
-- What `on_deliver_blk` of src/consensus.cpp leaves alone, whether it returns or throws.
use kauri_public.Base.{
  ℕ, ◌≡◌, refl, sym, ◌∙◌, subst, inl, inr, Bool, true, false, Option, none, some, List, [], ◌∷◌,
  ◌==◌, ==_iff, contains, ltb, add32, Bool-cases, if◌then◌else◌,
}
use kauri_public.Base.Exec.{Result, ok, err, bind-keeps, modify, pure, lift, ◌>>=◌}
use kauri_public.Crypto.Scheme.{Scheme}
use kauri_public.Entity.Block.{Block, first_of_list}
use kauri_public.Entity.Storage
use kauri_public.Core.State.{
  HotStuffCore, at, blk_at, set_blk, get_delivered_blk, must_be_delivered, gettimeofday,
}
use kauri_public.Core.Deliver.{
  push_parent, deliver_parent, deliver_parents, set_height, set_qc_ref, mark_delivered, record_time,
  deliver, on_deliver_blk, pointer, fetched_or_throw,
}
use kauri_public.Core.Update.Order.{committed}
use kauri_public.Core.Votes.Sent.{votes}

module _ {C : Scheme} where
  -- No hash and no decision changes, and delivered blocks stay so.
  pub record Stays (x y : Block C) : Type 0 where
    pub hash : y.hash ≡ x.hash
    pub decision : y.decision ≡ x.decision
    pub delivered : x.delivered ≡ true → y.delivered ≡ true

  -- Nor do the votes, the last of them, and the lock.
  pub record Frame (s t : HotStuffCore C) : Type 0 where
    pub cells : (a : ℕ) → Stays (at s a) (at t a)
    pub sent : votes t.outbox ≡ votes s.outbox
    pub announced : committed t.outbox ≡ committed s.outbox
    pub vheight : t.vheight ≡ s.vheight
    pub lock : t.b_lock ≡ s.b_lock

  Stays-refl : (x : Block C) → Stays x x
  Stays-refl x = record { hash = refl; decision = refl; delivered = λ e. e }

  pub Frame-refl : (s : HotStuffCore C) → Frame s s
  Frame-refl s = record {
    cells = λ a. Stays-refl (at s a);
    sent = refl;
    announced = refl;
    vheight = refl;
    lock = refl;
  }

  set_blk-Stays :
      (b a : ℕ) (v : Block C) (u : HotStuffCore C)
      → Stays (at u b) v
      → Stays (at u a) (at (set_blk b v u) a)
  unfolding set_blk Storage.write
  set_blk-Stays b a v u e = elim (Bool-cases (a == b)) [
    | inl same ↦ rw same (subst (λ c. Stays (at u c) v) (sym ((==_iff a b).0 same)) e)
    | inr other ↦ rw other (Stays-refl (at u a))
  ]

  set_blk-Frame :
      (b : ℕ) (v : Block C) (s u : HotStuffCore C)
      → Stays (at u b) v
      → Frame s u
      → Frame s (set_blk b v u)
  unfolding set_blk
  set_blk-Frame b v s u e h = record {
    cells = λ a.
        let k = set_blk-Stays b a v u e in
        let g = h.cells a in
        record {
          hash = k.hash ∙ g.hash;
          decision = k.decision ∙ g.decision;
          delivered = λ d. k.delivered (g.delivered d);
        };
    sent = h.sent;
    announced = h.announced;
    vheight = h.vheight;
    lock = h.lock;
  }

  module _ (s : HotStuffCore C) where
    push_parent-Frame :
        (b : ℕ) (p : Option ℕ) (u : HotStuffCore C) → Frame s u → Frame s (push_parent b p u)
    unfolding push_parent
    push_parent-Frame b p u h =
        set_blk-Frame b _ s u (record { hash = refl; decision = refl; delivered = λ e. e }) h

    must_be_delivered-Frame :
        (o : Option ℕ) (u : HotStuffCore C) → Frame s u → Frame s (must_be_delivered o u).1
    must_be_delivered-Frame none u h = h
    must_be_delivered-Frame (some b) u h = h

    deliver_parent-Frame :
        (b x : ℕ) (u : HotStuffCore C) → Frame s u → Frame s (deliver_parent b x u).1
    unfolding deliver_parent get_delivered_blk
    deliver_parent-Frame b x u h = elim (Bool-cases (contains x u.piped_queue)) [
      | inl piped ↦ rw piped (push_parent-Frame b (Storage.find_blk u.storage x) u h)
      | inr other ↦ rw other (
          bind-keeps (Frame s) (get_delivered_blk x) (λ p. modify (push_parent b (some p))) u
            (must_be_delivered-Frame (Storage.find_blk u.storage x) u h)
            λ p w k. push_parent-Frame b (some p) w k)
    ]

    deliver_parents-Frame :
        (b : ℕ) (xs : List ℕ) (u : HotStuffCore C) → Frame s u → Frame s (deliver_parents b xs u).1
    unfolding deliver_parents
    deliver_parents-Frame b [] u h = h
    deliver_parents-Frame b (x ∷ xs) u h =
        bind-keeps (Frame s) (deliver_parent b x) (λ _. deliver_parents b xs) u
          (deliver_parent-Frame b x u h) λ _ w k. deliver_parents-Frame b xs w k

    set_height-Frame : (b : ℕ) (u : HotStuffCore C) → Frame s u → Frame s (set_height b u).1
    unfolding set_height
    set_height-Frame b u h = go (first_of_list (at u b).parents)
      where
        go :
            (r : Result (Option ℕ))
            → Frame s
                ((lift r >>= λ first. do
                  p ← pointer first
                  parent ← blk_at p
                  modify (λ t. set_blk b (record (at t b) { height = add32 parent.height 1 }) t))
                  u).1
        go (err e) = h
        go (ok none) = h
        go (ok (some p)) =
            set_blk-Frame b _ s u (record { hash = refl; decision = refl; delivered = λ e. e }) h

    set_qc_ref-Frame :
        (b : ℕ) (qc : Option C.QuorumCert) (u : HotStuffCore C)
        → Frame s u
        → Frame s (set_qc_ref b qc u).1
    unfolding set_qc_ref
    set_qc_ref-Frame b none u h = h
    set_qc_ref-Frame b (some qc) u h = go (Storage.find_blk u.storage (C.obj_hash qc))
      where
        go :
            (r : Option ℕ)
            → Frame s
                ((fetched_or_throw r >>= λ x.
                    modify (λ t. set_blk b (record (at t b) { qc_ref = some x }) t))
                  u).1
        go none = h
        go (some x) =
            set_blk-Frame b _ s u (record { hash = refl; decision = refl; delivered = λ e. e }) h

    mark_delivered-Frame : (b : ℕ) (u : HotStuffCore C) → Frame s u → Frame s (mark_delivered b u)
    unfolding mark_delivered
    mark_delivered-Frame b u h =
        set_blk-Frame b _ s (record u { tails = _ })
          (record { hash = refl; decision = refl; delivered = λ e. refl })
          (record {
            cells = h.cells;
            sent = h.sent;
            announced = h.announced;
            vheight = h.vheight;
            lock = h.lock;
          })

    record_time-Frame : (b : ℕ) (u : HotStuffCore C) → Frame s u → Frame s (record_time b u).1
    unfolding record_time gettimeofday
    record_time-Frame b u h = elim (Bool-cases (ltb 50 (at u b).height)) [
      | inl late ↦ rw late (record {
        cells = h.cells;
        sent = h.sent;
        announced = h.announced;
        vheight = h.vheight;
        lock = h.lock;
      })
      | inr early ↦ rw early h
    ]

    deliver-Frame : (b : ℕ) (u : HotStuffCore C) → Frame s u → Frame s (deliver b u).1
    unfolding deliver
    deliver-Frame b u h =
        let u1 : HotStuffCore C = set_blk b (record (at u b) { parents = [] }) u in
        bind-keeps (Frame s) (deliver_parents b (at u b).parent_hashes) _ u1
          (deliver_parents-Frame b (at u b).parent_hashes u1
            (set_blk-Frame b _ s u (record { hash = refl; decision = refl; delivered = λ e. e }) h))
          λ _ u2 k2. bind-keeps (Frame s) (set_height b) _ u2 (set_height-Frame b u2 k2) λ _ u3 k3.
            bind-keeps (Frame s) (set_qc_ref b (at u b).qc) _ u3
              (set_qc_ref-Frame b (at u b).qc u3 k3)
              λ _ u4 k4.
                bind-keeps (Frame s) (record_time b) (λ _. pure true) (mark_delivered b u4)
                  (record_time-Frame b (mark_delivered b u4) (mark_delivered-Frame b u4 k4))
                  λ _ u5 k5. k5

  -- A delivery sends no vote, and changes neither the lock nor the hash or the decision of a block;
  -- a delivered block stays delivered.
  pub on_deliver_blk-Frame : (b : ℕ) (s : HotStuffCore C) → Frame s (on_deliver_blk b s).1
  unfolding on_deliver_blk
  on_deliver_blk-Frame b s = go (at s b).delivered
    where
      go : (d : Bool) → Frame s (if d then (ok false, s) else deliver b s).1
      go true = Frame-refl s
      go false = deliver-Frame s b s (Frame-refl s)
