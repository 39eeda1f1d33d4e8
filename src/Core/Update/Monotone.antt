-- ===== src/Core/Update/Monotone.antt =====
-- What `update` raises, and what it leaves alone.
use kauri_public.Base.{
  ℕ, ◌≤◌, ◌≡◌, refl, ◌∙◌, ap, inl, inr, Option, none, some, List, reverse, arith, ltb, ◌==◌,
  contains, Bool-cases, ==_iff,
}
use kauri_public.Base.Exec.{Result, ok, err}
use kauri_public.Crypto.Scheme.{Scheme}
use kauri_public.Entity.Block.{Block}
use kauri_public.Core.State.{HotStuffCore, at, update_hqc, on_hqc_update, set_hqc, raise_hqc}
use kauri_public.Core.Update.{walk_from, commit, commit_walked, raise_lock, update}
use kauri_public.Core.Update.Rule.{update-rule}
use kauri_public.Core.Update.Chain.{Branch, stop, down, walk-Branch}
use kauri_public.Core.Update.Commit.{mark, commit_all_lem}

module _ {C : Scheme} where
  -- The parts of a block that place it in the tree.
  pub record SamePlace (x y : Block C) : Type 0 where
    pub height : y.height ≡ x.height
    pub parents : y.parents ≡ x.parents
    pub hash : y.hash ≡ x.hash
    pub qc_ref : y.qc_ref ≡ x.qc_ref
    pub delivered : y.delivered ≡ x.delivered

  -- The height of the block with the highest certificate known.
  abbrev pub height_of : (ℕ → Block C) → Option (ℕ × C.QuorumCert) → ℕ
  height_of cell none = 0
  height_of cell (some (b, qc)) = (cell b).height

  abbrev pub top_height : HotStuffCore C → ℕ
  top_height s = height_of s.heap.cell s.hqc

  -- The lock, the last executed block and the highest certificate never fall; no block moves; the
  -- height of the last vote, the identity and the configuration stay.
  pub record Advances (s t : HotStuffCore C) : Type 0 where
    pub place : (a : ℕ) → SamePlace (at s a) (at t a)
    pub lock : (at s s.b_lock).height ≤ (at t t.b_lock).height
    pub exec : (at s s.b_exec).height ≤ (at t t.b_exec).height
    pub top : top_height s ≤ top_height t
    pub vheight : t.vheight ≡ s.vheight
    pub id : t.id ≡ s.id
    pub config : t.config ≡ s.config

  pub Advances-refl : (s : HotStuffCore C) → Advances s s
  Advances-refl s = record {
    place =
        λ a. record { height = refl; parents = refl; hash = refl; qc_ref = refl; delivered = refl };
    lock = omega arith;
    exec = omega arith;
    top = omega arith;
    vheight = refl;
    id = refl;
    config = refl;
  }

  pub Advances-trans : (s t u : HotStuffCore C) → Advances s t → Advances t u → Advances s u
  Advances-trans s t u h k = record {
    place = λ a. record {
      height = (k.place a).height ∙ (h.place a).height;
      parents = (k.place a).parents ∙ (h.place a).parents;
      hash = (k.place a).hash ∙ (h.place a).hash;
      qc_ref = (k.place a).qc_ref ∙ (h.place a).qc_ref;
      delivered = (k.place a).delivered ∙ (h.place a).delivered;
    };
    lock = omega (arith, h.lock, k.lock);
    exec = omega (arith, h.exec, k.exec);
    top = omega (arith, h.top, k.top);
    vheight = k.vheight ∙ h.vheight;
    id = k.id ∙ h.id;
    config = k.config ∙ h.config;
  }

  pub SamePlace-refl : (x : Block C) → SamePlace x x
  SamePlace-refl x = record {
    height = refl;
    parents = refl;
    hash = refl;
    qc_ref = refl;
    delivered = refl;
  }

  raise_lock-Advances : (b : ℕ) (s : HotStuffCore C) → Advances s (raise_lock b s)
  raise_lock-Advances b s = elim (Bool-cases (ltb (at s s.b_lock).height (at s b).height)) [
    | inl higher ↦ rw higher (record {
      place = λ a. SamePlace-refl (at s a);
      lock = ground arith;
      exec = omega arith;
      top = omega arith;
      vheight = refl;
      id = refl;
      config = refl;
    })
    | inr lower ↦ rw lower (Advances-refl s)
  ]

  set_hqc-Advances :
      (b : ℕ) (qc : Option C.QuorumCert) (s : HotStuffCore C)
      → top_height s ≤ (at s b).height
      → Advances s (set_hqc b qc s).1
  unfolding on_hqc_update
  set_hqc-Advances b none s h = Advances-refl s
  set_hqc-Advances b (some c) s h = record {
    place = λ a. SamePlace-refl (at s a);
    lock = omega arith;
    exec = omega arith;
    top = h;
    vheight = refl;
    id = refl;
    config = refl;
  }

  raise_hqc-Advances :
      (o : Option (ℕ × C.QuorumCert)) (b : ℕ) (qc : Option C.QuorumCert) (s : HotStuffCore C)
      → s.hqc ≡ o
      → Advances s (raise_hqc o b qc s).1
  raise_hqc-Advances none b qc s e = Advances-refl s
  raise_hqc-Advances (some (top, cert)) b qc s e =
      elim (Bool-cases (ltb (at s top).height (at s b).height)) [
        | inl higher ↦
            let low : top_height s ≡ (at s top).height = ap (height_of s.heap.cell) e in
            rw higher (set_hqc-Advances b qc s (ground arith))
        | inr lower ↦ rw lower (Advances-refl s)
      ]

  pub update_hqc-Advances :
      (b : ℕ) (qc : Option C.QuorumCert) (s : HotStuffCore C) → Advances s (update_hqc b qc s).1
  unfolding update_hqc
  update_hqc-Advances b qc s = raise_hqc-Advances s.hqc b qc s refl

  -- The highest certificate is raised without a look at the lock.
  set_hqc-lock :
      (b : ℕ) (qc : Option C.QuorumCert) (s : HotStuffCore C) → (set_hqc b qc s).1.b_lock ≡ s.b_lock
  unfolding on_hqc_update
  set_hqc-lock b none s = refl
  set_hqc-lock b (some q) s = refl

  raise_hqc-lock :
      (o : Option (ℕ × C.QuorumCert)) (b : ℕ) (qc : Option C.QuorumCert) (s : HotStuffCore C)
      → (raise_hqc o b qc s).1.b_lock ≡ s.b_lock
  raise_hqc-lock none b qc s = refl
  raise_hqc-lock (some (top, cert)) b qc s =
      elim (Bool-cases (ltb (at s top).height (at s b).height)) [
        | inl higher ↦ rw higher (set_hqc-lock b qc s)
        | inr lower ↦ rw lower
      ]

  pub update_hqc-lock :
      (b : ℕ) (qc : Option C.QuorumCert) (s : HotStuffCore C)
      → (update_hqc b qc s).1.b_lock ≡ s.b_lock
  unfolding update_hqc
  update_hqc-lock b qc s = raise_hqc-lock s.hqc b qc s

  mark-SamePlace : (bs : List ℕ) (cell : ℕ → Block C) (a : ℕ) → SamePlace (cell a) (mark bs cell a)
  mark-SamePlace bs cell a = elim (Bool-cases (contains a bs)) [
    | inl hit ↦
        rw hit
          (record { height = refl; parents = refl; hash = refl; qc_ref = refl; delivered = refl })
    | inr miss ↦ rw miss (SamePlace-refl (cell a))
  ]

  height_of-mark :
      (bs : List ℕ) (cell : ℕ → Block C) (o : Option (ℕ × C.QuorumCert))
      → height_of (mark bs cell) o ≡ height_of cell o
  height_of-mark bs cell none = refl
  height_of-mark bs cell (some (b, qc)) = (mark-SamePlace bs cell b).height

  Branch-le :
      {cell : ℕ → Block C} {floor b last : ℕ} {queue : List ℕ}
      → Branch cell floor b queue last
      → (cell last).height ≡ floor
      → floor ≤ (cell b).height
  Branch-le (stop low) e = omega arith
  Branch-le (down high parent br) e = omega arith

  commit_walked-Advances :
      (b : ℕ) (r : Result (List ℕ × ℕ)) (s : HotStuffCore C)
      → walk_from s.heap.cell (at s s.b_exec).height b ≡ r
      → Advances s (commit_walked b r s).1
  commit_walked-Advances b (err e) s h = Advances-refl s
  commit_walked-Advances b (ok (queue, last)) s h = elim (Bool-cases (last == s.b_exec)) [
    | inl same ↦
        let place = mark-SamePlace (reverse queue) s.heap.cell in
        let br = walk-Branch s.heap.cell _ _ b last queue h in
        let lower : (at s s.b_exec).height ≤ (at s b).height =
          Branch-le br (ap (λ a. (at s a).height) ((==_iff last s.b_exec).0 same)) in
        rw (same, commit_all_lem (reverse queue) s)
          (record {
            place = place;
            lock = omega (arith, (place s.b_lock).height);
            exec = omega (arith, (place b).height);
            top = omega (arith, height_of-mark (reverse queue) s.heap.cell s.hqc);
            vheight = refl;
            id = refl;
            config = refl;
          })
    | inr other ↦ rw other (Advances-refl s)
  ]

  commit-Advances : (b : ℕ) (s : HotStuffCore C) → Advances s (commit b s).1
  unfolding commit
  commit-Advances b s = commit_walked-Advances b _ s refl

  -- Whatever the block and however `update` ends, the height of the lock, of the last executed block
  -- and of the highest certificate do not fall, no block changes its place in the tree, and the
  -- height of the last vote, the identity and the configuration stay.
  pub update-Advances : (nblk : ℕ) (s : HotStuffCore C) → Advances s (update nblk s).1
  update-Advances nblk s =
      update-rule (at s nblk).qc_ref (Advances s) (Advances s) (λ t h. h)
        (λ _ _ b t _ _ h. Advances-trans s t _ h (commit-Advances b t))
        (λ b t h. Advances-trans s t _ h (raise_lock-Advances b t))
        (λ b qc t h. Advances-trans s t _ h (update_hqc-Advances b qc t)) nblk s refl
        (Advances-refl s)
