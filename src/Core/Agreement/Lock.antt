-- ===== src/Core/Agreement/Lock.antt =====
-- `update` of src/consensus.cpp leaves the replica locked at least as high as what is two certificates
-- below the block.
use kauri_public.Base.{
  ℕ, ◌≤◌, ◌≡◌, refl, sym, ◌∙◌, ap, subst, inl, inr, true, Option, none, some, List, reverse, arith,
  ltb, ltb→lt, ltb→le, ◌==◌, All-reverse, Bool-cases, some_injective,
}
use kauri_public.Base.Exec.{Result, Error, ok, err, Exec, bind-rule}
use kauri_public.Crypto.Scheme.{Scheme}
use kauri_public.Entity.Block.{first_of_list}
use kauri_public.Core.State.{HotStuffCore, at, update_hqc}
use kauri_public.Core.Update.{
  walk_from, commit, commit_walked, if_direct, raise_lock, update_blk, update_blk1, update_blk2,
  update, decided, same_pointer,
}
use kauri_public.Core.Update.Chain.{walk-Branch}
use kauri_public.Core.Update.Commit.{commit_all_lem}
use kauri_public.Core.Update.Decision.{update_hqc-Still}
use kauri_public.Core.Update.Monotone.{update_hqc-lock}
use kauri_public.Core.Agreement.Tree.{Tree, IsTree, ref-le}
use kauri_public.Core.Agreement.Ballots.{LockIsCertified}
use kauri_public.Core.Agreement.Memory.{
  Agrees, Sound, Bound, Locked, Branch-Low, mark-hash, mark-Low, lock_hash, hash_of,
}

module _ {C : Scheme} where
  module _ (T : Tree) (tree : IsTree T) where
    commit_walked-Locked :
        (h b : ℕ) (r : Result (List ℕ × ℕ)) (u : HotStuffCore C)
        → walk_from u.heap.cell (at u u.b_exec).height b ≡ r
        → Agrees T u.heap.cell
        → (at u b).delivered ≡ true
        → T.height (at u b).hash ≤ T.height (lock_hash u)
        → Sound T u.heap.cell u.b_lock
        → Bound T h u
        → Locked T h (commit_walked b r u)
    commit_walked-Locked h b (err e) u w ag d k so bound = (so, λ _. bound)
    commit_walked-Locked h b (ok (queue, last)) u w ag d k so bound =
        elim (Bool-cases (last == u.b_exec)) [
          | inl hit ↦
              let low = All-reverse _ queue (
                Branch-Low T tree u.heap.cell (T.height (lock_hash u)) ag d k
                  (walk-Branch u.heap.cell _ _ b last queue w)) in
              let kept = mark-hash T tree (reverse queue) u.heap.cell in
              rw (hit, commit_all_lem (reverse queue) u)
                (
                  record {
                    lock_in = (kept u.b_lock).1 ∙ so.lock_in;
                    cert = subst (LockIsCertified T) (sym (kept u.b_lock).0) so.cert;
                    old = λ a e.
                        let (da, ha) =
                          mark-Low T tree (reverse queue) u.heap.cell (T.height (lock_hash u)) a low
                            (so.old a) e in
                        (
                          (kept a).1 ∙ da,
                          omega (arith, ap T.height (kept a).0, ap T.height (kept u.b_lock).0, ha),
                        );
                  },
                  λ _ c e' p q. omega (arith, bound c e' p q, ap T.height (kept u.b_lock).0),
                )
          | inr other ↦ rw other (so, λ _. bound)
        ]

    if_direct-Locked :
        (h : ℕ) (r : Result (Option ℕ)) (b : ℕ) (k : Exec (HotStuffCore C) (Unit {0}))
        (u : HotStuffCore C)
        → Sound T u.heap.cell u.b_lock
        → Bound T h u
        → Locked T h (k u)
        → Locked T h (if_direct r b k u)
    if_direct-Locked h (err e) b k u so bound l = (so, λ _. bound)
    if_direct-Locked h (ok p) b k u so bound l = elim (Bool-cases (same_pointer p (some b))) [
      | inl hit ↦ rw hit l
      | inr other ↦ rw other (so, λ _. bound)
    ]

    update_blk-Locked :
        (h blk2 blk1 : ℕ) (o : Option ℕ) (u : HotStuffCore C)
        → Agrees T u.heap.cell
        → (at u blk1).delivered ≡ true
        → (at u blk1).qc_ref ≡ o
        → T.height (at u blk1).hash ≤ T.height (lock_hash u)
        → Sound T u.heap.cell u.b_lock
        → Bound T h u
        → Locked T h (update_blk blk2 blk1 o u)
    unfolding update_blk commit
    update_blk-Locked h blk2 blk1 none u ag d e k so bound = (so, λ _. bound)
    update_blk-Locked h blk2 blk1 (some blk) u ag d e k so bound =
        elim (Bool-cases (decided (at u blk).decision)) [
          | inl done ↦ rw done (so, λ _. bound)
          | inr fresh ↦
              let linked = ag.ref blk1 d ∙ ap (hash_of u.heap.cell) e in
              let low = ref-le T tree (at u blk1).hash (at u blk).hash linked in
              rw fresh (
                if_direct-Locked h (first_of_list (at u blk2).parents) blk1 _ u so bound (
                  if_direct-Locked h (first_of_list (at u blk1).parents) blk (commit blk) u so bound
                    (commit_walked-Locked h blk _ u refl ag (ag.ref_in blk1 blk d e) (omega arith)
                      so bound)))
        ]

    Bound-of :
        (h c d : ℕ) (t : HotStuffCore C)
        → T.ref h ≡ some c
        → T.ref c ≡ some d
        → T.height d ≤ T.height (lock_hash t)
        → Bound T h t
    Bound-of h c d t e e' k x y p q =
        let xc : c ≡ x = some_injective c x (sym e ∙ p) in
        let yd : d ≡ y = some_injective d y (sym e' ∙ ap T.ref xc ∙ q) in
        omega (arith, ap T.height yd)

    raise_lock-Sound :
        (c d : ℕ) (u : HotStuffCore C)
        → Agrees T u.heap.cell
        → (at u c).delivered ≡ true
        → (at u c).qc_ref ≡ some d
        → Sound T u.heap.cell u.b_lock
        → ((raise_lock d u).heap ≡ u.heap)
          × Sound T (raise_lock d u).heap.cell (raise_lock d u).b_lock
          × (T.height (at u d).hash ≤ T.height (lock_hash (raise_lock d u)))
    raise_lock-Sound c d u ag dc e so =
        let dd = ag.ref_in c d dc e in
        let hd = ag.height d dd in
        let hl = ag.height u.b_lock so.lock_in in
        elim (Bool-cases (ltb (at u u.b_lock).height (at u d).height)) [
          | inl higher ↦
              let above = ltb→lt _ _ higher in
              rw higher (
                refl,
                record {
                  lock_in = dd;
                  cert = inr ((at u c).hash, ag.ref c dc ∙ ap (hash_of u.heap.cell) e);
                  old = λ b done. let (db, low) = so.old b done in (db, omega arith);
                },
                omega arith,
              )
          | inr lower ↦ let below = ltb→le _ _ lower in rw lower (refl, so, omega arith)
        ]

    update_blk1-Locked :
        (h blk2 : ℕ) (o : Option ℕ) (u : HotStuffCore C)
        → T.ref h ≡ some (at u blk2).hash
        → Agrees T u.heap.cell
        → (at u blk2).delivered ≡ true
        → (at u blk2).qc_ref ≡ o
        → Sound T u.heap.cell u.b_lock
        → Locked T h (update_blk1 blk2 o u)
    unfolding update_blk1
    update_blk1-Locked h blk2 none u carried ag d e so = (so, λ _ x y p q. absurd (no_ref x y p q))
      where
        no_ref : (x y : ℕ) → T.ref h ≡ some x → T.ref x ≡ some y → ⊥
        no_ref x y p q =
            let same : (at u blk2).hash ≡ x = some_injective _ x (sym carried ∙ p) in
            let n : none ≡ some y =
              sym (ag.ref blk2 d ∙ ap (hash_of u.heap.cell) e) ∙ ap T.ref same ∙ q in
            cc
    update_blk1-Locked h blk2 (some blk1) u carried ag d e so =
        let linked = ag.ref blk2 d ∙ ap (hash_of u.heap.cell) e in
        elim (Bool-cases (decided (at u blk1).decision)) [
          | inl done ↦ rw done (so, λ _. Bound-of h _ _ u carried linked (so.old blk1 done).1)
          | inr fresh ↦
              let v : HotStuffCore C = raise_lock blk1 u in
              let (mem, so', high) = raise_lock-Sound blk2 blk1 u ag d e so in
              rw fresh (
                update_blk-Locked h blk2 blk1 (at u blk1).qc_ref v
                  (subst (λ g. Agrees T g.cell) (sym mem) ag)
                  (ap (λ g. (g.cell blk1).delivered) mem ∙ ag.ref_in blk2 blk1 d e)
                  (ap (λ g. (g.cell blk1).qc_ref) mem)
                  (omega (arith, ap (λ g. T.height (g.cell blk1).hash) mem)) so'
                  (Bound-of h _ _ v carried linked high))
        ]

    -- After `update` of a delivered block, in a memory that agrees with the tree, the lock is still a
    -- certified block not lower than any decided one; and unless `update` threw, the lock is at least
    -- as high as the block that is two certificates below.
    pub update-Locked :
        (nblk : ℕ) (s : HotStuffCore C)
        → Agrees T s.heap.cell
        → (at s nblk).delivered ≡ true
        → Sound T s.heap.cell s.b_lock
        → Locked T (at s nblk).hash (update nblk s)
    unfolding update update_blk2
    update-Locked nblk s ag d so = go (at s nblk).qc_ref refl
      where
        h : ℕ
        h = (at s nblk).hash

        after :
            (blk2 : ℕ) (t : HotStuffCore C)
            → (at s nblk).qc_ref ≡ some blk2
            → t.heap ≡ s.heap
            → t.b_lock ≡ s.b_lock
            → Locked T h (update_blk1 blk2 (at t blk2).qc_ref t)
        after blk2 t e mem lock =
            let linked = ag.ref nblk d ∙ ap (hash_of s.heap.cell) e in
            update_blk1-Locked h blk2 (at t blk2).qc_ref t
              (linked ∙ ap (λ g. some (g.cell blk2).hash) (sym mem))
              (subst (λ g. Agrees T g.cell) (sym mem) ag)
              (ap (λ g. (g.cell blk2).delivered) mem ∙ ag.ref_in nblk blk2 d e) refl
              (subst (λ g. Sound T g.cell t.b_lock) (sym mem)
                (subst (Sound T s.heap.cell) (sym lock) so))

        failed :
            (t : HotStuffCore C) (x : Error)
            → t.heap ≡ s.heap
            → t.b_lock ≡ s.b_lock
            → Locked T h (err x, t)
        failed t x mem lock = (
          subst (λ g. Sound T g.cell t.b_lock) (sym mem)
              (subst (Sound T s.heap.cell) (sym lock) so),
          λ e. absurd (ground arith),
        )

        go : (o : Option ℕ) → (at s nblk).qc_ref ≡ o → Locked T h (update_blk2 nblk o s)
        go none e = (so, λ _ x y p q. absurd (clash x p))
          where
            clash : (x : ℕ) → T.ref h ≡ some x → ⊥
            clash x p =
                let n : none ≡ some x = sym (ag.ref nblk d ∙ ap (hash_of s.heap.cell) e) ∙ p in cc
        go (some blk2) e = elim (Bool-cases (decided (at s blk2).decision)) [
          | inl done ↦
              let linked = ag.ref nblk d ∙ ap (hash_of s.heap.cell) e in
              rw done (
                so,
                λ _ x y p q.
                    let same = some_injective (at s blk2).hash x (sym linked ∙ p) in
                    omega (arith, (so.old blk2 done).1, ap T.height same, ref-le T tree x y q),
              )
          | inr fresh ↦
              let kept =
                update_hqc-Still s blk2 (at s nblk).qc s
                  (record { heap = refl; exec = refl; out = refl }) in
              let lock = update_hqc-lock blk2 (at s nblk).qc s in
              rw fresh (
                bind-rule (Locked T h) (update_hqc blk2 (at s nblk).qc) _ s
                  (λ x t r.
                    failed t x (ap (λ r. r.1.heap) (sym r) ∙ kept.heap)
                      (ap (λ r. r.1.b_lock) (sym r) ∙ lock))
                  (λ _ t r.
                    after blk2 t e (ap (λ r. r.1.heap) (sym r) ∙ kept.heap)
                      (ap (λ r. r.1.b_lock) (sym r) ∙ lock)))
        ]
