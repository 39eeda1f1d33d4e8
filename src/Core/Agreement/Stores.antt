-- ===== src/Core/Agreement/Stores.antt =====
-- Storing a block that was read from a message, at an address that is not in use.
use kauri_public.Base.{
  inl, inr, contains, Bool-cases, ==_iff, ==_refl, ◌==◌, ℕ, ◌≡◌, refl, sym, ◌∙◌, ap, subst, true,
  false, Option, none, some, List, [], ◌∷◌, arith, All,
}
use kauri_public.Crypto.Scheme.{Scheme}
use kauri_public.Core.State.{HotStuffCore, at}
use kauri_public.Core.Update.{decided}
use kauri_public.Core.Agreement.Tree.{Tree}
use kauri_public.Core.Agreement.Ballots.{Ballot, LockIsCertified, Locks}
use kauri_public.Core.Agreement.Memory.{Agrees, Sound}
use kauri_public.Core.Agreement.Notes.{noted, noted-silent}
use kauri_public.Core.Agreement.Commits.{Announced}
use kauri_public.Entity.Block.{Block, first_of_list}
use kauri_public.Entity.Storage
use kauri_public.Wire.Proposals.{keep_blk}
use kauri_public.Base.Exec.{ok}
use kauri_public.Core.Update.Order.{committed}
use kauri_public.Core.Agreement.Memory.{hash_of}
use kauri_public.Core.Agreement.Commits.{Tip}
use kauri_public.Core.Agreement.Calls.{IsFree, IsRead, Obeys}

not_in :
    (n x : ℕ) (xs : List ℕ)
    → contains n (x ∷ xs) ≡ false
    → ((x == n) ≡ false) × (contains n xs ≡ false)
unfolding contains
not_in n x xs h = (ground arith, ground arith)

module _ {C : Scheme} where
  module _ (T : Tree) (v : Block C) (s : HotStuffCore C) (vs : List Ballot) where
    -- Where a block is stored, no other cell changes.
    pub keep_blk-at : (a : ℕ) → (a == s.heap.next) ≡ false → at (keep_blk v s).1 a ≡ at s a
    unfolding keep_blk Storage.add_new_blk Storage.alloc Storage.add_blk
    keep_blk-at a other = rw other refl

    keep_blk-new : at (keep_blk v s).1 s.heap.next ≡ v
    unfolding keep_blk Storage.add_new_blk Storage.alloc Storage.add_blk
    keep_blk-new = rw (==_refl s.heap.next) refl

    -- A block that is delivered is an old one.
    used : IsFree s → (a : ℕ) → (at s a).delivered ≡ true → (a == s.heap.next) ≡ false
    used free a d = elim (Bool-cases (a == s.heap.next)) [
      | inl same ↦
          let e = ap (λ c. (at s c).delivered) ((==_iff a s.heap.next).0 same) in
          absurd (ground (arith, e, free.empty))
      | inr other ↦ other
    ]

    -- A block that is delivered afterwards is an old one, which was delivered before.
    old_one :
        IsRead v → (a : ℕ) → (at (keep_blk v s).1 a).delivered ≡ true → (a == s.heap.next) ≡ false
    old_one read a d = elim (Bool-cases (a == s.heap.next)) [
      | inl same ↦
          let e = ap (λ c. (at (keep_blk v s).1 c).delivered) ((==_iff a s.heap.next).0 same) in
          let f = ap (λ x. x.delivered) keep_blk-new in
          absurd (ground (arith, e, f, read.delivered))
      | inr other ↦ other
    ]

    same_ref :
        IsFree s
        → (o : Option ℕ) → ((r : ℕ) → o ≡ some r → (at s r).delivered ≡ true)
        → hash_of s.heap.cell o ≡ hash_of (keep_blk v s).1.heap.cell o
    same_ref free none h = refl
    same_ref free (some r) h = ap (λ x. some x.hash) (sym (keep_blk-at r (used free r (h r refl))))

    store-Agrees : IsRead v → IsFree s → Agrees T s.heap.cell → Agrees T (keep_blk v s).1.heap.cell
    store-Agrees read free ag = record {
      height = λ b d.
          let e = keep_blk-at b (old_one read b d) in
          subst (λ x. T.height x.hash ≡ x.height) (sym e)
            (ag.height b (subst (λ x. x.delivered ≡ true) e d));
      parent = λ b p d up.
          let e = keep_blk-at b (old_one read b d) in
          let (dp, above) =
            ag.parent b p (subst (λ x. x.delivered ≡ true) e d)
              (subst (λ x. first_of_list x.parents ≡ ok (some p)) e up) in
          let f = keep_blk-at p (used free p dp) in
          (
            subst (λ x. x.delivered ≡ true) (sym f) dp,
            ap (λ x. T.parent x.hash) e ∙ above ∙ ap (λ x. some x.hash) (sym f),
          );
      ref = λ b d.
          let e = keep_blk-at b (old_one read b d) in
          let old = subst (λ x. x.delivered ≡ true) e d in
          ap (λ x. T.ref x.hash) e
          ∙ ag.ref b old
          ∙ same_ref free (at s b).qc_ref (λ r up. ag.ref_in b r old up)
          ∙ ap (λ x. hash_of (keep_blk v s).1.heap.cell x.qc_ref) (sym e);
      ref_in = λ b r d up.
          let e = keep_blk-at b (old_one read b d) in
          let dr =
            ag.ref_in b r (subst (λ x. x.delivered ≡ true) e d)
              (subst (λ x. x.qc_ref ≡ some r) e up) in
          subst (λ x. x.delivered ≡ true) (sym (keep_blk-at r (used free r dr))) dr;
    }

    store-Sound :
        IsRead v
        → IsFree s
        → Sound T s.heap.cell s.b_lock
        → Sound T (keep_blk v s).1.heap.cell s.b_lock
    store-Sound read free so =
        let e = keep_blk-at s.b_lock (used free s.b_lock so.lock_in) in
        record {
          lock_in = subst (λ x. x.delivered ≡ true) (sym e) so.lock_in;
          cert = subst (λ x. LockIsCertified T x.hash) (sym e) so.cert;
          old = λ b d. elim (Bool-cases (b == s.heap.next)) [
            | inl same ↦
                let f = ap (at (keep_blk v s).1) ((==_iff b s.heap.next).0 same) ∙ keep_blk-new in
                let g = ap (λ x. decided x.decision) f in
                absurd (ground (arith, d, g, read.decision))
            | inr other ↦
                let f = keep_blk-at b other in
                let (there, low) = so.old b (subst (λ x. decided x.decision ≡ true) f d) in
                (
                  subst (λ x. x.delivered ≡ true) (sym f) there,
                  omega (arith, low, ap (λ x. T.height x.hash) f, ap (λ x. T.height x.hash) e),
                )
          ];
        }

    store-Announced : IsFree s → Announced T s → Announced T (keep_blk v s).1
    unfolding keep_blk
    store-Announced free h = go (committed s.outbox) free.unseen h
      where
        go :
            (xs : List ℕ)
            → contains s.heap.next xs ≡ false
            → All (λ a. Tip T (at s a).hash) xs
            → All (λ a. Tip T (at (keep_blk v s).1 a).hash) xs
        go [] n k = tt
        go (x ∷ xs) n k =
            let (other, rest) = not_in s.heap.next x xs n in
            (subst (λ y. Tip T y.hash) (sym (keep_blk-at x other)) k.0, go xs rest k.1)

    -- A block that is stored as it was read changes nothing that the agreement depends on.
    pub store-Obeys :
        IsRead v → IsFree s → Obeys T s vs → Obeys T (keep_blk v s).1 (noted s (keep_blk v s).1 vs)
    unfolding keep_blk
    store-Obeys read free o =
        let e = keep_blk-at s.b_lock (used free s.b_lock o.votes.sound.lock_in) in
        subst (Obeys T (keep_blk v s).1) (sym (noted-silent s (keep_blk v s).1 vs refl)) (record {
          memory = store-Agrees read free o.memory;
          votes = record {
            rules = o.votes.rules;
            last = o.votes.last;
            locks = subst (λ x. Locks T x.hash vs) (sym e) o.votes.locks;
            sound = store-Sound read free o.votes.sound;
          };
          announced = store-Announced free o.announced;
        })
