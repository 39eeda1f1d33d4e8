-- ===== src/Core/Update/Rule.antt =====
-- One rule for what holds after `update`: follow the state through `update_hqc`, the lock and, where
-- a three-chain is complete, `commit`.
use kauri_public.Base.{
  ℕ, ◌≡◌, refl, sym, ◌∙◌, ap, inl, inr, true, false, Option, none, some, arith, Bool-cases, ==_iff,
}
use kauri_public.Base.Exec.{Result, ok, err, Exec, continue}
use kauri_public.Crypto.Scheme.{Scheme}
use kauri_public.Entity.Block.{Block, first_of_list}
use kauri_public.Core.State.{HotStuffCore, at, update_hqc}
use kauri_public.Core.Update.{
  commit, raise_lock, if_direct, update_blk, update_blk1, update_blk2, update, decided,
  same_pointer,
}
use kauri_public.Core.Update.Chain.{IsParent}

-- `blk2` carries a certificate of its direct parent `blk1`, and `blk1` one of its direct parent
-- `blk`; none of the three is decided.
pub record ThreeChain {C : Scheme} (cell : ℕ → Block C) (blk2 blk1 blk : ℕ) : Type 0 where
  pub ref2 : (cell blk2).qc_ref ≡ some blk1
  pub ref1 : (cell blk1).qc_ref ≡ some blk
  pub direct2 : IsParent cell blk1 blk2
  pub direct1 : IsParent cell blk blk1
  pub open1 : decided (cell blk1).decision ≡ false
  pub open0 : decided (cell blk).decision ≡ false

same_pointer-eq : (p : Option ℕ) (b : ℕ) → same_pointer p (some b) ≡ true → p ≡ some b
same_pointer-eq none b h = ground arith
same_pointer-eq (some a) b h = ap some ((==_iff a b).0 h)

module _ {C : Scheme} where
  if_direct-rule :
      (Q : HotStuffCore C → Type 0) (r : Result (Option ℕ)) (b : ℕ)
      (k : Exec (HotStuffCore C) (Unit {0})) (s : HotStuffCore C)
      → Q s
      → (r ≡ ok (some b) → Q (k s).1)
      → Q (if_direct r b k s).1
  if_direct-rule Q (err e) b k s out h = out
  if_direct-rule Q (ok p) b k s out h = elim (Bool-cases (same_pointer p (some b))) [
    | inl same ↦ rw same (h (ap ok (same_pointer-eq p b same)))
    | inr other ↦ rw other out
  ]

  -- `ref` is the block whose certificate the new block carries.
  module _ (ref : Option ℕ) (P Q : HotStuffCore C → Type 0)
      (exit : (s : HotStuffCore C) → P s → Q s)
      (at_commit : (blk2 blk1 blk : ℕ) (s : HotStuffCore C)
        → ref ≡ some blk2
        → ThreeChain s.heap.cell blk2 blk1 blk
        → P s
        → Q (commit blk s).1) where
    update_blk-rule :
        (blk2 blk1 : ℕ) (o : Option ℕ) (s : HotStuffCore C)
        → ref ≡ some blk2
        → (at s blk2).qc_ref ≡ some blk1
        → (at s blk1).qc_ref ≡ o
        → decided (at s blk1).decision ≡ false
        → P s
        → Q (update_blk blk2 blk1 o s).1
    unfolding update_blk
    update_blk-rule blk2 blk1 none s r r2 r1 open1 h = exit s h
    update_blk-rule blk2 blk1 (some blk) s r r2 r1 open1 h =
        elim (Bool-cases (decided (at s blk).decision)) [
          | inl old ↦ rw old (exit s h)
          | inr fresh ↦ rw fresh (
              if_direct-rule Q (first_of_list (at s blk2).parents) blk1 _ s (exit s h) λ d2.
                if_direct-rule Q (first_of_list (at s blk1).parents) blk (commit blk) s (exit s h)
                  λ d1.
                    at_commit blk2 blk1 blk s r
                      (record {
                        ref2 = r2;
                        ref1 = r1;
                        direct2 = d2;
                        direct1 = d1;
                        open1 = open1;
                        open0 = fresh;
                      })
                      h)
        ]

    module _ (at_lock : (b : ℕ) (s : HotStuffCore C) → P s → P (raise_lock b s))
        (at_hqc : (b : ℕ) (qc : Option C.QuorumCert) (s : HotStuffCore C)
          → P s
          → P (update_hqc b qc s).1) where
      update_blk1-rule :
          (blk2 : ℕ) (o : Option ℕ) (s : HotStuffCore C)
          → ref ≡ some blk2
          → (at s blk2).qc_ref ≡ o
          → P s
          → Q (update_blk1 blk2 o s).1
      unfolding update_blk1
      update_blk1-rule blk2 none s r r2 h = exit s h
      update_blk1-rule blk2 (some blk1) s r r2 h =
          elim (Bool-cases (decided (at s blk1).decision)) [
            | inl old ↦ rw old (exit s h)
            | inr fresh ↦ rw fresh (
                update_blk-rule blk2 blk1 (at s blk1).qc_ref (raise_lock blk1 s) r
                  (same_cell blk2 r2) (same_ref blk1) (same_open fresh) (at_lock blk1 s h))
          ]
        where
          heap_of : (b : ℕ) → (raise_lock b s).heap ≡ s.heap
          heap_of b = ground arith

          same_cell :
              (b : ℕ) → (at s b).qc_ref ≡ some blk1 → (at (raise_lock blk1 s) b).qc_ref ≡ some blk1
          same_cell b e = ap (λ g. (g.cell b).qc_ref) (heap_of blk1) ∙ e

          same_ref : (b : ℕ) → (at (raise_lock blk1 s) b).qc_ref ≡ (at s b).qc_ref
          same_ref b = ap (λ g. (g.cell b).qc_ref) (heap_of blk1)

          same_open :
              decided (at s blk1).decision ≡ false
              → decided (at (raise_lock blk1 s) blk1).decision ≡ false
          same_open e = ap (λ g. decided (g.cell blk1).decision) (heap_of blk1) ∙ e

      -- `P` holds from the start to a commit, `Q` at the end.
      pub update-rule :
          (nblk : ℕ) (s : HotStuffCore C) → (at s nblk).qc_ref ≡ ref → P s → Q (update nblk s).1
      unfolding update update_blk2
      update-rule nblk s carried h = go (at s nblk).qc_ref refl
        where
          after :
              (r : Result (Unit {0}) × HotStuffCore C) (blk2 : ℕ)
              → ref ≡ some blk2
              → P r.1
              → Q (continue r (λ _ t. update_blk1 blk2 (at t blk2).qc_ref t)).1
          after (err e, t) blk2 same k = exit t k
          after (ok _, t) blk2 same k = update_blk1-rule blk2 (at t blk2).qc_ref t same refl k

          go : (o : Option ℕ) → (at s nblk).qc_ref ≡ o → Q (update_blk2 nblk o s).1
          go none e = exit s h
          go (some blk2) e = elim (Bool-cases (decided (at s blk2).decision)) [
            | inl old ↦ rw old (exit s h)
            | inr fresh ↦ rw fresh (
                after (update_hqc blk2 (at s nblk).qc s) blk2 (sym carried ∙ e)
                  (at_hqc blk2 (at s nblk).qc s h))
          ]
