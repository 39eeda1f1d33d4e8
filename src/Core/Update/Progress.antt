-- ===== src/Core/Update/Progress.antt =====
-- `update` commits where the three-chain rule lets it.
use kauri_public.Base.{
  ℕ, ◌≡◌, ◌≢◌, refl, sym, ◌∙◌, ap, subst, false, Option, none, some, List, ◌++◌, reverse, arith,
  ltb, ==_refl, Bool-cases, inl, inr, if◌then◌else◌,
}
use kauri_public.Base.Exec.{Result, ok, err, Exec, continue, safety_breached}
use kauri_public.Crypto.Scheme.{Scheme}
use kauri_public.Entity.Block.{first_of_list}
use kauri_public.Core.State.{HotStuffCore, at, update_hqc, raise_hqc}
use kauri_public.Core.Update.{
  commit, raise_lock, if_direct, update_blk, update_blk1, update_blk2, update, decided,
}
use kauri_public.Core.Update.Rule.{ThreeChain}
use kauri_public.Core.Update.Chain.{Falls, Branch}
use kauri_public.Core.Update.Commit.{mark, branch_events, commit_lem}
use kauri_public.Core.Update.Order.{committed, committed-append, committed-branch_events}
use kauri_public.Core.Update.Decision.{Still, raise_lock-Still, update_hqc-Still}

module _ {C : Scheme} where
  if_direct-parent :
      (r : Result (Option ℕ)) (b : ℕ) (k : Exec (HotStuffCore C) (Unit {0})) (s : HotStuffCore C)
      → r ≡ ok (some b)
      → if_direct r b k s ≡ k s
  if_direct-parent r b k s e = rw (e, ==_refl b) refl

  update_blk-commit :
      (blk2 blk1 blk : ℕ) (s : HotStuffCore C)
      → ThreeChain s.heap.cell blk2 blk1 blk
      → update_blk blk2 blk1 (some blk) s ≡ commit blk s
  unfolding update_blk
  update_blk-commit blk2 blk1 blk s c = rw c.open0 (
      if_direct-parent (first_of_list (at s blk2).parents) blk1 _ s c.direct2
      ∙ if_direct-parent (first_of_list (at s blk1).parents) blk (commit blk) s c.direct1)

  update_blk1-commit :
      (blk2 blk1 blk : ℕ) (s : HotStuffCore C)
      → ThreeChain s.heap.cell blk2 blk1 blk
      → update_blk1 blk2 (at s blk2).qc_ref s ≡ commit blk (raise_lock blk1 s)
  unfolding update_blk1
  update_blk1-commit blk2 blk1 blk s c =
      rw (c.ref2, c.open1, c.ref1)
        (update_blk-commit blk2 blk1 blk (raise_lock blk1 s)
          (subst (λ g. ThreeChain g.cell blk2 blk1 blk) (sym heap_of) c))
    where
      heap_of : (raise_lock blk1 s).heap ≡ s.heap
      heap_of = ground arith

  raise_hqc-ok :
      (o : Option (ℕ × C.QuorumCert)) (b : ℕ) (qc : C.QuorumCert) (s : HotStuffCore C)
      → o ≢ none
      → raise_hqc o b (some qc) s ≡ (ok tt, (raise_hqc o b (some qc) s).1)
  raise_hqc-ok none b qc s e = absurd (e refl)
  raise_hqc-ok (some (top, cert)) b qc s e =
      elim (Bool-cases (ltb (at s top).height (at s b).height)) [
        | inl higher ↦ rw higher refl
        | inr lower ↦ rw lower refl
      ]

  -- With a highest certificate at hand, `update_hqc` does not throw.
  update_hqc-ok :
      (b : ℕ) (qc : C.QuorumCert) (s : HotStuffCore C)
      → s.hqc ≢ none
      → update_hqc b (some qc) s ≡ (ok tt, (update_hqc b (some qc) s).1)
  unfolding update_hqc
  update_hqc-ok b qc s e = raise_hqc-ok s.hqc b qc s e

  update_blk2-commit :
      (nblk blk2 blk1 blk : ℕ) (qc : C.QuorumCert) (s : HotStuffCore C)
      → (at s nblk).qc ≡ some qc
      → decided (at s blk2).decision ≡ false
      → s.hqc ≢ none
      → ThreeChain s.heap.cell blk2 blk1 blk
      → update_blk2 nblk (some blk2) s
        ≡ commit blk (raise_lock blk1 (update_hqc blk2 (some qc) s).1)
  unfolding update_blk2
  update_blk2-commit nblk blk2 blk1 blk qc s cert fresh known c =
      let t : HotStuffCore C = (update_hqc blk2 (some qc) s).1 in
      let still =
        update_hqc-Still s blk2 (some qc) s (record { heap = refl; exec = refl; out = refl }) in
      rw (fresh, cert)
        (ap (λ r. continue r (λ _ u. update_blk1 blk2 (at u blk2).qc_ref u))
            (update_hqc-ok blk2 qc s known)
          ∙ update_blk1-commit blk2 blk1 blk t
              (subst (λ g. ThreeChain g.cell blk2 blk1 blk) (sym still.heap) c))

  committed-commit :
      (s u : HotStuffCore C) (blk : ℕ) (queue : List ℕ)
      → Still s u
      → Falls s.heap.cell
      → Branch s.heap.cell (at s s.b_exec).height blk queue s.b_exec
      → (t : HotStuffCore C) × (commit blk u ≡ (ok tt, t))
        × (t.b_exec ≡ blk)
        × (committed t.outbox ≡ committed s.outbox ++ reverse queue)
  committed-commit s u blk queue still falls br =
      let falls' : Falls u.heap.cell = subst (λ g. Falls g.cell) (sym still.heap) falls in
      let br1 : Branch u.heap.cell (at u s.b_exec).height blk queue s.b_exec =
        subst (λ g. Branch g.cell (g.cell s.b_exec).height blk queue s.b_exec) (sym still.heap)
          br in
      let br2 : Branch u.heap.cell (at u u.b_exec).height blk queue u.b_exec =
        subst (λ e. Branch u.heap.cell (at u e).height blk queue e) (sym still.exec) br1 in
      let post : HotStuffCore C = record u {
        heap = record (u.heap) { cell = mark (reverse queue) u.heap.cell };
        outbox = u.outbox ++ branch_events u.id u.heap.cell (reverse queue);
        b_exec = blk;
      } in
      (
        post,
        commit_lem u blk u.b_exec queue falls' br2
            ∙ ap (λ d. if d then (ok tt, post) else (err safety_breached, u)) (==_refl u.b_exec),
        refl,
        committed-append u.outbox (branch_events u.id u.heap.cell (reverse queue))
            ∙ (rw (still.out, committed-branch_events u.id u.heap.cell (reverse queue)) refl),
      )

  -- Where direct parents are lower and a highest certificate is known: if the new block carries a
  -- certificate of a block that is not decided and starts a three-chain of direct parents, and the
  -- branch from the three-chain's lowest block leads down to the last executed block, then `update`
  -- succeeds, that lowest block is the new last executed block, and the blocks of the branch are
  -- announced, lowest first.
  pub update-commits :
      (nblk blk2 blk1 blk : ℕ) (qc : C.QuorumCert) (queue : List ℕ) (s : HotStuffCore C)
      → Falls s.heap.cell
      → s.hqc ≢ none
      → (at s nblk).qc ≡ some qc
      → (at s nblk).qc_ref ≡ some blk2
      → decided (at s blk2).decision ≡ false
      → ThreeChain s.heap.cell blk2 blk1 blk
      → Branch s.heap.cell (at s s.b_exec).height blk queue s.b_exec
      → (t : HotStuffCore C) × (update nblk s ≡ (ok tt, t))
        × (t.b_exec ≡ blk)
        × (committed t.outbox ≡ committed s.outbox ++ reverse queue)
  unfolding update
  update-commits nblk blk2 blk1 blk qc queue s falls known cert carried fresh c br =
      let t : HotStuffCore C = (update_hqc blk2 (some qc) s).1 in
      let still =
        raise_lock-Still s blk1 t
          (update_hqc-Still s blk2 (some qc) s (record { heap = refl; exec = refl; out = refl })) in
      let (u, done, exec, out) = committed-commit s (raise_lock blk1 t) blk queue still falls br in
      (
        u,
        ap (λ o. update_blk2 nblk o s) carried
            ∙ update_blk2-commit nblk blk2 blk1 blk qc s cert fresh known c
            ∙ done,
        exec,
        out,
      )
