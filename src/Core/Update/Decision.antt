-- ===== src/Core/Update/Decision.antt =====
-- When `update` commits: the three-chain rule.
use kauri_public.Base.{
  ℕ, suc, ◌≡◌, refl, ◌∙◌, subst, inl, inr, Option, none, some, List, ◌++◌, reverse, ltb, ◌==◌,
  Bool-cases, ==_iff,
}
use kauri_public.Base.Exec.{Result, ok, err}
use kauri_public.Crypto.Scheme.{Scheme}
use kauri_public.Core.State.{HotStuffCore, at, update_hqc, on_hqc_update, set_hqc, raise_hqc}
use kauri_public.Core.Update.{walk_from, commit, commit_walked, raise_lock, update}
use kauri_public.Core.Update.Rule.{ThreeChain, update-rule}
use kauri_public.Core.Update.Chain.{Branch, walk-Branch}
use kauri_public.Core.Update.Commit.{branch_events, commit_all_lem}
use kauri_public.Core.Update.Order.{
  committed, committed-append, committed-branch_events, committed-resolve_hqc,
}

module _ {C : Scheme} where
  -- What `update` of a block may do to the last executed block and the announcements: nothing, or
  -- commit the branch from the old to the new last executed block, at the end of a three-chain that
  -- the block's certificate completes.
  pub data Outcome (s t : HotStuffCore C) (nblk : ℕ) : Type 0 where
    kept : t.b_exec ≡ s.b_exec → committed t.outbox ≡ committed s.outbox → Outcome s t nblk
    extended :
        (blk2 blk1 blk : ℕ) (queue : List ℕ)
        → (at s nblk).qc_ref ≡ some blk2
        → ThreeChain s.heap.cell blk2 blk1 blk
        → Branch s.heap.cell (at s s.b_exec).height blk queue s.b_exec
        → t.b_exec ≡ blk
        → committed t.outbox ≡ committed s.outbox ++ reverse queue
        → Outcome s t nblk

  -- Before a commit only the lock and the highest certificate change.
  pub record Still (s u : HotStuffCore C) : Type 0 where
    pub heap : u.heap ≡ s.heap
    pub exec : u.b_exec ≡ s.b_exec
    pub out : committed u.outbox ≡ committed s.outbox

  pub raise_lock-Still :
      (s : HotStuffCore C) (b : ℕ) (u : HotStuffCore C) → Still s u → Still s (raise_lock b u)
  raise_lock-Still s b u h = elim (Bool-cases (ltb (at u u.b_lock).height (at u b).height)) [
    | inl higher ↦ rw higher (record { heap = h.heap; exec = h.exec; out = h.out })
    | inr lower ↦ rw lower h
  ]

  set_hqc-Still :
      (s : HotStuffCore C) (b : ℕ) (qc : Option C.QuorumCert) (u : HotStuffCore C)
      → Still s u
      → Still s (set_hqc b qc u).1
  unfolding on_hqc_update
  set_hqc-Still s b none u h = h
  set_hqc-Still s b (some q) u h = record {
    heap = h.heap;
    exec = h.exec;
    out = committed-resolve_hqc u.outbox u.waiting.hqc_update_waiting ∙ h.out;
  }

  raise_hqc-Still :
      (s : HotStuffCore C) (o : Option (ℕ × C.QuorumCert)) (b : ℕ) (qc : Option C.QuorumCert)
      (u : HotStuffCore C)
      → Still s u
      → Still s (raise_hqc o b qc u).1
  raise_hqc-Still s none b qc u h = h
  raise_hqc-Still s (some (top, cert)) b qc u h =
      elim (Bool-cases (ltb (at u top).height (at u b).height)) [
        | inl higher ↦ rw higher (set_hqc-Still s b qc u h)
        | inr lower ↦ rw lower h
      ]

  pub update_hqc-Still :
      (s : HotStuffCore C) (b : ℕ) (qc : Option C.QuorumCert) (u : HotStuffCore C)
      → Still s u
      → Still s (update_hqc b qc u).1
  unfolding update_hqc
  update_hqc-Still s b qc u h = raise_hqc-Still s u.hqc b qc u h

  commit_walked-Outcome :
      (s : HotStuffCore C) (nblk blk2 blk1 blk : ℕ) (r : Result (List ℕ × ℕ)) (u : HotStuffCore C)
      → walk_from u.heap.cell (at u u.b_exec).height blk ≡ r
      → (at s nblk).qc_ref ≡ some blk2
      → ThreeChain u.heap.cell blk2 blk1 blk
      → Still s u
      → Outcome s (commit_walked blk r u).1 nblk
  commit_walked-Outcome s nblk blk2 blk1 blk (err e) u w carried chain h = kept h.exec h.out
  commit_walked-Outcome s nblk blk2 blk1 blk (ok (queue, last)) u w carried chain h =
      elim (Bool-cases (last == u.b_exec)) [
        | inl same ↦
            let bottom : last ≡ s.b_exec = (==_iff last u.b_exec).0 same ∙ h.exec in
            let br =
              walk-Branch u.heap.cell (suc (at u blk).height) (at u u.b_exec).height blk last queue
                w in
            let br' : Branch s.heap.cell (at s s.b_exec).height blk queue s.b_exec =
              subst (λ l. Branch s.heap.cell (at s s.b_exec).height blk queue l) bottom
                (subst (λ e. Branch s.heap.cell (at s e).height blk queue last) h.exec
                  (subst (λ g. Branch g.cell (g.cell u.b_exec).height blk queue last) h.heap br)) in
            rw (same, commit_all_lem (reverse queue) u)
              (extended blk2 blk1 blk queue carried
                (subst (λ g. ThreeChain g.cell blk2 blk1 blk) h.heap chain) br' refl
                (committed-append u.outbox (branch_events u.id u.heap.cell (reverse queue))
                  ∙ (rw (h.out, committed-branch_events u.id u.heap.cell (reverse queue)) refl)))
        | inr other ↦ rw other (kept h.exec h.out)
      ]

  commit-Outcome :
      (s : HotStuffCore C) (nblk blk2 blk1 blk : ℕ) (u : HotStuffCore C)
      → (at s nblk).qc_ref ≡ some blk2
      → ThreeChain u.heap.cell blk2 blk1 blk
      → Still s u
      → Outcome s (commit blk u).1 nblk
  unfolding commit
  commit-Outcome s nblk blk2 blk1 blk u carried chain h =
      commit_walked-Outcome s nblk blk2 blk1 blk _ u refl carried chain h

  -- However `update` ends, either the last executed block and the announced blocks are as before, or
  -- a three-chain of direct parents starts at the block that the new block certifies, its lowest
  -- block is the new last executed block, and the blocks announced are those of the branch from it
  -- down to the old last executed block, lowest first.
  pub update-Outcome : (nblk : ℕ) (s : HotStuffCore C) → Outcome s (update nblk s).1 nblk
  update-Outcome nblk s =
      update-rule (at s nblk).qc_ref (Still s) (λ t. Outcome s t nblk) (λ u h. kept h.exec h.out)
        (λ blk2 blk1 blk u r c h. commit-Outcome s nblk blk2 blk1 blk u r c h) (raise_lock-Still s)
        (update_hqc-Still s) nblk s refl (record { heap = refl; exec = refl; out = refl })
