-- ===== src/Core/Votes/Sent.antt =====
-- The votes among the outputs, and that nothing but the answer to a proposal sends one.
use kauri_public.Base.{
  ℕ, ◌+◌, ◌≡◌, refl, ◌∙◌, ap, inl, inr, Option, none, some, List, [], ◌∷◌, ◌++◌, reverse, ltb, ◌==◌,
  Bool-cases,
}
use mathlib.Core.List.{append-nil}
use kauri_public.Base.Exec.{Result, ok, err}
use kauri_public.Crypto.Scheme.{Scheme}
use kauri_public.Entity.Block.{Block}
use kauri_public.Core.State.{
  HotStuffCore, Event, at, decide, consensus, broadcast, vote, resolve_qc, resolve_proposal,
  resolve_hqc, on_hqc_update, set_hqc, raise_hqc, update_hqc,
}
use kauri_public.Core.Update.{walk_from, commit, commit_walked, raise_lock, update}
use kauri_public.Core.Update.Rule.{update-rule}
use kauri_public.Core.Update.Commit.{cmd_events, branch_events, commit_all_lem}

module _ {C : Scheme} where
  -- The blocks that votes were sent for.
  unfoldable pub votes : List (Event C) → List ℕ
  votes [] = []
  votes (vote p v ∷ es) = p.blk ∷ votes es
  votes (decide f ∷ es) = votes es
  votes (consensus b ∷ es) = votes es
  votes (broadcast p ∷ es) = votes es
  votes (resolve_qc n ∷ es) = votes es
  votes (resolve_proposal n p ∷ es) = votes es
  votes (resolve_hqc n ∷ es) = votes es

  pub votes-append : (xs ys : List (Event C)) → votes (xs ++ ys) ≡ votes xs ++ votes ys
  unfolding votes
  votes-append [] ys = refl
  votes-append (vote p v ∷ es) ys = ap (◌∷◌ p.blk) (votes-append es ys)
  votes-append (decide f ∷ es) ys = votes-append es ys
  votes-append (consensus b ∷ es) ys = votes-append es ys
  votes-append (broadcast p ∷ es) ys = votes-append es ys
  votes-append (resolve_qc n ∷ es) ys = votes-append es ys
  votes-append (resolve_proposal n p ∷ es) ys = votes-append es ys
  votes-append (resolve_hqc n ∷ es) ys = votes-append es ys

  -- An output that is no vote.
  pub votes-silent :
      (es : List (Event C)) (e : Event C) → votes (e ∷ []) ≡ [] → votes (es ++ e ∷ []) ≡ votes es
  votes-silent es e h =
      votes-append es (e ∷ []) ∙ ap (λ xs. votes es ++ xs) h ∙ append-nil (votes es)

  votes-cmd_events :
      (id : ℕ) (blk : Block C) (i : ℕ) (cmds : List ℕ) → votes (cmd_events id blk i cmds) ≡ []
  unfolding votes cmd_events
  votes-cmd_events id blk i [] = refl
  votes-cmd_events id blk i (cmd ∷ cmds) = votes-cmd_events id blk (i + 1) cmds

  votes-branch_events :
      (id : ℕ) (cell : ℕ → Block C) (bs : List ℕ) → votes (branch_events id cell bs) ≡ []
  unfolding votes branch_events
  votes-branch_events id cell [] = refl
  votes-branch_events id cell (b ∷ bs) =
      votes-append (cmd_events id (cell b) 0 (cell b).cmds) (branch_events id cell bs)
      ∙ (rw (votes-cmd_events id (cell b) 0 (cell b).cmds) (votes-branch_events id cell bs))

  module _ (sent : List ℕ) where
    -- The votes sent so far.
    abbrev Sent : HotStuffCore C → Type 0
    Sent u = votes u.outbox ≡ sent

    raise_lock-Sent : (b : ℕ) (u : HotStuffCore C) → Sent u → Sent (raise_lock b u)
    raise_lock-Sent b u h = elim (Bool-cases (ltb (at u u.b_lock).height (at u b).height)) [
      | inl higher ↦ rw higher h
      | inr lower ↦ rw lower h
    ]

    set_hqc-Sent :
        (b : ℕ) (qc : Option C.QuorumCert) (u : HotStuffCore C) → Sent u → Sent (set_hqc b qc u).1
    unfolding on_hqc_update votes
    set_hqc-Sent b none u h = h
    set_hqc-Sent b (some q) u h =
        votes-silent u.outbox (resolve_hqc u.waiting.hqc_update_waiting) refl ∙ h

    raise_hqc-Sent :
        (o : Option (ℕ × C.QuorumCert)) (b : ℕ) (qc : Option C.QuorumCert) (u : HotStuffCore C)
        → Sent u
        → Sent (raise_hqc o b qc u).1
    raise_hqc-Sent none b qc u h = h
    raise_hqc-Sent (some (top, cert)) b qc u h =
        elim (Bool-cases (ltb (at u top).height (at u b).height)) [
          | inl higher ↦ rw higher (set_hqc-Sent b qc u h)
          | inr lower ↦ rw lower h
        ]

    pub update_hqc-Sent :
        (b : ℕ) (qc : Option C.QuorumCert) (u : HotStuffCore C)
        → Sent u
        → Sent (update_hqc b qc u).1
    unfolding update_hqc
    update_hqc-Sent b qc u h = raise_hqc-Sent u.hqc b qc u h

    commit_walked-Sent :
        (b : ℕ) (r : Result (List ℕ × ℕ)) (u : HotStuffCore C)
        → Sent u
        → Sent (commit_walked b r u).1
    commit_walked-Sent b (err e) u h = h
    commit_walked-Sent b (ok (queue, last)) u h = elim (Bool-cases (last == u.b_exec)) [
      | inl same ↦
          rw (same, commit_all_lem (reverse queue) u)
            (votes-append u.outbox (branch_events u.id u.heap.cell (reverse queue))
              ∙ (rw (votes-branch_events u.id u.heap.cell (reverse queue), append-nil) h))
      | inr other ↦ rw other h
    ]

    commit-Sent : (b : ℕ) (u : HotStuffCore C) → Sent u → Sent (commit b u).1
    unfolding commit
    commit-Sent b u h = commit_walked-Sent b (walk_from u.heap.cell (at u u.b_exec).height b) u h

    pub update-Sent : (nblk : ℕ) (u : HotStuffCore C) → Sent u → Sent (update nblk u).1
    update-Sent nblk u h =
        update-rule (at u nblk).qc_ref Sent Sent (λ t k. k) (λ _ _ b t _ _ k. commit-Sent b t k)
          raise_lock-Sent update_hqc-Sent nblk u refl h
