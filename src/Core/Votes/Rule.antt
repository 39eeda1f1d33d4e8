-- ===== src/Core/Votes/Rule.antt =====
-- `on_receive_proposal`: when a replica votes, and what it never does.
use kauri_public.Base.{
  ℕ, suc, ◌≤◌, ◌<◌, ◌≡◌, refl, sym, ◌∙◌, ap, subst, ◌⊎◌, inl, inr, Bool, true, false, Option, none,
  some, List, [], ◌∷◌, ◌++◌, arith, ltb, ltb→lt, lt→ltb, ==_iff, ==_refl, Bool-cases,
}
use kauri_public.Base.Exec.{Result, ok, err}
use kauri_public.Base.Maps
use kauri_public.Crypto.Scheme.{Scheme}
use kauri_public.Core.State.{
  HotStuffCore, Proposal, vote, resolve_qc, resolve_proposal, at, emit, on_qc_finish,
  resolve_waiting, on_receive_proposal_,
}
use kauri_public.Core.Update.{walk_from}
use kauri_public.Core.Update.Chain.{Falls, Branch, Branch-walk, walk-Branch}
use kauri_public.Core.Votes.{opinion_of, answer, on_lock, qc_ref_above_lock, finish_ref, own_vote}
use kauri_public.Core.Votes.Sent.{votes, votes-append, votes-silent}

module _ {C : Scheme} where
  -- A block may be voted for: its certificate is for a higher block than the lock, or its branch
  -- leads down to the lock.
  abbrev pub Justified : HotStuffCore C → ℕ → Type 0
  Justified s b =
      (qc_ref_above_lock s (at s b).qc_ref ≡ true)
      ⊎ ((queue : List ℕ) × Branch s.heap.cell (at s s.b_lock).height b queue s.b_lock)

  on_lock-Branch :
      (s : HotStuffCore C) (b : ℕ) (r : Result (List ℕ × ℕ))
      → walk_from s.heap.cell (at s s.b_lock).height b ≡ r
      → on_lock s.b_lock r ≡ ok true
      → (queue : List ℕ) × Branch s.heap.cell (at s s.b_lock).height b queue s.b_lock
  on_lock-Branch s b (err e) w h = absurd (ground arith)
  on_lock-Branch s b (ok (queue, last)) w h =
      let same : last ≡ s.b_lock = (==_iff last s.b_lock).0 (ground arith) in
      (
        queue,
        subst (λ l. Branch s.heap.cell (at s s.b_lock).height b queue l) same
            (walk-Branch s.heap.cell (suc (at s b).height) (at s s.b_lock).height b last queue w),
      )

  -- A block with a positive opinion is above the last vote, and its certificate is for a higher block
  -- than the lock or its branch leads down to the lock.
  pub opinion_of-Justified :
      (s : HotStuffCore C) (b : ℕ)
      → opinion_of s b ≡ ok true
      → (s.vheight < (at s b).height) × Justified s b
  unfolding opinion_of
  opinion_of-Justified s b h = elim (Bool-cases (ltb s.vheight (at s b).height)) [
    | inl higher ↦ (
      ltb→lt _ _ higher,
      elim (Bool-cases (qc_ref_above_lock s (at s b).qc_ref)) [
        | inl live ↦ inl live
        | inr stale ↦ inr (on_lock-Branch s b _ refl (rw (higher, stale, opinion_of) at h))
      ],
    )
    | inr lower ↦ absurd (clash (rw (lower, opinion_of) at h))
  ]
    where
      clash : ◌≡◌ {A = Result Bool} (ok false) (ok true) → ⊥
      clash e = ground arith

  -- Where direct parents are lower, a block above the last vote has a positive opinion if its
  -- certificate is for a higher block than the lock or its branch leads down to the lock.
  pub Justified-opinion_of :
      (s : HotStuffCore C) (b : ℕ)
      → Falls s.heap.cell
      → s.vheight < (at s b).height
      → Justified s b
      → opinion_of s b ≡ ok true
  unfolding opinion_of
  Justified-opinion_of s b falls higher (inl live) = rw (lt→ltb _ _ higher, opinion_of, live) refl
  Justified-opinion_of s b falls higher (inr (queue, br)) =
      rw
        (
          lt→ltb _ _ higher,
          opinion_of,
          Branch-walk s.heap.cell (suc (at s b).height) falls br (omega arith),
          ==_refl s.b_lock,
        )
        (elim (Bool-cases (qc_ref_above_lock s (at s b).qc_ref)) [
          | inl live ↦ rw live
          | inr stale ↦ rw stale
        ])

  -- What the answer to a proposal may do: send no vote, or one vote for the proposed block, which
  -- is above the last vote and justified, and is the new last vote.
  pub data Reply (s t : HotStuffCore C) (b : ℕ) : Type 0 where
    silent : votes t.outbox ≡ votes s.outbox → s.vheight ≤ t.vheight → t.heap ≡ s.heap → Reply s t b
    voted :
        votes t.outbox ≡ votes s.outbox ++ b ∷ []
        → s.vheight < (at s b).height
        → t.vheight ≡ (at s b).height
        → s.vote_disabled ≡ false
        → Justified s b
        → t.heap ≡ s.heap
        → Reply s t b

  -- Outputs that are no vote, and no change to blocks.
  record Quiet (s t : HotStuffCore C) : Type 0 where
    sent : votes t.outbox ≡ votes s.outbox
    vheight : t.vheight ≡ s.vheight
    heap : t.heap ≡ s.heap
    disabled : t.vote_disabled ≡ s.vote_disabled

  resolve_waiting-Quiet :
      (b : ℕ) (o : Option ℕ) (s : HotStuffCore C) → Quiet s (resolve_waiting b o s)
  unfolding votes
  resolve_waiting-Quiet b none s = record {
    sent = refl;
    vheight = refl;
    heap = refl;
    disabled = refl;
  }
  resolve_waiting-Quiet b (some p) s = record {
    sent = votes-silent s.outbox (resolve_qc p) refl;
    vheight = refl;
    heap = refl;
    disabled = refl;
  }

  finish_ref-Quiet : (o : Option ℕ) (s : HotStuffCore C) → Quiet s (finish_ref o s)
  unfolding on_qc_finish
  finish_ref-Quiet none s = record { sent = refl; vheight = refl; heap = refl; disabled = refl }
  finish_ref-Quiet (some r) s = resolve_waiting-Quiet r (Maps.find r s.waiting.qc_waiting) s

  on_receive_proposal_-Quiet :
      (prop : Proposal) (s : HotStuffCore C) → Quiet s (on_receive_proposal_ prop s)
  unfolding on_receive_proposal_ votes
  on_receive_proposal_-Quiet prop s = record {
    sent = votes-silent s.outbox (resolve_proposal s.waiting.receive_proposal_waiting prop) refl;
    vheight = refl;
    heap = refl;
    disabled = refl;
  }

  Quiet-trans : (s t u : HotStuffCore C) → Quiet s t → Quiet t u → Quiet s u
  Quiet-trans s t u h k = record {
    sent = k.sent ∙ h.sent;
    vheight = k.vheight ∙ h.vheight;
    heap = k.heap ∙ h.heap;
    disabled = k.disabled ∙ h.disabled;
  }

  notify-Quiet :
      (prop : Proposal) (o : Option ℕ) (s : HotStuffCore C)
      → Quiet s (on_receive_proposal_ prop (finish_ref o s))
  notify-Quiet prop o s =
      Quiet-trans s (finish_ref o s) _ (finish_ref-Quiet o s)
        (on_receive_proposal_-Quiet prop (finish_ref o s))

  votes-cast :
      (prop : Proposal) (s : HotStuffCore C)
      → votes (s.outbox ++ vote prop (own_vote s prop.blk) ∷ []) ≡ votes s.outbox ++ prop.blk ∷ []
  unfolding votes
  votes-cast prop s = votes-append s.outbox (vote prop (own_vote s prop.blk) ∷ [])

  pub answer-Reply :
      (prop : Proposal) (opinion : Bool) (s : HotStuffCore C)
      → opinion_of s prop.blk ≡ ok opinion
      → Reply s (answer prop opinion s) prop.blk
  unfolding answer emit
  answer-Reply prop false s h =
      let q = notify-Quiet prop (at s prop.blk).qc_ref s in
      silent q.sent (omega (arith, q.vheight)) q.heap
  answer-Reply prop true s h =
      let (higher, just) = opinion_of-Justified s prop.blk h in
      let s' : HotStuffCore C = record s { vheight = (at s prop.blk).height } in
      let q = notify-Quiet prop (at s prop.blk).qc_ref s' in
      elim (Bool-cases
        (on_receive_proposal_ prop (finish_ref (at s prop.blk).qc_ref s')).vote_disabled) [
          | inl off ↦ rw off (silent q.sent (omega (arith, q.vheight)) q.heap)
          | inr on ↦ rw on (
              voted
                (votes-cast prop (on_receive_proposal_ prop (finish_ref (at s prop.blk).qc_ref s'))
                  ∙ ap (λ xs. xs ++ prop.blk ∷ []) q.sent)
                higher q.vheight (sym q.disabled ∙ on) just q.heap)
        ]
