-- ===== src/Core/Votes/Once.antt =====
-- `on_receive_proposal` keeps the votes of a replica in the order of their heights.
use kauri_public.Base.{ℕ, ◌≡◌, refl, Bool, List, [], ◌∷◌, arith}
use kauri_public.Base.Rising.{IsRising, IsRising-append, IsRising-weaken}
use kauri_public.Base.Exec.{Result, ok, err, continue, bind-keeps}
use kauri_public.Crypto.Scheme.{Scheme}
use kauri_public.Entity.Block.{Block}
use kauri_public.Core.State.{HotStuffCore, Proposal, at, sanity_check_delivered}
use kauri_public.Core.Update.{update}
use kauri_public.Core.Update.Order.{heights, heights-append}
use kauri_public.Core.Update.Monotone.{update-Advances}
use kauri_public.Core.Votes.{opinion_of, answer, on_receive_proposal}
use kauri_public.Core.Votes.Sent.{votes, update-Sent}
use kauri_public.Core.Votes.Rule.{Reply, silent, voted, answer-Reply}

module _ {C : Scheme} where
  -- The blocks voted for rise in height, up to the height of the last vote.
  abbrev pub VotesInOrder : HotStuffCore C → Type 0
  VotesInOrder s = IsRising 0 s.vheight (heights s.heap.cell (votes s.outbox))

  pub heights-place :
      (c d : ℕ → Block C) (xs : List ℕ)
      → ((a : ℕ) → (d a).height ≡ (c a).height)
      → heights d xs ≡ heights c xs
  heights-place c d [] h = refl
  heights-place c d (x ∷ xs) h = rw (h x, heights-place c d xs h)

  Reply-VotesInOrder :
      (s t : HotStuffCore C) (b : ℕ) → Reply s t b → VotesInOrder s → VotesInOrder t
  Reply-VotesInOrder s t b (silent sent rises heap) h =
      rw (sent, heap)
        (IsRising-weaken 0 s.vheight t.vheight (heights s.heap.cell (votes s.outbox)) rises h)
  Reply-VotesInOrder s t b (voted sent higher last on just heap) h =
      rw (sent, heap, last, heights-append s.heap.cell (votes s.outbox) (b ∷ []))
        (IsRising-append 0 s.vheight (at s b).height (heights s.heap.cell (votes s.outbox))
          ((at s b).height ∷ []) h (higher, omega arith))

  update-VotesInOrder : (b : ℕ) (s : HotStuffCore C) → VotesInOrder s → VotesInOrder (update b s).1
  update-VotesInOrder b s h =
      let adv = update-Advances b s in
      rw
        (
          update-Sent (votes s.outbox) b s refl,
          adv.vheight,
          heights-place s.heap.cell (update b s).1.heap.cell (votes s.outbox)
              (λ a. (adv.place a).height),
        )
        h

  conclude :
      (prop : Proposal) (s : HotStuffCore C) (r : Result Bool)
      → opinion_of s prop.blk ≡ r
      → VotesInOrder s
      → VotesInOrder (continue (r, s) (λ op u. (ok (tt {0}), answer prop op u))).1
  conclude prop s (err e) w h = h
  conclude prop s (ok op) w h = Reply-VotesInOrder s _ prop.blk (answer-Reply prop op s w) h

  -- Whatever proposal is received, and whether it is handled or refused, the blocks that the replica
  -- has voted for still rise strictly in height and end at or below the height of its last vote.
  pub on_receive_proposal-VotesInOrder :
      (prop : Proposal) (s : HotStuffCore C)
      → VotesInOrder s
      → VotesInOrder (on_receive_proposal prop s).1
  unfolding on_receive_proposal sanity_check_delivered
  on_receive_proposal-VotesInOrder prop s h =
      bind-keeps VotesInOrder (sanity_check_delivered prop.blk) _ s h λ _ t k.
        bind-keeps VotesInOrder (update prop.blk) _ t (update-VotesInOrder prop.blk t k)
          λ _ u l. conclude prop u (opinion_of u prop.blk) refl l
