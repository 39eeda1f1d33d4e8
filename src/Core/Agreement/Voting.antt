-- ===== src/Core/Agreement/Voting.antt =====
-- `on_receive_proposal` of src/consensus.cpp votes by the rules.
use kauri_public.Base.{
  ℕ, ◌<◌, ◌≡◌, refl, sym, ◌∙◌, ap, subst, inl, inr, Bool, true, false, Option, none, some, List, [],
  ◌∷◌, ◌++◌, arith, ltb→lt, if◌then◌else◌,
}
use kauri_public.Base.Exec.{
  Result, ok, err, Exec, continue, bind-rule, modify, not_delivered, ◌>>=◌, ◌>>◌,
}
use kauri_public.Crypto.Scheme.{Scheme}
use kauri_public.Core.State.{HotStuffCore, Proposal, at, sanity_check_delivered}
use kauri_public.Core.Update.{update}
use kauri_public.Core.Update.Monotone.{update-Advances}
use kauri_public.Core.Votes.{opinion_of, answer, on_receive_proposal, qc_ref_above_lock}
use kauri_public.Core.Votes.Sent.{votes, update-Sent}
use kauri_public.Core.Votes.Rule.{Justified, Reply, silent, voted, answer-Reply}
use kauri_public.Core.Agreement.Tree.{Tree, IsTree}
use kauri_public.Core.Agreement.Ballots.{Ballot, IsSafe, All-weaken, All-below, Locks-le}
use kauri_public.Core.Agreement.Memory.{Agrees, Sound, Bound, Branch-Extends, lock_hash, hash_of}
use kauri_public.Core.Agreement.Lock.{update-Locked}
use kauri_public.Core.Agreement.Notes.{
  ballot, ballot_in, noted, noted-silent, noted-vote, Votes, VotesByRules, Agrees-place,
  answer-lock, answer-committed,
}
use kauri_public.Core.Agreement.Commits.{Announced, same-Announced, update-Announced}

module _ {C : Scheme} where
  module _ (T : Tree) (tree : IsTree T) where
    Justified-IsSafe :
        (s : HotStuffCore C) (b : ℕ)
        → Agrees T s.heap.cell
        → Sound T s.heap.cell s.b_lock
        → (at s b).delivered ≡ true
        → Justified s b
        → IsSafe T (ballot s b)
    Justified-IsSafe s b ag so d (inl above) = go (at s b).qc_ref refl above
      where
        go :
            (o : Option ℕ)
            → (at s b).qc_ref ≡ o
            → qc_ref_above_lock s o ≡ true
            → IsSafe T (ballot s b)
        go none e a = absurd (ground arith)
        go (some r) e a =
            let dr = ag.ref_in b r d e in
            let low = ltb→lt _ _ a in
            inl (
              (at s r).hash,
              ag.ref b d ∙ ap (hash_of s.heap.cell) e,
              omega (arith, ag.height r dr, ag.height s.b_lock so.lock_in),
            )
    Justified-IsSafe s b ag so d (inr (queue, br)) = inr (Branch-Extends T tree s.heap.cell ag d br)

    -- A vote that the rules allow is added to the votes.
    add_vote :
        (s : HotStuffCore C) (b : ℕ) (xs : List Ballot)
        → Agrees T s.heap.cell
        → (at s b).delivered ≡ true
        → s.vheight < (at s b).height
        → Justified s b
        → Bound T (at s b).hash s
        → VotesByRules T s xs
        → Votes T s.heap.cell s.b_lock (at s b).height (ballot s b ∷ xs)
    add_vote s b xs ag d higher just bound v =
        let h = ag.height b d in
        record {
          rules = (
            All-below T s.vheight (T.height (at s b).hash) xs (omega arith) v.last,
            Justified-IsSafe s b ag v.sound d just,
            (bound, v.locks),
            v.sound.cert,
            omega arith,
            v.rules,
          );
          last = (omega arith, All-weaken T s.vheight (at s b).height xs (omega arith) v.last);
          locks = (bound, v.locks);
          sound = v.sound;
        }

    -- After a call that led from `s` to `t`: the memory agrees with the tree, the votes are by the
    -- rules, and what was announced could be committed.
    abbrev pub Played : HotStuffCore C → List Ballot → HotStuffCore C → Type 0
    Played s xs t = Agrees T t.heap.cell × VotesByRules T t (noted s t xs) × Announced T t

    same_memory :
        (v : ℕ) (xs : List Ballot) (u t : HotStuffCore C)
        → t.heap ≡ u.heap
        → t.b_lock ≡ u.b_lock
        → Votes T u.heap.cell u.b_lock v xs
        → Votes T t.heap.cell t.b_lock v xs
    same_memory v xs u t mem lock h =
        subst (λ g. Votes T g.cell t.b_lock v xs) (sym mem)
          (subst (λ l. Votes T u.heap.cell l v xs) (sym lock) h)

    same_ballot :
        (b : ℕ) (u t : HotStuffCore C)
        → t.heap ≡ u.heap
        → t.b_lock ≡ u.b_lock
        → ballot u b ≡ ballot t b
    same_ballot b u t mem lock =
        ap (λ l. ballot_in u.heap.cell l b) (sym lock)
        ∙ ap (λ g. ballot_in g.cell t.b_lock b) (sym mem)

    -- `u` is the state after `update`, `t` the one after the answer.
    Reply-Played :
        (s u t : HotStuffCore C) (b : ℕ) (xs : List Ballot)
        → votes u.outbox ≡ votes s.outbox
        → Agrees T u.heap.cell
        → (at u b).delivered ≡ true
        → Bound T (at u b).hash u
        → VotesByRules T u xs
        → t.b_lock ≡ u.b_lock
        → Reply u t b
        → Agrees T t.heap.cell × VotesByRules T t (noted s t xs) × (t.heap ≡ u.heap)
    Reply-Played s u t b xs same ag d bound v lock (silent sent rises mem) = (
      subst (λ g. Agrees T g.cell) (sym mem) ag,
      subst (λ l. Votes T t.heap.cell t.b_lock t.vheight l)
          (sym (noted-silent s t xs (sent ∙ same)))
          (same_memory t.vheight xs u t mem lock (record {
            rules = v.rules;
            last = All-weaken T u.vheight t.vheight xs rises v.last;
            locks = v.locks;
            sound = v.sound;
          })),
      mem,
    )
    Reply-Played s u t b xs same ag d bound v lock (voted sent higher last on just mem) = (
      subst (λ g. Agrees T g.cell) (sym mem) ag,
      subst (λ l. Votes T t.heap.cell t.b_lock t.vheight l)
          (sym (noted-vote s t b xs (sent ∙ ap (λ l. l ++ b ∷ []) same)))
          (subst (λ x. Votes T t.heap.cell t.b_lock t.vheight (x ∷ xs)) (same_ballot b u t mem lock)
            (same_memory t.vheight (ballot u b ∷ xs) u t mem lock (
              subst (λ n. Votes T u.heap.cell u.b_lock n (ballot u b ∷ xs)) (sym last)
                (add_vote u b xs ag d higher just bound v)))),
      mem,
    )

    update-Votes :
        (s : HotStuffCore C) (b : ℕ) (xs : List Ballot)
        → Agrees T s.heap.cell
        → (at s b).delivered ≡ true
        → VotesByRules T s xs
        → Agrees T (update b s).1.heap.cell × VotesByRules T (update b s).1 xs
    update-Votes s b xs ag d v =
        let adv = update-Advances b s in
        let t : HotStuffCore C = (update b s).1 in
        let ag' = Agrees-place T s.heap.cell t.heap.cell adv.place ag in
        let so' = (update-Locked T tree b s ag d v.sound).0 in
        (
          ag',
          record {
            rules = v.rules;
            last = All-weaken T s.vheight t.vheight xs (omega (arith, adv.vheight)) v.last;
            locks =
                Locks-le T (lock_hash s) (lock_hash t) xs
                  (omega (
                    arith,
                    adv.lock,
                    ag.height s.b_lock v.sound.lock_in,
                    ag'.height t.b_lock so'.lock_in,
                  ))
                  v.locks;
            sound = so';
          },
        )

    abbrev vote_on : Proposal → Exec (HotStuffCore C) (Unit {0})
    vote_on prop = do
      update prop.blk
      opinion ← (λ s. (opinion_of s prop.blk, s))
      modify (answer prop opinion)

    module _ (prop : Proposal) (s : HotStuffCore C) (xs : List Ballot) (ag : Agrees T s.heap.cell)
        (v : VotesByRules T s xs) (an : Announced T s) where
      unchanged :
          (t : HotStuffCore C)
          → votes t.outbox ≡ votes s.outbox
          → Agrees T t.heap.cell × VotesByRules T t xs × Announced T t
          → Played s xs t
      unchanged t e (ag', w, an') = (
        ag',
        subst (λ l. Votes T t.heap.cell t.b_lock t.vheight l) (sym (noted-silent s t xs e)) w,
        an',
      )

      vote_on-Played : (at s prop.blk).delivered ≡ true → Played s xs (vote_on prop s).1
      vote_on-Played d =
          bind-rule (λ r. Played s xs r.1) (update prop.blk) _ s
            (λ e t r. unchanged t (sent t (ap (λ r. r.1) r)) (subst Kept (ap (λ r. r.1) r) after))
            (λ x t r. opined t (ap (λ r. r.1) r) (ap (λ r. r.0) r) (opinion_of t prop.blk) refl)
        where
          Kept : HotStuffCore C → Type 0
          Kept u = Agrees T u.heap.cell × VotesByRules T u xs × Announced T u

          after : Kept (update prop.blk s).1
          after =
              let (ag', v') = update-Votes s prop.blk xs ag d v in
              (ag', v', update-Announced T tree s prop.blk ag d an)

          sent : (t : HotStuffCore C) → (update prop.blk s).1 ≡ t → votes t.outbox ≡ votes s.outbox
          sent t e = ap (λ u. votes u.outbox) (sym e) ∙ update-Sent (votes s.outbox) prop.blk s refl

          opined :
              (t : HotStuffCore C)
              → (update prop.blk s).1 ≡ t
              → (update prop.blk s).0 ≡ ok tt
              → (r : Result Bool) → opinion_of t prop.blk ≡ r
              → Played s xs (continue (r, t) (λ op u. (ok (tt {0}), answer prop op u))).1
          opined t e done (err x) w = unchanged t (sent t e) (subst Kept e after)
          opined t e done (ok op) w =
              let place = (update-Advances prop.blk s).place prop.blk in
              let bound : Bound T (at t prop.blk).hash t =
                subst (λ u. Bound T (at u prop.blk).hash u) e
                  (subst (λ h. Bound T h (update prop.blk s).1) (sym place.hash)
                    ((update-Locked T tree prop.blk s ag d v.sound).1 done)) in
              let (ag', v', an') : Kept t = subst Kept e after in
              let (ag'', v'', mem) =
                Reply-Played s t (answer prop op t) prop.blk xs (sent t e) ag'
                  (ap (λ u. (at u prop.blk).delivered) (sym e) ∙ place.delivered ∙ d) bound v'
                  (answer-lock prop op t) (answer-Reply prop op t w) in
              (
                ag'',
                v'',
                same-Announced T t (answer prop op t) (answer-committed prop op t)
                    (λ a. ap (λ g. (g.cell a).hash) mem) an',
              )

      -- A replica whose memory agrees with the tree, and that has voted by the rules, does so when it
      -- receives a proposal, whatever it is.
      pub on_receive_proposal-Played : Played s xs (on_receive_proposal prop s).1
      unfolding on_receive_proposal sanity_check_delivered
      on_receive_proposal-Played = go (at s prop.blk).delivered refl
        where
          go :
              (d : Bool)
              → (at s prop.blk).delivered ≡ d
              → Played s xs
                  (continue (if d then ok (tt {0}) else err not_delivered, s) (λ _. vote_on prop)).1
          go true e = vote_on-Played e
          go false e = unchanged s refl (ag, v, an)
