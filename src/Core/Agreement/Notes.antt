-- ===== src/Core/Agreement/Notes.antt =====
-- The votes of a replica with the lock that it had at each, taken from the outputs of its calls.
use kauri_public.Base.{
  ℕ, ◌≤◌, ◌≡◌, refl, sym, ◌∙◌, ap, inl, inr, Bool, true, false, not, ◌&&◌, Option, none, some, List,
  [], ◌∷◌, ◌++◌, All, Bool-cases,
}
use kauri_public.Base.Maps
use kauri_public.Crypto.Scheme.{Scheme}
use kauri_public.Entity.Block.{Block, first_of_list}
use kauri_public.Core.State.{
  HotStuffCore, Proposal, vote, resolve_qc, resolve_proposal, at, emit, on_qc_finish,
  resolve_waiting, on_receive_proposal_,
}
use kauri_public.Core.Update.Monotone.{SamePlace}
use kauri_public.Core.Votes.{answer, finish_ref, cast, own_vote}
use kauri_public.Core.Update.Order.{committed, committed-silent}
use kauri_public.Core.Votes.Sent.{votes}
use kauri_public.Core.Agreement.Tree.{Tree}
use kauri_public.Core.Agreement.Ballots.{Ballot, Rules, Locks}
use kauri_public.Core.Agreement.Memory.{Agrees, Sound, hash_of}

-- What is appended to a list.
unfoldable pub added : List ℕ → List ℕ → List ℕ
added [] ys = ys
added (x ∷ xs) [] = []
added (x ∷ xs) (y ∷ ys) = added xs ys

added-append : (xs ys : List ℕ) → added xs (xs ++ ys) ≡ ys
unfolding added
added-append [] ys = refl
added-append (x ∷ xs) ys = added-append xs ys

added_self : (xs : List ℕ) → added xs xs ≡ []
unfolding added
added_self [] = refl
added_self (x ∷ xs) = added_self xs

module _ {C : Scheme} where
  abbrev pub ballot_in : (ℕ → Block C) → ℕ → ℕ → Ballot
  ballot_in cell lock b = record { blk = (cell b).hash; lock = (cell lock).hash }

  abbrev pub ballot : HotStuffCore C → ℕ → Ballot
  ballot s b = ballot_in s.heap.cell s.b_lock b

  -- The votes for these blocks, with the lock that the replica has, the latest first.
  unfoldable pub note : HotStuffCore C → List ℕ → List Ballot → List Ballot
  note s [] xs = xs
  note s (b ∷ bs) xs = note s bs (ballot s b ∷ xs)

  -- The votes after a call that led from `s` to `t`.
  unfoldable pub noted : HotStuffCore C → HotStuffCore C → List Ballot → List Ballot
  unfolding added note
  noted s t xs = note t (added (votes s.outbox) (votes t.outbox)) xs

  pub noted-silent :
      (s t : HotStuffCore C) (xs : List Ballot)
      → votes t.outbox ≡ votes s.outbox
      → noted s t xs ≡ xs
  unfolding noted
  noted-silent s t xs e = rw (e, added_self (votes s.outbox)) refl

  pub noted-vote :
      (s t : HotStuffCore C) (b : ℕ) (xs : List Ballot)
      → votes t.outbox ≡ votes s.outbox ++ b ∷ []
      → noted s t xs ≡ ballot t b ∷ xs
  unfolding noted
  noted-vote s t b xs e = rw (e, added-append (votes s.outbox) (b ∷ [])) refl

  -- A replica that has voted by the rules, its last vote and its lock no lower than they ask.
  pub record Votes (T : Tree) (cell : ℕ → Block C) (lock vheight : ℕ) (xs : List Ballot)
      : Type 0 where
    pub rules : Rules T xs
    pub last : All (λ x. T.height x.blk ≤ vheight) xs
    pub locks : Locks T (cell lock).hash xs
    pub sound : Sound T cell lock

  abbrev pub VotesByRules : Tree → HotStuffCore C → List Ballot → Type 0
  VotesByRules T s xs = Votes T s.heap.cell s.b_lock s.vheight xs

  hash_of-same :
      (c d : ℕ → Block C) (o : Option ℕ)
      → ((a : ℕ) → (d a).hash ≡ (c a).hash)
      → hash_of d o ≡ hash_of c o
  hash_of-same c d none h = refl
  hash_of-same c d (some a) h = ap some (h a)

  -- A memory in which no block has moved agrees with the tree as before.
  pub Agrees-place :
      (T : Tree) (c d : ℕ → Block C) → ((a : ℕ) → SamePlace (c a) (d a)) → Agrees T c → Agrees T d
  Agrees-place T c d place ag = record {
    height = λ b db.
        let k = place b in ap T.height k.hash ∙ ag.height b (sym k.delivered ∙ db) ∙ sym k.height;
    parent = λ b p db e.
        let k = place b in
        let (dp, up) =
          ag.parent b p (sym k.delivered ∙ db) (ap first_of_list (sym k.parents) ∙ e) in
        ((place p).delivered ∙ dp, ap T.parent k.hash ∙ up ∙ ap some (sym (place p).hash));
    ref = λ b db.
        let k = place b in
        ap T.ref k.hash
        ∙ ag.ref b (sym k.delivered ∙ db)
        ∙ ap (hash_of c) (sym k.qc_ref)
        ∙ sym (hash_of-same c d (d b).qc_ref (λ a. (place a).hash));
    ref_in = λ b r db e.
        let k = place b in
        (place r).delivered ∙ ag.ref_in b r (sym k.delivered ∙ db) (sym k.qc_ref ∙ e);
  }

  resolve_waiting-lock :
      (b : ℕ) (o : Option ℕ) (s : HotStuffCore C) → (resolve_waiting b o s).b_lock ≡ s.b_lock
  resolve_waiting-lock b none s = refl
  resolve_waiting-lock b (some p) s = refl

  finish_ref-lock : (o : Option ℕ) (s : HotStuffCore C) → (finish_ref o s).b_lock ≡ s.b_lock
  unfolding on_qc_finish
  finish_ref-lock none s = refl
  finish_ref-lock (some r) s = resolve_waiting-lock r (Maps.find r s.waiting.qc_waiting) s

  cast-lock :
      (prop : Proposal) (op : Bool) (s : HotStuffCore C) → (cast prop op s).b_lock ≡ s.b_lock
  unfolding emit
  cast-lock prop op s = elim (Bool-cases (op && not s.vote_disabled)) [
    | inl on ↦ rw on
    | inr off ↦ rw off
  ]

  pub answer-lock :
      (prop : Proposal) (op : Bool) (s : HotStuffCore C) → (answer prop op s).b_lock ≡ s.b_lock
  unfolding answer on_receive_proposal_
  answer-lock prop true s =
      let s' : HotStuffCore C = record s { vheight = (at s prop.blk).height } in
      cast-lock prop true (on_receive_proposal_ prop (finish_ref (at s prop.blk).qc_ref s'))
      ∙ finish_ref-lock (at s prop.blk).qc_ref s'
  answer-lock prop false s =
      cast-lock prop false (on_receive_proposal_ prop (finish_ref (at s prop.blk).qc_ref s))
      ∙ finish_ref-lock (at s prop.blk).qc_ref s

  -- The answer to a proposal announces no block.
  resolve_waiting-committed :
      (b : ℕ) (o : Option ℕ) (s : HotStuffCore C)
      → committed (resolve_waiting b o s).outbox ≡ committed s.outbox
  unfolding committed
  resolve_waiting-committed b none s = refl
  resolve_waiting-committed b (some p) s = committed-silent s.outbox (resolve_qc p) refl

  finish_ref-committed :
      (o : Option ℕ) (s : HotStuffCore C) → committed (finish_ref o s).outbox ≡ committed s.outbox
  unfolding on_qc_finish
  finish_ref-committed none s = refl
  finish_ref-committed (some r) s = resolve_waiting-committed r (Maps.find r s.waiting.qc_waiting) s

  cast-committed :
      (prop : Proposal) (op : Bool) (s : HotStuffCore C)
      → committed (cast prop op s).outbox ≡ committed s.outbox
  unfolding emit committed
  cast-committed prop op s = elim (Bool-cases (op && not s.vote_disabled)) [
    | inl on ↦ rw on (committed-silent s.outbox (vote prop (own_vote s prop.blk)) refl)
    | inr off ↦ rw off
  ]

  tell-committed :
      (prop : Proposal) (op : Bool) (o : Option ℕ) (s : HotStuffCore C)
      → committed (cast prop op (on_receive_proposal_ prop (finish_ref o s))).outbox
        ≡ committed s.outbox
  unfolding on_receive_proposal_ committed
  tell-committed prop op o s =
      let t : HotStuffCore C = finish_ref o s in
      cast-committed prop op (on_receive_proposal_ prop t)
      ∙ committed-silent t.outbox (resolve_proposal t.waiting.receive_proposal_waiting prop) refl
      ∙ finish_ref-committed o s

  pub answer-committed :
      (prop : Proposal) (op : Bool) (s : HotStuffCore C)
      → committed (answer prop op s).outbox ≡ committed s.outbox
  unfolding answer
  answer-committed prop true s =
      tell-committed prop true (at s prop.blk).qc_ref
        (record s { vheight = (at s prop.blk).height })
  answer-committed prop false s = tell-committed prop false (at s prop.blk).qc_ref s
