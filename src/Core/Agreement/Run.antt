-- ===== src/Core/Agreement/Run.antt =====
-- A replica keeps to the rules in any sequence of calls.
use kauri_public.Base.{
  ℕ, ◌≤◌, ◌≡◌, refl, sym, ◌∙◌, ap, subst, Bool, true, false, Option, none, some, List, [], ◌∷◌,
  arith, All, if◌then◌else◌,
}
use kauri_public.Base.Maps
use kauri_public.Crypto.Scheme.{Scheme}
use kauri_public.Core.State.{HotStuffCore, at}
use kauri_public.Core.Setup.{set_vote_disabled}
use kauri_public.Core.Deliver.{on_deliver_blk}
use kauri_public.Core.Update.{decided}
use kauri_public.Core.Update.Monotone.{SamePlace}
use kauri_public.Core.Votes.{async_qc_finish, finished, waiting_for, resolved}
use kauri_public.Core.Votes.Count.{Calm, Calm-refl, on_receive_vote-Calm}
use kauri_public.Core.Votes.History.{
  Input, receive_proposal, receive_vote, wait_for_qc, disable_votes, handle,
}
use kauri_public.Core.Agreement.Tree.{Tree, IsTree}
use kauri_public.Core.Agreement.Ballots.{Ballot, LockIsCertified, Locks}
use kauri_public.Core.Agreement.Memory.{Agrees, Sound, lock_hash}
use kauri_public.Core.Agreement.Deliveries.{Frame, on_deliver_blk-Frame}
use kauri_public.Core.Agreement.Notes.{noted, noted-silent, Agrees-place}
use kauri_public.Core.Agreement.Commits.{same-Announced}
use kauri_public.Core.Agreement.Voting.{on_receive_proposal-Played}
use kauri_public.Wire.Proposals.{keep_blk}
use kauri_public.Core.Agreement.Calls.{
  Call, input, store, deliver, play_all, ballots, Follows, Obeys,
}
use kauri_public.Core.Agreement.Stores.{store-Obeys}

module _ {C : Scheme} where
  module _ (T : Tree) (s t : HotStuffCore C) (vs : List Ballot) where
    Calm-Frame : Calm s t → Frame s t
    Calm-Frame calm = record {
      cells = λ a.
          let k = calm.cells a in
          record { hash = k.hash; decision = k.decision; delivered = λ e. k.delivered ∙ e };
      sent = calm.sent;
      announced = calm.announced;
      vheight = calm.vheight;
      lock = calm.lock;
    }

    Calm-SamePlace : Calm s t → (a : ℕ) → SamePlace (at s a) (at t a)
    Calm-SamePlace calm a =
        let k = calm.cells a in
        record {
          height = k.height;
          parents = k.parents;
          hash = k.hash;
          qc_ref = k.qc_ref;
          delivered = k.delivered;
        }

    Frame-lock_hash : Frame s t → lock_hash t ≡ lock_hash s
    Frame-lock_hash f = ap (λ l. (at t l).hash) f.lock ∙ (f.cells s.b_lock).hash

    Frame-Sound : Frame s t → Sound T s.heap.cell s.b_lock → Sound T t.heap.cell t.b_lock
    Frame-Sound f so = record {
      lock_in =
          subst (λ l. (at t l).delivered ≡ true) (sym f.lock)
            ((f.cells s.b_lock).delivered so.lock_in);
      cert = subst (LockIsCertified T) (sym (Frame-lock_hash f)) so.cert;
      old = λ b e.
          let k = f.cells b in
          let (d, low) = so.old b (sym (ap decided k.decision) ∙ e) in
          (k.delivered d, omega (arith, ap T.height k.hash, ap T.height (Frame-lock_hash f)));
    }

    -- A call that sends no vote, and leaves the lock and the decisions alone.
    Frame-Obeys : Agrees T t.heap.cell → Frame s t → Obeys T s vs → Obeys T t (noted s t vs)
    Frame-Obeys ag f o = subst (Obeys T t) (sym (noted-silent s t vs f.sent)) (record {
      memory = ag;
      votes = record {
        rules = o.votes.rules;
        last = subst (λ v. All (λ x. T.height x.blk ≤ v) vs) (sym f.vheight) o.votes.last;
        locks = subst (λ l. Locks T l vs) (sym (Frame-lock_hash f)) o.votes.locks;
        sound = Frame-Sound f o.votes.sound;
      };
      announced = same-Announced T s t f.announced (λ a. (f.cells a).hash) o.announced;
    })

    Calm-Obeys : Calm s t → Obeys T s vs → Obeys T t (noted s t vs)
    Calm-Obeys calm o =
        Frame-Obeys (Agrees-place T s.heap.cell t.heap.cell (Calm-SamePlace calm) o.memory)
          (Calm-Frame calm) o

  async_qc_finish-Calm : (b : ℕ) (s : HotStuffCore C) → Calm s (async_qc_finish b s).1
  unfolding async_qc_finish
  async_qc_finish-Calm b s = go (finished s b)
    where
      wait : (o : Option ℕ) → Calm s (waiting_for o b s).1
      wait (some p) = Calm-refl s
      wait none = record {
        cells = (Calm-refl s).cells;
        sent = refl;
        announced = refl;
        vheight = refl;
        lock = refl;
      }

      go :
          (over : Bool)
          → Calm s
              (if over then (resolved, s) else waiting_for (Maps.find b s.waiting.qc_waiting) b s).1
      go true = Calm-refl s
      go false = wait (Maps.find b s.waiting.qc_waiting)

  disable_votes-Calm : (f : Bool) (s : HotStuffCore C) → Calm s (set_vote_disabled f s)
  unfolding set_vote_disabled
  disable_votes-Calm f s = record {
    cells = (Calm-refl s).cells;
    sent = refl;
    announced = refl;
    vheight = refl;
    lock = refl;
  }

  module _ (T : Tree) (tree : IsTree T) where
    handle-Obeys :
        (x : Input C) (s : HotStuffCore C) (vs : List Ballot)
        → Obeys T s vs
        → Obeys T (handle x s) (noted s (handle x s) vs)
    unfolding handle
    handle-Obeys (receive_proposal prop) s vs o =
        let (ag, v, an) =
          on_receive_proposal-Played T tree prop s vs o.memory o.votes o.announced in
        record { memory = ag; votes = v; announced = an }
    handle-Obeys (receive_vote v) s vs o = Calm-Obeys T s _ vs (on_receive_vote-Calm v s) o
    handle-Obeys (wait_for_qc b) s vs o = Calm-Obeys T s _ vs (async_qc_finish-Calm b s) o
    handle-Obeys (disable_votes f) s vs o = Calm-Obeys T s _ vs (disable_votes-Calm f s) o

    -- A replica that votes by the rules still does after any calls, if what is delivered to it is
    -- linked as in the tree; and what it has announced could be committed.
    pub play_all-Obeys :
        (xs : List (Call C)) (s : HotStuffCore C) (vs : List Ballot)
        → Follows T xs s
        → Obeys T s vs
        → Obeys T (play_all xs s) (ballots xs s vs)
    unfolding play_all ballots
    play_all-Obeys [] s vs f o = o
    play_all-Obeys (input x ∷ xs) s vs f o =
        play_all-Obeys xs (handle x s) (noted s (handle x s) vs) f (handle-Obeys x s vs o)
    play_all-Obeys (store v ∷ xs) s vs f o =
        let t = (keep_blk v s).1 in
        play_all-Obeys xs t (noted s t vs) f.2 (store-Obeys T v s vs f.0 f.1 o)
    play_all-Obeys (deliver b ∷ xs) s vs f o =
        let t : HotStuffCore C = (on_deliver_blk b s).1 in
        play_all-Obeys xs t (noted s t vs) f.1
          (Frame-Obeys T s t vs f.0 (on_deliver_blk-Frame b s) o)
