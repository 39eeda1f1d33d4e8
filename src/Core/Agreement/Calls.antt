-- ===== src/Core/Agreement/Calls.antt =====
-- Any sequence of calls of one replica: proposals received, votes, waits, switches, blocks that are
-- stored and deliveries.
use kauri_public.Base.{contains, ℕ, ◌≡◌, false, List, [], ◌∷◌}
use kauri_public.Crypto.Scheme.{Scheme}
use kauri_public.Core.State.{HotStuffCore, at}
use kauri_public.Core.Deliver.{on_deliver_blk}
use kauri_public.Core.Update.{decided}
use kauri_public.Core.Votes.History.{Input, handle}
use kauri_public.Core.Agreement.Tree.{Tree}
use kauri_public.Core.Agreement.Ballots.{Ballot}
use kauri_public.Core.Agreement.Memory.{Agrees, Sound}
use kauri_public.Core.Agreement.Notes.{noted, VotesByRules}
use kauri_public.Core.Agreement.Commits.{Announced}
use kauri_public.Entity.Block.{Block}
use kauri_public.Wire.Proposals.{keep_blk}
use kauri_public.Core.Update.Order.{committed}

-- An input of the core, a block read from a message that is stored, or a block that is delivered.
pub data Call (C : Scheme) : Type 0 where
  input : Input C → Call C
  store : Block C → Call C
  deliver : ℕ → Call C

module _ {C : Scheme} where
  unfoldable pub play : Call C → HotStuffCore C → HotStuffCore C
  unfolding handle on_deliver_blk keep_blk
  play (input x) s = handle x s
  play (store v) s = (keep_blk v s).1
  play (deliver b) s = (on_deliver_blk b s).1

  unfoldable pub play_all : List (Call C) → HotStuffCore C → HotStuffCore C
  unfolding play
  play_all [] s = s
  play_all (x ∷ xs) s = play_all xs (play x s)

  -- The votes of the run after those in the list, with the lock that the replica had at each.
  unfoldable pub ballots : List (Call C) → HotStuffCore C → List Ballot → List Ballot
  unfolding play noted
  ballots [] s vs = vs
  ballots (x ∷ xs) s vs = let t = play x s in ballots xs t (noted s t vs)

  -- The address of the next object is that of no object in use: no block is delivered there, and none
  -- at it was announced.
  pub record IsFree (s : HotStuffCore C) : Type 0 where
    pub empty : (at s s.heap.next).delivered ≡ false
    pub unseen : contains s.heap.next (committed s.outbox) ≡ false

  -- A block as it is read from a message.
  pub record IsRead (v : Block C) : Type 0 where
    pub delivered : v.delivered ≡ false
    pub decision : decided v.decision ≡ false

  -- Blocks are stored at free addresses as they are read, and each delivered block is linked in memory
  -- as its hash is in the tree.
  abbrev pub Follows : Tree → List (Call C) → HotStuffCore C → Type 0
  Follows T [] s = Unit
  Follows T (input x ∷ xs) s = Follows T xs (play (input x) s)
  Follows T (store v ∷ xs) s = IsRead v × IsFree s × Follows T xs (play (store v) s)
  Follows T (deliver b ∷ xs) s =
      Agrees T (play (deliver b) s).heap.cell × Follows T xs (play (deliver b) s)

  -- A replica that votes by the rules, and has announced what could be committed.
  pub record Obeys (T : Tree) (s : HotStuffCore C) (vs : List Ballot) : Type 0 where
    pub memory : Agrees T s.heap.cell
    pub votes : VotesByRules T s vs
    pub announced : Announced T s

-- A replica before its first call: locked on a certified block, with nothing announced.
pub record Begins {C : Scheme} (T : Tree) (s : HotStuffCore C) : Type 0 where
  pub memory : Agrees T s.heap.cell
  pub sound : Sound T s.heap.cell s.b_lock
  pub nothing : committed s.outbox ≡ []
