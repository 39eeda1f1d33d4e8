-- ===== src/Tests/NetTests.antt =====
-- The tree of seven replicas with a fanout of two, and of one replica; and a relay at the proposer.
use kauri_public.Base.{
  set_insert, ℕ, ◌+◌, ◌<◌, ◌≡◌, ◌≢◌, ◌↔◌, refl, true, none, some, [], ◌∷◌, arith, contains,
  remove_first, All, ◌==◌, if◌then◌else◌,
}
use kauri_public.Base.Exec.{ok, err, undefined, diverged}
use kauri_public.Base.Maps
use kauri_public.Entity.Block.{Block}
use kauri_public.Entity.Storage
use kauri_public.Wire.Messages.{VoteRelay}
use kauri_public.Core.State.{Vote}
use kauri_public.Net.State.{HotStuffBase, send_relay}
use kauri_public.Net.Votes.{vote_checked}
use kauri_public.Net.Start.{start}
use kauri_public.Net.Sends.{Sent, relay_checked-Sent, vote_checked-Sent}
use kauri_public.Net.Raises.{Raised, vote_checked-Raised}
use kauri_public.Net.Beat.{take_cmds}
use kauri_public.Net.Beat.Buffer.{take_cmds-fills, take_cmds-repeats}
use kauri_public.Net.Tree.{Links, Loop, start_tree}
use kauri_public.Net.Tree.Parent.{start_tree-parent}
use kauri_public.Net.Relays.{resolve_ready, relay_checked}
use kauri_public.Net.Relays.Queue.{resolve_ready-terminates}
use kauri_public.Net.Relays.Quorum.{Certified, Sound}
use kauri_public.Net.Relays.Checked.{relay_checked-Sound}
use kauri_public.Tests.Samples.{plain, sample_cert, chain_block, follower}

abbrev peer_of_rid : ℕ → ℕ
peer_of_rid i = i + 50

-- A single replica reads past the end of the list of replicas.
start_tree-alone : start_tree 0 peer_of_rid 1 2 none ≡ err undefined
unfolding start_tree
start_tree-alone = refl

start_tree-parent_example :
    (ta : Loop Links) × (tb : Loop Links) × (start_tree 1 peer_of_rid 7 2 none ≡ ok ta)
    × (start_tree 3 peer_of_rid 7 2 none ≡ ok tb)
    × ((p : ℕ) × (p < 3) × (tb.out.parent_peer ≡ some (p + 50)))
    × ((contains 53 ta.out.child_peers ≡ true) ↔ (tb.out.parent_peer ≡ some 51))
start_tree-parent_example =
    start_tree-parent 7 peer_of_rid (λ i j e. omega arith) 1 3 2 none none (omega arith)
      (omega arith) (omega arith) (omega arith)

-- The proposer of the sample chain: blocks 2 and 3 are piped, and block 3 waits with its quorum.
abbrev relayed_block : ℕ → Block plain
relayed_block n =
    if n == 2
    then record (chain_block 2) { self_qc = some (record { obj_hash = 102; qty = 1 }) }
    else if n == 3
    then record (chain_block 3) { self_qc = some (sample_cert 103) }
    else chain_block n

abbrev root : HotStuffBase plain
root = record {
  core = record follower {
    heap = record { cell = relayed_block; next = 5 };
    piped_queue = 102 ∷ 103 ∷ [];
    rdy_queue = 103 ∷ [];
  };
  proposer = 1;
  number_of_children = 2;
  parent_peer = 50;
  child_peers = 52 ∷ 53 ∷ [];
  sends = [];
  deferred = [];
  blk_size = 2;
  decision_waiting = [];
  cmd_pending_buffer = [];
  final_buffer = [];
  part_decided = 0;
  executed = [];
  replies = [];
}

abbrev relay_for : ℕ → VoteRelay plain
relay_for b = record { blk_hash = 100 + b; cert = record { obj_hash = 100 + b; qty = 2 } }

-- The relay completes the quorum of block 2, and block 3 follows from `rdy_queue`.
relay_checked-queues :
    let t = (relay_checked 2 (relay_for 2) true root).1.core in
    (t.piped_queue ≡ []) × (t.rdy_queue ≡ []) × (t.hqc ≡ some (3, sample_cert 103))
unfolding relay_checked Maps.find Maps.erase contains remove_first Storage.find_blk
relay_checked-queues = (refl, refl, refl)

ready_blocks : All (Certified root.core) root.core.rdy_queue
unfolding Maps.find Storage.find_blk
ready_blocks = ((3, sample_cert 103, refl, refl, refl), tt)

relay_checked-Sound_example : Sound root.core (relay_checked 2 (relay_for 2) true root).1.core
unfolding Maps.find Storage.find_blk
relay_checked-Sound_example =
    relay_checked-Sound root 2 (relay_for 2) true (λ q h. h) refl ready_blocks

resolve_ready-terminates_example : (resolve_ready 2 2 root.core).0 ≢ err diverged
resolve_ready-terminates_example = resolve_ready-terminates 2 2 root.core (omega arith)

-- The same replica where replica 0 proposes: it has two below it, and a certificate of one vote.
abbrev inner : HotStuffBase plain
inner = record root { proposer = 0 }

abbrev vote_for : ℕ → Vote plain
vote_for b = record { voter = 2; blk_hash = 100 + b; cert = record { obj_hash = 100 + b } }

relay_checked-sends :
    (relay_checked 2 (relay_for 2) true inner).1.sends
    ≡ send_relay (record { blk_hash = 102; cert = record { obj_hash = 102; qty = 3 } }) 50 ∷ []
unfolding relay_checked
relay_checked-sends = refl

relay_checked-Sent_example :
    Sent inner 2 102
      (plain.merge_quorum (relay_for 2).cert)
      (relay_checked 2 (relay_for 2) true inner).1
relay_checked-Sent_example = relay_checked-Sent inner 2 (relay_for 2) true

vote_checked-Sent_example :
    Sent inner 2 102
      (plain.add_part (vote_for 2).voter (vote_for 2).cert)
      (vote_checked 2 (vote_for 2) true inner).1
vote_checked-Sent_example = vote_checked-Sent inner 2 (vote_for 2) true

-- A certificate that one vote completes.
abbrev almost : HotStuffBase plain
almost = record root {
  core = record (root.core) {
    heap = record {
      cell =
          λ n. record (chain_block n) { self_qc = some (record { obj_hash = 100 + n; qty = 2 }) };
      next = 5;
    };
  };
}

vote_checked-hqc : (vote_checked 2 (vote_for 2) true almost).1.core.hqc ≡ some (2, sample_cert 102)
unfolding vote_checked Maps.find
vote_checked-hqc = refl

vote_checked-Raised_example : Raised almost.core 2 (vote_checked 2 (vote_for 2) true almost).1.core
vote_checked-Raised_example = vote_checked-Raised almost 2 (vote_for 2) true

take_cmds-fills_example :
    (t : HotStuffBase plain) × (take_cmds (7 ∷ 8 ∷ 9 ∷ []) root ≡ (true, 9 ∷ [], t))
    × (t.final_buffer ≡ 7 ∷ 8 ∷ [])
    × (t.cmd_pending_buffer ≡ [])
take_cmds-fills_example = take_cmds-fills 7 (8 ∷ []) (9 ∷ []) root refl refl refl

abbrev filled : HotStuffBase plain
filled = record root { final_buffer = 7 ∷ 8 ∷ [] }

take_cmds-repeats_example :
    (t : HotStuffBase plain) × (take_cmds (9 ∷ []) filled ≡ (true, [], t))
    × (t.final_buffer ≡ 7 ∷ 8 ∷ [])
    × (t.cmd_pending_buffer ≡ [])
take_cmds-repeats_example = take_cmds-repeats 9 [] filled refl (λ e. ground arith)

-- Replica 1 of 31 with a fanout of 2 has 14 replicas below it. The 2 children and the 4 grandchildren
-- are counted.
abbrev wide : HotStuffBase plain
wide = record root {
  core = record (root.core) { config = record (root.core.config) { fanout = 2 } };
}

start-wide : (start (λ i. i + 40) 31 wide).1.number_of_children ≡ 6
unfolding start contains set_insert
start-wide = refl
