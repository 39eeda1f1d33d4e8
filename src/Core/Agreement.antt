-- ===== src/Core/Agreement.antt =====
-- What the replicas that run `HotStuffCore` (include/hotstuff/consensus.h, src/consensus.cpp) promise
-- together: they commit along one branch. Blocks are known by their hashes, which all replicas share.
pub mod Tree
pub mod Quorum
pub mod Ballots
pub mod Memory
pub mod Lock
pub mod Deliveries
pub mod Notes
pub mod Commits
pub mod Voting
pub mod Calls
pub mod Stores
pub mod Run
pub mod Start
pub mod Safety
