-- ===== src/Core.antt =====
-- The class `HotStuffCore` of include/hotstuff/consensus.h and src/consensus.cpp, the protocol state
-- machine of one replica.
pub mod State
pub mod Deliver
pub mod Update
pub mod Votes
pub mod Propose
pub mod Setup
pub mod Prune
pub mod Agreement
