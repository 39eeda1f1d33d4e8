-- ===== src/Net.antt =====
-- The network layer, `HotStuffBase` of include/hotstuff/hotstuff.h and src/hotstuff.cpp.
pub mod Start
pub mod Tree
pub mod State
pub mod Votes
pub mod Relays
pub mod Beat
pub mod Sends
pub mod Raises
pub mod Fetch
