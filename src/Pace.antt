-- ===== src/Pace.antt =====
-- The pacemakers of include/hotstuff/liveness.h: the block to build on, and when to propose. Promises
-- are numbers; a callback that is registered again each time it has run is an operation here.
pub mod HighTail
pub mod WaitQc
pub mod RoundRobin
