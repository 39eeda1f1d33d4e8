-- ===== src/Wire.antt =====
-- The wire formats: what `serialize` and `unserialize` write and read.
pub mod Stream
pub mod Entities
pub mod Messages
pub mod Certs
pub mod Agg
pub mod SecpCerts
pub mod Proposals
