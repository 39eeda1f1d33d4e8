-- ===== src/Crypto.antt =====
-- include/hotstuff/crypto.h and src/crypto.cpp: certificates over a block hash.
pub mod Scheme
pub mod Dummy
pub mod AggBls
pub mod Secp
