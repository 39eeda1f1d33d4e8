-- ===== src/Entity.antt =====
-- include/hotstuff/entity.h and src/entity.cpp: replicas, blocks and their storage.
pub mod Config
pub mod Block
pub mod Storage
