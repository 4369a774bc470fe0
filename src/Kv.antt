-- ===== src/Kv.antt =====
-- kv/: the key-value state machine that runs on top of the replicated log.
pub mod Types
pub mod Store
pub mod Codec
mod Examples
