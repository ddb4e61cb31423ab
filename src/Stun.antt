-- ===== src/Stun.antt =====
-- The STUN client: modules/common/stun_txn.rs.
pub mod Txn
pub mod Message
mod Runs
