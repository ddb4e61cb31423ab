-- ===== src/Rtp.antt =====
-- Media transport: the cores modules/common/rtp_core.rs, rtp_wire.rs, rtp_pacer.rs and
-- rtp_congestion.rs.
pub mod Header
pub mod Records
pub mod Pacer
pub mod Routes
pub mod Congestion
mod Runs
