-- ===== src/Sframe.antt =====
-- modules/common/sframe_core.rs: the SFrame header codec and its anti-replay window.
pub mod Replay
pub mod Header
mod Runs
