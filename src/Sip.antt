-- ===== src/Sip.antt =====
-- The session layer of SIP: modules/common/sip_dialog.rs.
pub mod Dialog
mod Runs
