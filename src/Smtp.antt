-- ===== src/Smtp.antt =====
-- The SMTP client core, modules/common/smtp_core.rs.
pub mod Body
pub mod Session
mod Runs
