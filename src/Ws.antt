-- ===== src/Ws.antt =====
-- RFC 6455 WebSocket: modules/common/ws_frame_core.rs and modules/common/ws_core.rs.
pub mod Mask
pub mod Header
pub mod Frame
pub mod Phase
mod Runs
