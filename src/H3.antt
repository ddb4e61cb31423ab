-- ===== src/H3.antt =====
-- modules/common/h3_datagram.rs: the HTTP/3 DATAGRAM capsule record and the QUIC context-id prefix.
pub mod Datagram
pub mod QuicPayload
mod Runs
