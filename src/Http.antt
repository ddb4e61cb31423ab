-- ===== src/Http.antt =====
-- The wire formats of modules/foundation/http/wire.
pub mod Frame
pub mod Extent
pub mod Integer
pub mod Huffman
pub mod Block
mod Runs
