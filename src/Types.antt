-- ===== src/Types.antt =====
-- pkg/types: blob identifiers and blocks.
pub mod Blob
pub mod Text
pub mod Block
