-- ===== src/Upload.antt =====
-- The upload of a file: how it is cut, what is remembered of it, and what is submitted.
pub mod Split
pub mod Records
pub mod File
pub mod Pieces
pub mod Described
