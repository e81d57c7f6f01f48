-- ===== src/Sync.antt =====
-- pkg/sync/chain.go: how a node derives the chain from the blobs of Celestia.
pub mod Monad
pub mod Blobs
pub mod Files
pub mod Dirs
pub mod Blocks
pub mod Tail
pub mod Returns
pub mod Ending
pub mod Steps
pub mod Failure
pub mod Loops
pub mod Start
pub mod Submit
pub mod Stream
pub mod Batch
pub mod Remote
pub mod Published
