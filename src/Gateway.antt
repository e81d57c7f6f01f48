-- ===== src/Gateway.antt =====
-- cmd/gateway/start.go: what the gateway answers for files and directories.
pub mod Range
pub mod Page
