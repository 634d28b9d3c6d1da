-- ===== src/Commands.antt =====
-- The commands sign, cancel and broadcast, and the dispatch, of internal/cli/cli.go.
pub mod Sign
pub mod Cancel
pub mod Broadcast
pub mod Dispatch
mod Examples
