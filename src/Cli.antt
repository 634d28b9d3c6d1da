-- ===== src/Cli.antt =====
-- Decisions of internal/cli/cli.go that hold no I/O of their own.
pub mod Policy
pub mod Validity
mod Examples
