-- ===== src/Indexer.antt =====
-- crates/indexer: extraction, the resolution of consumed cells, and scanning.
pub mod Extract
pub mod Resolve
pub mod Scanner
pub mod Reconcile
pub mod Verify
pub mod Sweeper
pub mod Diff
pub mod Walk
