-- ===== src/Sync.antt =====
-- The contract of synchronisation, packages/domain/src/sync.ts.
pub mod Lines
pub mod Append
pub mod Meta
pub mod Merge
pub mod Resolve
pub mod Validate
pub mod Batches
mod Tests
