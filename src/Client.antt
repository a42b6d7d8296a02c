-- ===== src/Client.antt =====
-- The device's side of the synchronisation: packages/domain/src/client.ts.
pub mod Store
pub mod Remote
pub mod Queue
pub mod Session
pub mod Access
mod Tests
