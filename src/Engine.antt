-- ===== src/Engine.antt =====
-- The synchronisation engine of the server, apps/api/src/sync/sync-engine.service.ts, on a model of the
-- database that it writes to.
pub mod Entities
pub mod Database
pub mod Statements
pub mod Values
pub mod Gate
pub mod Write
pub mod Push
pub mod Pull
mod Triple
mod Plan
mod Writing
mod Leaves
mod Once
mod Refused
mod Order
mod Gates
mod Logged
mod Pages
mod Slices
mod Pulls
mod Feed
mod Denied
mod Frame
mod Guarded
mod Tests
