-- ===== src/Access.antt =====
-- Who may do what: packages/domain/src/permissions.ts and packages/domain/src/roles.ts.
pub mod Permissions
pub mod Tables
pub mod Grants
pub mod Org
pub mod Matrix
mod Tests
