-- ===== src/Lib.antt =====
-- Newport MS: the management system of a fertiliser plant, with work orders, a laboratory and devices
-- that work without the network. This library models the logic that its server and its devices
-- share (packages/domain), and of the server (apps/api) its handlers of work orders, its permissions and
-- its engine of the synchronisation.
--
-- The parts, and where they are modelled:
--   WorkOrder   packages/domain/src/workorder.ts: the machine of states (States, Machine), service
--               levels (Sla) and the flow of permits (Permit); `transition` and `addLabor` of
--               apps/api/src/workorder/work-order.service.ts (Service). The handler takes the tables
--               twice, as it read them and as they are when it writes, so that two users may
--               interleave.
--   Sync        packages/domain/src/sync.ts: the table of entities and the types that travel (Meta),
--               text lines (Lines), `appendValue` (Append), `mergeFieldwise` (Merge),
--               `resolveConflict` (Resolve), `validatePush` (Validate), `planPushBatches` (Batches).
--   Client      packages/domain/src/client.ts: `MemoryStore` (Store), `applyRemoteChange` (Remote),
--               `queue` and `resolveConflict` of `SyncClient` (Queue), `applyResults` (Session) and
--               `syncOnce` (Session.Run), which calls the rules of Sync; `AccessView` (Access).
--   Documents   packages/domain/src/documents.ts: the store in memory and `doFlush` of the device's
--               queue of documents.
--   Lab         packages/domain/src/lab.ts: verdicts (Spec), the machines of cases (Oos) and of
--               samples (Sample), certificates (Certificate).
--   Access      packages/domain/src/permissions.ts, roles.ts, org.ts and matrix.ts: the register
--               (Permissions), the tables of roles (Tables), `resolveGrants` (Grants), the sections
--               of the plant (Org) and `buildMatrix` (Matrix).
--   Security    apps/api/src/security/permission.service.ts: `load`, `upsert` and the kept profiles, with
--               `buildScopeFilter` and `buildScopeWhere` (Filter); `canActivate` of access.guard.ts (Guard).
--   Engine      apps/api/src/sync/sync-engine.service.ts: the table of entities (Entities), the database
--               (Database), its statements with the triggers of apps/api/prisma/migrations (Statements),
--               columns and values (Values), `permissionGate` and `recordInScope` (Gate), `applyWrite`
--               and `applyDelete` (Write), `push` (Push) and `pull` (Pull). What each statement keeps is
--               carried through a whole push by triples (Triple, Plan, Writing, Leaves), and which
--               operations pass to the writing is told by Gates.
--   Attendance  packages/domain/src/attendance.ts: shifts and `assignShift`, `evaluateDay` (Day), and the
--               summary with its hash (Summary, Hash, Xor).
--   Json, Base  the values that travel, and the names and lists that all parts share.
--
-- State is a record that each operation takes and returns; an exception is `none`, `err` or `thrown`
-- with the state that is left. An asynchronous call is a step of its caller: one run of a device does
-- not interleave with another. The server that a device talks to, the order of texts in the user's
-- language, `Number`, times and the clock are parameters. Floating-point numbers are a parameter of Lab,
-- and the limits of Sla are counted in half hours. Of the database, the schema is a parameter of Engine:
-- which columns a table has, what a statement refuses, and the next number; so are the verification of
-- a token and the reading of JSON in Security, and the calendar in Attendance. A query of the engine that
-- stands outside of a `try` is taken to answer, but for the last one of `push`.
--
-- Bounds: `slices` takes as many steps as there are operations, and each takes one at least, so that a
-- positive limit cuts them all up; `pull_pages` takes at most `maxPullPages` pages, which is the bound of
-- the program itself; `decimal` takes one step more than the number, which has no more digits; the
-- hash of a summary is below 2 ^ 32, so that eight steps give all its digits to base sixteen.
--
-- Not modelled: the services of the laboratory, of documents and of attendance on the server, the
-- controllers, the cache of columns and the casts of the engine's statements, the checks of a new
-- document, `siteMinutes` and the like, which only call Date, authentication, the database's schema,
-- and the applications' screens. The Arabic texts are left out, or given in English where the store
-- keeps them.
pub mod Base
pub mod WorkOrder
pub mod Json
pub mod Security
pub mod Sync
pub mod Lab
pub mod Client
pub mod Access
pub mod Documents
pub mod Attendance
pub mod Engine
