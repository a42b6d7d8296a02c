-- ===== src/WorkOrder.antt =====
-- The life of a work order: packages/domain/src/workorder.ts holds the shared state machine, the
-- service levels and the flow of work permits, apps/api/src/workorder/work-order.service.ts the
-- server's handlers.
pub mod States
pub mod Machine
pub mod Sla
pub mod Permit
pub mod Service
mod Tests
