-- ===== src/Lab.antt =====
-- The laboratory: packages/domain/src/lab.ts.
pub mod Numbers
pub mod Spec
pub mod Oos
pub mod Sample
pub mod Certificate
mod Tests
