-- ===== src/ClientCore.antt =====
-- packages/client-core/src/index.ts: the client's copy of a document and its pending operations.
pub mod State
pub mod Handlers
pub mod Events
pub mod Convergence
pub mod Settling
pub mod Projection
