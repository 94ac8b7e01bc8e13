-- ===== src/ServerCore.antt =====
-- packages/server-core/src/index.ts
pub mod Evictions
pub mod Pipeline
pub mod Storage
pub mod Session
pub mod Rooms
