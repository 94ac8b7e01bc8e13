-- ===== src/Protocol.antt =====
-- packages/protocol/src/index.ts
pub mod Json
pub mod Complexity
pub mod Envelope
pub mod Messages
