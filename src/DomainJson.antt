-- ===== src/DomainJson.antt =====
-- packages/domain-json/src/index.ts
pub mod Pointer
pub mod Patches
pub mod Strategies
