-- ===== src/Distributed.antt =====
-- packages/server-distributed/src: the commit store and the room workers.
pub mod Rows
pub mod Store
pub mod Database
pub mod Worker
