-- ===== src/Tests.antt =====
-- Concrete inputs, and each theorem at an input that meets its hypotheses.
mod Data
mod Protocol
mod DomainJson
mod Server
mod Client
mod Rooms
mod Distributed
mod Outbox
mod Model
mod Commands
