-- ===== src/Lib.antt =====
-- CollabHub: a server holds each shared document and decides on the operations that clients
-- submit; clients keep the last canonical document and project their pending operations onto it.
--
-- Parts and files (paths from the repository's root):
--   packages/protocol/src/index.ts: Protocol/Json (JsonValue), Protocol/Messages (the message types),
--     Protocol/Complexity (assertJsonComplexity), Protocol/Envelope (assertOperationEnvelope).
--   packages/strategy-sdk/src/index.ts: Strategy (the types of a domain pack, StrategyRegistry,
--     validateMigrationGraph, migrateDomainState).
--   packages/domain-json/src/index.ts: DomainJson/Pointer (pointerSegments, setPointer),
--     DomainJson/Patches (applyCanonicalPatch), DomainJson/Strategies (the strategies).
--   packages/server-core/src/index.ts: ServerCore/Storage (InMemoryStorageAdapter),
--     ServerCore/Evictions (planRoomEvictions), ServerCore/Pipeline
--     (AuthoritativeOperationPipeline), ServerCore/Session
--     (AuthoritativeDocumentSession), ServerCore/Rooms (CollaborationServerCore).
--   packages/client-core/src/index.ts: ClientCore/State (the client and its pending operations),
--     ClientCore/Handlers (submit and the handlers of the server's messages), ClientCore/Events
--     (the socket, the timers, the storage), with ClientCore/Convergence, ClientCore/Settling
--     and ClientCore/Projection.
--   packages/server-distributed/src/types.ts and postgres-store.ts: Distributed/Rows (the tables, the
--     requests and the outcomes), Distributed/Store (PostgresCommitStore on a room's rows),
--     Distributed/Database (all rooms, the outbox, the compaction, and the transactions as steps).
--   packages/server-distributed/src/worker.ts: Distributed/Worker (process of DistributedRoomWorker),
--     Distributed/Worker/Activation (doActivate and the mailbox), Distributed/Worker/Dispatch
--     (dispatchOutbox).
--   packages/model/src/index.ts: Model (escapePointer), Model/Diff (diffJsonObjects),
--     Model/Commands (runModelCommand and createModelDomainPack).
-- Prelude and Errors hold what these share; Tests holds concrete inputs.
--
-- How the code is read. A string is its list of UTF-16 code units (Text). A non-negative integer is
-- a number; any other number is known by its printed text. An object is its fields in the order in
-- which JavaScript lists them; keys that look like integers are not moved to the front. What throws
-- returns a Result, whose Message names the throw and the values in its text. An asynchronous method
-- that runs alone is a function of the state, and one that interleaves with others is cut where it
-- awaits (Rooms); what the storage may do is an argument (Faults). The payload of an operation is read
-- at its declared type. The client is a state and one function of each event; what it sends, persists
-- and resolves is kept in lists, and an operation carries the failure of its promise. A snapshot's reference is a record of what its URL encodes.
--
-- A transaction of the PostgreSQL store is a function of a room's rows, or throws and changes nothing;
-- every statement names its room, and those that lock the head run one after the other. The load's
-- three queries each see the rows of their own moment. Between two calls of the store a worker's turn
-- lets others change the rows (Others), by transactions. The clock is an argument, and so is the order
-- in which the claim of the outbox returns its rows.
--
-- The diff of the model package reads fields as JavaScript does, inherited names among them. What it
-- does with a value that JSON does not hold is an argument: the results are about JSON states.
--
-- Bounds. assertJsonComplexity's loop has max_nodes + 1 rounds of fuel, and each round counts a
-- node; migrateDomainState's has two more rounds than the pack has migrations, and each round visits
-- a new one; diffValue goes down with as much fuel as the new state has values. That each is enough is
-- part of the results. A worker's turn has the source's own two attempts.
--
-- Not modelled: roomKey, hooks that change their context in place, the list-order strategy, the
-- closing of the server core and its timer, the client's listeners, stores and browser storages, the
-- model package's adaptModelCommand, the standalone and distributed servers' transports, the
-- PostgreSQL driver and the tables' own migrations, the distributed worker's map of rooms and its
-- timers, the Redis coordinator and the gateway, the project generator and the examples.
pub mod Prelude
pub mod Errors
pub mod Protocol
pub mod Strategy
pub mod Model
pub mod ClientCore
pub mod DomainJson
pub mod ServerCore
pub mod Distributed
pub mod Tests
