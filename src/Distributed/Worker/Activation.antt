-- ===== src/Distributed/Worker/Activation.antt =====
-- DistributedRoomWorker of packages/server-distributed/src/worker.ts: how a room becomes warm, and its
-- mailbox. What the coordinator does with the owner's record is a parameter.
use collabhub.Prelude.{
  ℕ, ◌+◌, ◌-◌, Text, text, Bool, true, false, Option, none, some, List, [], leb, ◌===◌, ◌⊎◌, inl,
  inr, if◌then◌else◌,
}
use collabhub.Errors.{
  Message, Result, ok, throws, ◌>>=◌, ownership_changed, changed_during_migration, context_required,
  not_bound, outside_history,
}
use collabhub.Protocol.Json.{Value, string, Fields, get}
use collabhub.Protocol.Messages.{backpressure, OperationResult, Snapshot}
use collabhub.Strategy.{Committed, Migrated, migrate_domain_state}
use collabhub.ServerCore.Pipeline.{default_to}
use collabhub.Distributed.Rows.{Document, Owner, MigrationRequest, MigrationOutcome, LoadedRoom}
use collabhub.Distributed.Store.{
  ensure_document, claim_ownership, load_room, loaded_state, migrate_document,
}
use collabhub.Distributed.Worker.{
  WorkerOptions, WarmRoom, Others, Turn, recent_of, snapshot_ref, retry_at, process,
}

-- The end of doActivate: the warm room or what is thrown, the rows, and whether the owner's record
-- is given back
pub record Activation : Type 0 where
  pub session : Result WarmRoom
  pub rows : Document
  pub released : Bool

abbrev pub fails_with : Message → Bool → Document → Activation
fails_with m released d = record { session = throws m; rows = d; released = released }

abbrev pub warm_room : ℕ → Owner → Text → ℕ → Fields → List Committed → WarmRoom
warm_room now owner schema version state recent = record {
  owner = owner;
  schema_version = schema;
  version = version;
  state = state;
  recent_operations = recent;
  queued = 0;
  last_access_at = now;
}

abbrev pub migration_request : Owner → LoadedRoom → Migrated → MigrationRequest
migration_request owner loaded m = record {
  owner = owner;
  version = loaded.version;
  from_schema_version = loaded.schema_version;
  to_schema_version = m.schema_version;
  state = m.state;
  applied = m.applied;
}

-- What the activation makes of the outcome of its migration
unfoldable pub after_migration :
    ℕ → Owner → LoadedRoom → Migrated → MigrationOutcome → Document → Activation
after_migration now owner loaded m MigrationOutcome.fenced d = fails_with ownership_changed true d
after_migration now owner loaded m (MigrationOutcome.version_conflict version schema) d =
    fails_with (changed_during_migration version schema) true d
after_migration now owner loaded m _ d = record {
  session = ok (warm_room now owner m.schema_version loaded.version m.state []);
  rows = d;
  released = false;
}

-- The migration of a room whose schema is not the pack's
unfoldable pub migrate_loaded :
    WorkerOptions → ℕ → Owner → LoadedRoom → Fields → Document → Activation
migrate_loaded o now owner loaded state d =
    elim (migrate_domain_state o.domain_pack loaded.schema_version state) [
      | none ↦ fails_with outside_history true d
      | some (throws m) ↦ fails_with m true d
      | some (ok m) ↦ elim (migrate_document (migration_request owner loaded m) d) [
        | throws e ↦ fails_with e true d
        | ok (outcome, next) ↦ after_migration now owner loaded m outcome next
      ]
    ]

-- doActivate after the load, up to publishOwner
unfoldable pub warm_loaded :
    WorkerOptions → Others → ℕ → Owner → LoadedRoom → Fields → Document → Activation
warm_loaded o others now owner loaded state d =
    if loaded.schema_version === o.domain_pack.schema_version
    then record {
      session =
          ok
            (warm_room now owner loaded.schema_version loaded.version state (recent_of loaded.wal));
      rows = d;
      released = false;
    }
    else migrate_loaded o now owner loaded state (others 5 d)

-- doActivate: the document is made if it is not there, claimed, and loaded by three queries.
unfoldable pub do_activate : WorkerOptions → Others → ℕ → Option Document → Activation
do_activate o others now found =
    let pack = o.domain_pack in
    let made = ensure_document pack.schema_version (pack.initial_state o.room.document_id) found in
    let (epoch, claimed) = claim_ownership o.instance_id (others 1 made) in
    let at_head = others 2 claimed in
    let at_snapshot = others 3 at_head in
    let at_wal = others 4 at_snapshot in
    let owner : Owner = record { epoch = epoch; instance_id = o.instance_id } in
    elim (load_room at_head at_snapshot at_wal) [
      | throws m ↦ fails_with m false at_wal
      | ok loaded ↦ elim (loaded_state loaded) [
        | throws m ↦ fails_with m false at_wal
        | ok state ↦ warm_loaded o others now owner loaded state at_wal
      ]
    ]

-- snapshotOf
unfoldable pub snapshot_of_room : WorkerOptions → WarmRoom → Snapshot Fields
snapshot_of_room o s = record {
  tenant_id = o.room.tenant_id;
  document_id = o.room.document_id;
  canonical_version = s.version;
  schema_version = s.schema_version;
  snapshot = s.state;
  snapshot_ref = snapshot_ref o s;
}

-- ConnectionContext
pub record ConnectionContext : Type 0 where
  pub tenant_id : Text
  pub document_id : Text
  pub actor_id : Text
  pub client_id : Text

abbrev pub is_bound : Text → Option Value → Bool
is_bound expected (some (string given)) = expected === given
is_bound expected _ = false

abbrev pub assert_bound : Text → Text → Fields → Result (Unit {0})
assert_bound key expected op =
    if is_bound expected (get op key) then ok tt else throws (not_bound key)

-- assertBoundIdentity, of an operation that is an object or is not there
unfoldable pub assert_bound_identity : Option ConnectionContext → Option Fields → Result (Unit {0})
assert_bound_identity none op = throws context_required
assert_bound_identity (some c) none = throws context_required
assert_bound_identity (some c) (some op) = do
  _ ← assert_bound (text "tenantId") c.tenant_id op
  _ ← assert_bound (text "documentId") c.document_id op
  _ ← assert_bound (text "actorId") c.actor_id op
  assert_bound (text "clientId") c.client_id op

-- submit, once the room is warm, up to the operation's turn: an answer, or a longer mailbox
unfoldable pub enqueue_operation : WorkerOptions → Text → WarmRoom → OperationResult ⊎ WarmRoom
enqueue_operation o id s =
    if leb (default_to 256 o.max_mailbox) s.queued
    then inl (retry_at id s.version 100 backpressure)
    else inr (record s { queued = s.queued + 1 })

-- submit, of an operation whose turn has come
unfoldable pub take_turn : WorkerOptions → Others → ℕ → WarmRoom → Document → Value → Turn
take_turn o others now s d raw =
    let t = process o others now s d raw in
    record t {
      session = record (t.session) { queued = t.session.queued - 1; last_access_at = now };
    }
