-- ===== src/ServerCore/Session.antt =====
-- AuthoritativeDocumentSession of packages/server-core/src/index.ts: the authority over one document.
-- Its submissions run one after the other (`serial`), so that a session is a state and `process` a
-- step on it. What the environment chooses is the argument `Faults` of each step.
pub mod Replay
pub mod Recovery
pub mod History
pub mod Steps
pub mod Retries
pub mod Silence
use collabhub.Prelude.{
  ℕ, zero, ◌+◌, ◌%◌, Text, text, ◌≡◌, refl, Bool, true, false, not, ◌&&◌, ◌||◌, Option, none, some,
  List, [], ◌∷◌, ◌++◌, ltb, ◌==◌, length, leb, ◌===◌, sort_by, Dictionary, lookup, insert,
  if◌then◌else◌,
}
use collabhub.Errors.{
  Message, Result, ok, throws, ◌>>=◌, ◌>>◌, mixed_schemas, another_document, outside_history,
}
use collabhub.Protocol.Json.{Value, string, object, Fields, get}
use collabhub.Protocol.Messages.{
  Operation, Patch, Accepted, Rejected, OperationResult, accepted, rejected, resync_required,
  Canonical, Snapshot, SnapshotRef, RejectCode, invalid_operation, strategy_failure,
}
use collabhub.Protocol.Envelope.{assert_operation_envelope}
use collabhub.Strategy.{Committed, DomainPack, Migrated, migrate_domain_state}
use collabhub.DomainJson.Patches.{apply_canonical_patches}
use collabhub.ServerCore.Pipeline.{
  Hook, PipelineOptions, PrepareInput, PreparedOperation, PrepareResult, prepare, default_to,
}
use collabhub.ServerCore.Storage.{
  StoredSnapshot, WalRecord, Storage, load_snapshot, load_wal, append_wal, save_snapshot,
}

-- AuthoritativeSessionOptions
pub record SessionOptions : Type 0 where
  pub tenant_id : Text
  pub document_id : Text
  pub pipeline : PipelineOptions
  pub open pipeline use *
  pub snapshot_interval : Option ℕ

-- An initialized session.
pub record Session : Type 0 where
  pub state : Fields
  pub version : ℕ
  pub results : Dictionary OperationResult
  pub operations : List Committed

-- What the storage does in a step: `some` is a call that throws and writes nothing.
pub record Faults : Type 0 where
  pub append : Option Message
  pub save : Option Message

abbrev pub no_faults : Faults
no_faults = record { append = none; save = none }

-- The session's state while `load` goes through the log.
unfoldable pub replay_record : Bool → Text → Session → WalRecord → DomainPack → Result Session
replay_record has_snapshot stored s r pack =
    if not has_snapshot && not (r.operation.schema_version === stored)
    then throws (mixed_schemas stored r.operation.schema_version)
    else do
      let newer = ltb s.version r.version
      next ← if newer then apply_canonical_patches s.state r.patches else ok s.state
      ok (record {
        state = next;
        version = if newer then r.version else s.version;
        results = insert s.results r.operation.operation_id (
            accepted (record {
              operation_id = r.operation.operation_id;
              canonical_version = r.version;
              patches = r.patches;
              duplicate = false;
            }));
        operations =
            if r.operation.schema_version === pack.schema_version
            then s.operations
              ++ record { canonical_version = r.version; operation = r.operation } ∷ []
            else s.operations;
      })

unfoldable pub replay_records : Bool → Text → DomainPack → Session → List WalRecord → Result Session
replay_records has_snapshot stored pack s [] = ok s
replay_records has_snapshot stored pack s (r ∷ rs) = do
  next ← replay_record has_snapshot stored s r pack
  replay_records has_snapshot stored pack next rs

-- The session before the loop: the snapshot's state and version, or the initial ones.
unfoldable pub start_session : SessionOptions → Option StoredSnapshot → Session
start_session o none = record {
  state = o.domain_pack.initial_state o.document_id;
  version = 0;
  results = [];
  operations = [];
}
start_session o (some p) = record {
  state = p.state;
  version = p.version;
  results = [];
  operations = [];
}

-- snapshot?.schemaVersion ?? wal[0]?.operation.schemaVersion ?? domainPack.schemaVersion
unfoldable pub stored_schema : SessionOptions → Option StoredSnapshot → List WalRecord → Text
stored_schema o (some p) wal = p.schema_version
stored_schema o none (r ∷ wal) = r.operation.schema_version
stored_schema o none [] = o.domain_pack.schema_version

abbrev pub is_there {ℓ} : {A : Type ℓ} → Option A → Bool
is_there none = false
is_there (some a) = true

abbrev pub session_ref : SessionOptions → Session → SnapshotRef
session_ref o s = record {
  tenant_id = o.tenant_id;
  document_id = o.document_id;
  version = s.version;
}

abbrev pub stored_snapshot : SessionOptions → Session → StoredSnapshot
stored_snapshot o s = record {
  tenant_id = o.tenant_id;
  document_id = o.document_id;
  version = s.version;
  schema_version = o.domain_pack.schema_version;
  state = s.state;
  snapshot_ref = session_ref o s;
}

-- saveSnapshot of this session, by a storage that may fail
unfoldable pub persist_snapshot : SessionOptions → Faults → Session → Storage → Result Storage
persist_snapshot o faults s storage = elim faults.save [
  | none ↦ ok (save_snapshot storage (stored_snapshot o s))
  | some m ↦ throws m
]

-- The migration of a loaded session whose schema is not the pack's.
unfoldable pub migrate_session :
    SessionOptions → Faults → Text → Session → Storage → Result (Session × Storage)
migrate_session o faults stored s storage =
    elim (migrate_domain_state o.domain_pack stored s.state) [
      | none ↦ throws outside_history
      | some (throws m) ↦ throws m
      | some (ok m) ↦ do
        let migrated = record s { state = m.state; operations = [] }
        saved ← persist_snapshot o faults migrated storage
        ok (migrated, saved)
    ]

-- load
unfoldable pub load : SessionOptions → Faults → Storage → Result (Session × Storage)
load o faults storage = do
  let snapshot = load_snapshot storage o.tenant_id o.document_id
  let wal = load_wal storage o.tenant_id o.document_id none
  let stored = stored_schema o snapshot wal
  s ←
      replay_records (is_there snapshot) stored o.domain_pack (start_session o snapshot)
        (sort_by (λ (r : WalRecord). r.version) wal)
  if stored === o.domain_pack.schema_version
      then ok (s, storage)
      else migrate_session o faults stored s storage

abbrev pub reject_at : Session → Text → RejectCode → Message → OperationResult
reject_at s id code message = rejected (record {
  operation_id = id;
  canonical_version = s.version;
  reason = record { code = code; message = message };
  corrective_patches = none;
})

abbrev pub accepted_at : Operation → ℕ → List Patch → OperationResult
accepted_at op version patches = accepted (record {
  operation_id = op.operation_id;
  canonical_version = version;
  patches = patches;
  duplicate = false;
})

-- { ...prior, duplicate: true } of an accepted result, any other as it is
unfoldable pub mark_duplicate : OperationResult → OperationResult
mark_duplicate (accepted a) = accepted (record a { duplicate = true })
mark_duplicate r = r

-- What a step leaves: the result, the session, the storage, and the events that the listeners got.
pub record Outcome : Type 0 where
  pub result : OperationResult
  pub session : Session
  pub storage : Storage
  pub events : List Canonical

abbrev pub quiet : OperationResult → Session → Storage → Outcome
quiet r s storage = record { result = r; session = s; storage = storage; events = [] }

-- After the commit: a snapshot at every `snapshotInterval` versions, then the listeners. A snapshot
-- that cannot be saved ends these effects, and does not change the result.
unfoldable pub after_append :
    SessionOptions → Faults → OperationResult → Canonical → Session → Storage → Outcome
unfolding persist_snapshot
after_append o faults result event s storage =
    if s.version % default_to 25 o.snapshot_interval == 0
    then elim (persist_snapshot o faults s storage) [
      | throws m ↦ quiet result s storage
      | ok saved ↦ record { result = result; session = s; storage = saved; events = event ∷ [] }
    ]
    else record { result = result; session = s; storage = storage; events = event ∷ [] }

-- The session once a prepared operation is in the log.
unfoldable pub committed_session : Session → Operation → PreparedOperation → Session
committed_session s op p =
    let next = s.version + 1 in
    record {
      state = p.next_state;
      version = next;
      results = insert s.results op.operation_id (accepted_at op next p.patches);
      operations = s.operations ++ record { canonical_version = next; operation = op } ∷ [];
    }

abbrev pub wal_record : SessionOptions → Text → Session → Operation → List Patch → WalRecord
wal_record o now s op patches = record {
  tenant_id = o.tenant_id;
  document_id = o.document_id;
  version = s.version + 1;
  operation = op;
  patches = patches;
  committed_at = now;
}

abbrev pub canonical_event : Session → Operation → List Patch → Canonical
canonical_event s op patches = record {
  operation_id = op.operation_id;
  actor_id = op.actor_id;
  canonical_version = s.version + 1;
  patches = patches;
}

-- appendWal is the commit boundary: if it throws, the operation is rejected and nothing has changed.
unfoldable pub commit :
    SessionOptions → Faults → Text → Session → Storage → Operation → PreparedOperation → Outcome
unfolding committed_session
commit o faults now s storage op p = elim faults.append [
  | some m ↦ quiet (reject_at s op.operation_id strategy_failure m) s storage
  | none ↦
      after_append o faults (accepted_at op (s.version + 1) p.patches)
        (canonical_event s op p.patches) (committed_session s op p)
        (append_wal storage (wal_record o now s op p.patches))
]

abbrev pub prepare_input : SessionOptions → Session → Operation → PrepareInput
prepare_input o s op = record {
  operation = op;
  state = s.state;
  current_version = s.version;
  committed_operations = s.operations;
  snapshot_ref = session_ref o s;
}

-- The step of an operation that the session has not answered before. A rejection is remembered.
unfoldable pub process_new :
    SessionOptions → Faults → Text → Session → Storage → Operation → Outcome
process_new o faults now s storage op = elim (prepare o.pipeline (prepare_input o s op)) [
  | PrepareResult.prepared p ↦ commit o faults now s storage op p
  | PrepareResult.rejected r ↦
      quiet (rejected r) (record s { results = insert s.results op.operation_id (rejected r) })
        storage
  | PrepareResult.resync r ↦ quiet (resync_required r) s storage
]

unfoldable pub process_known :
    SessionOptions → Faults → Text → Session → Storage → Operation → Outcome
process_known o faults now s storage op = elim (lookup s.results op.operation_id) [
  | some prior ↦ quiet (mark_duplicate prior) s storage
  | none ↦ process_new o faults now s storage op
]

unfoldable pub process_operation :
    SessionOptions → Faults → Text → Session → Storage → Operation → Outcome
process_operation o faults now s storage op =
    if not (op.tenant_id === o.tenant_id) || not (op.document_id === o.document_id)
    then quiet (reject_at s op.operation_id invalid_operation another_document) s storage
    else process_known o faults now s storage op

-- operation.operationId || 'unknown', of a text
unfoldable pub claimed_id : Value → Text
claimed_id (object fs) = elim (get fs (text "operationId")) [
  | some (string id) ↦ if leb (length id) 0 then text "unknown" else id
  | _ ↦ text "unknown"
]
claimed_id v = text "unknown"

-- process, of a session that is initialized
unfoldable pub process : SessionOptions → Faults → Text → Session → Storage → Value → Outcome
unfolding process_operation
process o faults now s storage raw = elim (assert_operation_envelope raw) [
  | throws m ↦ quiet (reject_at s (claimed_id raw) invalid_operation m) s storage
  | ok op ↦ process_operation o faults now s storage op
]

-- snapshot
unfoldable pub snapshot_message : SessionOptions → Session → Snapshot Fields
snapshot_message o s = record {
  tenant_id = o.tenant_id;
  document_id = o.document_id;
  canonical_version = s.version;
  schema_version = o.domain_pack.schema_version;
  snapshot = s.state;
  snapshot_ref = session_ref o s;
}
