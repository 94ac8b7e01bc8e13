-- ===== src/Distributed/Store.antt =====
-- PostgresCommitStore of packages/server-distributed/src/postgres-store.ts: its transactions on a
-- room's rows, and the outbox. A transaction that throws is rolled back and changes nothing. Those
-- that lock the head run one after the other; loadRoom is three queries and no transaction.
pub mod Runs
pub mod Restoring
pub mod Skew
use collabhub.Prelude.{
  ℕ, ◌+◌, ◌-◌, Text, Bool, true, false, not, ◌&&◌, ◌||◌, Option, none, some, List, [], ◌∷◌, ◌++◌,
  map, ltb, leb, ◌==◌, ◌===◌, length, any, find, keep, take, sort_by, lookup, insert, Dictionary,
  if◌then◌else◌,
}
use collabhub.Errors.{
  Message, Result, ok, throws, ◌>>=◌, unique_violation, document_missing, snapshot_pointer_invalid,
  not_created,
}
use collabhub.Protocol.Json.{Fields}
use collabhub.Protocol.Messages.{
  Operation, Patch, Accepted, OperationResult, accepted, rejected, resync_required, retry_later,
  Canonical, Snapshot, SnapshotRef,
}
use collabhub.DomainJson.Patches.{apply_canonical_patches}
use collabhub.ServerCore.Session.{mark_duplicate}
use collabhub.Distributed.Rows.{
  RoomIdentity, same_room, Head, SnapshotRow, WalRow, ReceiptRow, HistoryRow, Document, OutboxRow,
  Database, Owner, CommitRequest, CommitOutcome, committed, duplicate, collision, ReceiptOutcome,
  stored, exists, MigrationRequest, MigrationOutcome, migrated, already_current, RetentionPolicy,
  LoadedRoom, is_owner, of_version, insert_snapshot, upsert_snapshot, insert_wal,
}

-- ensureDocument
unfoldable pub ensure_document : Text → Fields → Option Document → Document
ensure_document schema initial (some d) = d
ensure_document schema initial none = record {
  head = record {
    canonical_version = 0;
    owner_epoch = 0;
    owner_instance_id = none;
    schema_version = schema;
    snapshot_version = 0;
  };
  snapshots = record { version = 0; schema_version = schema; state = initial } ∷ [];
  wal = [];
  receipts = [];
  schema_history = [];
}

-- claimOwnership, of a document that is there: the new epoch and the rows
unfoldable pub claim_ownership : Text → Document → ℕ × Document
claim_ownership instance_id d =
    let epoch = d.head.owner_epoch + 1 in
    (
      epoch,
      record d {
        head = record (d.head) { owner_epoch = epoch; owner_instance_id = some instance_id };
      },
    )

abbrev pub is_newer : ℕ → WalRow → Bool
is_newer v r = ltb v r.version

-- SELECT ... FROM collabhub_operation_wal WHERE version > $3 ORDER BY version
unfoldable pub wal_after : ℕ → Document → List WalRow
wal_after v d = sort_by (λ (r : WalRow). r.version) (keep (is_newer v) d.wal)

-- loadRoom: the head, the snapshot and the log are read one after the other, each from the rows as
-- they are by then.
unfoldable pub load_room : Document → Document → Document → Result LoadedRoom
load_room at_head at_snapshot at_wal =
    let head = at_head.head in
    elim (find (of_version head.snapshot_version) at_snapshot.snapshots) [
      | none ↦ throws snapshot_pointer_invalid
      | some row ↦ ok (record {
        schema_version = head.schema_version;
        version = head.canonical_version;
        owner_epoch = head.owner_epoch;
        owner_instance_id = head.owner_instance_id;
        snapshot_version = head.snapshot_version;
        state = row.state;
        wal = wal_after head.snapshot_version at_wal;
      })
    ]

-- for (const entry of loaded.wal) state = applyCanonicalPatches(state, entry.patches)
unfoldable pub apply_wal : Fields → List WalRow → Result Fields
apply_wal state [] = ok state
apply_wal state (r ∷ rows) = do next ← apply_canonical_patches state r.patches; apply_wal next rows

-- What a room that is loaded holds.
unfoldable pub loaded_state : LoadedRoom → Result Fields
loaded_state loaded = apply_wal loaded.state loaded.wal

-- lookupReceipt
unfoldable pub lookup_receipt : Text → Document → Option ReceiptRow
lookup_receipt id d = lookup d.receipts id

abbrev pub receipt : ℕ → Text → OperationResult → ReceiptRow
receipt now fingerprint result = record {
  fingerprint = fingerprint;
  result = result;
  created_at = now;
}

-- result.operationId
abbrev pub result_id : OperationResult → Text
result_id (accepted r) = r.operation_id
result_id (rejected r) = r.operation_id
result_id (resync_required r) = r.operation_id
result_id (retry_later r) = r.operation_id

-- recordReceipt, of a document that is there
unfoldable pub record_receipt :
    ℕ → Owner → Text → OperationResult → Document → ReceiptOutcome × Document
record_receipt now owner fingerprint result d =
    if not (is_owner owner d.head)
    then (ReceiptOutcome.fenced, d)
    else elim (lookup d.receipts (result_id result)) [
      | some prior ↦ (exists, d)
      | none ↦ (
        stored,
        record d {
          receipts = insert d.receipts (result_id result) (receipt now fingerprint result);
        },
      )
    ]

abbrev pub wal_row : ℕ → CommitRequest → WalRow
wal_row version q = record {
  version = version;
  operation_id = q.operation.operation_id;
  operation = q.operation;
  patches = q.patches;
  fingerprint = q.fingerprint;
}

abbrev pub accepted_result : ℕ → CommitRequest → Accepted
accepted_result version q = record {
  operation_id = q.operation.operation_id;
  canonical_version = version;
  patches = q.patches;
  duplicate = false;
}

abbrev pub committed_event : ℕ → CommitRequest → Canonical
committed_event version q = record {
  operation_id = q.operation.operation_id;
  actor_id = q.operation.actor_id;
  canonical_version = version;
  patches = q.patches;
}

-- The inserts and the update of a commit whose checks have passed.
unfoldable pub write_commit : ℕ → CommitRequest → Document → Result (CommitOutcome × Document)
write_commit now q d = do
  let next = d.head.canonical_version + 1
  wal ← insert_wal (wal_row next q) d.wal
  ok (
    committed (accepted_result next q) (committed_event next q),
    record d {
      head = record (d.head) { canonical_version = next };
      wal = wal;
      receipts =
          insert d.receipts q.operation.operation_id
            (receipt now q.fingerprint (accepted (accepted_result next q)));
    },
  )

-- commit, of a document that is there, without the outbox
unfoldable pub commit : ℕ → CommitRequest → Document → Result (CommitOutcome × Document)
commit now q d = elim (lookup d.receipts q.operation.operation_id) [
  | some prior ↦ ok (
    if prior.fingerprint === q.fingerprint
        then duplicate (mark_duplicate prior.result)
        else collision d.head.canonical_version,
    d,
  )
  | none ↦
      if not (is_owner q.owner d.head)
      then ok (CommitOutcome.fenced d.head.canonical_version, d)
      else if not (d.head.canonical_version == q.resolved_at_version)
      then ok (CommitOutcome.version_conflict d.head.canonical_version, d)
      else write_commit now q d
]

abbrev pub is_history : ℕ → Text → HistoryRow → Bool
is_history version schema r = r.canonical_version == version && r.to_schema_version === schema

abbrev pub history_row : MigrationRequest → HistoryRow
history_row q = record {
  canonical_version = q.version;
  from_schema_version = q.from_schema_version;
  to_schema_version = q.to_schema_version;
  applied_migrations = q.applied;
}

abbrev pub migrated_document : MigrationRequest → Document → Document
migrated_document q d = record d {
  snapshots =
      upsert_snapshot
        (record { version = q.version; schema_version = q.to_schema_version; state = q.state })
        d.snapshots;
  schema_history = d.schema_history ++ history_row q ∷ [];
  head = record (d.head) { schema_version = q.to_schema_version; snapshot_version = q.version };
}

-- migrateDocument, of a document that is there
unfoldable pub migrate_document : MigrationRequest → Document → Result (MigrationOutcome × Document)
migrate_document q d =
    if not (is_owner q.owner d.head)
    then ok (MigrationOutcome.fenced, d)
    else if not (d.head.canonical_version == q.version)
        || not (d.head.schema_version === q.from_schema_version)
    then ok (
      if d.head.schema_version === q.to_schema_version && d.head.canonical_version == q.version
          then already_current
          else MigrationOutcome.version_conflict d.head.canonical_version d.head.schema_version,
      d,
    )
    else if any (is_history q.version q.to_schema_version) d.schema_history
    then throws unique_violation
    else ok (migrated, migrated_document q d)

-- WHERE canonical_version >= $3 AND snapshot_version < $3 AND schema_version = $4
abbrev pub takes_snapshot : ℕ → Text → Head → Bool
takes_snapshot version schema h =
    leb version h.canonical_version && ltb h.snapshot_version version && h.schema_version === schema

-- saveSnapshot
unfoldable pub save_snapshot : ℕ → Text → Fields → Document → Document
save_snapshot version schema state d = record d {
  snapshots =
      insert_snapshot (record { version = version; schema_version = schema; state = state })
        d.snapshots;
  head =
      if takes_snapshot version schema d.head
      then record (d.head) { snapshot_version = version }
      else d.head;
}

-- snapshot: what loadRoom finds, with the log applied
unfoldable pub snapshot : RoomIdentity → Document → Document → Document → Result (Snapshot Fields)
snapshot room at_head at_snapshot at_wal = do
  loaded ← load_room at_head at_snapshot at_wal
  state ← loaded_state loaded
  ok (record {
    tenant_id = room.tenant_id;
    document_id = room.document_id;
    canonical_version = loaded.version;
    schema_version = loaded.schema_version;
    snapshot = state;
    snapshot_ref = record {
      tenant_id = room.tenant_id;
      document_id = room.document_id;
      version = loaded.version;
    };
  })

abbrev pub wal_event : WalRow → Canonical
wal_event r = record {
  operation_id = r.operation_id;
  actor_id = r.operation.actor_id;
  canonical_version = r.version;
  patches = r.patches;
}

-- eventsAfter
unfoldable pub events_after : ℕ → ℕ → Document → List Canonical
events_after after limit d = map wal_event (take limit (wal_after after d))

-- headVersion
unfoldable pub head_version : Option Document → ℕ
head_version none = 0
head_version (some d) = d.head.canonical_version
