-- ===== src/Distributed/Rows.antt =====
-- The tables of packages/server-distributed/src/postgres-store.ts and the requests and outcomes of
-- packages/server-distributed/src/types.ts. Every statement of the store names the room in its keys,
-- so a room's rows are one record. Checksums are written and never read, and are left out.
use collabhub.Prelude.{
  ℕ, Text, Bool, true, false, ◌&&◌, Option, none, some, List, [], ◌∷◌, ◌++◌, ◌==◌, ◌===◌, any,
  Dictionary, if◌then◌else◌,
}
use collabhub.Errors.{Result, ok, throws, unique_violation}
use collabhub.Protocol.Json.{Fields}
use collabhub.Protocol.Messages.{Operation, Patch, Accepted, OperationResult, Canonical}
use collabhub.Strategy.{Applied}

-- RoomIdentity
pub record RoomIdentity : Type 0 where
  pub tenant_id : Text
  pub document_id : Text

abbrev pub same_room : RoomIdentity → RoomIdentity → Bool
same_room a b = a.tenant_id === b.tenant_id && a.document_id === b.document_id

-- collabhub_document_head
pub record Head : Type 0 where
  pub canonical_version : ℕ
  pub owner_epoch : ℕ
  pub owner_instance_id : Option Text
  pub schema_version : Text
  pub snapshot_version : ℕ

-- collabhub_snapshot
pub record SnapshotRow : Type 0 where
  pub version : ℕ
  pub schema_version : Text
  pub state : Fields

-- collabhub_operation_wal; its time stamp is only ever shown
pub record WalRow : Type 0 where
  pub version : ℕ
  pub operation_id : Text
  pub operation : Operation
  pub patches : List Patch
  pub fingerprint : Text

-- StoredReceipt and collabhub_operation_receipt
pub record ReceiptRow : Type 0 where
  pub fingerprint : Text
  pub result : OperationResult
  pub created_at : ℕ

-- collabhub_schema_history
pub record HistoryRow : Type 0 where
  pub canonical_version : ℕ
  pub from_schema_version : Text
  pub to_schema_version : Text
  pub applied_migrations : List Applied

-- The rows of one room
pub record Document : Type 0 where
  pub head : Head
  pub snapshots : List SnapshotRow
  pub wal : List WalRow
  pub receipts : Dictionary ReceiptRow
  pub schema_history : List HistoryRow

-- collabhub_outbox, with InternalRoomEvent
pub record OutboxRow : Type 0 where
  pub id : ℕ
  pub room : RoomIdentity
  pub event : Canonical
  pub delivered_at : Option ℕ
  pub locked_by : Option Text
  pub locked_until : Option ℕ

pub record Database : Type 0 where
  pub documents : RoomIdentity → Option Document
  pub outbox : List OutboxRow
  pub next_outbox_id : ℕ

-- Whoever claimed a room: the epoch and the instance of a request
pub record Owner : Type 0 where
  pub epoch : ℕ
  pub instance_id : Text

-- CommitRequest without the room
pub record CommitRequest : Type 0 where
  pub owner : Owner
  pub resolved_at_version : ℕ
  pub operation : Operation
  pub patches : List Patch
  pub fingerprint : Text

pub data CommitOutcome : Type 0 where
  committed : Accepted → Canonical → CommitOutcome
  duplicate : OperationResult → CommitOutcome
  collision version_conflict fenced : (canonical_version : ℕ) → CommitOutcome

pub data ReceiptOutcome : Type 0 where
  stored exists fenced : ReceiptOutcome

-- DocumentMigrationRequest without the room
pub record MigrationRequest : Type 0 where
  pub owner : Owner
  pub version : ℕ
  pub from_schema_version : Text
  pub to_schema_version : Text
  pub state : Fields
  pub applied : List Applied

pub data MigrationOutcome : Type 0 where
  migrated already_current fenced : MigrationOutcome
  version_conflict : (canonical_version : ℕ) (schema_version : Text) → MigrationOutcome

-- DurableRetentionPolicy
pub record RetentionPolicy : Type 0 where
  pub wal_versions : ℕ
  pub receipt_ttl_ms : ℕ
  pub delivered_outbox_ttl_ms : ℕ
  pub snapshots_per_document : ℕ

-- LoadedRoom
pub record LoadedRoom : Type 0 where
  pub schema_version : Text
  pub version : ℕ
  pub owner_epoch : ℕ
  pub owner_instance_id : Option Text
  pub snapshot_version : ℕ
  pub state : Fields
  pub wal : List WalRow

abbrev pub is_text_of : Text → Option Text → Bool
is_text_of t none = false
is_text_of t (some u) = u === t

-- Number(head.owner_epoch) === owner.epoch && head.owner_instance_id === owner.instanceId
abbrev pub is_owner : Owner → Head → Bool
is_owner o h = h.owner_epoch == o.epoch && is_text_of o.instance_id h.owner_instance_id

abbrev pub of_version : ℕ → SnapshotRow → Bool
of_version v r = r.version == v

-- INSERT ... ON CONFLICT DO NOTHING
unfoldable pub insert_snapshot : SnapshotRow → List SnapshotRow → List SnapshotRow
insert_snapshot r rows = if any (of_version r.version) rows then rows else rows ++ r ∷ []

-- INSERT ... ON CONFLICT (tenant_id, document_id, version) DO UPDATE
unfoldable pub upsert_snapshot : SnapshotRow → List SnapshotRow → List SnapshotRow
upsert_snapshot r [] = r ∷ []
upsert_snapshot r (q ∷ rows) =
    if of_version r.version q then r ∷ rows else q ∷ upsert_snapshot r rows

abbrev pub wal_conflict : WalRow → WalRow → Bool
wal_conflict r q = if q.version == r.version then true else q.operation_id === r.operation_id

-- INSERT INTO collabhub_operation_wal: versions and operation ids are unique.
unfoldable pub insert_wal : WalRow → List WalRow → Result (List WalRow)
insert_wal r rows =
    if any (wal_conflict r) rows then throws unique_violation else ok (rows ++ r ∷ [])
