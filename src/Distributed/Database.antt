-- ===== src/Distributed/Database.antt =====
-- PostgresCommitStore of packages/server-distributed/src/postgres-store.ts over all rooms: the lookup of
-- a room's rows, the outbox that commits fill, and the compaction.
pub mod Transactions
pub mod Kept
pub mod Saves
pub mod Steps
pub mod Fencing
pub mod Receipts
pub mod Outbox
use collabhub.Prelude.{
  ℕ, zero, suc, ◌+◌, ◌-◌, Text, Bool, true, false, not, ◌&&◌, ◌||◌, Option, none, some, List, [],
  ◌∷◌, ◌++◌, map, ltb, leb, ◌==◌, ◌===◌, length, keep, Dictionary, if◌then◌else◌,
}
use collabhub.Errors.{Message, Result, ok, throws, ◌>>=◌, document_missing, not_created}
use collabhub.Protocol.Json.{Fields}
use collabhub.Protocol.Messages.{Canonical, OperationResult}
use collabhub.Distributed.Rows.{
  RoomIdentity, same_room, Head, SnapshotRow, WalRow, ReceiptRow, Document, OutboxRow, Database,
  Owner, CommitRequest, CommitOutcome, committed, ReceiptOutcome, MigrationRequest,
  MigrationOutcome, RetentionPolicy, of_version,
}
use collabhub.Distributed.Store.{
  ensure_document, claim_ownership, record_receipt, commit, migrate_document, save_snapshot,
}

abbrev pub put_document : RoomIdentity → Document → Database → Database
put_document room d db = record db {
  documents = λ other. if same_room room other then some d else db.documents other;
}

-- INSERT INTO collabhub_outbox
abbrev pub add_event : RoomIdentity → Canonical → Database → Database
add_event room event db = record db {
  outbox =
      db.outbox
      ++ record {
        id = db.next_outbox_id;
        room = room;
        event = event;
        delivered_at = none;
        locked_by = none;
        locked_until = none;
      }
        ∷ [];
  next_outbox_id = db.next_outbox_id + 1;
}

-- The outbox after a commit: its event, if it has committed
abbrev pub announce : RoomIdentity → CommitOutcome → Database → Database
announce room (committed result event) db = add_event room event db
announce room _ db = db

-- SELECT ... FROM collabhub_document_head ... FOR UPDATE, and what is done with the rows
abbrev pub with_document {ℓ} :
    {A : Type ℓ} → RoomIdentity → Database → (Document → Result A) → Result A
with_document room db f = elim (db.documents room) [ none ↦ throws document_missing | some d ↦ f d ]

unfoldable pub ensure : RoomIdentity → Text → Fields → Database → Database
ensure room schema initial db =
    put_document room (ensure_document schema initial (db.documents room)) db

unfoldable pub claim : RoomIdentity → Text → Database → Result (ℕ × Database)
claim room instance_id db = elim (db.documents room) [
  | none ↦ throws not_created
  | some d ↦
      let (epoch, next) = claim_ownership instance_id d in ok (epoch, put_document room next db)
]

unfoldable pub commit_operation :
    ℕ → RoomIdentity → CommitRequest → Database → Result (CommitOutcome × Database)
commit_operation now room q db = with_document room db λ d. do
  (outcome, next) ← commit now q d
  ok (outcome, announce room outcome (put_document room next db))

unfoldable pub store_receipt :
    ℕ
    → RoomIdentity
    → Owner
    → Text
    → OperationResult
    → Database
    → Result (ReceiptOutcome × Database)
store_receipt now room owner fingerprint result db = with_document room db λ d.
    let (outcome, next) = record_receipt now owner fingerprint result d in
    ok (outcome, put_document room next db)

unfoldable pub migrate_room :
    RoomIdentity → MigrationRequest → Database → Result (MigrationOutcome × Database)
migrate_room room q db =
    with_document room db
      λ d. do (outcome, next) ← migrate_document q d; ok (outcome, put_document room next db)

-- saveSnapshot; without a head the snapshot's row alone would be written, and no one reads it.
unfoldable pub store_snapshot : RoomIdentity → ℕ → Text → Fields → Database → Database
store_snapshot room version schema state db = elim (db.documents room) [
  | none ↦ db
  | some d ↦ put_document room (save_snapshot version schema state d) db
]

-- delivered_at IS NULL AND (locked_until IS NULL OR locked_until < now())
abbrev pub is_free : ℕ → Option ℕ → Bool
is_free now none = true
is_free now (some until) = ltb until now

abbrev pub is_pending : Option ℕ → Bool
is_pending none = true
is_pending (some at) = false

unfoldable pub is_claimable : ℕ → OutboxRow → Bool
is_claimable now r = is_pending r.delivered_at && is_free now r.locked_until

-- interval '10 seconds'
abbrev pub lock_ms : ℕ
lock_ms = 10_000

abbrev pub locked_row : ℕ → Text → OutboxRow → OutboxRow
locked_row now instance_id r = record r {
  locked_by = some instance_id;
  locked_until = some (now + lock_ms);
}

-- The statement of claimOutbox: the rows it chooses by the order of the ids, and all rows afterwards.
unfoldable pub claim_rows : ℕ → Text → ℕ → List OutboxRow → List OutboxRow × List OutboxRow
claim_rows now instance_id limit [] = ([], [])
claim_rows now instance_id zero (r ∷ rs) = ([], r ∷ rs)
claim_rows now instance_id (suc limit) (r ∷ rs) = elim (is_claimable now r) [
  | true ↦
      let rest = claim_rows now instance_id limit rs in
      (r ∷ rest.0, locked_row now instance_id r ∷ rest.1)
  | false ↦ let rest = claim_rows now instance_id (suc limit) rs in (rest.0, r ∷ rest.1)
]

-- claimOutbox. The statement leaves open in which order it returns the rows that it has claimed:
-- `returning` puts them in the order of the database.
unfoldable pub claim_outbox :
    (List OutboxRow → List OutboxRow) → ℕ → Text → ℕ → Database → List OutboxRow × Database
claim_outbox returning now instance_id limit db =
    let claimed = claim_rows now instance_id limit db.outbox in
    (returning claimed.0, record db { outbox = claimed.1 })

abbrev pub delivered_row : ℕ → ℕ → OutboxRow → OutboxRow
delivered_row now id r =
    if r.id == id
    then record r { delivered_at = some now; locked_by = none; locked_until = none }
    else r

-- markOutboxDelivered
unfoldable pub mark_delivered : ℕ → ℕ → Database → Database
mark_delivered now id db = record db { outbox = map (delivered_row now id) db.outbox }

-- LEAST(head.snapshot_version, GREATEST(head.canonical_version - $1, 0))
abbrev pub wal_floor : RetentionPolicy → Head → ℕ
wal_floor policy h =
    let oldest = h.canonical_version - policy.wal_versions in
    if leb h.snapshot_version oldest then h.snapshot_version else oldest

abbrev pub is_kept_wal : RetentionPolicy → Head → WalRow → Bool
is_kept_wal policy h r = ltb (wal_floor policy h) r.version

-- created_at < now() - ttl, turned round
abbrev pub is_fresh : ℕ → ℕ → ℕ → Bool
is_fresh now ttl at = leb now (at + ttl)

abbrev pub is_kept_receipt : ℕ → RetentionPolicy → Text × ReceiptRow → Bool
is_kept_receipt now policy (id, r) = is_fresh now policy.receipt_ttl_ms r.created_at

abbrev pub is_kept_event : ℕ → RetentionPolicy → OutboxRow → Bool
is_kept_event now policy r = elim r.delivered_at [
  | none ↦ true
  | some at ↦ is_fresh now policy.delivered_outbox_ttl_ms at
]

-- row_number() OVER (PARTITION BY the room ORDER BY version DESC)
abbrev pub rank : List SnapshotRow → SnapshotRow → ℕ
rank rows r = suc (length (keep (λ (q : SnapshotRow). ltb r.version q.version) rows))

abbrev pub is_kept_snapshot : RetentionPolicy → Document → SnapshotRow → Bool
is_kept_snapshot policy d r =
    leb (rank d.snapshots r) policy.snapshots_per_document || of_version d.head.snapshot_version r

-- compact, of a room's rows
unfoldable pub compact_document : ℕ → RetentionPolicy → Document → Document
compact_document now policy d = record d {
  wal = keep (is_kept_wal policy d.head) d.wal;
  receipts = keep (is_kept_receipt now policy) d.receipts;
  snapshots = keep (is_kept_snapshot policy d) d.snapshots;
}

abbrev pub compacted : ℕ → RetentionPolicy → Option Document → Option Document
compacted now policy none = none
compacted now policy (some d) = some (compact_document now policy d)

-- compact, by the one who holds the advisory lock: without it nothing is done.
unfoldable pub compact : Bool → ℕ → RetentionPolicy → Database → Database
compact acquired now policy db =
    if acquired
    then record db {
      documents = λ room. compacted now policy (db.documents room);
      outbox = keep (is_kept_event now policy) db.outbox;
    }
    else db
