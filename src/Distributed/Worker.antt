-- ===== src/Distributed/Worker.antt =====
-- DistributedRoomWorker of packages/server-distributed/src/worker.ts: a warm room is a copy of the room's
-- rows. Between two calls of the store others change the rows: `Others` says how, before the call of
-- a number. The sha256 of an operation is a parameter, and so is what hooks and strategies do.
pub mod Activation
pub mod Drifts
pub mod Coherence
pub mod Turns
pub mod Warming
pub mod Dispatch
pub mod Delivered
pub mod Receipts
use collabhub.Prelude.{
  ℕ, zero, suc, ◌+◌, ◌%◌, Text, text, Bool, true, false, not, Option, none, some, List, [], ◌∷◌,
  ◌++◌, map, take_last, leb, ◌==◌, ◌===◌, if◌then◌else◌,
}
use collabhub.Errors.{
  Message, Result, ok, throws, ◌>>=◌, fingerprint_reused, ownership_changed,
  changed_during_migration, context_required, not_bound, outside_history,
}
use collabhub.Protocol.Json.{Value, string, object, Fields, get}
use collabhub.Protocol.Messages.{
  Operation, Patch, RejectCode, invalid_operation, Rejected, RetryReason, owner_changing,
  temporarily_unavailable, OperationResult, accepted, rejected, resync_required, retry_later,
  Snapshot, SnapshotRef,
}
use collabhub.Protocol.Envelope.{assert_operation_envelope}
use collabhub.Strategy.{Committed, Migrated, migrate_domain_state}
use collabhub.ServerCore.Pipeline.{
  PipelineOptions, PrepareInput, PreparedOperation, PrepareResult, prepare, default_to,
}
use collabhub.ServerCore.Session.{mark_duplicate}
use collabhub.Distributed.Rows.{
  RoomIdentity, WalRow, ReceiptRow, Document, Owner, CommitRequest, CommitOutcome, committed,
  duplicate, collision, ReceiptOutcome, stored, exists, MigrationRequest, MigrationOutcome,
  migrated, already_current, LoadedRoom,
}
use collabhub.Distributed.Store.{
  ensure_document, claim_ownership, load_room, loaded_state, lookup_receipt, record_receipt, commit,
  migrate_document, result_id,
}
use collabhub.Distributed.Database.Transactions.{Transaction, saving}

-- RoomWorkerOptions, of one room, with operationFingerprint
pub record WorkerOptions : Type 0 where
  pub room : RoomIdentity
  pub instance_id : Text
  pub pipeline : PipelineOptions
  pub open pipeline use *
  pub snapshot_interval : Option ℕ
  pub max_mailbox : Option ℕ
  pub fingerprint : Operation → Text

-- WarmRoom
pub record WarmRoom : Type 0 where
  pub owner : Owner
  pub schema_version : Text
  pub version : ℕ
  pub state : Fields
  pub recent_operations : List Committed
  pub queued : ℕ
  pub last_access_at : ℕ

-- What others do to the rows before the store's call of a number
abbrev pub Others : Type 0
Others = ℕ → Document → Document

-- The end of a turn: the answer or what is thrown, the warm room and whether it is still in the worker's map, the rows,
-- and the snapshot that is saved without being waited for.
pub record Turn : Type 0 where
  pub result : Result OperationResult
  pub session : WarmRoom
  pub dropped : Bool
  pub rows : Document
  pub saves : List Transaction

abbrev pub answer : OperationResult → WarmRoom → Document → Turn
answer r s d = record { result = ok r; session = s; dropped = false; rows = d; saves = [] }

-- What is thrown, of the session as it is by then
abbrev pub failed : Message → WarmRoom → Document → Turn
failed m s d = record { result = throws m; session = s; dropped = false; rows = d; saves = [] }

abbrev pub reject_at : Text → ℕ → RejectCode → Message → OperationResult
reject_at id version code message = rejected (record {
  operation_id = id;
  canonical_version = version;
  reason = record { code = code; message = message };
  corrective_patches = none;
})

abbrev pub retry_at : Text → ℕ → ℕ → RetryReason → OperationResult
retry_at id version after reason = retry_later (record {
  operation_id = id;
  canonical_version = version;
  retry_after_ms = after;
  reason = reason;
})

-- this.sessions.delete(key), and an answer that sends the client elsewhere
abbrev pub owner_lost : Text → ℕ → WarmRoom → Document → Turn
owner_lost id version s d = record {
  result = ok (retry_at id version 100 owner_changing);
  session = s;
  dropped = true;
  rows = d;
  saves = [];
}

abbrev pub recent_of : List WalRow → List Committed
recent_of rows =
    map (λ (r : WalRow). record { canonical_version = r.version; operation = r.operation })
      (take_last 500 rows)

-- recentOperations.push, and shift above 500
abbrev pub remember : List Committed → Committed → List Committed
remember recent c = take_last 500 (recent ++ c ∷ [])

-- reload, which reads at three moments
unfoldable pub reload : WarmRoom → Document → Document → Document → Result WarmRoom
reload s at_head at_snapshot at_wal = do
  loaded ← load_room at_head at_snapshot at_wal
  state ← loaded_state loaded
  ok (record s {
    state = state;
    version = loaded.version;
    recent_operations = recent_of loaded.wal;
  })

abbrev pub snapshot_ref : WorkerOptions → WarmRoom → SnapshotRef
snapshot_ref o s = record {
  tenant_id = o.room.tenant_id;
  document_id = o.room.document_id;
  version = s.version;
}

abbrev pub prepare_input : WorkerOptions → WarmRoom → Operation → PrepareInput
prepare_input o s op = record {
  operation = op;
  state = s.state;
  current_version = s.version;
  committed_operations = s.recent_operations;
  snapshot_ref = snapshot_ref o s;
}

-- persistRejection after recordReceipt; its second look at the receipts is a call of its own.
unfoldable pub after_receipt :
    WorkerOptions → Others → ℕ → WarmRoom → Operation → Rejected → ReceiptOutcome → Document → Turn
after_receipt o others call s op r ReceiptOutcome.fenced d = owner_lost r.operation_id s.version s d
after_receipt o others call s op r stored d = answer (rejected r) s d
after_receipt o others call s op r exists d =
    let again = others call d in
    elim (lookup_receipt r.operation_id again) [
      | none ↦
          answer (reject_at r.operation_id s.version invalid_operation fingerprint_reused) s again
      | some prior ↦
          answer
            (if prior.fingerprint === o.fingerprint op
              then prior.result
              else reject_at r.operation_id s.version invalid_operation fingerprint_reused)
            s again
    ]

unfoldable pub persist_rejection :
    WorkerOptions → Others → (now call : ℕ) → WarmRoom → Document → Operation → Rejected → Turn
persist_rejection o others now call s d op r =
    let done = record_receipt now s.owner (o.fingerprint op) (rejected r) (others call d) in
    after_receipt o others (suc call) s op r done.0 done.1

abbrev pub commit_request : WorkerOptions → WarmRoom → Operation → PreparedOperation → CommitRequest
commit_request o s op p = record {
  owner = s.owner;
  resolved_at_version = p.resolved_at_version;
  operation = op;
  patches = p.patches;
  fingerprint = o.fingerprint op;
}

-- The warm room after a commit of its own
abbrev pub committed_room : WarmRoom → Operation → PreparedOperation → ℕ → WarmRoom
committed_room s op p version = record s {
  state = p.next_state;
  version = version;
  recent_operations =
      remember s.recent_operations (record { canonical_version = version; operation = op });
}

abbrev pub committed_turn : WorkerOptions → WarmRoom → OperationResult → Document → Turn
committed_turn o s result d = record {
  result = ok result;
  session = s;
  dropped = false;
  rows = d;
  saves =
      if s.version % default_to 100 o.snapshot_interval == 0
      then saving s.version s.schema_version s.state ∷ []
      else [];
}

-- What follows a commit's outcome; `retry` is what follows a version conflict.
unfoldable pub after_commit :
    WorkerOptions
    → WarmRoom
    → Operation
    → PreparedOperation
    → CommitOutcome
    → Document
    → Turn
    → Turn
after_commit o s op p (committed a e) d retry =
    committed_turn o (committed_room s op p a.canonical_version) (accepted a) d
after_commit o s op p (duplicate r) d retry = answer r s d
after_commit o s op p (collision version) d retry =
    answer (reject_at op.operation_id version invalid_operation fingerprint_reused) s d
after_commit o s op p (CommitOutcome.fenced version) d retry =
    owner_lost op.operation_id version s d
after_commit o s op p (CommitOutcome.version_conflict version) d retry = retry

-- The rows at the queries of a reload that starts with the store's call of a number
abbrev pub at_head : Others → ℕ → Document → Document
at_head others call d = others call d

abbrev pub at_snapshot : Others → ℕ → Document → Document
at_snapshot others call d = others (call + 1) (at_head others call d)

abbrev pub at_wal : Others → ℕ → Document → Document
at_wal others call d = others (call + 2) (at_snapshot others call d)

abbrev pub reloaded : Others → ℕ → WarmRoom → Document → Result WarmRoom
reloaded others call s d =
    reload s (at_head others call d) (at_snapshot others call d) (at_wal others call d)

unfoldable pub after_reload : Result WarmRoom → WarmRoom → Document → (WarmRoom → Turn) → Turn
after_reload (throws m) s d next = failed m s d
after_reload (ok t) s d next = next t

-- The loop: `left` attempts are left, and the next call of the store has a number.
unfoldable pub attempt :
    WorkerOptions → Others → (now left call : ℕ) → WarmRoom → Document → Operation → Turn
attempt o others now zero call s d op =
    answer (retry_at op.operation_id s.version 50 temporarily_unavailable) s d
attempt o others now (suc left) call s d op = elim (prepare o.pipeline (prepare_input o s op)) [
  | PrepareResult.rejected r ↦ persist_rejection o others now call s d op r
  | PrepareResult.resync r ↦ answer (resync_required r) s d
  | PrepareResult.prepared p ↦ elim (commit now (commit_request o s op p) (others call d)) [
    | throws m ↦ failed m s (others call d)
    | ok (outcome, next) ↦ after_commit o s op p outcome next (
        after_reload (reloaded others (call + 1) s next) s (at_wal others (call + 1) next)
          (λ t. attempt o others now left (call + 4) t (at_wal others (call + 1) next) op))
  ]
]

-- process, of an operation that is an envelope; the answer to a known one comes from its receipt.
unfoldable pub process_operation :
    WorkerOptions → Others → ℕ → WarmRoom → Document → Operation → Turn
process_operation o others now s d op =
    let looked = others 0 d in
    elim (lookup_receipt op.operation_id looked) [
      | some prior ↦
          answer
            (if prior.fingerprint === o.fingerprint op
              then mark_duplicate prior.result
              else reject_at op.operation_id s.version invalid_operation fingerprint_reused)
            s looked
      | none ↦ attempt o others now 2 1 s looked op
    ]

-- operation?.operationId ?? 'unknown', of a text
unfoldable pub claimed_id : Value → Text
claimed_id (object fs) = elim (get fs (text "operationId")) [
  | some (string id) ↦ id
  | _ ↦ text "unknown"
]
claimed_id v = text "unknown"

unfoldable pub process : WorkerOptions → Others → ℕ → WarmRoom → Document → Value → Turn
process o others now s d raw = elim (assert_operation_envelope raw) [
  | throws m ↦ answer (reject_at (claimed_id raw) s.version invalid_operation m) s d
  | ok op ↦ process_operation o others now s d op
]
