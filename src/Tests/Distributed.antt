-- ===== src/Tests/Distributed.antt =====
-- Tests and instances for the distributed server: a room of one snapshot, which "w1" owns with epoch 1.
use collabhub.Prelude.{
  text, ◌≡◌, refl, true, none, some, List, [], ◌∷◌, lookup, insert, any, find, keep, sort_by, ◌===◌,
  arith,
}
use collabhub.Errors.{Message, ok, ◌>>=◌, Ensures}
use collabhub.Protocol.Json.{string, object, put, get}
use collabhub.Protocol.Messages.{OperationResult, rejected, set, invalid_operation}
use collabhub.DomainJson.Patches.{apply_canonical_patches}
use collabhub.Distributed.Rows.{
  RoomIdentity, Document, Owner, CommitRequest, committed, duplicate, insert_wal,
}
use collabhub.Protocol.Complexity.{assert_json_complexity}
use collabhub.Protocol.Envelope.{
  assert_operation_envelope, read_envelope, short_string, safe_version, own_payload, json_payload,
}
use collabhub.Strategy.{resolve_strategy}
use collabhub.DomainJson.Pointer.{
  pointer_segments, is_safe_property_name, is_unsafe_name, split, unescape, replace_all,
  set_segments, set_pointer,
}
use collabhub.DomainJson.Strategies.{resolve_property}
use collabhub.ServerCore.Pipeline.{
  prepare, prepare_body, prepare_current, prepare_resolved, prepare_accepted, run_hooks,
  resolve_context, check_invariants,
}
use collabhub.Distributed.Store.{
  load_room, loaded_state, apply_wal, wal_after, lookup_receipt, record_receipt, commit,
  write_commit, snapshot, accepted_result, committed_event,
}
use collabhub.Distributed.Store.Restoring.{
  restore, IsWellFormed, IsCommit, commit-IsCommit, written,
}
use collabhub.Distributed.Store.Skew.{snapshot_of, snapshot_skew}
use collabhub.Distributed.Database.Transactions.{
  Transaction, claiming, recording, committing, transact, transact_all, rows_after, view, Advance,
}
use collabhub.Distributed.Database.Steps.{transact-Steps}
use collabhub.Distributed.Database.Fencing.{commit-fenced}
use collabhub.Distributed.Database.Receipts.{commit-once}
use collabhub.Distributed.Worker.{
  WorkerOptions, WarmRoom, Others, process, process_operation, attempt, after_commit,
}
use collabhub.Distributed.Worker.Activation.{do_activate}
use collabhub.Distributed.Worker.Coherence.{IsCoherent}
use collabhub.Distributed.Worker.Turns.{IsOthers, process-IsCoherent}
use collabhub.Distributed.Worker.Receipts.{IsBacked, process_operation-IsBacked}
use collabhub.Distributed.Worker.Warming.{do_activate-IsCoherent, owner_of}
use collabhub.Tests.Data.{document, pack, set_title, set_title_operation}

abbrev pub room : RoomIdentity
room = record { tenant_id = text "t"; document_id = text "d" }

abbrev w1 : Owner
w1 = record { epoch = 1; instance_id = text "w1" }

abbrev pub rows : Document
rows = record {
  head = record {
    canonical_version = 0;
    owner_epoch = 1;
    owner_instance_id = some (text "w1");
    schema_version = text "1.0";
    snapshot_version = 0;
  };
  snapshots = record { version = 0; schema_version = text "1.0"; state = document } ∷ [];
  wal = [];
  receipts = [];
  schema_history = [];
}

rows-IsWellFormed : IsWellFormed rows
unfolding find
rows-IsWellFormed = record {
  base = 0;
  reaches = omega arith;
  below = omega arith;
  run = refl;
  row = record { version = 0; schema_version = text "1.0"; state = document };
  pointed = refl;
}

abbrev pub request : CommitRequest
request = record {
  owner = w1;
  resolved_at_version = 0;
  operation = set_title_operation;
  patches = set (text "/title") (string (text "new")) ∷ [];
  fingerprint = text "f1";
}

pub request_committed :
    commit 7 request rows
    ≡ ok (committed (accepted_result 1 request) (committed_event 1 request), written 7 request rows)
unfolding commit write_commit insert_wal lookup any text ◌===◌
request_committed = refl

commit-IsCommit_example : Ensures (IsCommit 7 rows request) (commit 7 request rows)
commit-IsCommit_example = commit-IsCommit 7 request rows rows-IsWellFormed

snapshot_skew_example : snapshot room rows rows (written 7 request rows) ≡ (
    restore rows >>= λ s.
    apply_canonical_patches s request.patches >>= λ t. ok (snapshot_of room rows t))
snapshot_skew_example = snapshot_skew room rows rows-IsWellFormed 7 request

transact-Steps_example :
    IsWellFormed (transact rows (committing 7 request))
    × Advance (view rows) (view (transact rows (committing 7 request)))
transact-Steps_example = transact-Steps rows (committing 7 request) rows-IsWellFormed tt

-- "w2" takes the room over.
abbrev taken : Document
taken = record rows {
  head = record (rows.head) { owner_epoch = 2; owner_instance_id = some (text "w2") };
}

taken-IsWellFormed : IsWellFormed taken
unfolding find
taken-IsWellFormed = record {
  base = 0;
  reaches = omega arith;
  below = omega arith;
  run = refl;
  row = record { version = 0; schema_version = text "1.0"; state = document };
  pointed = refl;
}

commit-fenced_example :
    rows_after
      (transact_all taken (claiming (text "w3") ∷ []))
      (commit 7 request (transact_all taken (claiming (text "w3") ∷ [])))
    ≡ transact_all taken (claiming (text "w3") ∷ [])
commit-fenced_example =
    commit-fenced taken (claiming (text "w3") ∷ []) 7 request taken-IsWellFormed (tt, tt)
      (omega arith)

commit-once_example :
    commit 9 request (transact_all (written 7 request rows) (claiming (text "w2") ∷ []))
    ≡ ok (
      duplicate
          (OperationResult.accepted (record (accepted_result 1 request) { duplicate = true })),
      transact_all (written 7 request rows) (claiming (text "w2") ∷ []),
    )
commit-once_example =
    commit-once rows (written 7 request rows) 7 9 request request (accepted_result 1 request)
      (committed_event 1 request) (claiming (text "w2") ∷ []) rows-IsWellFormed request_committed
      (tt, tt) refl refl

abbrev options : WorkerOptions
options = record {
  room = room;
  instance_id = text "w1";
  pipeline = record { domain_pack = pack; max_recovery_gap = none; hooks = [] };
  snapshot_interval = none;
  max_mailbox = none;
  fingerprint = λ op. op.operation_id;
}

abbrev warm : WarmRoom
warm = record {
  owner = w1;
  schema_version = text "1.0";
  version = 0;
  state = document;
  recent_operations = [];
  queued = 1;
  last_access_at = 0;
}

rows_restored : restore rows ≡ ok document
unfolding load_room loaded_state apply_wal wal_after sort_by keep find
rows_restored = refl

warm-IsCoherent : IsCoherent warm rows
warm-IsCoherent = record {
  in_order = rows-IsWellFormed;
  version = omega arith;
  epoch = omega arith;
  same = λ e v. rows_restored;
}

-- Another worker tries to record an answer before each call.
abbrev attempts_of_w2 : List Transaction
attempts_of_w2 =
    recording 8 (record { epoch = 9; instance_id = text "w2" }) (text "f2")
      (rejected (record {
        operation_id = text "op-2";
        canonical_version = 0;
        reason = record { code = invalid_operation; message = Message.not_an_object };
        corrective_patches = none;
      }))
    ∷ []

abbrev others : Others
others call d = transact_all d attempts_of_w2

others-IsOthers : (owner : Owner) → IsOthers owner others
others-IsOthers owner call d w = (attempts_of_w2, refl, (tt, tt), (tt, tt), λ reading. (tt, tt))

process-IsCoherent_example :
    IsCoherent
      (process options others 8 warm rows (object set_title)).session
      (process options others 8 warm rows (object set_title)).rows
process-IsCoherent_example =
    process-IsCoherent options others 8 warm rows (object set_title) (others-IsOthers w1)
      warm-IsCoherent

-- The turn is a commit all the same.
set_title_accepted :
    (process options others 8 warm rows (object set_title)).result
    ≡ ok (OperationResult.accepted (accepted_result 1 request))
unfolding process assert_operation_envelope read_envelope short_string safe_version own_payload
    json_payload assert_json_complexity get text ◌===◌ process_operation prepare prepare_body
    prepare_current prepare_resolved prepare_accepted run_hooks resolve_context resolve_strategy
    resolve_property pointer_segments is_safe_property_name is_unsafe_name split unescape
    replace_all apply_canonical_patches set_pointer set_segments put check_invariants attempt
    after_commit commit write_commit insert_wal lookup lookup_receipt insert any transact_all
    transact record_receipt
set_title_accepted = refl

set_title_answered :
    (process_operation options others 8 warm rows set_title_operation).result
    ≡ ok (OperationResult.accepted (accepted_result 1 request))
unfolding get text ◌===◌ process_operation prepare prepare_body prepare_current prepare_resolved
    prepare_accepted run_hooks resolve_context resolve_strategy resolve_property pointer_segments
    is_safe_property_name is_unsafe_name split unescape replace_all apply_canonical_patches
    set_pointer set_segments put check_invariants attempt after_commit commit write_commit
    insert_wal lookup lookup_receipt insert any transact_all transact record_receipt
set_title_answered = refl

process_operation-IsBacked_example :
    IsBacked options set_title_operation
      (accepted_result 1 request)
      (process_operation options others 8 warm rows set_title_operation).rows
process_operation-IsBacked_example =
    process_operation-IsBacked options others 8 set_title_operation warm rows
      (accepted_result 1 request) set_title_answered

no_document : (d : Document) → none ≡ some d → IsWellFormed d
no_document d e = absurd (clash e)
  where
    clash : none ≡ some d → ⊥
    clash h = cc

do_activate-IsCoherent_example :
    Ensures
      (λ s. IsCoherent s (do_activate options others 8 none).rows)
      (do_activate options others 8 none).session
do_activate-IsCoherent_example =
    do_activate-IsCoherent options others 8 none no_document
      (others-IsOthers (owner_of options others none))
