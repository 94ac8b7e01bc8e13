-- ===== src/Tests/Client.antt =====
-- Tests and instances for the client, over a counter that each patch moves by one.
use collabhub.Prelude.{
  ℕ, ◌+◌, text, ◌≡◌, refl, false, some, true, none, List, [], ◌∷◌, length, find, ◌===◌,
}
use collabhub.Errors.{Result, ok, throws, unsafe_collection}
use collabhub.Protocol.Json.{null}
use collabhub.Protocol.Messages.{Patch, set, accepted, ServerMessage}
use collabhub.ClientCore.State.{
  ClientOptions, Client, new_client, send, flush, project, reproject, persist_mutation,
  request_recovery, total_bytes, update_first, remove_first, waiting_result, settled_by,
  ids_settled_by, left_by,
}
use collabhub.ClientCore.Handlers.{
  persist_settled, take_snapshot, handle_snapshot, handle_ready, handle_canonical, settle,
  handle_accepted, handle_result, handle, receive, is_full, settle_executor, submit_operation,
}
use collabhub.ClientCore.Events.{
  Event, received, submitted, connected, opens, opened, token_arrived, token, connect, open_socket,
  socket_opened, send_hello, step, run,
}
use collabhub.ClientCore.Convergence.{IsSynced}
use collabhub.ClientCore.Convergence.Histories.{run-IsSynced}
use collabhub.ClientCore.Settling.{pending_of, settled_of}
use collabhub.ClientCore.Settling.Promises.{rejected_of, submit_operation-thrown}
use collabhub.ClientCore.Projection.{IsProjected, handle-IsProjected}
use collabhub.Tests.Data.{set_title_operation}

abbrev count_patches : ℕ → List Patch → Result ℕ
count_patches n ps = ok (n + length ps)

abbrev counter : ClientOptions ℕ
counter = record {
  tenant_id = text "t";
  document_id = text "d";
  actor_id = text "alice";
  client_id = text "c1";
  schema_version = text "1.0";
  apply_patches = count_patches;
  max_pending_operations = none;
  max_pending_bytes = none;
  has_storage = true;
  json_length = λ op. 10;
}

abbrev one_patch : List Patch
one_patch = set (text "/title") null ∷ []

abbrev counted : ℕ → ℕ
counted version = version

abbrev one_patch_log : ℕ → List Patch
one_patch_log version = one_patch

abbrev snapshot_at : ℕ → ServerMessage ℕ
snapshot_at version = ServerMessage.snapshot (record {
  tenant_id = text "t";
  document_id = text "d";
  canonical_version = version;
  schema_version = text "1.0";
  snapshot = version;
  snapshot_ref = record { tenant_id = text "t"; document_id = text "d"; version = version };
})

abbrev canonical_at : ℕ → ServerMessage ℕ
canonical_at version = ServerMessage.canonical (record {
  operation_id = text "other";
  actor_id = text "bob";
  canonical_version = version;
  patches = one_patch;
})

abbrev accepted_event_at : ℕ → ServerMessage ℕ
accepted_event_at version = ServerMessage.result (
    accepted (record {
      operation_id = text "op-1";
      canonical_version = version;
      patches = one_patch;
      duplicate = false;
    }))

-- The client connects, submits, sees an event, misses one, recovers and gets its answer late.
abbrev history : List (Event counter)
history =
    connected
    ∷ opens
    ∷ opened
    ∷ token_arrived (token none)
    ∷ received (snapshot_at 2)
    ∷ received (ServerMessage.ready 2)
    ∷ submitted set_title_operation one_patch
    ∷ received (canonical_at 3)
    ∷ received (accepted_event_at 5)
    ∷ received (snapshot_at 5)
    ∷ received (canonical_at 4)
    ∷ []

abbrev after_history : Client ℕ
after_history = run counter (new_client counter) history

history-canonical_version : after_history.canonical_version ≡ 5
unfolding run step connect open_socket socket_opened send_hello send receive handle handle_snapshot
    take_snapshot persist_settled handle_ready flush reproject project submit_operation is_full
    persist_mutation handle_canonical handle_result handle_accepted settle request_recovery
    total_bytes update_first remove_first waiting_result settled_by ids_settled_by left_by find
    settle_executor ◌===◌ text
history-canonical_version = refl

run-IsSynced_example : IsSynced counter counted after_history
run-IsSynced_example =
    run-IsSynced counter counted one_patch_log (λ version. refl) (new_client counter) history
      (tt, (tt, (tt, (tt, (refl, (tt, (tt, (refl, (refl, (refl, (refl, tt))))))))))) tt

-- A copy of version 5 and a pending operation of one patch
abbrev ahead : Client ℕ
ahead = record (new_client counter) {
  canonical = some 5;
  projected = some 6;
  canonical_version = 5;
  pending =
      record {
        key = 0;
        operation = set_title_operation;
        optimistic_patches = one_patch;
        bytes = 10;
        sent = true;
        accepted_result = none;
        resync_result = none;
        promise_failure = none;
      }
      ∷ [];
}

handle-IsProjected_example : IsProjected counter (handle counter ahead (canonical_at 6)).client
unfolding handle handle_canonical reproject project
handle-IsProjected_example = handle-IsProjected counter ahead (canonical_at 6) (6, refl, refl) refl

-- A client whose copy takes no patches
abbrev stuck : ClientOptions ℕ
stuck = record counter { apply_patches = λ n ps. throws unsafe_collection }

abbrev with_copy : Client ℕ
with_copy = record (new_client stuck) { canonical = some 5 }

submit_operation-thrown_example :
    (rejected_of 0 (submit_operation stuck with_copy set_title_operation one_patch).client.pending
      ≡ 1)
    × ((submit_operation stuck with_copy set_title_operation one_patch).client.outbox ≡ [])
unfolding submit_operation settle_executor is_full total_bytes persist_mutation reproject project
    pending_of settled_of
submit_operation-thrown_example =
    submit_operation-thrown stuck with_copy set_title_operation one_patch unsafe_collection refl
      refl
