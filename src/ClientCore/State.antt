-- ===== src/ClientCore/State.antt =====
-- CollaborationClient of packages/client-core/src/index.ts: its state, what it sends and persists,
-- `flush`, `reproject`, `requestRecovery` and the edits of the pending operations. What the client
-- calls (the socket's `send`, the storage, the promises' `resolve`) is kept as a list of the calls.
-- The listeners and the latency of answers are left out.
use collabhub.Prelude.{
  ℕ, ◌+◌, Text, Bool, true, false, not, ◌&&◌, Option, none, some, List, [], ◌∷◌, ◌++◌, map, leb,
  length, keep, ◌===◌, if◌then◌else◌,
}
use collabhub.Errors.{Message, Result, ok, throws, ◌>>=◌}
use collabhub.Protocol.Messages.{
  Operation, Patch, Accepted, ResyncRequired, OperationResult, accepted, resync_required,
  RejectReason, ClientMessage, submit, recover,
}

-- SocketLike.readyState, of a socket that is not closed
pub data ReadyState : Type 0 where
  opening open_now closing : ReadyState

pub data Connection : Type 0 where
  offline connecting online resyncing : Connection

pub data PendingPersistence : Type 0 where
  disabled loading ready error : PendingPersistence

-- ClientDiagnostics.lastReject
pub data LastReject : Type 0 where
  rejected_operation : (operation_id : Text) (reason : RejectReason) → LastReject
  invalid_message : LastReject
  token_provider_failed : Message → LastReject

-- PersistedPendingOperation
pub record PersistedOperation : Type 0 where
  pub operation : Operation
  pub optimistic_patches : List Patch

-- PendingOperation. The key stands for the object's identity; its resolve function is called by a
-- `Settled`. `promise_failure` is what its promise was rejected with, where `submit` threw behind the push.
pub record PendingOperation : Type 0 where
  pub key : ℕ
  pub operation : Operation
  pub optimistic_patches : List Patch
  pub bytes : ℕ
  pub sent : Bool
  pub accepted_result : Option Accepted
  pub resync_result : Option ResyncRequired
  pub promise_failure : Option Message

-- item.resolve(result), which does nothing to a promise that has been rejected
pub record Settled : Type 0 where
  pub key : ℕ
  pub result : OperationResult
  pub promise_failure : Option Message

pub data Mutation : Type 0 where
  upsert : PersistedOperation → Mutation
  remove_operation_ids : List Text → Mutation

-- A call of persistMutation: what `mutate` is given, and what `save` is given where there is none.
pub record Write : Type 0 where
  pub mutation : Mutation
  pub all_pending : List PersistedOperation

-- CollaborationClientOptions, and the length of an operation's JSON
pub record ClientOptions {ℓ} (S : Type ℓ) : Type ℓ where
  pub tenant_id : Text
  pub document_id : Text
  pub actor_id : Text
  pub client_id : Text
  pub schema_version : Text
  pub apply_patches : S → List Patch → Result S
  pub max_pending_operations : Option ℕ
  pub max_pending_bytes : Option ℕ
  pub has_storage : Bool
  pub json_length : Operation → ℕ

-- The client, with the fields of diagnosticsValue beside its own.
pub record Client {ℓ} (S : Type ℓ) : Type ℓ where
  pub socket : Option ReadyState
  pub canonical : Option S
  pub projected : Option S
  pub pending : List PendingOperation
  pub reconnect_timer : Bool
  pub manually_closed : Bool
  pub network_available : Bool
  pub next_key : ℕ
  pub connection : Connection
  pub pending_count : ℕ
  pub pending_bytes : ℕ
  pub canonical_version : ℕ
  pub last_reject : Option LastReject
  pub resync_count : ℕ
  pub reconnect_count : ℕ
  pub pending_persistence : PendingPersistence
  pub outbox : List ClientMessage
  pub settled : List Settled
  pub writes : List Write

-- new CollaborationClient, whose restorePending waits for the storage if there is one
abbrev pub new_client {ℓ} : {S : Type ℓ} → ClientOptions S → Client S
new_client o = record {
  socket = none;
  canonical = none;
  projected = none;
  pending = [];
  reconnect_timer = false;
  manually_closed = false;
  network_available = true;
  next_key = 0;
  connection = offline;
  pending_count = 0;
  pending_bytes = 0;
  canonical_version = 0;
  last_reject = none;
  resync_count = 0;
  reconnect_count = 0;
  pending_persistence = if o.has_storage then loading else disabled;
  outbox = [];
  settled = [];
  writes = [];
}

abbrev pub is_open : Option ReadyState → Bool
is_open (some open_now) = true
is_open _ = false

abbrev pub is_online : Connection → Bool
is_online online = true
is_online _ = false

abbrev pub is_connecting : Connection → Bool
is_connecting connecting = true
is_connecting _ = false

abbrev pub mark_sent : Bool → PendingOperation → PendingOperation
mark_sent b p = record p { sent = b }

abbrev pub of_operation : Text → PendingOperation → Bool
of_operation id p = p.operation.operation_id === id

abbrev pub persisted : PendingOperation → PersistedOperation
persisted p = record { operation = p.operation; optimistic_patches = p.optimistic_patches }

unfoldable pub total_bytes : List PendingOperation → ℕ
total_bytes [] = 0
total_bytes (p ∷ ps) = p.bytes + total_bytes ps

-- Assignments to the first pending operation of an id, pending.findIndex.
unfoldable pub update_first :
    Text → (PendingOperation → PendingOperation) → List PendingOperation → List PendingOperation
update_first id f [] = []
update_first id f (p ∷ ps) = if of_operation id p then f p ∷ ps else p ∷ update_first id f ps

-- pending.splice(index, 1)
unfoldable pub remove_first : Text → List PendingOperation → List PendingOperation
remove_first id [] = []
remove_first id (p ∷ ps) = if of_operation id p then ps else p ∷ remove_first id ps

-- What a snapshot of a version answers to a pending operation: a result that was waiting for it.
unfoldable pub waiting_result : ℕ → PendingOperation → Option OperationResult
waiting_result version p = elim p.resync_result [
  | some r ↦ some (resync_required r)
  | none ↦ elim p.accepted_result [
    | none ↦ none
    | some a ↦ if leb a.canonical_version version then some (accepted a) else none
  ]
]

unfoldable pub settled_by : ℕ → List PendingOperation → List Settled
settled_by version [] = []
settled_by version (p ∷ ps) = elim (waiting_result version p) [
  | none ↦ settled_by version ps
  | some r ↦
      record { key = p.key; result = r; promise_failure = p.promise_failure }
      ∷ settled_by version ps
]

unfoldable pub ids_settled_by : ℕ → List PendingOperation → List Text
ids_settled_by version [] = []
ids_settled_by version (p ∷ ps) = elim (waiting_result version p) [
  | none ↦ ids_settled_by version ps
  | some r ↦ p.operation.operation_id ∷ ids_settled_by version ps
]

unfoldable pub left_by : ℕ → List PendingOperation → List PendingOperation
left_by version [] = []
left_by version (p ∷ ps) = elim (waiting_result version p) [
  | none ↦ mark_sent false p ∷ left_by version ps
  | some r ↦ left_by version ps
]

module _ {ℓ} {S : Type ℓ} (o : ClientOptions S) where
  unfoldable pub send : ClientMessage → Client S → Client S
  send m c = if is_open c.socket then record c { outbox = c.outbox ++ m ∷ [] } else c

  unfoldable pub persist_mutation : Mutation → Client S → Client S
  persist_mutation m c =
      if o.has_storage
      then record c {
        writes = c.writes ++ record { mutation = m; all_pending = map persisted c.pending } ∷ [];
      }
      else c

  unfoldable pub request_recovery : Client S → Client S
  request_recovery c =
      send (recover o.tenant_id o.document_id c.canonical_version)
        (record c { connection = resyncing; resync_count = c.resync_count + 1 })

  unfoldable pub flush : Client S → Client S
  flush c =
      if is_open c.socket && is_online c.connection
      then record c {
        outbox =
            c.outbox
            ++ map (λ p. submit p.operation)
                (keep (λ (p : PendingOperation). not p.sent) c.pending);
        pending = map (mark_sent true) c.pending;
      }
      else c

  -- The pending operations' optimistic patches on top of the canonical state.
  unfoldable pub project : S → List PendingOperation → Result S
  project s [] = ok s
  project s (p ∷ ps) = do next ← o.apply_patches s p.optimistic_patches; project next ps

-- What a method leaves: the client, and what it throws at the end, if it does.
pub record Run {ℓ} (S : Type ℓ) : Type ℓ where
  pub client : Client S
  pub failure : Option Message

abbrev pub done {ℓ} : {S : Type ℓ} → Client S → Run S
done c = record { client = c; failure = none }

abbrev pub failed {ℓ} : {S : Type ℓ} → Client S → Message → Run S
failed c m = record { client = c; failure = some m }

abbrev pub projected_to {ℓ} : {S : Type ℓ} → Client S → Result S → Run S
projected_to c (throws m) = failed c m
projected_to c (ok s) = done (record c {
  projected = some s;
  pending_count = length c.pending;
  pending_bytes = total_bytes c.pending;
})

unfoldable pub reproject {ℓ} : {S : Type ℓ} → ClientOptions S → Client S → Run S
reproject o c = elim c.canonical [ none ↦ done c | some s ↦ projected_to c (project o s c.pending) ]
