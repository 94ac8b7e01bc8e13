-- ===== src/ClientCore/Convergence.antt =====
-- The methods of CollaborationClient in packages/client-core/src/index.ts that get nothing from the
-- server keep the canonical copy as it is.
pub mod Histories
use collabhub.Prelude.{
  ℕ, ◌+◌, ◌≡◌, refl, sym, subst, Bool, true, false, not, ◌&&◌, ◌||◌, Option, none, some, List, [],
  ◌∷◌, ltb, leb, ◌==◌, any, ◌===◌, find, map, arith, if◌then◌else◌, Bool-cases, Option-cases, inl,
  inr, Text, All,
}
use collabhub.Errors.{Message, Result, ok, throws, Result-cases}
use collabhub.Protocol.Messages.{
  Operation, Patch, Accepted, OperationResult, accepted, rejected, resync_required, retry_later,
  Snapshot, Canonical, ClientMessage, ServerMessage,
}
use collabhub.ClientCore.State.{
  ready, Mutation, remove_operation_ids, PersistedOperation, PendingOperation, ClientOptions,
  Client, is_open, is_connecting, of_operation, send, persist_mutation, request_recovery, flush,
  project, Run, done, failed, reproject, projected_to,
}
use collabhub.ClientCore.Handlers.{
  persist_settled, take_snapshot, handle_snapshot, handle_ready, handle_canonical, settle,
  handle_accepted, handle_result, handle, receive, filled, then_flush, settle_executor,
  submit_operation, is_full,
}
use collabhub.ClientCore.Events.{
  Event, received, unreadable, submitted, connected, opens, opened, closed, disconnected,
  reconnects, token_arrived, network, retried, restored, restore_failed, persistence_answered,
  Token, token, no_token, connect, open_socket, socket_opened, send_hello, socket_closed, reconnect,
  disconnect, set_network_available, retry_due, restore_entries, restore_pending, step, run,
}

module _ {S : Type 0} (o : ClientOptions S) (server : ℕ → S) where
  -- The copy that a client holds, where it holds one, is the server's state of its version.
  abbrev pub IsCopy : Option S → ℕ → Type 0
  IsCopy none version = Unit
  IsCopy (some s) version = s ≡ server version

  abbrev pub IsSynced : Client S → Type 0
  IsSynced c = IsCopy c.canonical c.canonical_version

  pub send-IsSynced : (m : ClientMessage) (c : Client S) → IsSynced c → IsSynced (send o m c)
  unfolding send
  send-IsSynced m c h = ground arith

  pub persist_mutation-IsSynced :
      (m : Mutation) (c : Client S) → IsSynced c → IsSynced (persist_mutation o m c)
  unfolding persist_mutation
  persist_mutation-IsSynced m c h = ground arith

  pub flush-IsSynced : (c : Client S) → IsSynced c → IsSynced (flush o c)
  unfolding flush
  flush-IsSynced c h = ground arith

  pub reproject-IsSynced : (c : Client S) → IsSynced c → IsSynced (reproject o c).client
  unfolding reproject
  reproject-IsSynced c h = elim (Option-cases c.canonical) [
    | inl e ↦ rw (e, reproject) h
    | inr (s, e) ↦ elim (Result-cases (project o s c.pending)) [
      | inl (p, f) ↦ rw (e, f, reproject) h
      | inr (m, f) ↦ rw (e, f, reproject) h
    ]
  ]

  pub request_recovery-IsSynced : (c : Client S) → IsSynced c → IsSynced (request_recovery o c)
  unfolding request_recovery
  request_recovery-IsSynced c h = send-IsSynced _ _ h

  pub connect-IsSynced : (c : Client S) → IsSynced c → IsSynced (connect o c)
  unfolding connect
  connect-IsSynced c h = ground arith

  pub open_socket-IsSynced : (c : Client S) → IsSynced c → IsSynced (open_socket o c)
  unfolding open_socket
  open_socket-IsSynced c h = ground arith

  pub reconnect-IsSynced : (c : Client S) → IsSynced c → IsSynced (reconnect o c)
  unfolding reconnect
  reconnect-IsSynced c h = elim (Bool-cases c.reconnect_timer) [
    | inl e ↦ rw (e, reconnect) (connect-IsSynced _ h)
    | inr e ↦ rw (e, reconnect) h
  ]

  pub network-IsSynced :
      (b : Bool) (c : Client S) → IsSynced c → IsSynced (set_network_available o b c)
  unfolding set_network_available
  network-IsSynced false c h = h
  network-IsSynced true c h = elim (Bool-cases c.manually_closed) [
    | inl e ↦ rw (e, set_network_available) h
    | inr e ↦ rw (e, set_network_available) (connect-IsSynced _ h)
  ]

  pub retry_due-IsSynced : (key : ℕ) (c : Client S) → IsSynced c → IsSynced (retry_due o key c)
  unfolding retry_due
  retry_due-IsSynced key c h =
      elim (Bool-cases (any (λ (p : PendingOperation). p.key == key) c.pending)) [
        | inl e ↦ rw (e, retry_due) (flush-IsSynced _ h)
        | inr e ↦ rw (e, retry_due) h
      ]

  pub restore_entries-IsSynced :
      (es : List PersistedOperation) (c : Client S) → IsSynced c → IsSynced (restore_entries o es c)
  unfolding restore_entries
  restore_entries-IsSynced [] c h = h
  restore_entries-IsSynced (e ∷ es) c h =
      elim (Bool-cases (
        any (of_operation e.operation.operation_id) c.pending
        || not (e.operation.tenant_id === o.tenant_id)
        || not (e.operation.document_id === o.document_id))) [
          | inl skipped ↦ rw (skipped, restore_entries) (restore_entries-IsSynced es c h)
          | inr new ↦ rw (new, restore_entries) (restore_entries-IsSynced es _ h)
        ]

  pub restore_pending-IsSynced :
      (es : List PersistedOperation) (c : Client S) → IsSynced c → IsSynced (restore_pending o es c)
  unfolding restore_pending
  restore_pending-IsSynced es c h =
      elim (Option-cases
        (reproject o (record (restore_entries o es c) { pending_persistence = ready })).failure) [
          | inl e ↦ rw (e, restore_pending) (reproject-IsSynced _ (restore_entries-IsSynced es c h))
          | inr (m, e) ↦
              rw (e, restore_pending) (reproject-IsSynced _ (restore_entries-IsSynced es c h))
        ]

  pub send_hello-IsSynced : (t : Token) (c : Client S) → IsSynced c → IsSynced (send_hello o c t)
  unfolding send_hello
  send_hello-IsSynced (token a) c h = send-IsSynced _ c h
  send_hello-IsSynced (no_token m) c h = h

  pub socket_opened-IsSynced : (c : Client S) → IsSynced c → IsSynced (socket_opened o c)
  unfolding socket_opened
  socket_opened-IsSynced c h = ground arith

  pub settle-IsSynced :
      (id : Text) (r : OperationResult) (c : Client S) → IsSynced c → IsSynced (settle o id r c)
  unfolding settle
  settle-IsSynced id r c h = elim (Option-cases (find (of_operation id) c.pending)) [
    | inl e ↦ rw (e, settle) h
    | inr (p, e) ↦ rw (e, settle) (persist_mutation-IsSynced _ _ h)
  ]

  pub then_flush-IsSynced : (r : Run S) → IsSynced r.client → IsSynced (then_flush o r).client
  then_flush-IsSynced r h = elim (Option-cases r.failure) [
    | inl e ↦ rw e (flush-IsSynced _ h)
    | inr (m, e) ↦ rw e h
  ]

  settle_executor-IsSynced :
      (key : ℕ) (r : Run S) → IsSynced r.client → IsSynced (settle_executor o key r).client
  unfolding settle_executor
  settle_executor-IsSynced key r h = elim (Option-cases r.failure) [
    | inl e ↦ rw (e, settle_executor) (flush-IsSynced _ h)
    | inr (m, e) ↦ rw (e, settle_executor) h
  ]

  pub submit_operation-IsSynced :
      (c : Client S) (op : Operation) (ps : List Patch)
      → IsSynced c
      → IsSynced (submit_operation o c op ps).client
  unfolding submit_operation
  submit_operation-IsSynced c op ps h = elim (Bool-cases (is_full o c (filled o c op))) [
    | inl full ↦ rw (full, submit_operation) h
    | inr fits ↦
        rw (fits, submit_operation)
          (settle_executor-IsSynced _ _ (reproject-IsSynced _ (persist_mutation-IsSynced _ _ h)))
  ]
