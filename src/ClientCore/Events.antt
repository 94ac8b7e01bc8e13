-- ===== src/ClientCore/Events.antt =====
-- What happens to a CollaborationClient of packages/client-core/src/index.ts, one event at a time: the
-- calls of its methods, the events of its current socket, its timers and its storage's answers.
use collabhub.Prelude.{
  ℕ, ◌+◌, Text, Bool, true, false, not, ◌&&◌, ◌||◌, Option, none, some, List, [], ◌∷◌, map, ◌==◌,
  any, ◌===◌, if◌then◌else◌,
}
use collabhub.Errors.{Message}
use collabhub.Protocol.Json.{Fields}
use collabhub.Protocol.Messages.{Operation, Patch, ClientMessage, hello, ServerMessage}
use collabhub.ClientCore.State.{
  ReadyState, opening, open_now, closing, offline, connecting, ready, error, invalid_message,
  token_provider_failed, PersistedOperation, PendingOperation, ClientOptions, Client, mark_sent,
  of_operation, send, flush, reproject,
}
use collabhub.ClientCore.Handlers.{receive, submit_operation}

-- The promise of the token: a token or none, or a failure
pub data Token : Type 0 where
  token : Option Text → Token
  no_token : Message → Token

module _ {ℓ} {S : Type ℓ} (o : ClientOptions S) where
  -- this.socket && (readyState === 0 || readyState === 1)
  abbrev is_live : Option ReadyState → Bool
  is_live (some opening) = true
  is_live (some open_now) = true
  is_live _ = false

  unfoldable pub connect : Client S → Client S
  connect c =
      let wanted = record c { manually_closed = false } in
      if not c.network_available || is_live c.socket
      then wanted
      else record wanted { connection = connecting }

  unfoldable pub open_socket : Client S → Client S
  open_socket c =
      if c.manually_closed || not c.network_available || is_live c.socket
      then c
      else record c { socket = some opening }

  -- The socket's open event
  unfoldable pub socket_opened : Client S → Client S
  socket_opened c = elim c.socket [ some opening ↦ record c { socket = some open_now } | _ ↦ c ]

  -- socket.close(), whose close event comes later
  abbrev closed_by_client : Option ReadyState → Option ReadyState
  closed_by_client none = none
  closed_by_client (some s) = some closing

  abbrev hello_message : Client S → Option Text → ClientMessage
  hello_message c auth = hello (record {
    tenant_id = o.tenant_id;
    document_id = o.document_id;
    actor_id = o.actor_id;
    client_id = o.client_id;
    last_known_version = c.canonical_version;
    auth_token = auth;
  })

  -- sendHello, once the token's promise is settled
  unfoldable pub send_hello : Client S → Token → Client S
  send_hello c (token auth) = send o (hello_message c auth) c
  send_hello c (no_token m) = record c {
    last_reject = some (token_provider_failed m);
    socket = closed_by_client c.socket;
  }

  -- The close event of the current socket
  unfoldable pub socket_closed : Client S → Client S
  socket_closed c = record c {
    socket = none;
    connection = offline;
    pending = map (mark_sent false) c.pending;
    reconnect_timer = c.reconnect_timer || not c.manually_closed && c.network_available;
  }

  unfoldable pub reconnect : Client S → Client S
  reconnect c =
      if c.reconnect_timer
      then connect (record c { reconnect_timer = false; reconnect_count = c.reconnect_count + 1 })
      else c

  unfoldable pub disconnect : Client S → Client S
  disconnect c = record c {
    manually_closed = true;
    reconnect_timer = false;
    socket = none;
    connection = offline;
  }

  unfoldable pub set_network_available : Bool → Client S → Client S
  set_network_available false c = record c {
    network_available = false;
    reconnect_timer = false;
    socket = closed_by_client c.socket;
  }
  set_network_available true c =
      let counted = record c {
        network_available = true;
        reconnect_count = if c.network_available then c.reconnect_count else c.reconnect_count + 1;
      } in
      if c.manually_closed then counted else connect counted

  abbrev pub unsent_again : ℕ → PendingOperation → PendingOperation
  unsent_again key p = if p.key == key then mark_sent false p else p

  -- The timer of a retryLater for a pending operation
  unfoldable pub retry_due : ℕ → Client S → Client S
  retry_due key c =
      if any (λ (p : PendingOperation). p.key == key) c.pending
      then flush o (record c { pending = map (unsent_again key) c.pending })
      else c

  -- The restored operations of this document that are not pending yet, each put in front.
  unfoldable pub restore_entries : List PersistedOperation → Client S → Client S
  restore_entries [] c = c
  restore_entries (e ∷ es) c =
      if any (of_operation e.operation.operation_id) c.pending
        || not (e.operation.tenant_id === o.tenant_id)
        || not (e.operation.document_id === o.document_id)
      then restore_entries es c
      else restore_entries es (record c {
        next_key = c.next_key + 1;
        pending =
            record {
              key = c.next_key;
              operation = e.operation;
              optimistic_patches = e.optimistic_patches;
              bytes = o.json_length e.operation;
              sent = false;
              accepted_result = none;
              resync_result = none;
              promise_failure = none;
            }
            ∷ c.pending;
      })

  -- restorePending, once the storage has answered
  unfoldable pub restore_pending : List PersistedOperation → Client S → Client S
  restore_pending entries c =
      let r = reproject o (record (restore_entries entries c) { pending_persistence = ready }) in
      elim r.failure [
        | none ↦ r.client
        | some m ↦ record (r.client) { pending_persistence = error }
      ]

  pub data Event : Type ℓ where
    received : ServerMessage S → Event
    presence_sent : Fields → Event
    unreadable : Event
    submitted : Operation → List Patch → Event
    connected opens opened closed disconnected reconnects : Event
    token_arrived : Token → Event
    network : Bool → Event
    retried : ℕ → Event
    restored : List PersistedOperation → Event
    restore_failed : Event
    persistence_answered : Bool → Event

  -- What an event of a socket does, if the client has one: of any other it is not told.
  abbrev pub on_socket : Option ReadyState → Client S → Client S → Client S
  on_socket none c next = c
  on_socket (some s) c next = next

  abbrev presence_message : Fields → ClientMessage
  presence_message content = ClientMessage.presence (record {
    tenant_id = none;
    document_id = o.document_id;
    actor_id = o.actor_id;
    client_id = o.client_id;
    content = content;
  })

  unfoldable pub step : Client S → Event → Client S
  step c (received m) = on_socket c.socket c (receive o c m)
  step c (presence_sent content) = send o (presence_message content) c
  step c unreadable = on_socket c.socket c (record c { last_reject = some invalid_message })
  step c (submitted op patches) = (submit_operation o c op patches).client
  step c connected = connect c
  step c opens = open_socket c
  step c opened = socket_opened c
  step c closed = on_socket c.socket c (socket_closed c)
  step c disconnected = disconnect c
  step c reconnects = reconnect c
  step c (token_arrived t) = on_socket c.socket c (send_hello c t)
  step c (network available) = set_network_available available c
  step c (retried key) = retry_due key c
  step c (restored entries) = restore_pending entries c
  step c restore_failed = record c { pending_persistence = error }
  step c (persistence_answered fine) = record c {
    pending_persistence = if fine then ready else error;
  }

  unfoldable pub run : Client S → List Event → Client S
  run c [] = c
  run c (e ∷ es) = run (step c e) es

  pub on_socket-keeps {κ} :
      (P : Client S → Type κ) (socket : Option ReadyState) (c next : Client S)
      → P c
      → P next
      → P (on_socket socket c next)
  on_socket-keeps P none c next h t = h
  on_socket-keeps P (some s) c next h t = t
