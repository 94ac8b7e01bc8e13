-- ===== src/ClientCore/Handlers.antt =====
-- The handlers of CollaborationClient in packages/client-core/src/index.ts, and its events one by one.
use collabhub.Prelude.{
  ℕ, ◌+◌, Text, text, Bool, true, false, ◌||◌, none, some, List, [], ◌∷◌, ◌++◌, map, ltb, leb, ◌==◌,
  length, find, if◌then◌else◌,
}
use collabhub.Errors.{Message, Result, ok, throws}
use collabhub.Protocol.Messages.{
  Operation, Patch, Accepted, backpressure, OperationResult, accepted, rejected, resync_required,
  retry_later, Snapshot, Canonical, recover, ServerMessage,
}
use collabhub.ServerCore.Pipeline.{default_to}
use collabhub.ClientCore.State.{
  connecting, online, resyncing, rejected_operation, invalid_message, PendingOperation, upsert,
  remove_operation_ids, ClientOptions, Client, is_connecting, mark_sent, of_operation, total_bytes,
  update_first, remove_first, settled_by, ids_settled_by, left_by, send, persist_mutation,
  request_recovery, flush, Run, done, failed, reproject,
}

-- What a caller of `submit` gives: the operation without the fields that the client fills.
abbrev pub filled {ℓ} : {S : Type ℓ} → ClientOptions S → Client S → Operation → Operation
filled o c input = record input {
  tenant_id = o.tenant_id;
  document_id = o.document_id;
  actor_id = o.actor_id;
  client_id = o.client_id;
  base_version = c.canonical_version;
  schema_version = o.schema_version;
}

module _ {ℓ} {S : Type ℓ} (o : ClientOptions S) where
  -- What is done at the end of a method unless it has thrown.
  abbrev pub then_flush : Run S → Run S
  then_flush r = elim r.failure [ some m ↦ r | none ↦ done (flush o r.client) ]

  unfoldable pub persist_settled : List Text → Client S → Client S
  persist_settled [] c = c
  persist_settled (id ∷ ids) c = persist_mutation o (remove_operation_ids (id ∷ ids)) c

  -- The state that a snapshot replaces, and the pending operations that it answers.
  unfoldable pub take_snapshot : Client S → Snapshot S → Client S
  take_snapshot c m = persist_settled (ids_settled_by m.canonical_version c.pending) (record c {
    canonical = some m.snapshot;
    connection = if is_connecting c.connection then connecting else online;
    canonical_version = m.canonical_version;
    pending = left_by m.canonical_version c.pending;
    settled = c.settled ++ settled_by m.canonical_version c.pending;
  })

  unfoldable pub handle_snapshot : Client S → Snapshot S → Run S
  handle_snapshot c m =
      let r = reproject o (take_snapshot c m) in
      if is_connecting c.connection then r else then_flush r

  unfoldable pub handle_ready : Client S → ℕ → Client S
  handle_ready c version = elim c.canonical [
    | none ↦ request_recovery o c
    | some s ↦
        if version == c.canonical_version
        then flush o (record c { connection = online })
        else request_recovery o c
  ]

  abbrev advanced : Client S → S → ℕ → Client S
  advanced c s version = record c { canonical = some s; canonical_version = version }

  -- The patches of a version, applied, and what follows then.
  abbrev apply_then : Client S → Result S → ℕ → (Client S → Run S) → Run S
  apply_then c (throws m) version next = failed c m
  apply_then c (ok s) version next = next (advanced c s version)

  unfoldable pub handle_canonical : Client S → Canonical → Run S
  handle_canonical c e = elim c.canonical [
    | none ↦ done (request_recovery o c)
    | some s ↦
        if ltb (c.canonical_version + 1) e.canonical_version
        then done (request_recovery o c)
        else if leb e.canonical_version c.canonical_version
        then done c
        else apply_then c (o.apply_patches s e.patches) e.canonical_version (reproject o)
  ]

  abbrev settle_item : Client S → Text → OperationResult → PendingOperation → Client S
  settle_item c id result p =
      persist_mutation o (remove_operation_ids (p.operation.operation_id ∷ [])) (record c {
        pending = remove_first id c.pending;
        settled =
            c.settled
            ++ record { key = p.key; result = result; promise_failure = p.promise_failure } ∷ [];
      })

  -- The end of handleResult: the pending operation of the id, if there is one, gets its result.
  unfoldable pub settle : Text → OperationResult → Client S → Client S
  settle id result c = elim (find (of_operation id) c.pending) [
    | none ↦ c
    | some p ↦ settle_item c id result p
  ]

  unfoldable pub handle_accepted : Client S → Accepted → Run S
  handle_accepted c a =
      let keep_result = record c {
        pending =
            update_first a.operation_id (λ p. record p { accepted_result = some a }) c.pending;
      } in
      let finish = λ (next : Client S). reproject o (settle a.operation_id (accepted a) next) in
      elim c.canonical [
        | none ↦ done (request_recovery o keep_result)
        | some s ↦
            if ltb (c.canonical_version + 1) a.canonical_version
            then done (request_recovery o keep_result)
            else if a.canonical_version == c.canonical_version + 1
            then apply_then c (o.apply_patches s a.patches) a.canonical_version finish
            else finish c
      ]

  unfoldable pub handle_result : Client S → OperationResult → Run S
  handle_result c (accepted a) = handle_accepted c a
  handle_result c (rejected r) = reproject o (record (settle r.operation_id (rejected r) c) {
    last_reject = some (rejected_operation r.operation_id r.reason);
  })
  handle_result c (resync_required r) = done (
      send o (recover o.tenant_id o.document_id c.canonical_version) (record c {
        connection = resyncing;
        resync_count = c.resync_count + 1;
        pending = update_first r.operation_id (λ p. record p { resync_result = some r }) c.pending;
      }))
  handle_result c (retry_later r) =
      done (record c { pending = update_first r.operation_id (mark_sent true) c.pending })

  unfoldable pub handle : Client S → ServerMessage S → Run S
  handle c (ServerMessage.snapshot m) = handle_snapshot c m
  handle c (ServerMessage.ready version) = done (handle_ready c version)
  handle c (ServerMessage.canonical e) = handle_canonical c e
  handle c (ServerMessage.presence p) = done c
  handle c (ServerMessage.result r) = handle_result c r

  -- The socket's message listener: what `handle` throws is reported, and what it changed stays.
  unfoldable pub receive : Client S → ServerMessage S → Client S
  receive c message =
      let r = handle c message in
      elim r.failure [
        | none ↦ r.client
        | some m ↦ record (r.client) { last_reject = some invalid_message }
      ]

  -- pendingBytes + bytes and the length, against the limits
  unfoldable pub is_full : Client S → Operation → Bool
  is_full c op =
      leb (default_to 100 o.max_pending_operations) (length c.pending)
      || ltb (default_to 256_000 o.max_pending_bytes) (total_bytes c.pending + o.json_length op)

  abbrev pub new_pending : Client S → Operation → List Patch → PendingOperation
  new_pending c op patches = record {
    key = c.next_key;
    operation = op;
    optimistic_patches = patches;
    bytes = o.json_length op;
    sent = false;
    accepted_result = none;
    resync_result = none;
    promise_failure = none;
  }

  abbrev pub backpressure_result : Client S → Operation → OperationResult
  backpressure_result c op = rejected (record {
    operation_id = op.operation_id;
    canonical_version = c.canonical_version;
    reason = record {
      code = backpressure;
      message = Message.text (text "pending operation limit exceeded");
    };
    corrective_patches = none;
  })

  abbrev pushed : Client S → Operation → List Patch → Client S
  pushed c op patches =
      persist_mutation o (upsert (record { operation = op; optimistic_patches = patches }))
        (record c {
          next_key = c.next_key + 1;
          pending = c.pending ++ new_pending c op patches ∷ [];
        })

  abbrev pub reject_promise : ℕ → Message → PendingOperation → PendingOperation
  reject_promise key m p = if p.key == key then record p { promise_failure = some m } else p

  -- The end of the promise's executor: what `reproject` has thrown rejects the promise, while the operation
  -- stays pending and is not flushed.
  unfoldable pub settle_executor : ℕ → Run S → Run S
  settle_executor key r = elim r.failure [
    | none ↦ done (flush o r.client)
    | some m ↦
        failed (record (r.client) { pending = map (reject_promise key m) (r.client).pending }) m
  ]

  -- submit: the promise of the result is the key of the submission.
  unfoldable pub submit_operation : Client S → Operation → List Patch → Run S
  submit_operation c input patches =
      let op = filled o c input in
      if is_full c op
      then done (record c {
        next_key = c.next_key + 1;
        settled =
            c.settled
            ++ record {
              key = c.next_key;
              result = backpressure_result c op;
              promise_failure = none;
            }
              ∷ [];
      })
      else settle_executor c.next_key (reproject o (pushed c op patches))
