-- ===== src/ClientCore/Settling/Moves.antt =====
-- The moves of pending operations in the client of packages/client-core/src/index.ts: submissions,
-- restored operations, and results that settle one.
use collabhub.Prelude.{
  ℕ, ◌≡◌, refl, ◌==◌, none, Text, not, ◌||◌, some, List, [], ◌∷◌, ◌++◌, any, ◌===◌, find, arith,
  Bool-cases, Option-cases, inl, inr,
}
use collabhub.Errors.{Message}
use collabhub.Protocol.Messages.{Operation, Patch, OperationResult, Snapshot}
use collabhub.ClientCore.State.{
  ready, PersistedOperation, PendingOperation, ClientOptions, Client, of_operation, update_first,
  remove_first, settled_by, request_recovery, Run, reproject,
}
use collabhub.ClientCore.Handlers.{
  persist_settled, take_snapshot, settle, filled, is_full, backpressure_result, new_pending,
  reject_promise, settle_executor, submit_operation,
}
use collabhub.ClientCore.Events.{
  Token, token, no_token, send_hello, restore_entries, restore_pending,
}
use collabhub.ClientCore.Settling.{
  pending_of, settled_of, settled_of-append, pending_of-append, pending_of-update_first,
  pending_of-remove_first, pending_of-left_by, IsAccounted, send-IsAccounted,
  persist_mutation-IsAccounted, reproject-IsAccounted, flush-IsAccounted, marked-IsAccounted,
}

module _ {ℓ} {S : Type ℓ} (o : ClientOptions S) (k : ℕ) where
  abbrev Accounted : Client S → Type 0
  Accounted = IsAccounted k

  pub request_recovery-IsAccounted : (c : Client S) → Accounted c → Accounted (request_recovery o c)
  unfolding request_recovery
  request_recovery-IsAccounted c h = send-IsAccounted o k _ _ h

  pub settle-IsAccounted :
      (id : Text) (r : OperationResult) (c : Client S) → Accounted c → Accounted (settle o id r c)
  unfolding settle settled_of
  settle-IsAccounted id r c h = elim (Option-cases (find (of_operation id) c.pending)) [
    | inl e ↦ rw (e, settle) h
    | inr (p, e) ↦ rw (e, settle) (persist_mutation-IsAccounted o k _ _ (removed p e))
  ]
    where
      removed :
          (p : PendingOperation)
          → find (of_operation id) c.pending ≡ some p
          → Accounted (record c {
            pending = remove_first id c.pending;
            settled =
                c.settled
                ++ record { key = p.key; result = r; promise_failure = p.promise_failure } ∷ [];
          })
      removed p e =
          rw
            (settled_of-append k c.settled
              (record { key = p.key; result = r; promise_failure = p.promise_failure } ∷ []))
            (ground (arith, pending_of-remove_first k id c.pending p e))

  pub updated-IsAccounted :
      (id : Text) (f : PendingOperation → PendingOperation) (c : Client S)
      → ((p : PendingOperation) → (f p).key ≡ p.key)
      → Accounted c
      → Accounted (record c { pending = update_first id f c.pending })
  updated-IsAccounted id f c same h = rw (pending_of-update_first k id f c.pending same) h

  pub persist_settled-IsAccounted :
      (ids : List Text) (c : Client S) → Accounted c → Accounted (persist_settled o ids c)
  unfolding persist_settled
  persist_settled-IsAccounted [] c h = h
  persist_settled-IsAccounted (id ∷ ids) c h = persist_mutation-IsAccounted o k _ c h

  pub take_snapshot-IsAccounted :
      (c : Client S) (m : Snapshot S) → Accounted c → Accounted (take_snapshot o c m)
  unfolding take_snapshot
  take_snapshot-IsAccounted c m h = persist_settled-IsAccounted _ _ (
      rw (settled_of-append k c.settled (settled_by m.canonical_version c.pending))
        (ground (arith, pending_of-left_by k m.canonical_version c.pending)))

  settle_executor-IsAccounted :
      (key : ℕ) (r : Run S) → Accounted r.client → Accounted (settle_executor o key r).client
  unfolding settle_executor
  settle_executor-IsAccounted key r h = elim (Option-cases r.failure) [
    | inl e ↦ rw (e, settle_executor) (flush-IsAccounted o k _ h)
    | inr (m, e) ↦
        rw (e, settle_executor)
          (marked-IsAccounted o k (reject_promise o key m) r.client (same_key m) h)
  ]
    where
      same_key : (m : Message) (p : PendingOperation) → (reject_promise o key m p).key ≡ p.key
      same_key m p = elim (Bool-cases (p.key == key)) [ inl e ↦ rw e refl | inr e ↦ rw e refl ]

  pub submit_operation-IsAccounted :
      (c : Client S) (op : Operation) (ps : List Patch)
      → Accounted c
      → Accounted (submit_operation o c op ps).client
  unfolding submit_operation pending_of settled_of
  submit_operation-IsAccounted c op ps h = elim (Bool-cases (is_full o c (filled o c op))) [
    | inl full ↦
        rw (full, submit_operation)
          (rw
            (settled_of-append k c.settled (
              record {
                key = c.next_key;
                result = backpressure_result o c (filled o c op);
                promise_failure = none;
              }
              ∷ []))
            (ground arith))
    | inr fits ↦
        rw (fits, submit_operation)
          (settle_executor-IsAccounted _ _ (
            reproject-IsAccounted o k _ (
              persist_mutation-IsAccounted o k _ _ (
                rw (pending_of-append k c.pending (new_pending o c (filled o c op) ps ∷ []))
                  (ground arith)))))
  ]

  pub restore_entries-IsAccounted :
      (es : List PersistedOperation) (c : Client S)
      → Accounted c
      → Accounted (restore_entries o es c)
  unfolding restore_entries pending_of
  restore_entries-IsAccounted [] c h = h
  restore_entries-IsAccounted (e ∷ es) c h =
      elim (Bool-cases (
        any (of_operation e.operation.operation_id) c.pending
        || not (e.operation.tenant_id === o.tenant_id)
        || not (e.operation.document_id === o.document_id))) [
          | inl skipped ↦ rw (skipped, restore_entries) (restore_entries-IsAccounted es c h)
          | inr new ↦ rw (new, restore_entries) (restore_entries-IsAccounted es _ (ground arith))
        ]

  pub restore_pending-IsAccounted :
      (es : List PersistedOperation) (c : Client S)
      → Accounted c
      → Accounted (restore_pending o es c)
  unfolding restore_pending
  restore_pending-IsAccounted es c h =
      elim (Option-cases
        (reproject o (record (restore_entries o es c) { pending_persistence = ready })).failure) [
          | inl e ↦ rw (e, restore_pending) kept
          | inr (m, e) ↦ rw (e, restore_pending) kept
        ]
    where
      kept :
          Accounted
            (reproject o (record (restore_entries o es c) { pending_persistence = ready })).client
      kept =
          reproject-IsAccounted o k
            (record (restore_entries o es c) { pending_persistence = ready })
            (restore_entries-IsAccounted es c h)

  pub send_hello-IsAccounted :
      (t : Token) (c : Client S) → Accounted c → Accounted (send_hello o c t)
  unfolding send_hello
  send_hello-IsAccounted (token a) c h = send-IsAccounted o k _ c h
  send_hello-IsAccounted (no_token m) c h = h
