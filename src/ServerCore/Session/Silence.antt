-- ===== src/ServerCore/Session/Silence.antt =====
-- A commit whose snapshot cannot be saved is not told to the listeners.
use collabhub.Prelude.{
  ◌+◌, ◌%◌, Text, ◌≡◌, refl, not, ◌||◌, some, [], lookup, ◌===◌, Bool-cases, Option-cases, inl, inr,
}
use collabhub.Errors.{Message, Result-cases}
use collabhub.Protocol.Json.{Value}
use collabhub.Protocol.Messages.{Operation}
use collabhub.Protocol.Envelope.{assert_operation_envelope}
use collabhub.ServerCore.Pipeline.{PreparedOperation, PrepareResult, prepare, default_to}
use collabhub.ServerCore.Storage.{Storage}
use collabhub.ServerCore.Session.{
  SessionOptions, Session, Faults, Outcome, after_append, committed_session, commit, process_new,
  process_known, process_operation, process, prepare_input,
}

module _ (o : SessionOptions) (faults : Faults) (now : Text) (s : Session) (storage : Storage)
    (m : Message) (broken : faults.save ≡ some m)
    (due : (s.version + 1) % default_to 25 o.snapshot_interval ≡ 0) where
  abbrev IsSilent : Outcome → Type 0
  IsSilent out = out.events ≡ []

  commit-IsSilent :
      (op : Operation) (p : PreparedOperation) → IsSilent (commit o faults now s storage op p)
  unfolding commit after_append committed_session
  commit-IsSilent op p = elim (Option-cases faults.append) [
    | inr (e, failed) ↦ rw (failed, commit)
    | inl fine ↦ rw (fine, commit, due, broken)
  ]

  process_new-IsSilent : (op : Operation) → IsSilent (process_new o faults now s storage op)
  unfolding process_new
  process_new-IsSilent op = go (prepare o.pipeline (prepare_input o s op)) refl
    where
      go :
          (r : PrepareResult)
          → prepare o.pipeline (prepare_input o s op) ≡ r
          → IsSilent (process_new o faults now s storage op)
      go (PrepareResult.prepared p) e = rw (e, process_new) (commit-IsSilent op p)
      go (PrepareResult.rejected r) e = rw (e, process_new)
      go (PrepareResult.resync r) e = rw (e, process_new)

  process_operation-IsSilent :
      (op : Operation) → IsSilent (process_operation o faults now s storage op)
  unfolding process_operation process_known
  process_operation-IsSilent op =
      elim (Bool-cases
        (not (op.tenant_id === o.tenant_id) || not (op.document_id === o.document_id))) [
          | inl other ↦ rw (other, process_operation)
          | inr same ↦ elim (Option-cases (lookup s.results op.operation_id)) [
            | inr (prior, e) ↦ rw (same, e, process_operation, process_known)
            | inl new ↦ rw (same, new, process_operation, process_known) (process_new-IsSilent op)
          ]
        ]

  -- Where a snapshot is due at the next version and the storage cannot save it, no submission
  -- reaches the listeners, also none that is committed and answered as accepted.
  pub process_silent : (raw : Value) → (process o faults now s storage raw).events ≡ []
  unfolding process
  process_silent raw = elim (Result-cases (assert_operation_envelope raw)) [
    | inr (e, bad) ↦ rw (bad, process)
    | inl (op, e) ↦ rw (e, process) (process_operation-IsSilent op)
  ]
