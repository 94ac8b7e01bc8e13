-- ===== src/ServerCore/Session/Retries.antt =====
-- An operation that was accepted is answered again, and not applied again, when it comes back.
use collabhub.Prelude.{
  ◌+◌, Text, ◌≡◌, refl, sym, ap, ◌∙◌, Bool, true, false, not, ◌||◌, some, arith, lookup,
  lookup-insert, ===-refl, ◌===◌, Bool-cases, Option-cases, inl, inr,
}
use collabhub.Errors.{ok, Result-cases}
use collabhub.Protocol.Json.{Value}
use collabhub.Protocol.Messages.{Canonical, Operation, Accepted, OperationResult, accepted}
use collabhub.Protocol.Envelope.{assert_operation_envelope}
use collabhub.ServerCore.Pipeline.{PreparedOperation, PrepareResult, prepare}
use collabhub.ServerCore.Storage.{Storage}
use collabhub.ServerCore.Session.{
  SessionOptions, Session, Faults, Outcome, quiet, after_append, committed_session, accepted_at,
  commit, process_new, process_known, process_operation, process, prepare_input, mark_duplicate,
  load,
}
use collabhub.ServerCore.Session.Recovery.{IsStored, only_accepted, load-IsStored}
use collabhub.ServerCore.Session.History.{process-IsStored}

abbrev pub as_duplicate : Accepted → OperationResult
as_duplicate a = accepted (record a { duplicate = true })

module _ (o : SessionOptions) where
  abbrev elsewhere : Operation → Bool
  elsewhere op = not (op.tenant_id === o.tenant_id) || not (op.document_id === o.document_id)

  -- The session remembers an accepted answer to the value, which reads as the given one again.
  record Remembers (raw : Value) (a : Accepted) (s : Session) : Type 0 where
    operation : Operation
    parsed : assert_operation_envelope raw ≡ ok operation
    here : elsewhere operation ≡ false
    prior : Accepted
    recorded : lookup s.results operation.operation_id ≡ some (accepted prior)
    again : as_duplicate prior ≡ as_duplicate a

  process-Remembers :
      (faults : Faults) (now : Text) (s : Session) (storage : Storage) (raw : Value) (a : Accepted)
      → Remembers raw a s
      → process o faults now s storage raw ≡ quiet (as_duplicate a) s storage
  unfolding process process_known mark_duplicate
  process-Remembers faults now s storage raw a m =
      rw (m.parsed, process, m.here)
        (rw (m.recorded, process_known) (ap (λ r. quiet r s storage) m.again))

  module _ (faults : Faults) (now : Text) (s : Session) (storage : Storage) (raw : Value)
      (op : Operation) (parsed : assert_operation_envelope raw ≡ ok op)
      (here : elsewhere op ≡ false) where
    abbrev Answers : Outcome → Type 0
    Answers out = (a : Accepted) → out.result ≡ accepted a → Remembers raw a out.session

    after_append_keeps :
        (result : OperationResult) (event : Canonical) (t : Session) (after : Storage)
        → ((after_append o faults result event t after).result ≡ result)
          × ((after_append o faults result event t after).session ≡ t)
    unfolding after_append
    after_append_keeps result event t after = ground arith

    commit-Answers :
        (p : PreparedOperation)
        → prepare o.pipeline (prepare_input o s op) ≡ PrepareResult.prepared p
        → Answers (commit o faults now s storage op p)
    unfolding commit committed_session mark_duplicate
    commit-Answers p e a = elim (Option-cases faults.append) [
      | inr (m, failed) ↦ rw (failed, commit) (λ h. cc)
      | inl fine ↦ rw (fine, commit) (λ h. committed _ _ (after_append_keeps _ _ _ _) h)
    ]
      where
        new_result : OperationResult
        new_result = accepted_at op (s.version + 1) p.patches

        committed :
            (r : OperationResult) (t : Session)
            → (r ≡ new_result) × (t ≡ committed_session s op p)
            → r ≡ accepted a
            → Remembers raw a t
        committed r t (er, es) h = record {
          operation = op;
          parsed = parsed;
          here = here;
          prior = record {
            operation_id = op.operation_id;
            canonical_version = s.version + 1;
            patches = p.patches;
            duplicate = false;
          };
          recorded = rw es (rw (lookup-insert, ===-refl op.operation_id));
          again = ap mark_duplicate (sym er ∙ h);
        }

    process_new-Answers : Answers (process_new o faults now s storage op)
    unfolding process_new
    process_new-Answers = go (prepare o.pipeline (prepare_input o s op)) refl
      where
        go :
            (r : PrepareResult)
            → prepare o.pipeline (prepare_input o s op) ≡ r
            → Answers (process_new o faults now s storage op)
        go (PrepareResult.prepared p) e = rw (e, process_new) (commit-Answers p e)
        go (PrepareResult.rejected r) e = rw (e, process_new) (λ a h. cc)
        go (PrepareResult.resync r) e = rw (e, process_new) (λ a h. cc)

    prior-Remembers :
        (prior : OperationResult) (a : Accepted)
        → lookup s.results op.operation_id ≡ some prior
        → mark_duplicate prior ≡ accepted a
        → Remembers raw a s
    unfolding mark_duplicate
    prior-Remembers (accepted b) a e h = record {
      operation = op;
      parsed = parsed;
      here = here;
      prior = b;
      recorded = e;
      again = ground arith;
    }
    prior-Remembers r a e h = cc

    process_known-Answers : Answers (process_known o faults now s storage op)
    unfolding process_known
    process_known-Answers = elim (Option-cases (lookup s.results op.operation_id)) [
      | inr (prior, e) ↦ rw (e, process_known) (λ a h. prior-Remembers prior a e h)
      | inl new ↦ rw (new, process_known) process_new-Answers
    ]

    process_operation-Answers : Answers (process_operation o faults now s storage op)
    unfolding process_operation
    process_operation-Answers = rw here process_known-Answers

  process-answers :
      (faults : Faults) (now : Text) (s : Session) (storage : Storage) (raw : Value) (a : Accepted)
      → (process o faults now s storage raw).result ≡ accepted a
      → Remembers raw a (process o faults now s storage raw).session
  unfolding process
  process-answers faults now s storage raw a = elim (Result-cases (assert_operation_envelope raw)) [
    | inr (m, e) ↦ rw (e, process) (λ h. cc)
    | inl (op, e) ↦ elim (Bool-cases (elsewhere op)) [
      | inr here ↦ rw (e, process) (process_operation-Answers faults now s storage raw op e here a)
      | inl other ↦ rw (e, process, other) (λ h. cc)
    ]
  ]

  -- What is accepted and then submitted again, at once, is answered with the same version and
  -- patches, marked as a duplicate; the session, the storage and the listeners see nothing of it.
  pub process-process :
      (faults later : Faults) (now afterwards : Text) (s : Session) (storage : Storage)
      (raw : Value) (a : Accepted)
      → (process o faults now s storage raw).result ≡ accepted a
      → let out = process o faults now s storage raw in
        process o later afterwards out.session out.storage raw
        ≡ quiet (as_duplicate a) out.session out.storage
  process-process faults later now afterwards s storage raw a h =
      process-Remembers later afterwards _ _ raw a (process-answers faults now s storage raw a h)

  -- What a stored session accepts and then, after a restart, gets again, is answered by the loaded
  -- session with the same version and patches, marked as a duplicate. The restart succeeds, and
  -- the session, the storage and the listeners see nothing of the second submission.
  pub process-load-process :
      (faults reload later : Faults) (now afterwards : Text) (s : Session) (storage : Storage)
      (raw : Value) (a : Accepted)
      → IsStored o s storage
      → (process o faults now s storage raw).result ≡ accepted a
      → let out = process o faults now s storage raw in
        (l : Session) × (load o reload out.storage ≡ ok (l, out.storage))
        × (process o later afterwards l out.storage raw ≡ quiet (as_duplicate a) l out.storage)
  process-load-process faults reload later now afterwards s storage raw a stored h =
      let m = process-answers faults now s storage raw a h in
      let out = process o faults now s storage raw in
      let (l, loads, same) =
        load-IsStored o reload out.session out.storage
          (process-IsStored o faults now s storage stored raw) in
      (
        l,
        loads,
        process-Remembers later afterwards l out.storage raw a (record {
          operation = m.operation;
          parsed = m.parsed;
          here = m.here;
          prior = m.prior;
          recorded = same.answers m.operation.operation_id ∙ ap only_accepted m.recorded;
          again = m.again;
        }),
      )
