-- ===== src/ServerCore/Session/Steps.antt =====
-- What one submission does: it commits exactly one version, or leaves document and log alone.
use collabhub.Prelude.{
  ◌+◌, ◌%◌, Text, ◌≡◌, refl, ◌∙◌, true, not, ◌||◌, ◌==◌, none, some, List, [], ◌∷◌, ◌++◌, arith,
  lookup, lookup-insert, ◌===◌, ===-refl, Bool-cases, Option-cases, ◌⊎◌, inl, inr,
}
use collabhub.Errors.{ok, Result-cases}
use collabhub.Protocol.Json.{Value}
use collabhub.Protocol.Messages.{Operation, Patch, OperationResult, Accepted, accepted, Canonical}
use collabhub.Protocol.Envelope.{assert_operation_envelope}
use collabhub.DomainJson.Patches.{apply_canonical_patches}
use collabhub.ServerCore.Pipeline.{PreparedOperation, PrepareResult, prepare, default_to}
use collabhub.ServerCore.Pipeline.Prepared.{IsPrepared, prepare-IsPrepared}
use collabhub.ServerCore.Storage.{Storage, load_wal, append_wal}
use collabhub.ServerCore.Storage.Keys.{load_wal-append_wal, load_wal-save_snapshot}
use collabhub.ServerCore.Session.{
  SessionOptions, Session, Faults, Outcome, after_append, commit, process_new, process_known,
  process_operation, process, accepted_at, canonical_event, committed_session, prepare_input,
  mark_duplicate, wal_record,
}

module _ (o : SessionOptions) (now : Text) (s : Session) (storage : Storage) where
  -- Nothing is committed: the document, the log and the listeners see nothing, and the answer
  -- claims no new commit.
  pub record Stays (out : Outcome) : Type 0 where
    pub state : out.session.state ≡ s.state
    pub version : out.session.version ≡ s.version
    pub log : out.storage ≡ storage
    pub events : out.events ≡ []
    pub answer : (a : Accepted) → out.result ≡ accepted a → a.duplicate ≡ true

  -- One version is committed: the operation with its patches ends the log and is answered, the patches lead to
  -- the new state, and the listeners hear of it or of nothing.
  pub record Commits (out : Outcome) : Type 0 where
    pub operation : Operation
    pub patches : List Patch
    pub result : out.result ≡ accepted_at operation (s.version + 1) patches
    pub version : out.session.version ≡ s.version + 1
    pub state : apply_canonical_patches s.state patches ≡ ok out.session.state
    pub answered : lookup out.session.results operation.operation_id ≡ some out.result
    pub logged :
        load_wal out.storage o.tenant_id o.document_id none
        ≡ load_wal storage o.tenant_id o.document_id none
          ++ wal_record o now s operation patches ∷ []
    pub heard : (out.events ≡ canonical_event s operation patches ∷ []) ⊎ (out.events ≡ [])

  abbrev pub Progress : Outcome → Type 0
  Progress out = Stays out ⊎ Commits out

  module _ (op : Operation) (p : PreparedOperation)
      (ready : IsPrepared o.pipeline (prepare_input o s op) p) where
    abbrev result_of : OperationResult
    result_of = accepted_at op (s.version + 1) p.patches

    abbrev log_of : Storage
    log_of = append_wal storage (wal_record o now s op p.patches)

    log-Commits :
        (after : Storage) (events : List Canonical)
        → load_wal after o.tenant_id o.document_id none
          ≡ load_wal log_of o.tenant_id o.document_id none
        → (events ≡ canonical_event s op p.patches ∷ []) ⊎ (events ≡ [])
        → Commits (record {
          result = result_of;
          session = committed_session s op p;
          storage = after;
          events = events;
        })
    unfolding committed_session
    log-Commits after events same heard = record {
      operation = op;
      patches = p.patches;
      result = refl;
      version = refl;
      state = ready.applies;
      answered = rw (lookup-insert, ===-refl op.operation_id);
      logged =
          same
          ∙ load_wal-append_wal o.tenant_id o.document_id storage (wal_record o now s op p.patches)
              refl refl;
      heard = heard;
    }

    pub after_append-Commits :
        (faults : Faults)
        → Commits (
            after_append o faults result_of
              (canonical_event s op p.patches)
              (committed_session s op p)
              log_of)
    unfolding after_append
    after_append-Commits faults =
        elim (Bool-cases
          ((committed_session s op p).version % default_to 25 o.snapshot_interval == 0)) [
            | inr later ↦ rw (later, after_append) (log-Commits log_of _ refl (inl refl))
            | inl due ↦ elim (Option-cases faults.save) [
              | inr (m, e) ↦ rw (due, e, after_append) (log-Commits log_of _ refl (inr refl))
              | inl e ↦
                  rw (due, e, after_append)
                    (log-Commits _ _
                      (load_wal-save_snapshot o.tenant_id o.document_id log_of _ none) (inl refl))
            ]
          ]

    commit-Progress : (faults : Faults) → Progress (commit o faults now s storage op p)
    unfolding commit
    commit-Progress faults = elim (Option-cases faults.append) [
      | inr (m, failed) ↦
          rw (failed, commit)
            (inl (record {
              state = refl;
              version = refl;
              log = refl;
              events = refl;
              answer = λ a e. cc;
            }))
      | inl fine ↦ rw (fine, commit) (inr (after_append-Commits faults))
    ]

  mark_duplicate-answer :
      (r : OperationResult) (a : Accepted) → mark_duplicate r ≡ accepted a → a.duplicate ≡ true
  unfolding mark_duplicate
  mark_duplicate-answer r a e = ground arith

  process_new-Progress :
      (faults : Faults) (op : Operation) → Progress (process_new o faults now s storage op)
  unfolding process_new
  process_new-Progress faults op = go (prepare o.pipeline (prepare_input o s op)) refl
    where
      go :
          (r : PrepareResult)
          → prepare o.pipeline (prepare_input o s op) ≡ r
          → Progress (process_new o faults now s storage op)
      go (PrepareResult.prepared p) e =
          rw (e, process_new)
            (commit-Progress op p (prepare-IsPrepared o.pipeline (prepare_input o s op) p e) faults)
      go (PrepareResult.rejected r) e =
          rw (e, process_new)
            (inl (record {
              state = refl;
              version = refl;
              log = refl;
              events = refl;
              answer = λ a e. cc;
            }))
      go (PrepareResult.resync r) e =
          rw (e, process_new)
            (inl (record {
              state = refl;
              version = refl;
              log = refl;
              events = refl;
              answer = λ a e. cc;
            }))

  process_operation-Progress :
      (faults : Faults) (op : Operation) → Progress (process_operation o faults now s storage op)
  unfolding process_operation process_known
  process_operation-Progress faults op =
      elim (Bool-cases
        (not (op.tenant_id === o.tenant_id) || not (op.document_id === o.document_id))) [
          | inl other ↦
              rw (other, process_operation)
                (inl (record {
                  state = refl;
                  version = refl;
                  log = refl;
                  events = refl;
                  answer = λ a e. cc;
                }))
          | inr same ↦ elim (Option-cases (lookup s.results op.operation_id)) [
            | inr (prior, e) ↦
                rw (same, e, process_operation, process_known)
                  (inl (record {
                    state = refl;
                    version = refl;
                    log = refl;
                    events = refl;
                    answer = mark_duplicate-answer prior;
                  }))
            | inl new ↦
                rw (same, new, process_operation, process_known) (process_new-Progress faults op)
          ]
        ]

  -- A submission, whatever the value and the storage's faults, commits exactly one version, or
  -- changes neither document nor log and is not answered as a new commit.
  pub process-Progress :
      (faults : Faults) (raw : Value) → Progress (process o faults now s storage raw)
  unfolding process
  process-Progress faults raw = elim (Result-cases (assert_operation_envelope raw)) [
    | inr (m, e) ↦
        rw (e, process)
          (inl (record {
            state = refl;
            version = refl;
            log = refl;
            events = refl;
            answer = λ a e. cc;
          }))
    | inl (op, e) ↦ rw (e, process) (process_operation-Progress faults op)
  ]
