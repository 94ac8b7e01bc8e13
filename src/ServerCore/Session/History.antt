-- ===== src/ServerCore/Session/History.antt =====
-- Every step of a session, whatever is submitted and whatever the storage does, keeps the storage
-- such that a restart rebuilds the session.
use collabhub.Prelude.{
  ◌%◌, Text, ◌≡◌, refl, sym, not, ◌||◌, ◌==◌, Option, none, some, List, [], ◌∷◌, arith, lookup,
  insert, lookup-insert, keep, sort_by, ◌===◌, ===_iff, ===-refl, Bool-cases, Option-cases, inl,
  inr,
}
use collabhub.Errors.{Result, ok, throws, Result-cases}
use collabhub.Protocol.Json.{Value}
use collabhub.Protocol.Messages.{
  Operation, OperationResult, accepted, rejected, Rejected, Canonical,
}
use collabhub.Protocol.Envelope.{assert_operation_envelope}
use collabhub.ServerCore.Pipeline.{PreparedOperation, PrepareResult, prepare, default_to}
use collabhub.ServerCore.Pipeline.Prepared.{prepare-IsPrepared}
use collabhub.ServerCore.Storage.{Storage, empty_storage, load_wal, load_snapshot, wal_of}
use collabhub.ServerCore.Session.{
  SessionOptions, Session, Faults, Outcome, load, after_append, commit, process_new, process_known,
  process_operation, process, prepare_input, start_session, stored_schema, replay_records,
}
use collabhub.ServerCore.Session.Recovery.{
  IsStored, SameSession, only_accepted, load-IsStored, saved-IsStored, appended-IsStored,
}

module _ (o : SessionOptions) where
  abbrev Holds : Outcome → Type 0
  Holds out = IsStored o out.session out.storage

  after_append-Holds :
      (faults : Faults) (result : OperationResult) (event : Canonical) (s : Session)
      (storage : Storage)
      → IsStored o s storage
      → Holds (after_append o faults result event s storage)
  unfolding after_append
  after_append-Holds faults result event s storage h =
      elim (Bool-cases (s.version % default_to 25 o.snapshot_interval == 0)) [
        | inr later ↦ rw (later, after_append) h
        | inl due ↦ elim (Option-cases faults.save) [
          | inr (m, e) ↦ rw (due, e, after_append) h
          | inl e ↦ rw (due, e, after_append) (saved-IsStored o s storage h)
        ]
      ]

  remembered-IsStored :
      (s : Session) (storage : Storage) (id : Text) (r : Rejected)
      → lookup s.results id ≡ none
      → IsStored o s storage
      → IsStored o (record s { results = insert s.results id (rejected r) }) storage
  remembered-IsStored s storage id r new h = record {
    bounded = h.bounded;
    schema = h.schema;
    loaded = h.loaded;
    replays = h.replays;
    same = record {
      state = h.same.state;
      version = h.same.version;
      operations = h.same.operations;
      answers = λ j.
          rw (lookup-insert s.results id j (rejected r))
            (ground (arith, h.same.answers j, ===_iff id j));
    };
  }

  module _ (faults : Faults) (now : Text) (s : Session) (storage : Storage)
      (h : IsStored o s storage) where
    commit-Holds :
        (op : Operation) (p : PreparedOperation)
        → prepare o.pipeline (prepare_input o s op) ≡ PrepareResult.prepared p
        → Holds (commit o faults now s storage op p)
    unfolding commit
    commit-Holds op p e = elim (Option-cases faults.append) [
      | inr (m, failed) ↦ rw (failed, commit) h
      | inl fine ↦
          rw (fine, commit)
            (after_append-Holds faults _ _ _ _ (
              appended-IsStored o now s storage op p h
                (prepare-IsPrepared o.pipeline (prepare_input o s op) p e)))
    ]

    process_new-Holds :
        (op : Operation)
        → lookup s.results op.operation_id ≡ none
        → Holds (process_new o faults now s storage op)
    unfolding process_new
    process_new-Holds op new = go (prepare o.pipeline (prepare_input o s op)) refl
      where
        go :
            (r : PrepareResult)
            → prepare o.pipeline (prepare_input o s op) ≡ r
            → Holds (process_new o faults now s storage op)
        go (PrepareResult.prepared p) e = rw (e, process_new) (commit-Holds op p e)
        go (PrepareResult.rejected r) e =
            rw (e, process_new) (remembered-IsStored s storage op.operation_id r new h)
        go (PrepareResult.resync r) e = rw (e, process_new) h

    process_known-Holds : (op : Operation) → Holds (process_known o faults now s storage op)
    unfolding process_known
    process_known-Holds op = elim (Option-cases (lookup s.results op.operation_id)) [
      | inr (prior, e) ↦ rw (e, process_known) h
      | inl new ↦ rw (new, process_known) (process_new-Holds op new)
    ]

    process_operation-Holds : (op : Operation) → Holds (process_operation o faults now s storage op)
    unfolding process_operation
    process_operation-Holds op =
        elim (Bool-cases
          (not (op.tenant_id === o.tenant_id) || not (op.document_id === o.document_id))) [
            | inl other ↦ rw (other, process_operation) h
            | inr same ↦ rw (same, process_operation) (process_known-Holds op)
          ]

    -- A submission to a stored session, whatever the value and the storage's faults, leaves a stored
    -- session.
    pub process-IsStored :
        (raw : Value)
        → IsStored o
            (process o faults now s storage raw).session
            (process o faults now s storage raw).storage
    unfolding process
    process-IsStored raw = elim (Result-cases (assert_operation_envelope raw)) [
      | inr (m, e) ↦ rw (e, process) h
      | inl (op, e) ↦ rw (e, process) (process_operation-Holds op)
    ]

  -- What happens to a document's server: a submission, or a restart that loads the session again.
  pub data Event : Type 0 where
    submitted : Faults → (now : Text) → Value → Event
    restarted : Faults → Event

  -- The session in memory and the storage behind it.
  abbrev pub Node : Type 0
  Node = Session × Storage

  -- A restart that fails would leave the node as it was.
  abbrev reloaded : Node → Result Node → Node
  reloaded node (ok next) = next
  reloaded node (throws e) = node

  unfoldable pub step : Node → Event → Node
  step (s, storage) (submitted faults now raw) =
      let out = process o faults now s storage raw in (out.session, out.storage)
  step (s, storage) (restarted faults) = reloaded (s, storage) (load o faults storage)

  unfoldable pub run : Node → List Event → Node
  unfolding step
  run node [] = node
  run node (e ∷ es) = run (step node e) es

  -- A document that was never stored.
  abbrev pub fresh : Node
  fresh = (start_session o none, empty_storage)

  only_accepted_idem :
      (r : Option OperationResult) → only_accepted (only_accepted r) ≡ only_accepted r
  only_accepted_idem none = refl
  only_accepted_idem (some (accepted a)) = refl
  only_accepted_idem (some r) = refl

  loaded-IsStored :
      (s : Session) (storage : Storage) (h : IsStored o s storage) → IsStored o h.loaded storage
  loaded-IsStored s storage h = record {
    bounded = rw h.same.version h.bounded;
    schema = h.schema;
    loaded = h.loaded;
    replays = h.replays;
    same = record {
      state = refl;
      version = refl;
      operations = refl;
      answers = λ id. rw (h.same.answers id) (sym (only_accepted_idem (lookup s.results id)));
    };
  }

  load-ok :
      (faults : Faults) (s : Session) (storage : Storage) (h : IsStored o s storage)
      → load o faults storage ≡ ok (h.loaded, storage)
  unfolding load
  load-ok faults s storage h = rw (h.schema, h.replays, ===-refl o.domain_pack.schema_version)

  step-IsStored :
      (node : Node) (e : Event)
      → IsStored o node.0 node.1
      → IsStored o (step node e).0 (step node e).1
  unfolding step
  step-IsStored (s, storage) (submitted faults now raw) h =
      process-IsStored faults now s storage h raw
  step-IsStored (s, storage) (restarted faults) h =
      rw (load-ok faults s storage h) (loaded-IsStored s storage h)

  run-IsStored :
      (node : Node) (es : List Event)
      → IsStored o node.0 node.1
      → IsStored o (run node es).0 (run node es).1
  unfolding run
  run-IsStored node [] h = h
  run-IsStored node (e ∷ es) h = run-IsStored (step node e) es (step-IsStored node e h)

  pub fresh-IsStored : IsStored o fresh.0 fresh.1
  unfolding start_session load_wal load_snapshot wal_of lookup keep stored_schema sort_by
      replay_records
  fresh-IsStored = record {
    bounded = tt;
    schema = refl;
    loaded = start_session o none;
    replays = refl;
    same = record { state = refl; version = refl; operations = refl; answers = λ id. refl };
  }

  -- After any submissions and restarts of a new document, whatever was submitted and however often
  -- the storage failed, one more restart succeeds. It gives the same state, version and operations,
  -- and remembers the answer to every operation that was accepted.
  pub run-recovers :
      (es : List Event) (faults : Faults)
      → (l : Session) × (load o faults (run fresh es).1 ≡ ok (l, (run fresh es).1))
        × SameSession o (run fresh es).0 l
  run-recovers es faults =
      load-IsStored o faults (run fresh es).0 (run fresh es).1
        (run-IsStored fresh es fresh-IsStored)
