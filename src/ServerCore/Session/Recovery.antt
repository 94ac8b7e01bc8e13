-- ===== src/ServerCore/Session/Recovery.antt =====
-- A restart rebuilds the session: the state, the version and the answers to accepted operations.
use collabhub.Prelude.{
  ℕ, ◌+◌, ◌≤◌, Text, ◌≡◌, refl, sym, ◌∙◌, true, Option, none, some, List, [], ◌∷◌, ◌++◌, arith, All,
  All-append, All-map, All-sort_by, sort_by, sort_by-append, lookup, insert, lookup-insert, ◌===◌,
  ===_iff, ===-refl, lt→ltb,
}
use collabhub.Errors.{ok}
use collabhub.Protocol.Messages.{Operation, OperationResult, accepted}
use collabhub.ServerCore.Pipeline.{PreparedOperation}
use collabhub.ServerCore.Pipeline.Prepared.{IsPrepared}
use collabhub.ServerCore.Storage.{
  WalRecord, StoredSnapshot, Storage, load_snapshot, load_wal, append_wal, save_snapshot,
}
use collabhub.ServerCore.Storage.Keys.{
  load_wal-append_wal, load_snapshot-append_wal, load_wal-save_snapshot,
  load_snapshot-save_snapshot,
}
use collabhub.ServerCore.Session.{
  SessionOptions, Session, Faults, is_there, stored_schema, start_session, replay_records, load,
  committed_session, accepted_at, wal_record, prepare_input, stored_snapshot,
}
use collabhub.ServerCore.Session.Replay.{
  replay_records-append, extended, replay_record-next, replay_records-old,
}

-- The answers that outlive a restart.
abbrev pub only_accepted : Option OperationResult → Option OperationResult
only_accepted (some (accepted a)) = some (accepted a)
only_accepted _ = none

abbrev pub in_order : List WalRecord → List WalRecord
in_order wal = sort_by (λ (r : WalRecord). r.version) wal

module _ (o : SessionOptions) where
  abbrev pub wal_in : Storage → List WalRecord
  wal_in storage = load_wal storage o.tenant_id o.document_id none

  abbrev pub snapshot_in : Storage → Option StoredSnapshot
  snapshot_in storage = load_snapshot storage o.tenant_id o.document_id

  -- The loaded session is the given one, but for the rejections that it remembered.
  pub record SameSession (s l : Session) : Type 0 where
    pub state : l.state ≡ s.state
    pub version : l.version ≡ s.version
    pub operations : l.operations ≡ s.operations
    pub answers : (id : Text) → lookup l.results id ≡ only_accepted (lookup s.results id)

  -- The storage holds the session: its log has no later version, is of the pack's schema, and
  -- replays to the session.
  pub record IsStored (s : Session) (storage : Storage) : Type 0 where
    pub bounded : All (λ (r : WalRecord). r.version ≤ s.version) (wal_in storage)
    pub schema :
        stored_schema o (snapshot_in storage) (wal_in storage) ≡ o.domain_pack.schema_version
    pub loaded : Session
    pub replays :
        replay_records
          (is_there (snapshot_in storage))
          o.domain_pack.schema_version
          o.domain_pack
          (start_session o (snapshot_in storage))
          (in_order (wal_in storage))
        ≡ ok loaded
    pub same : SameSession s loaded

  -- From a storage that holds a session, `load` rebuilds it whatever the storage's faults.
  pub load-IsStored :
      (faults : Faults) (s : Session) (storage : Storage)
      → IsStored s storage
      → (l : Session) × (load o faults storage ≡ ok (l, storage)) × SameSession s l
  unfolding load
  load-IsStored faults s storage h =
      (h.loaded, rw (h.schema, h.replays, ===-refl o.domain_pack.schema_version), h.same)

  committed-answers :
      (s l : Session) (op : Operation) (version : ℕ) (p : PreparedOperation)
      → ((id : Text) → lookup l.results id ≡ only_accepted (lookup s.results id))
      → (id : Text)
      → lookup (insert l.results op.operation_id (accepted_at op version p.patches)) id
        ≡ only_accepted
            (lookup (insert s.results op.operation_id (accepted_at op version p.patches)) id)
  committed-answers s l op version p h id =
      rw
        (
          lookup-insert l.results op.operation_id id (accepted_at op version p.patches),
          lookup-insert s.results op.operation_id id (accepted_at op version p.patches),
        )
        (ground (arith, h id))

  module _ (now : Text) (s : Session) (storage : Storage) (op : Operation) (p : PreparedOperation)
      (h : IsStored s storage) (ready : IsPrepared o.pipeline (prepare_input o s op) p) where
    abbrev pub record_of : WalRecord
    record_of = wal_record o now s op p.patches

    abbrev pub appended : Storage
    appended = append_wal storage record_of

    wal-appended : wal_in appended ≡ wal_in storage ++ record_of ∷ []
    wal-appended = load_wal-append_wal o.tenant_id o.document_id storage record_of refl refl

    bounded-appended : All (λ (r : WalRecord). r.version ≤ s.version + 1) (wal_in appended)
    bounded-appended = rw wal-appended (
        All-append (λ (r : WalRecord). r.version ≤ s.version + 1) (wal_in storage) (record_of ∷ [])
          (All-map (λ r le. omega arith) (wal_in storage) h.bounded) (omega arith))

    order-appended : in_order (wal_in appended) ≡ in_order (wal_in storage) ++ record_of ∷ []
    order-appended = rw wal-appended (
        sort_by-append (λ (r : WalRecord). r.version) (wal_in storage) record_of
          (All-map (λ r le. omega arith) (wal_in storage) h.bounded))

    schema-appended :
        stored_schema o (snapshot_in appended) (wal_in appended) ≡ o.domain_pack.schema_version
    schema-appended =
        rw (wal-appended, load_snapshot-append_wal o.tenant_id o.document_id storage record_of)
          (go (snapshot_in storage) (wal_in storage) h.schema)
      where
        go :
            (sn : Option StoredSnapshot) (wal : List WalRecord)
            → stored_schema o sn wal ≡ o.domain_pack.schema_version
            → stored_schema o sn (wal ++ record_of ∷ []) ≡ o.domain_pack.schema_version
        go (some sn) wal e = unfold stored_schema in e
        go none [] e = unfold stored_schema in ready.pack_schema
        go none (r ∷ wal) e = unfold stored_schema in e

    loaded_next : Session
    loaded_next = extended h.loaded record_of p.next_state

    replays-appended :
        replay_records
          (is_there (snapshot_in appended))
          o.domain_pack.schema_version
          o.domain_pack
          (start_session o (snapshot_in appended))
          (in_order (wal_in appended))
        ≡ ok loaded_next
    unfolding loaded_next
    replays-appended =
        let same_schema : op.schema_version === o.domain_pack.schema_version ≡ true =
          (===_iff _ _).1 ready.pack_schema in
        rw
          (
            order-appended,
            load_snapshot-append_wal o.tenant_id o.document_id storage record_of,
            replay_records-append,
            h.replays,
          )
          (replay_record-next _ _ o.domain_pack h.loaded record_of p.next_state
            (rw h.same.version (lt→ltb s.version (s.version + 1) (omega arith))) same_schema
            same_schema (rw h.same.state ready.applies))

    same-appended : SameSession (committed_session s op p) loaded_next
    unfolding loaded_next committed_session
    same-appended = record {
      state = refl;
      version = refl;
      operations = rw h.same.operations;
      answers = committed-answers s h.loaded op (s.version + 1) p h.same.answers;
    }

    pub appended-IsStored : IsStored (committed_session s op p) appended
    appended-IsStored = record {
      bounded = unfold committed_session in bounded-appended;
      schema = schema-appended;
      loaded = loaded_next;
      replays = replays-appended;
      same = same-appended;
    }

  start-results : (sn : Option StoredSnapshot) → (start_session o sn).results ≡ []
  unfolding start_session
  start-results none = refl
  start-results (some sn) = refl

  start-operations : (sn : Option StoredSnapshot) → (start_session o sn).operations ≡ []
  unfolding start_session
  start-operations none = refl
  start-operations (some sn) = refl

  -- A snapshot of a stored session keeps it stored.
  pub saved-IsStored :
      (s : Session) (storage : Storage)
      → IsStored s storage
      → IsStored s (save_snapshot storage (stored_snapshot o s))
  unfolding start_session
  saved-IsStored s storage h = record {
    bounded = rw same_wal h.bounded;
    schema = rw (there, same_wal) (unfold stored_schema in refl);
    loaded = record (h.loaded) { state = s.state; version = s.version };
    replays =
        rw (there, same_wal)
          (replay_records-old _ _ _ o.domain_pack (start_session o (snapshot_in storage)) start
            h.loaded (in_order (wal_in storage))
            (sym (start-results (snapshot_in storage) ∙ sym (start-results (some saved))))
            (sym (start-operations (snapshot_in storage) ∙ sym (start-operations (some saved))))
            (All-sort_by (λ (r : WalRecord). r.version) (λ (r : WalRecord). r.version ≤ s.version)
              (wal_in storage) h.bounded)
            h.replays);
    same = record {
      state = refl;
      version = refl;
      operations = h.same.operations;
      answers = h.same.answers;
    };
  }
    where
      saved : StoredSnapshot
      saved = stored_snapshot o s

      start : Session
      start = start_session o (some saved)

      same_wal : wal_in (save_snapshot storage saved) ≡ wal_in storage
      same_wal = load_wal-save_snapshot o.tenant_id o.document_id storage saved none

      there : snapshot_in (save_snapshot storage saved) ≡ some saved
      there = load_snapshot-save_snapshot o.tenant_id o.document_id storage saved refl refl
