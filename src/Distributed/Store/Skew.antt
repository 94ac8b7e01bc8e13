-- ===== src/Distributed/Store/Skew.antt =====
-- snapshot of packages/server-distributed/src/postgres-store.ts, against a commit that falls between its
-- query of the head and its query of the log.
use collabhub.Prelude.{ℕ, ◌≡◌, refl, sym, ◌∙◌}
use collabhub.Errors.{Result, ok, throws, ◌>>=◌}
use collabhub.Protocol.Json.{Fields}
use collabhub.Protocol.Messages.{Snapshot}
use collabhub.DomainJson.Patches.{apply_canonical_patches}
use collabhub.Distributed.Rows.{RoomIdentity, Document, CommitRequest}
use collabhub.Distributed.Store.{load_room, loaded_state, snapshot}
use collabhub.Distributed.Store.Runs.{IsRun}
use collabhub.Distributed.Store.Restoring.{
  restore, IsWellFormed, written, written-IsWellFormed, restore-written, restore_lem,
  wal_after-behind, behind, behind-IsRun, loaded,
}

-- The message of a version and a state
abbrev pub snapshot_of : RoomIdentity → Document → Fields → Snapshot Fields
snapshot_of room d state = record {
  tenant_id = room.tenant_id;
  document_id = room.document_id;
  canonical_version = d.head.canonical_version;
  schema_version = d.head.schema_version;
  snapshot = state;
  snapshot_ref = record {
    tenant_id = room.tenant_id;
    document_id = room.document_id;
    version = d.head.canonical_version;
  };
}

bind-bind {ℓ κ μ} :
    {A : Type ℓ} {B : Type κ} {C : Type μ} (r : Result A) (f : A → Result B) (g : B → Result C)
    → ((r >>= f) >>= g) ≡ (r >>= λ a. f a >>= g)
bind-bind (ok a) f g = refl
bind-bind (throws m) f g = refl

module _ (room : RoomIdentity) (d : Document) (w : IsWellFormed d) where
  module _ (now : ℕ) (q : CommitRequest) where
    later : Document
    later = written now q d

    later-run : IsRun d.head.snapshot_version (behind later) later.head.canonical_version
    unfolding later
    later-run = behind-IsRun later (written-IsWellFormed now q d w)

    load_room-skew : load_room d d later ≡ ok (record (loaded d w.row) { wal = behind later })
    unfolding load_room later
    load_room-skew =
        rw (w.pointed, wal_after-behind later w.row w.pointed later-run, load_room) refl

    loaded_state-skew :
        loaded_state (record (loaded d w.row) { wal = behind later })
        ≡ (restore d >>= λ s. apply_canonical_patches s q.patches)
    unfolding loaded_state later
    loaded_state-skew =
        sym (restore_lem later w.row w.pointed later-run) ∙ restore-written now q d w

    -- With a commit between the query of the head and that of the log, a snapshot has the head's
    -- version before the commit, and the state after it.
    pub snapshot_skew : snapshot room d d (written now q d) ≡ (
        restore d >>= λ s. apply_canonical_patches s q.patches >>= λ t. ok (snapshot_of room d t))
    unfolding snapshot later
    snapshot_skew =
        rw (load_room-skew, loaded_state-skew)
          (bind-bind (restore d) (λ s. apply_canonical_patches s q.patches)
            (λ t. ok (snapshot_of room d t)))
