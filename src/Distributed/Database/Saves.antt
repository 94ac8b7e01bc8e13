-- ===== src/Distributed/Database/Saves.antt =====
-- saveSnapshot of packages/server-distributed/src/postgres-store.ts: the log before a snapshot, applied, is
-- the snapshot.
use collabhub.Prelude.{
  ℕ, ◌≤◌, ◌<◌, Text, ◌≡◌, refl, sym, ◌∙◌, ap, true, some, List, [], ◌∷◌, ◌++◌, ==_iff, ltb→lt,
  lt→ltb, find, keep, any, arith, Bool-cases, inl, inr,
}
use collabhub.Errors.{ok}
use collabhub.Protocol.Json.{Fields}
use collabhub.Distributed.Rows.{SnapshotRow, WalRow, Document, of_version, insert_snapshot}
use collabhub.Distributed.Store.{is_newer, apply_wal, save_snapshot, takes_snapshot}
use collabhub.Distributed.Store.Runs.{
  keep-keep, find-append, find-append_last, any-find, run-split, is_upto, apply_wal-append,
}
use collabhub.Distributed.Store.Restoring.{restore, IsWellFormed, behind, behind-IsRun, restore_lem}
use collabhub.Distributed.Database.Transactions.{saving, restore_at, IsHonest}
use collabhub.Distributed.Database.Kept.{Keeps, same-restore, same-view}

module _ (d : Document) (w : IsWellFormed d) where
  module _ (version : ℕ) (schema : Text) (state : Fields) where
    saved_row : SnapshotRow
    saved_row = record { version = version; schema_version = schema; state = state }

    -- A row that is there already is kept.
    inserted-found :
        (v : ℕ) (row : SnapshotRow)
        → find (of_version v) d.snapshots ≡ some row
        → find (of_version v) (insert_snapshot saved_row d.snapshots) ≡ some row
    unfolding insert_snapshot saved_row
    inserted-found v row h = elim (Bool-cases (any (of_version version) d.snapshots)) [
      | inl there ↦ rw there h
      | inr new ↦ rw new (find-append (of_version v) d.snapshots (saved_row ∷ []) row h)
    ]

    -- The row of the saved version has the saved state.
    inserted-row :
        ((row : SnapshotRow) → find (of_version version) d.snapshots ≡ some row → row.state ≡ state)
        → (row : SnapshotRow) × (find (of_version version) (insert_snapshot saved_row d.snapshots)
            ≡ some row)
          × (row.state ≡ state)
    unfolding insert_snapshot saved_row
    inserted-row honest = elim (Bool-cases (any (of_version version) d.snapshots)) [
      | inl there ↦
          let found = any-find (of_version version) d.snapshots there in
          (found.0, rw there found.1, honest found.0 found.1)
      | inr new ↦ (
        saved_row,
        rw new (
            find-append_last (of_version version) d.snapshots saved_row new
              ((==_iff version version).1 refl)),
        refl,
      )
    ]

    module _ (takes : takes_snapshot version schema d.head ≡ true)
        (at : restore_at version d ≡ ok state)
        (honest : (row : SnapshotRow)
          → find (of_version version) d.snapshots ≡ some row
          → row.state ≡ state) where
      within : (d.head.snapshot_version < version) × (version ≤ d.head.canonical_version)
      within = (ground arith, ground arith)

      taken : Document
      taken = record d {
        snapshots = insert_snapshot saved_row d.snapshots;
        head = record (d.head) { snapshot_version = version };
      }

      rest : List WalRow
      rest = keep (is_newer version) d.wal

      taken-IsWellFormed : IsWellFormed taken
      unfolding taken
      taken-IsWellFormed =
          let found = inserted-row honest in
          record {
            base = w.base;
            reaches = omega (arith, w.reaches, within.0);
            below = within.1;
            run = w.run;
            row = found.0;
            pointed = found.1;
          }

      at-state : apply_wal w.row.state (keep (is_upto version) (behind d)) ≡ ok state
      at-state = rw w.pointed at at

      behind-split : behind d ≡ keep (is_upto version) (behind d) ++ rest
      unfolding rest
      behind-split =
          run-split d.head.snapshot_version (behind d) d.head.canonical_version version
            (behind-IsRun d w)
          ∙ ap (λ rows. keep (is_upto version) (behind d) ++ rows)
              (keep-keep (is_newer version) (is_newer d.head.snapshot_version) d.wal λ r e.
                lt→ltb d.head.snapshot_version r.version
                  (omega (arith, within.0, ltb→lt version r.version e)))

      restore-before : restore d ≡ apply_wal state rest
      restore-before =
          restore_lem d w.row w.pointed (behind-IsRun d w)
          ∙ ap (apply_wal w.row.state) behind-split
          ∙ apply_wal-append w.row.state (keep (is_upto version) (behind d)) rest
          ∙ rw at-state refl

      restore-after : restore taken ≡ apply_wal state rest
      unfolding taken rest
      restore-after =
          let found = inserted-row honest in
          restore_lem taken found.0 found.1 (behind-IsRun taken taken-IsWellFormed)
          ∙ ap (λ s. apply_wal s rest) found.2

      taken-Keeps : Keeps d taken
      unfolding taken
      taken-Keeps =
          (taken-IsWellFormed, same-view d w taken refl (restore-after ∙ sym restore-before))

    left : Document
    left = record d { snapshots = insert_snapshot saved_row d.snapshots }

    left-IsWellFormed : IsWellFormed left
    unfolding left
    left-IsWellFormed = record {
      base = w.base;
      reaches = w.reaches;
      below = w.below;
      run = w.run;
      row = w.row;
      pointed = inserted-found d.head.snapshot_version w.row w.pointed;
    }

    left-Keeps : Keeps d left
    unfolding left
    left-Keeps = (
      left-IsWellFormed,
      same-view d w left refl (
          same-restore d left w left-IsWellFormed w.row
            (inserted-found d.head.snapshot_version w.row w.pointed) refl refl),
    )

    pub save_snapshot-Keeps :
        IsHonest d (saving version schema state) → Keeps d (save_snapshot version schema state d)
    unfolding save_snapshot saved_row taken left
    save_snapshot-Keeps honest = elim (Bool-cases (takes_snapshot version schema d.head)) [
      | inl takes ↦ rw (takes, save_snapshot) (taken-Keeps takes (honest takes).0 (honest takes).1)
      | inr stays_put ↦ rw (stays_put, save_snapshot) left-Keeps
    ]

    pub save_snapshot-found :
        (v : ℕ) (row : SnapshotRow)
        → find (of_version v) d.snapshots ≡ some row
        → find (of_version v) (save_snapshot version schema state d).snapshots ≡ some row
    unfolding save_snapshot saved_row
    save_snapshot-found = inserted-found
