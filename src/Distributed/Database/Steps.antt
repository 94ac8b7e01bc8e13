-- ===== src/Distributed/Database/Steps.antt =====
-- The transactions of packages/server-distributed/src/postgres-store.ts that write are steps of a room.
use collabhub.Prelude.{
  ℕ, Text, ◌≡◌, refl, sym, ◌∙◌, subst, ap, not, ◌||◌, some, List, [], ◌∷◌, ◌==◌, ==_iff, ◌===◌,
  find, any, lookup, Dictionary, arith, Bool-cases, Option-cases, inl, inr,
}
use collabhub.Errors.{ok, Result-cases, Ensures-ok}
use collabhub.Protocol.Messages.{OperationResult}
use collabhub.Distributed.Rows.{
  SnapshotRow, ReceiptRow, Document, Owner, CommitRequest, CommitOutcome, committed, duplicate,
  collision, MigrationRequest, is_owner, of_version, upsert_snapshot,
}
use collabhub.Distributed.Store.{
  apply_wal, record_receipt, commit, migrate_document, migrated_document, is_history, result_id,
}
use collabhub.Distributed.Store.Runs.{IsRun, run-empty}
use collabhub.Distributed.Store.Restoring.{
  restore, IsWellFormed, IsCommit, commit-IsCommit, written, behind, behind-IsRun, restore_lem,
  written-IsWellFormed, restore-written,
}
use collabhub.Distributed.Database.Transactions.{
  Transaction, committing, claiming, recording, migrating, saving, compacting, transact, rows_after,
  view, Advance, advanced, replaced, IsHonest,
}
use collabhub.Distributed.Database.Kept.{
  Steps, Keeps, Keeps-Steps, stays, same-restore, same-view, claim_ownership-Steps,
  compact_document-Keeps,
}
use collabhub.Distributed.Database.Saves.{save_snapshot-Keeps}

find-upsert_snapshot :
    (r : SnapshotRow) (rows : List SnapshotRow)
    → find (of_version r.version) (upsert_snapshot r rows) ≡ some r
unfolding find upsert_snapshot
find-upsert_snapshot r [] = rw ((==_iff r.version r.version).1 refl) refl
find-upsert_snapshot r (q ∷ rows) = elim (Bool-cases (of_version r.version q)) [
  | inl e ↦ rw (e, (==_iff r.version r.version).1 refl) refl
  | inr e ↦ rw e (rw e (find-upsert_snapshot r rows))
]

module _ (d : Document) (w : IsWellFormed d) where
  receipts-Keeps : (receipts : Dictionary ReceiptRow) → Keeps d (record d { receipts = receipts })
  receipts-Keeps receipts =
      let kept : IsWellFormed (record d { receipts = receipts }) = record {
        base = w.base;
        reaches = w.reaches;
        below = w.below;
        run = w.run;
        row = w.row;
        pointed = w.pointed;
      } in
      (
        kept,
        same-view d w (record d { receipts = receipts }) refl
            (same-restore d (record d { receipts = receipts }) w kept w.row w.pointed refl refl),
      )

  pub record_receipt-Keeps :
      (now : ℕ) (owner : Owner) (fingerprint : Text) (result : OperationResult)
      → Keeps d (record_receipt now owner fingerprint result d).1
  unfolding record_receipt
  record_receipt-Keeps now owner fingerprint result = elim (Bool-cases (is_owner owner d.head)) [
    | inr foreign ↦ rw (foreign, record_receipt) (w, refl)
    | inl owns ↦ elim (Option-cases (lookup d.receipts (result_id result))) [
      | inr (prior, e) ↦ rw (owns, e, record_receipt) (w, refl)
      | inl new ↦ rw (owns, new, record_receipt) (receipts-Keeps _)
    ]
  ]

  written-Steps : (now : ℕ) (q : CommitRequest) → Steps d (written now q d)
  written-Steps now q = (
    written-IsWellFormed now q d w,
    advanced q.patches
        (ap (λ s. record (view (written now q d)) { state = s }) (restore-written now q d w)),
  )

  commit-Steps : (now : ℕ) (q : CommitRequest) → Steps d (rows_after d (commit now q d))
  commit-Steps now q = elim (Result-cases (commit now q d)) [
    | inr (m, e) ↦ rw e (stays d w)
    | inl ((outcome, next), e) ↦ rw e (
        go outcome next (
          Ensures-ok (IsCommit now d q) (commit now q d) (outcome, next) e
            (commit-IsCommit now q d w)))
  ]
    where
      go :
          (outcome : CommitOutcome) (next : Document)
          → IsCommit now d q (outcome, next)
          → Steps d next
      go (committed a e) next h = subst (Steps d) (sym h.5) (written-Steps now q)
      go (duplicate r) next h = subst (Steps d) (sym h.0) (stays d w)
      go (collision v) next h = subst (Steps d) (sym h.0) (stays d w)
      go (CommitOutcome.fenced v) next h = subst (Steps d) (sym h.0) (stays d w)
      go (CommitOutcome.version_conflict v) next h = subst (Steps d) (sym h.0) (stays d w)

  module _ (q : MigrationRequest) (current : d.head.canonical_version ≡ q.version) where
    new_row : SnapshotRow
    new_row = record { version = q.version; schema_version = q.to_schema_version; state = q.state }

    pointed-migrated : find (of_version q.version) (migrated_document q d).snapshots ≡ some new_row
    unfolding new_row
    pointed-migrated = find-upsert_snapshot new_row d.snapshots

    pub migrated-IsWellFormed : IsWellFormed (migrated_document q d)
    migrated-IsWellFormed = record {
      base = w.base;
      reaches = omega (arith, w.reaches, w.below);
      below = omega arith;
      run = w.run;
      row = new_row;
      pointed = pointed-migrated;
    }

    pub restore-migrated : restore (migrated_document q d) ≡ ok q.state
    unfolding new_row apply_wal
    restore-migrated =
        restore_lem (migrated_document q d) new_row pointed-migrated
          (behind-IsRun (migrated_document q d) migrated-IsWellFormed)
        ∙ rw
            (run-empty q.version (behind (migrated_document q d)) (
              subst (IsRun q.version (behind (migrated_document q d))) current
                (behind-IsRun (migrated_document q d) migrated-IsWellFormed)))
            refl

    migrated-Steps : Steps d (migrated_document q d)
    migrated-Steps = (
      migrated-IsWellFormed,
      replaced q.to_schema_version q.state
          (ap (λ s. record (view (migrated_document q d)) { state = s }) restore-migrated),
    )

  migrate_document-Steps : (q : MigrationRequest) → Steps d (rows_after d (migrate_document q d))
  unfolding migrate_document
  migrate_document-Steps q = elim (Bool-cases (is_owner q.owner d.head)) [
    | inr foreign ↦ rw (foreign, migrate_document) (stays d w)
    | inl owns ↦
        elim (Bool-cases (
          not (d.head.canonical_version == q.version)
          || not (d.head.schema_version === q.from_schema_version))) [
            | inl other ↦ rw (owns, other, migrate_document) (stays d w)
            | inr same ↦
                elim (Bool-cases
                  (any (is_history q.version q.to_schema_version) d.schema_history)) [
                    | inl clash ↦ rw (owns, same, clash, migrate_document) (stays d w)
                    | inr clear ↦
                        rw (owns, same, clear, migrate_document) (migrated-Steps q (ground arith))
                  ]
          ]
  ]

-- Each transaction on rows in order leaves them in order, and is to those who load the room one of
-- four steps: nothing, a new owner with the next epoch, the next version by patches on the state, or
-- another schema with its state; if a snapshot that it takes is of the state at its version.
pub transact-Steps :
    (d : Document) (t : Transaction)
    → IsWellFormed d
    → IsHonest d t
    → IsWellFormed (transact d t) × Advance (view d) (view (transact d t))
unfolding transact
transact-Steps d (committing now q) w honest = commit-Steps d w now q
transact-Steps d (claiming instance_id) w honest = claim_ownership-Steps d w instance_id
transact-Steps d (recording now owner fingerprint result) w honest =
    Keeps-Steps d _ (record_receipt-Keeps d w now owner fingerprint result)
transact-Steps d (migrating q) w honest = migrate_document-Steps d w q
transact-Steps d (saving version schema state) w honest =
    Keeps-Steps d _ (save_snapshot-Keeps d w version schema state honest)
transact-Steps d (compacting now policy) w honest =
    Keeps-Steps d _ (compact_document-Keeps d w now policy)
