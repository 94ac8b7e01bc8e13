-- ===== src/Distributed/Worker/Drifts.antt =====
-- What a worker of packages/server-distributed/src/worker.ts can trust in while it waits for the store:
-- others change the rows by transactions, and none migrates the room under the worker's own epoch.
use collabhub.Prelude.{
  ℕ, ◌+◌, ◌≤◌, Text, ◌≡◌, refl, sym, ◌∙◌, ap, false, some, List, [], ◌∷◌, find, All, lookup, arith,
  Bool-cases, Option-cases, inl, inr,
}
use collabhub.Errors.{Result-cases, Ensures-ok}
use collabhub.Protocol.Messages.{OperationResult}
use collabhub.Distributed.Rows.{
  SnapshotRow, Document, Owner, CommitRequest, CommitOutcome, committed, duplicate, collision,
  MigrationRequest, is_owner, of_version,
}
use collabhub.Distributed.Store.{
  commit, claim_ownership, record_receipt, migrate_document, save_snapshot, result_id,
}
use collabhub.Distributed.Store.Restoring.{IsWellFormed, IsCommit, commit-IsCommit}
use collabhub.Distributed.Database.Transactions.{
  Transaction, committing, claiming, recording, migrating, saving, compacting, rows_after, transact,
  transact_all, View, view, Advance, unchanged, claimed, advanced, replaced, IsHonest, IsHonestRun,
}
use collabhub.Distributed.Database.Kept.{compact_document-Keeps}
use collabhub.Distributed.Database.Saves.{save_snapshot-Keeps, save_snapshot-found}
use collabhub.Distributed.Database.Steps.{transact-Steps, record_receipt-Keeps}
use collabhub.Distributed.Database.Fencing.{epoch-le}
use collabhub.Distributed.Database.Receipts.{IsKeeping}

version-le : (v w : View) → Advance v w → v.version ≤ w.version
version-le v w (unchanged e) = rw e (omega arith)
version-le v w (claimed i e) = rw e (omega arith)
version-le v w (advanced ps e) = rw e (omega arith)
version-le v w (replaced schema s e) = rw e (omega arith)

module _ (owner : Owner) where
  -- A transaction that does not migrate under the owner's epoch
  abbrev pub IsOther : Transaction → Type 0
  IsOther (migrating q) = ¬ (q.owner.epoch ≡ owner.epoch)
  IsOther t = Unit

  -- The room is still the owner's, and of the same version.
  abbrev pub IsUntouched : Document → Document → Type 0
  IsUntouched d next =
      (d.head.owner_epoch ≡ owner.epoch)
      × (next.head.owner_epoch ≡ owner.epoch)
      × (next.head.canonical_version ≡ d.head.canonical_version)

  pub record Drift (d next : Document) : Type 0 where
    pub in_order : IsWellFormed next
    pub version : d.head.canonical_version ≤ next.head.canonical_version
    pub epoch : d.head.owner_epoch ≤ next.head.owner_epoch
    pub same : IsUntouched d next → view next ≡ view d

  -- The log is the same, and the snapshots that were there are.
  abbrev pub Still : Document → Document → Type 0
  Still d next =
      IsUntouched d next
      → (next.wal ≡ d.wal)
        × ((v : ℕ) (row : SnapshotRow)
            → find (of_version v) d.snapshots ≡ some row
            → find (of_version v) next.snapshots ≡ some row)

  foreign :
      (d : Document) (o : Owner)
      → ¬ (o.epoch ≡ owner.epoch)
      → d.head.owner_epoch ≡ owner.epoch
      → is_owner o d.head ≡ false
  foreign d o other ours = elim (Bool-cases (is_owner o d.head)) [
    | inr no_owner ↦ no_owner
    | inl owns ↦ absurd (other (ground arith))
  ]

  migrate_document-foreign :
      (d : Document) (q : MigrationRequest)
      → ¬ (q.owner.epoch ≡ owner.epoch)
      → d.head.owner_epoch ≡ owner.epoch
      → rows_after d (migrate_document q d) ≡ d
  unfolding migrate_document
  migrate_document-foreign d q other ours = rw (foreign d q.owner other ours, migrate_document) refl

  -- A commit that leaves the version leaves the rows.
  commit-Untouched :
      (d : Document) (now : ℕ) (q : CommitRequest)
      → IsWellFormed d
      → (rows_after d (commit now q d)).head.canonical_version ≡ d.head.canonical_version
      → rows_after d (commit now q d) ≡ d
  commit-Untouched d now q w = elim (Result-cases (commit now q d)) [
    | inr (m, e) ↦ rw e (λ same. refl)
    | inl ((outcome, next), e) ↦ rw e (
        go outcome next (
          Ensures-ok (IsCommit now d q) (commit now q d) (outcome, next) e
            (commit-IsCommit now q d w)))
  ]
    where
      go :
          (outcome : CommitOutcome) (next : Document)
          → IsCommit now d q (outcome, next)
          → next.head.canonical_version ≡ d.head.canonical_version
          → next ≡ d
      go (committed a e) next h same =
          absurd (later (ap (λ (n : Document). n.head.canonical_version) h.5) same)
        where
          later :
              next.head.canonical_version ≡ d.head.canonical_version + 1
              → next.head.canonical_version ≡ d.head.canonical_version
              → ⊥
          later up same = omega (arith, up, same)
      go (duplicate r) next h same = h.0
      go (collision v) next h same = h.0
      go (CommitOutcome.fenced v) next h same = h.0
      go (CommitOutcome.version_conflict v) next h same = h.0

  transact-same :
      (d : Document) (t : Transaction)
      → IsWellFormed d
      → IsHonest d t
      → IsOther t
      → IsUntouched d (transact d t)
      → view (transact d t) ≡ view d
  unfolding transact claim_ownership
  transact-same d (committing now q) w honest other h =
      ap (λ (n : Document). view n) (commit-Untouched d now q w h.2)
  transact-same d (claiming instance_id) w honest other h = absurd (omega (arith, h.0, h.1))
  transact-same d (recording now by fingerprint result) w honest other h =
      (record_receipt-Keeps d w now by fingerprint result).1
  transact-same d (migrating q) w honest other h =
      ap (λ (n : Document). view n) (migrate_document-foreign d q other h.0)
  transact-same d (saving version schema state) w honest other h =
      (save_snapshot-Keeps d w version schema state honest).1
  transact-same d (compacting now policy) w honest other h =
      (compact_document-Keeps d w now policy).1

  transact-Drift :
      (d : Document) (t : Transaction)
      → IsWellFormed d
      → IsHonest d t
      → IsOther t
      → Drift d (transact d t)
  transact-Drift d t w honest other =
      let moved = transact-Steps d t w honest in
      record {
        in_order = moved.0;
        version = version-le (view d) (view (transact d t)) moved.1;
        epoch = epoch-le (view d) (view (transact d t)) moved.1;
        same = transact-same d t w honest other;
      }

  pub stays-Drift : (d : Document) → IsWellFormed d → Drift d d
  stays-Drift d w = record {
    in_order = w;
    version = omega arith;
    epoch = omega arith;
    same = λ h. refl;
  }

  -- What is untouched in the end was so in between.
  pub between :
      (d mid next : Document)
      → Drift d mid
      → Drift mid next
      → IsUntouched d next
      → IsUntouched d mid × IsUntouched mid next
  between d mid next a b h =
      let epoch : mid.head.owner_epoch ≡ owner.epoch = omega (arith, a.epoch, b.epoch, h.0, h.1) in
      let version : mid.head.canonical_version ≡ d.head.canonical_version =
        omega (arith, a.version, b.version, h.2) in
      ((h.0, epoch, version), (epoch, h.1, h.2 ∙ sym version))

  pub trans-Drift : (d mid next : Document) → Drift d mid → Drift mid next → Drift d next
  trans-Drift d mid next a b = record {
    in_order = b.in_order;
    version = omega (arith, a.version, b.version);
    epoch = omega (arith, a.epoch, b.epoch);
    same = λ h. let parts = between d mid next a b h in b.same parts.1 ∙ a.same parts.0;
  }

  pub transact_all-Drift :
      (d : Document) (ts : List Transaction)
      → IsWellFormed d
      → IsHonestRun d ts
      → All IsOther ts
      → Drift d (transact_all d ts)
  unfolding transact_all
  transact_all-Drift d [] w honest other = stays-Drift d w
  transact_all-Drift d (t ∷ ts) w honest other =
      let first = transact-Drift d t w honest.0 other.0 in
      trans-Drift d (transact d t) _ first
        (transact_all-Drift (transact d t) ts first.in_order honest.1 other.1)

  record_receipt-Still :
      (d : Document) (now : ℕ) (by : Owner) (fingerprint : Text) (result : OperationResult)
      → Still d (record_receipt now by fingerprint result d).1
  unfolding record_receipt
  record_receipt-Still d now by fingerprint result h = elim (Bool-cases (is_owner by d.head)) [
    | inr other ↦ rw (other, record_receipt) (refl, λ v row e. e)
    | inl owns ↦ elim (Option-cases (lookup d.receipts (result_id result))) [
      | inr (prior, e) ↦ rw (owns, e, record_receipt) (refl, λ v row e. e)
      | inl new ↦ rw (owns, new, record_receipt) (refl, λ v row e. e)
    ]
  ]

  transact-Still :
      (d : Document) (t : Transaction)
      → IsWellFormed d
      → IsOther t
      → IsKeeping t
      → Still d (transact d t)
  unfolding transact claim_ownership save_snapshot
  transact-Still d (committing now q) w other keeping h =
      rw (commit-Untouched d now q w h.2) (refl, λ v row e. e)
  transact-Still d (claiming instance_id) w other keeping h = (refl, λ v row e. e)
  transact-Still d (recording now by fingerprint result) w other keeping h =
      record_receipt-Still d now by fingerprint result h
  transact-Still d (migrating q) w other keeping h =
      rw (migrate_document-foreign d q other h.0) (refl, λ v row e. e)
  transact-Still d (saving version schema state) w other keeping h =
      (refl, save_snapshot-found d w version schema state)
  transact-Still d (compacting now policy) w other keeping h = elim keeping [ ]

  pub transact_all-Still :
      (d : Document) (ts : List Transaction)
      → IsWellFormed d
      → IsHonestRun d ts
      → All IsOther ts
      → All IsKeeping ts
      → Still d (transact_all d ts)
  unfolding transact_all
  transact_all-Still d [] w honest other keeping h = (refl, λ v row e. e)
  transact_all-Still d (t ∷ ts) w honest other keeping h =
      let first = transact-Drift d t w honest.0 other.0 in
      let rest = transact_all-Drift (transact d t) ts first.in_order honest.1 other.1 in
      let parts = between d (transact d t) _ first rest h in
      let a = transact-Still d t w other.0 keeping.0 parts.0 in
      let b =
        transact_all-Still (transact d t) ts first.in_order honest.1 other.1 keeping.1 parts.1 in
      (b.0 ∙ a.0, λ v row e. b.1 v row (a.1 v row e))
