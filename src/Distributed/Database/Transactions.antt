-- ===== src/Distributed/Database/Transactions.antt =====
-- The transactions of packages/server-distributed/src/postgres-store.ts on a room's rows, by whomever, and
-- what they are to those who load the room: a version, a state, an owner.
use collabhub.Prelude.{ℕ, ◌+◌, Text, ◌≡◌, true, Option, none, some, List, [], ◌∷◌, find}
use collabhub.Errors.{Message, Result, ok, throws, ◌>>=◌}
use collabhub.Protocol.Json.{Fields}
use collabhub.Protocol.Messages.{Patch, OperationResult}
use collabhub.DomainJson.Patches.{apply_canonical_patches}
use collabhub.Distributed.Rows.{
  SnapshotRow, Document, Owner, CommitRequest, MigrationRequest, RetentionPolicy, of_version,
}
use collabhub.Distributed.Store.{
  claim_ownership, record_receipt, commit, migrate_document, save_snapshot, takes_snapshot,
  apply_wal,
}
use collabhub.Distributed.Store.Runs.{is_upto}
use collabhub.Distributed.Store.Restoring.{restore, behind}
use collabhub.Distributed.Database.{compact_document}
use collabhub.Prelude.{keep}

pub data Transaction : Type 0 where
  committing : (now : ℕ) → CommitRequest → Transaction
  claiming : (instance_id : Text) → Transaction
  recording : (now : ℕ) → Owner → (fingerprint : Text) → OperationResult → Transaction
  migrating : MigrationRequest → Transaction
  saving : (version : ℕ) (schema_version : Text) → Fields → Transaction
  compacting : (now : ℕ) → RetentionPolicy → Transaction

-- The rows after a transaction, which are those before it where it throws
abbrev pub rows_after {ℓ} : {A : Type ℓ} → Document → Result (A × Document) → Document
rows_after d (ok (a, next)) = next
rows_after d (throws m) = d

unfoldable pub transact : Document → Transaction → Document
transact d (committing now q) = rows_after d (commit now q d)
transact d (claiming instance_id) = (claim_ownership instance_id d).1
transact d (recording now owner fingerprint result) =
    (record_receipt now owner fingerprint result d).1
transact d (migrating q) = rows_after d (migrate_document q d)
transact d (saving version schema state) = save_snapshot version schema state d
transact d (compacting now policy) = compact_document now policy d

unfoldable pub transact_all : Document → List Transaction → Document
transact_all d [] = d
transact_all d (t ∷ ts) = transact_all (transact d t) ts

-- A room as those who load it see it.
pub record View : Type 0 where
  pub version : ℕ
  pub schema_version : Text
  pub owner_epoch : ℕ
  pub owner_instance_id : Option Text
  pub state : Result Fields

abbrev pub view : Document → View
view d = record {
  version = d.head.canonical_version;
  schema_version = d.head.schema_version;
  owner_epoch = d.head.owner_epoch;
  owner_instance_id = d.head.owner_instance_id;
  state = restore d;
}

-- The steps of a room that the store promises: nothing, a new owner with a new epoch, one version
-- more by its patches, or another schema's state.
pub data Advance (v w : View) : Type 0 where
  unchanged : w ≡ v → Advance v w
  claimed :
      (instance_id : Text)
      → w ≡ record v { owner_epoch = v.owner_epoch + 1; owner_instance_id = some instance_id }
      → Advance v w
  advanced :
      (patches : List Patch)
      → w ≡ record v {
        version = v.version + 1;
        state = v.state >>= λ s. apply_canonical_patches s patches;
      }
      → Advance v w
  replaced :
      (schema : Text) (state : Fields)
      → w ≡ record v { schema_version = schema; state = ok state }
      → Advance v w

-- What a load found at a version between the snapshot's and the head's
abbrev pub restore_from : ℕ → Document → Option SnapshotRow → Result Fields
restore_from version d none = throws Message.snapshot_pointer_invalid
restore_from version d (some row) = apply_wal row.state (keep (is_upto version) (behind d))

abbrev pub restore_at : ℕ → Document → Result Fields
restore_at version d =
    restore_from version d (find (of_version d.head.snapshot_version) d.snapshots)

-- A snapshot that is taken is one of the state at its version, also where a row of that version is
-- there already.
abbrev pub IsHonest : Document → Transaction → Type 0
IsHonest d (saving version schema state) =
    takes_snapshot version schema d.head ≡ true
    → (restore_at version d ≡ ok state)
      × ((row : SnapshotRow) → find (of_version version) d.snapshots ≡ some row → row.state ≡ state)
IsHonest d t = Unit

abbrev pub IsHonestRun : Document → List Transaction → Type 0
IsHonestRun d [] = Unit
IsHonestRun d (t ∷ ts) = IsHonest d t × IsHonestRun (transact d t) ts
