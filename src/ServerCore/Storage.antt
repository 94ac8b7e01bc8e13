-- ===== src/ServerCore/Storage.antt =====
-- StoredSnapshot, WalRecord, StorageAdapter and InMemoryStorageAdapter of
-- packages/server-core/src/index.ts.
pub mod Keys
use collabhub.Prelude.{
  ℕ, Text, ◌≡◌, Bool, Option, none, some, List, [], ◌∷◌, ◌++◌, ltb, keep, Dictionary, lookup,
  insert, erase, true,
}
use collabhub.Protocol.Json.{Fields}
use collabhub.Protocol.Messages.{Operation, Patch, SnapshotRef}

pub record StoredSnapshot : Type 0 where
  pub tenant_id : Text
  pub document_id : Text
  pub version : ℕ
  pub schema_version : Text
  pub state : Fields
  pub snapshot_ref : SnapshotRef

pub record WalRecord : Type 0 where
  pub tenant_id : Text
  pub document_id : Text
  pub version : ℕ
  pub operation : Operation
  pub patches : List Patch
  pub committed_at : Text

-- InMemoryStorageAdapter
pub record Storage : Type 0 where
  pub snapshots : Dictionary StoredSnapshot
  pub wal : Dictionary (List WalRecord)

abbrev pub empty_storage : Storage
empty_storage = record { snapshots = []; wal = [] }

-- `${tenantId}\u0000${documentId}`
unfoldable pub storage_key : Text → Text → Text
storage_key tenant document = tenant ++ 0 ∷ document

unfoldable pub load_snapshot : Storage → Text → Text → Option StoredSnapshot
load_snapshot s tenant document = lookup s.snapshots (storage_key tenant document)

abbrev or_nil {ℓ} : {A : Type ℓ} → Option (List A) → List A
or_nil none = []
or_nil (some xs) = xs

unfoldable pub wal_of : Storage → Text → List WalRecord
wal_of s key = or_nil (lookup s.wal key)

-- `after` is the version that the records are to be above; `none` is -1.
abbrev is_after : Option ℕ → WalRecord → Bool
is_after none r = true
is_after (some v) r = ltb v r.version

unfoldable pub load_wal : Storage → Text → Text → Option ℕ → List WalRecord
load_wal s tenant document after = keep (is_after after) (wal_of s (storage_key tenant document))

unfoldable pub append_wal : Storage → WalRecord → Storage
append_wal s r =
    let key = storage_key r.tenant_id r.document_id in
    record s { wal = insert s.wal key (wal_of s key ++ r ∷ []) }

unfoldable pub save_snapshot : Storage → StoredSnapshot → Storage
save_snapshot s snapshot = record s {
  snapshots = insert s.snapshots (storage_key snapshot.tenant_id snapshot.document_id) snapshot;
}

unfoldable pub delete_document : Storage → Text → Text → Storage
delete_document s tenant document =
    let key = storage_key tenant document in
    record { snapshots = erase s.snapshots key; wal = erase s.wal key }
