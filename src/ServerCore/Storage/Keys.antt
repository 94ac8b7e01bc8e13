-- ===== src/ServerCore/Storage/Keys.antt =====
-- The key of a document, and what an adapter keeps for one document while another is written.
use collabhub.Prelude.{
  ℕ, Text, ◌≡◌, ◌≢◌, refl, ap, true, Option, none, some, List, [], ◌∷◌, ◌++◌, arith, keep,
  lookup-insert, ===-refl, ===_iff, ◌===◌, All, if◌then◌else◌,
}
use collabhub.ServerCore.Storage.{
  StoredSnapshot, WalRecord, Storage, storage_key, load_snapshot, wal_of, load_wal, append_wal,
  save_snapshot,
}

-- Where no tenant holds the separator, a key stands for one tenant and one document.
pub storage_key_injective :
    (t u d e : Text)
    → All (λ c. c ≢ 0) t
    → All (λ c. c ≢ 0) u
    → storage_key t d ≡ storage_key u e
    → (t ≡ u) × (d ≡ e)
unfolding storage_key
storage_key_injective [] [] d e ht hu h = (refl, cc)
storage_key_injective [] (b ∷ u) d e ht hu h = absurd (hu.0 (ground arith))
storage_key_injective (a ∷ t) [] d e ht hu h = absurd (ht.0 (ground arith))
storage_key_injective (a ∷ t) (b ∷ u) d e ht hu h =
    let (p, q) = storage_key_injective t u d e ht.1 hu.1 (cc) in (cc, q)

-- A separator inside a tenant or a document moves the border between the two: two rooms then share
-- one key, and with it the snapshot and the log.
pub storage_key_collides :
    (t mid d : Text) → storage_key (t ++ 0 ∷ mid) d ≡ storage_key t (mid ++ 0 ∷ d)
unfolding storage_key
storage_key_collides [] mid d = refl
storage_key_collides (a ∷ t) mid d = ap (λ s. a ∷ s) (storage_key_collides t mid d)

wal_of-append :
    (s : Storage) (r : WalRecord) (key : Text)
    → wal_of (append_wal s r) key ≡ (
        if storage_key r.tenant_id r.document_id === key
        then wal_of s key ++ r ∷ []
        else wal_of s key)
unfolding append_wal wal_of
wal_of-append s r key =
    rw lookup-insert (ground (arith, ===_iff (storage_key r.tenant_id r.document_id) key))

module _ (tenant document : Text) where
  keep_all : (rs : List WalRecord) → keep (λ r. true) rs ≡ rs
  unfolding keep
  keep_all [] = refl
  keep_all (r ∷ rs) = rw (keep_all rs)

  load_wal_all :
      (s : Storage) → load_wal s tenant document none ≡ wal_of s (storage_key tenant document)
  unfolding load_wal
  load_wal_all s = keep_all (wal_of s (storage_key tenant document))

  pub load_wal-append_wal :
      (s : Storage) (r : WalRecord)
      → r.tenant_id ≡ tenant
      → r.document_id ≡ document
      → load_wal (append_wal s r) tenant document none ≡ load_wal s tenant document none ++ r ∷ []
  load_wal-append_wal s r et ed = rw (
    load_wal_all (append_wal s r),
    load_wal_all s,
    wal_of-append s r (storage_key tenant document),
    et,
    ed,
    ===-refl (storage_key tenant document),
  )

  pub load_snapshot-append_wal :
      (s : Storage) (r : WalRecord)
      → load_snapshot (append_wal s r) tenant document ≡ load_snapshot s tenant document
  unfolding load_snapshot append_wal
  load_snapshot-append_wal s r = refl

  pub load_wal-save_snapshot :
      (s : Storage) (p : StoredSnapshot) (after : Option ℕ)
      → load_wal (save_snapshot s p) tenant document after ≡ load_wal s tenant document after
  unfolding load_wal wal_of save_snapshot
  load_wal-save_snapshot s p after = refl

  pub load_snapshot-save_snapshot :
      (s : Storage) (p : StoredSnapshot)
      → p.tenant_id ≡ tenant
      → p.document_id ≡ document
      → load_snapshot (save_snapshot s p) tenant document ≡ some p
  unfolding load_snapshot save_snapshot
  load_snapshot-save_snapshot s p et ed =
      rw (lookup-insert, et, ed, ===-refl (storage_key tenant document))
