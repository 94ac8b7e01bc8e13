-- ===== src/Distributed/Store/Restoring.antt =====
-- What a room of packages/server-distributed/src/postgres-store.ts is, to those who load it: the
-- snapshot that the head points to, with the log behind it applied.
use collabhub.Prelude.{
  ℕ, ◌+◌, ◌≤◌, ◌≡◌, refl, subst, true, false, none, some, List, [], ◌∷◌, ◌++◌, ◌==◌, ==_iff, lt→ltb,
  ◌===◌, find, keep, any, lookup, insert, arith, Bool-cases, Option-cases, inl, inr,
}
use collabhub.Errors.{Result, ok, throws, ◌>>=◌, Ensures}
use collabhub.Protocol.Json.{Fields}
use collabhub.Protocol.Messages.{accepted}
use collabhub.DomainJson.Patches.{apply_canonical_patches}
use collabhub.ServerCore.Session.{mark_duplicate}
use collabhub.Distributed.Rows.{
  LoadedRoom, SnapshotRow, WalRow, ReceiptRow, Document, CommitRequest, CommitOutcome, committed,
  duplicate, collision, is_owner, of_version, insert_wal, wal_conflict,
}
use collabhub.Distributed.Store.{
  is_newer, wal_after, load_room, apply_wal, loaded_state, receipt, wal_row, accepted_result,
  committed_event, write_commit, commit,
}
use collabhub.Distributed.Store.Runs.{
  keep-append, IsRun, IsRun-append, IsRun-sorted, IsRun-newer, apply_wal-append,
}

-- loadRoom with no one in between, and the log applied
abbrev pub restore : Document → Result Fields
restore d = load_room d d d >>= loaded_state

-- The log has no gap up to the head's version, and reaches back to the snapshot that the head
-- points to, which is there.
pub record IsWellFormed (d : Document) : Type 0 where
  pub base : ℕ
  pub reaches : base ≤ d.head.snapshot_version
  pub below : d.head.snapshot_version ≤ d.head.canonical_version
  pub run : IsRun base d.wal d.head.canonical_version
  pub row : SnapshotRow
  pub pointed : find (of_version d.head.snapshot_version) d.snapshots ≡ some row

abbrev pub behind : Document → List WalRow
behind d = keep (is_newer d.head.snapshot_version) d.wal

abbrev pub loaded : Document → SnapshotRow → LoadedRoom
loaded d row = record {
  schema_version = d.head.schema_version;
  version = d.head.canonical_version;
  owner_epoch = d.head.owner_epoch;
  owner_instance_id = d.head.owner_instance_id;
  snapshot_version = d.head.snapshot_version;
  state = row.state;
  wal = behind d;
}

-- The log behind the snapshot is a run in order.
pub behind-IsRun :
    (d : Document) (w : IsWellFormed d)
    → IsRun d.head.snapshot_version (behind d) d.head.canonical_version
behind-IsRun d w =
    IsRun-newer w.base d.wal d.head.canonical_version d.head.snapshot_version w.run w.reaches
      w.below

module _ (d : Document) (row : SnapshotRow)
    (pointed : find (of_version d.head.snapshot_version) d.snapshots ≡ some row)
    (run : IsRun d.head.snapshot_version (behind d) d.head.canonical_version) where
  pub wal_after-behind : wal_after d.head.snapshot_version d ≡ behind d
  unfolding wal_after
  wal_after-behind = IsRun-sorted d.head.snapshot_version (behind d) d.head.canonical_version run

  pub load_room_lem : load_room d d d ≡ ok (loaded d row)
  unfolding load_room
  load_room_lem = rw (pointed, wal_after-behind, load_room) refl

  pub restore_lem : restore d ≡ apply_wal row.state (behind d)
  unfolding loaded_state
  restore_lem = rw load_room_lem refl

-- The rows after the writes of a commit
abbrev pub written : ℕ → CommitRequest → Document → Document
written now q d =
    let version = d.head.canonical_version + 1 in
    record d {
      head = record (d.head) { canonical_version = version };
      wal = d.wal ++ wal_row version q ∷ [];
      receipts =
          insert d.receipts q.operation.operation_id
            (receipt now q.fingerprint (accepted (accepted_result version q)));
    }

-- What a commit's outcome says of the rows before and after it.
abbrev pub IsCommit : ℕ → Document → CommitRequest → CommitOutcome × Document → Type 0
IsCommit now d q (committed a e, next) =
    let version = d.head.canonical_version + 1 in
    (a ≡ accepted_result version q)
    × (e ≡ committed_event version q)
    × (lookup d.receipts q.operation.operation_id ≡ none)
    × (is_owner q.owner d.head ≡ true)
    × (d.head.canonical_version ≡ q.resolved_at_version)
    × (next ≡ written now q d)
    × (restore next ≡ (restore d >>= λ s. apply_canonical_patches s q.patches))
IsCommit now d q (duplicate r, next) =
    (next ≡ d)
    × (prior : ReceiptRow) × (lookup d.receipts q.operation.operation_id ≡ some prior)
    × (prior.fingerprint === q.fingerprint ≡ true)
    × (r ≡ mark_duplicate prior.result)
IsCommit now d q (collision version, next) =
    (next ≡ d)
    × (version ≡ d.head.canonical_version)
    × (prior : ReceiptRow) × (lookup d.receipts q.operation.operation_id ≡ some prior)
    × (prior.fingerprint === q.fingerprint ≡ false)
IsCommit now d q (CommitOutcome.fenced version, next) =
    (next ≡ d) × (version ≡ d.head.canonical_version) × (is_owner q.owner d.head ≡ false)
IsCommit now d q (CommitOutcome.version_conflict version, next) =
    (next ≡ d)
    × (version ≡ d.head.canonical_version)
    × (d.head.canonical_version == q.resolved_at_version ≡ false)

pure : (r : Result Fields) → (r >>= λ u. ok u) ≡ r
pure (ok t) = refl
pure (throws m) = refl

module _ (now : ℕ) (q : CommitRequest) (d : Document) (w : IsWellFormed d) where
  pub written-IsWellFormed : IsWellFormed (written now q d)
  written-IsWellFormed = record {
    base = w.base;
    reaches = w.reaches;
    below = omega (arith, w.below);
    run =
        subst (IsRun w.base (d.wal ++ wal_row (d.head.canonical_version + 1) q ∷ [])) (omega arith)
          (IsRun-append w.base d.wal d.head.canonical_version _ w.run (omega arith));
    row = w.row;
    pointed = w.pointed;
  }

  behind-written :
      behind (written now q d) ≡ behind d ++ wal_row (d.head.canonical_version + 1) q ∷ []
  unfolding keep
  behind-written =
      rw
        (
          keep-append (is_newer d.head.snapshot_version) d.wal
              (wal_row (d.head.canonical_version + 1) q ∷ []),
          lt→ltb d.head.snapshot_version (d.head.canonical_version + 1) (omega (arith, w.below)),
        )
        refl

  pub restore-written :
      restore (written now q d) ≡ (restore d >>= λ s. apply_canonical_patches s q.patches)
  unfolding apply_wal
  restore-written =
      rw
        (
          restore_lem (written now q d) w.row w.pointed
              (behind-IsRun (written now q d) written-IsWellFormed),
          behind-written,
          apply_wal-append w.row.state (behind d) (wal_row (d.head.canonical_version + 1) q ∷ []),
          restore_lem d w.row w.pointed (behind-IsRun d w),
        )
        (last (apply_wal w.row.state (behind d)))
    where
      last :
          (r : Result Fields)
          → (r >>= λ t. apply_canonical_patches t q.patches >>= λ u. ok u)
            ≡ (r >>= λ s. apply_canonical_patches s q.patches)
      last (ok t) = pure (apply_canonical_patches t q.patches)
      last (throws m) = refl

  write_commit-IsCommit :
      lookup d.receipts q.operation.operation_id ≡ none
      → is_owner q.owner d.head ≡ true
      → d.head.canonical_version ≡ q.resolved_at_version
      → Ensures (IsCommit now d q) (write_commit now q d)
  unfolding write_commit insert_wal
  write_commit-IsCommit new owns current =
      elim (Bool-cases (any (wal_conflict (wal_row (d.head.canonical_version + 1) q)) d.wal)) [
        | inl clash ↦ rw clash tt
        | inr clear ↦ rw clear (refl, refl, new, owns, current, refl, restore-written)
      ]

  -- A commit returns the outcome that its checks call for. Only where none of them speaks does it
  -- change the rows: the version is one more, the operation joins the log and has a receipt of its
  -- acceptance, and a load finds the request's patches applied to what it found before.
  pub commit-IsCommit : Ensures (IsCommit now d q) (commit now q d)
  unfolding commit
  commit-IsCommit = elim (Option-cases (lookup d.receipts q.operation.operation_id)) [
    | inr (prior, e) ↦ elim (Bool-cases (prior.fingerprint === q.fingerprint)) [
      | inl same ↦ rw (e, same, commit) (refl, prior, e, same, refl)
      | inr other ↦ rw (e, other, commit) (refl, refl, prior, e, other)
    ]
    | inl new ↦ elim (Bool-cases (is_owner q.owner d.head)) [
      | inr foreign ↦ rw (new, foreign, commit) (refl, refl, foreign)
      | inl owns ↦ elim (Bool-cases (d.head.canonical_version == q.resolved_at_version)) [
        | inr stale ↦ rw (new, owns, stale, commit) (refl, refl, stale)
        | inl current ↦
            rw (new, owns, current, commit)
              (write_commit-IsCommit new owns
                ((==_iff d.head.canonical_version q.resolved_at_version).0 current))
      ]
    ]
  ]
