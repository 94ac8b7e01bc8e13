-- ===== src/Distributed/Database/Kept.antt =====
-- Each transaction of packages/server-distributed/src/postgres-store.ts keeps a room's rows in order, and is
-- one of the steps that the store promises.
use collabhub.Prelude.{
  ℕ, ◌≤◌, Text, ◌≡◌, refl, sym, ◌∙◌, subst, ap, Bool, true, ◌||◌, some, leb, ltb→lt, lt→ltb, leb→le,
  leb→lt, find, keep, arith, Bool-cases, inl, inr,
}
use collabhub.Distributed.Rows.{SnapshotRow, Document, RetentionPolicy, of_version}
use collabhub.Distributed.Store.{is_newer, claim_ownership}
use collabhub.Distributed.Store.Runs.{keep-keep, find-keep, IsRun, IsRun-newer, run-above}
use collabhub.Distributed.Store.Restoring.{restore, IsWellFormed, behind, behind-IsRun, restore_lem}
use collabhub.Distributed.Database.{compact_document, wal_floor, is_kept_wal, is_kept_snapshot}
use collabhub.Distributed.Database.Transactions.{view, Advance, unchanged, claimed}

-- What a step of a room leaves
abbrev pub Steps : Document → Document → Type 0
Steps d next = IsWellFormed next × Advance (view d) (view next)

-- Rows that a load shows alike
abbrev pub Keeps : Document → Document → Type 0
Keeps d next = IsWellFormed next × (view next ≡ view d)

pub Keeps-Steps : (d next : Document) → Keeps d next → Steps d next
Keeps-Steps d next h = (h.0, unchanged h.1)

pub stays : (d : Document) → IsWellFormed d → Steps d d
stays d w = (w, unchanged refl)

or_true : (a : Bool) → (a || true) ≡ true
or_true a = ground arith

-- The same snapshot and the same log behind it restore the same state.
pub same-restore :
    (d next : Document) (w : IsWellFormed d) (v : IsWellFormed next) (row : SnapshotRow)
    → find (of_version next.head.snapshot_version) next.snapshots ≡ some row
    → row.state ≡ w.row.state
    → behind next ≡ behind d
    → restore next ≡ restore d
same-restore d next w v row pointed state rows =
    restore_lem next row pointed (behind-IsRun next v)
    ∙ rw (state, rows) refl
    ∙ sym (restore_lem d w.row w.pointed (behind-IsRun d w))

module _ (d : Document) (w : IsWellFormed d) where
  -- Rows that restore the same state, and differ in nothing else that a load shows
  pub same-view :
      (next : Document)
      → record (view next) { state = restore d } ≡ view d
      → restore next ≡ restore d
      → view next ≡ view d
  same-view next same e = ap (λ s. record (view next) { state = s }) e ∙ same

  claimed_document : Text → Document
  claimed_document instance_id = (claim_ownership instance_id d).1

  claimed-IsWellFormed : (instance_id : Text) → IsWellFormed (claimed_document instance_id)
  unfolding claim_ownership claimed_document
  claimed-IsWellFormed instance_id = record {
    base = w.base;
    reaches = w.reaches;
    below = w.below;
    run = w.run;
    row = w.row;
    pointed = w.pointed;
  }

  pub claim_ownership-Steps : (instance_id : Text) → Steps d (claim_ownership instance_id d).1
  unfolding claim_ownership claimed_document
  claim_ownership-Steps instance_id = (
    claimed-IsWellFormed instance_id,
    claimed instance_id (
        ap (λ s. record (view (claimed_document instance_id)) { state = s })
          (same-restore d (claimed_document instance_id) w (claimed-IsWellFormed instance_id) w.row
            w.pointed refl refl)),
  )

  floor-le : (policy : RetentionPolicy) → wal_floor policy d.head ≤ d.head.snapshot_version
  floor-le policy = ground arith

  compacted_run :
      (floor : ℕ)
      → floor ≤ d.head.snapshot_version
      → (base : ℕ) × (base ≤ d.head.snapshot_version)
        × IsRun base (keep (is_newer floor) d.wal) d.head.canonical_version
  compacted_run floor le = elim (Bool-cases (leb w.base floor)) [
    | inl under ↦ (
      floor,
      le,
      IsRun-newer w.base d.wal d.head.canonical_version floor w.run (leb→le w.base floor under)
          (omega (arith, w.below)),
    )
    | inr over ↦ (
      w.base,
      w.reaches,
      subst (λ rows. IsRun w.base rows d.head.canonical_version)
          (sym (
            run-above w.base d.wal d.head.canonical_version floor w.run
              (omega (arith, leb→lt w.base floor over))))
          w.run,
    )
  ]

  module _ (now : ℕ) (policy : RetentionPolicy) where
    compacted : Document
    compacted = compact_document now policy d

    pointed-compacted : find (of_version d.head.snapshot_version) compacted.snapshots ≡ some w.row
    unfolding compact_document compacted
    pointed-compacted =
        find-keep (of_version d.head.snapshot_version) (is_kept_snapshot policy d) d.snapshots
          (λ r e. rw e (or_true _))
        ∙ w.pointed

    compacted-IsWellFormed : IsWellFormed compacted
    unfolding compact_document compacted
    compacted-IsWellFormed =
        let kept = compacted_run (wal_floor policy d.head) (floor-le policy) in
        record {
          base = kept.0;
          reaches = kept.1;
          below = w.below;
          run = kept.2;
          row = w.row;
          pointed = pointed-compacted;
        }

    behind-compacted : behind compacted ≡ behind d
    unfolding compact_document compacted
    behind-compacted =
        keep-keep (is_newer d.head.snapshot_version) (is_kept_wal policy d.head) d.wal λ r e.
          lt→ltb (wal_floor policy d.head) r.version
            (omega (arith, floor-le policy, ltb→lt d.head.snapshot_version r.version e))

    pub compact_document-Keeps : Keeps d (compact_document now policy d)
    unfolding compact_document compacted
    compact_document-Keeps = (
      compacted-IsWellFormed,
      same-view compacted refl (
          same-restore d compacted w compacted-IsWellFormed w.row pointed-compacted refl
            behind-compacted),
    )
