-- ===== src/Distributed/Database/Receipts.antt =====
-- Receipts of packages/server-distributed/src/postgres-store.ts: an operation is committed once.
use collabhub.Prelude.{
  ℕ, ◌+◌, Text, ◌≡◌, refl, sym, subst, true, not, none, some, List, [], ◌∷◌, ◌==◌, ◌===◌, lookup,
  any, All, ◌||◌, ===-refl, lookup-insert_new, lookup-insert, Bool-cases, Option-cases, inl, inr,
}
use collabhub.Errors.{ok, Result-cases, Ensures-ok}
use collabhub.Protocol.Messages.{OperationResult, Accepted, accepted, Canonical}
use collabhub.ServerCore.Session.{mark_duplicate}
use collabhub.Distributed.Rows.{
  Document, Owner, CommitRequest, committed, duplicate, ReceiptRow, MigrationRequest, is_owner,
  insert_wal,
}
use collabhub.Distributed.Store.{
  commit, accepted_result, write_commit, wal_row, claim_ownership, record_receipt, migrate_document,
  save_snapshot, result_id, receipt, is_history,
}
use collabhub.Distributed.Store.Restoring.{IsWellFormed, IsCommit, commit-IsCommit}
use collabhub.Distributed.Database.Transactions.{
  Transaction, committing, claiming, recording, migrating, saving, compacting, transact,
  transact_all, rows_after,
}

module _ (d : Document) (id : Text) (r : ReceiptRow) (known : lookup d.receipts id ≡ some r) where
  abbrev Knows : Document → Type 0
  Knows next = lookup next.receipts id ≡ some r

  record_receipt-Knows :
      (now : ℕ) (owner : Owner) (fingerprint : Text) (result : OperationResult)
      → Knows (record_receipt now owner fingerprint result d).1
  unfolding record_receipt
  record_receipt-Knows now owner fingerprint result = elim (Bool-cases (is_owner owner d.head)) [
    | inr foreign ↦ rw (foreign, record_receipt) known
    | inl owns ↦ elim (Option-cases (lookup d.receipts (result_id result))) [
      | inr (prior, e) ↦ rw (owns, e, record_receipt) known
      | inl new ↦
          rw (owns, new, record_receipt)
            (lookup-insert_new d.receipts (result_id result) id _ r new known)
    ]
  ]

  write_commit-Knows :
      (now : ℕ) (q : CommitRequest)
      → lookup d.receipts q.operation.operation_id ≡ none
      → Knows (rows_after d (write_commit now q d))
  unfolding write_commit
  write_commit-Knows now q new =
      elim (Result-cases (insert_wal (wal_row (d.head.canonical_version + 1) q) d.wal)) [
        | inr (m, e) ↦ rw e known
        | inl (wal, e) ↦
            rw e (lookup-insert_new d.receipts q.operation.operation_id id _ r new known)
      ]

  commit-Knows : (now : ℕ) (q : CommitRequest) → Knows (rows_after d (commit now q d))
  unfolding commit
  commit-Knows now q = elim (Option-cases (lookup d.receipts q.operation.operation_id)) [
    | inr (prior, e) ↦ rw (e, commit) known
    | inl new ↦ elim (Bool-cases (is_owner q.owner d.head)) [
      | inr foreign ↦ rw (new, foreign, commit) known
      | inl owns ↦ elim (Bool-cases (d.head.canonical_version == q.resolved_at_version)) [
        | inr stale ↦ rw (new, owns, stale, commit) known
        | inl current ↦ rw (new, owns, current, commit) (write_commit-Knows now q new)
      ]
    ]
  ]

  migrate_document-Knows : (q : MigrationRequest) → Knows (rows_after d (migrate_document q d))
  unfolding migrate_document
  migrate_document-Knows q = elim (Bool-cases (is_owner q.owner d.head)) [
    | inr foreign ↦ rw (foreign, migrate_document) known
    | inl owns ↦
        elim (Bool-cases (
          not (d.head.canonical_version == q.version)
          || not (d.head.schema_version === q.from_schema_version))) [
            | inl other ↦ rw (owns, other, migrate_document) known
            | inr same ↦
                elim (Bool-cases
                  (any (is_history q.version q.to_schema_version) d.schema_history)) [
                    | inl clash ↦ rw (owns, same, clash, migrate_document) known
                    | inr clear ↦ rw (owns, same, clear, migrate_document) known
                  ]
          ]
  ]

-- No compaction, which deletes old receipts
abbrev pub IsKeeping : Transaction → Type 0
IsKeeping (compacting now policy) = ⊥
IsKeeping t = Unit

transact-Knows :
    (d : Document) (id : Text) (r : ReceiptRow) (t : Transaction)
    → lookup d.receipts id ≡ some r
    → IsKeeping t
    → lookup (transact d t).receipts id ≡ some r
unfolding transact claim_ownership save_snapshot
transact-Knows d id r (committing now q) known h = commit-Knows d id r known now q
transact-Knows d id r (claiming instance_id) known h = known
transact-Knows d id r (recording now owner fingerprint result) known h =
    record_receipt-Knows d id r known now owner fingerprint result
transact-Knows d id r (migrating q) known h = migrate_document-Knows d id r known q
transact-Knows d id r (saving version schema state) known h = known
transact-Knows d id r (compacting now policy) known h = elim h [ ]

transact_all-Knows :
    (d : Document) (id : Text) (r : ReceiptRow) (ts : List Transaction)
    → lookup d.receipts id ≡ some r
    → All IsKeeping ts
    → lookup (transact_all d ts).receipts id ≡ some r
unfolding transact_all
transact_all-Knows d id r [] known h = known
transact_all-Knows d id r (t ∷ ts) known h =
    transact_all-Knows (transact d t) id r ts (transact-Knows d id r t known h.0) h.1

-- An operation that is committed is never committed again: whatever transactions follow, but for
-- compactions, a request with its id and fingerprint is answered as a duplicate with the version of the
-- first commit, and leaves the rows as they are.
pub commit-once :
    (d next : Document) (now later : ℕ) (q again : CommitRequest) (a : Accepted) (e : Canonical)
    (ts : List Transaction)
    → IsWellFormed d
    → commit now q d ≡ ok (committed a e, next)
    → All IsKeeping ts
    → again.operation.operation_id ≡ q.operation.operation_id
    → again.fingerprint ≡ q.fingerprint
    → commit later again (transact_all next ts)
      ≡ ok (duplicate (accepted (record a { duplicate = true })), transact_all next ts)
unfolding commit mark_duplicate
commit-once d next now later q again a e ts w first kept same_id same_print =
    rw (same_id, known, same_print, ===-refl q.fingerprint, commit) refl
  where
    did : IsCommit now d q (committed a e, next)
    did =
        Ensures-ok (IsCommit now d q) (commit now q d) (committed a e, next) first
          (commit-IsCommit now q d w)

    at_first :
        lookup next.receipts q.operation.operation_id
        ≡ some (receipt now q.fingerprint (accepted a))
    at_first =
        subst
          (λ (n : Document).
            lookup n.receipts q.operation.operation_id
            ≡ some (receipt now q.fingerprint (accepted a)))
          (sym did.5)
          (rw
            (
              lookup-insert d.receipts q.operation.operation_id q.operation.operation_id (
                  receipt now q.fingerprint
                    (accepted (accepted_result (d.head.canonical_version + 1) q))),
              ===-refl q.operation.operation_id,
              did.0,
            )
            refl)

    known :
        lookup (transact_all next ts).receipts q.operation.operation_id
        ≡ some (receipt now q.fingerprint (accepted a))
    known = transact_all-Knows next q.operation.operation_id _ ts at_first kept
