-- ===== src/Distributed/Worker/Receipts.antt =====
-- What stands behind the answers of packages/server-distributed/src/worker.ts.
use collabhub.Prelude.{
  ℕ, zero, suc, ◌+◌, ◌≡◌, refl, sym, ◌∙◌, ap, some, lookup, lookup-insert, ===-refl, ◌==◌, ◌===◌,
  ===_iff, Bool-cases, Option-cases, inl, inr,
}
use collabhub.Errors.{Result, ok, throws, unwrap, Result-cases, Ensures, Ensures-ok}
use collabhub.Protocol.Messages.{
  Operation, Rejected, Accepted, OperationResult, accepted, rejected, resync_required, retry_later,
}
use collabhub.ServerCore.Session.{mark_duplicate}
use collabhub.ServerCore.Pipeline.{PreparedOperation, PrepareResult, prepare}
use collabhub.ServerCore.Pipeline.Prepared.{prepare-rejected}
use collabhub.Distributed.Rows.{
  Document, ReceiptRow, CommitOutcome, committed, duplicate, collision, ReceiptOutcome, stored,
  exists, CommitRequest, insert_wal, is_owner,
}
use collabhub.Distributed.Store.{commit, write_commit, lookup_receipt, receipt, wal_row}
use collabhub.Distributed.Worker.{
  WorkerOptions, WarmRoom, Others, Turn, reloaded, at_wal, prepare_input, commit_request,
  after_receipt, persist_rejection, after_commit, after_reload, attempt, process_operation,
}

-- An acceptance of an operation that its room's receipts hold, of the same payload
abbrev pub IsBacked : WorkerOptions → Operation → Accepted → Document → Type 0
IsBacked o op a d =
    (r : ReceiptRow) × (lookup d.receipts op.operation_id ≡ some r)
    × (r.fingerprint ≡ o.fingerprint op)
    × (mark_duplicate r.result ≡ mark_duplicate (accepted a))

mark_duplicate-twice : (r : OperationResult) → mark_duplicate (mark_duplicate r) ≡ mark_duplicate r
unfolding mark_duplicate
mark_duplicate-twice (accepted a) = refl
mark_duplicate-twice (rejected r) = refl
mark_duplicate-twice (resync_required r) = refl
mark_duplicate-twice (retry_later r) = refl

-- The receipt behind the outcome of a commit
abbrev IsReceipt : ℕ → CommitRequest → CommitOutcome × Document → Type 0
IsReceipt now q (committed a e, next) =
    lookup next.receipts q.operation.operation_id ≡ some (receipt now q.fingerprint (accepted a))
IsReceipt now q (duplicate r, next) =
    (prior : ReceiptRow) × (lookup next.receipts q.operation.operation_id ≡ some prior)
    × (prior.fingerprint ≡ q.fingerprint)
    × (r ≡ mark_duplicate prior.result)
IsReceipt now q (_, next) = Unit

module _ (now : ℕ) (q : CommitRequest) (d : Document) where
  write_commit-IsReceipt : Ensures (IsReceipt now q) (write_commit now q d)
  unfolding write_commit
  write_commit-IsReceipt =
      elim (Result-cases (insert_wal (wal_row (d.head.canonical_version + 1) q) d.wal)) [
        | inr (m, e) ↦ rw e tt
        | inl (wal, e) ↦
            rw
              (
                e,
                lookup-insert d.receipts q.operation.operation_id q.operation.operation_id _,
                ===-refl q.operation.operation_id,
              )
              refl
      ]

  commit-IsReceipt : Ensures (IsReceipt now q) (commit now q d)
  unfolding commit
  commit-IsReceipt = elim (Option-cases (lookup d.receipts q.operation.operation_id)) [
    | inr (prior, e) ↦ elim (Bool-cases (prior.fingerprint === q.fingerprint)) [
      | inl same ↦
          rw (e, same, commit) (prior, e, (===_iff prior.fingerprint q.fingerprint).0 same, refl)
      | inr other ↦ rw (e, other, commit) tt
    ]
    | inl new ↦ elim (Bool-cases (is_owner q.owner d.head)) [
      | inr foreign ↦ rw (new, foreign, commit) tt
      | inl owns ↦ elim (Bool-cases (d.head.canonical_version == q.resolved_at_version)) [
        | inr stale ↦ rw (new, owns, stale, commit) tt
        | inl current ↦ rw (new, owns, current, commit) write_commit-IsReceipt
      ]
    ]
  ]

module _ (o : WorkerOptions) (others : Others) (now : ℕ) (op : Operation) where
  -- Whatever a turn accepts is backed by its rows.
  abbrev Backs : Turn → Type 0
  Backs t = (a : Accepted) → t.result ≡ ok (accepted a) → IsBacked o op a t.rows

  no_rejection :
      (r : Rejected) (a : Accepted)
      → Path (Result OperationResult) (ok (rejected r)) (ok (accepted a))
      → ⊥
  no_rejection r a e = cc

  after_receipt-Backs :
      (call : ℕ) (s : WarmRoom) (r : Rejected) (outcome : ReceiptOutcome) (d : Document)
      → r.operation_id ≡ op.operation_id
      → Backs (after_receipt o others call s op r outcome d)
  unfolding after_receipt lookup_receipt
  after_receipt-Backs call s r ReceiptOutcome.fenced d same = λ a e. cc
  after_receipt-Backs call s r stored d same = λ a e. cc
  after_receipt-Backs call s r exists d same =
      elim (Option-cases (lookup (others call d).receipts r.operation_id)) [
        | inl no_receipt ↦ rw (no_receipt, after_receipt) (λ a e. absurd (no_rejection _ a e))
        | inr (prior, found) ↦ elim (Bool-cases (prior.fingerprint === o.fingerprint op)) [
          | inr other ↦ rw (found, other, after_receipt) (λ a e. absurd (no_rejection _ a e))
          | inl payload ↦
              rw (found, payload, after_receipt)
                λ a e. (
                  prior,
                  rw same at found,
                  (===_iff prior.fingerprint (o.fingerprint op)).0 payload,
                  ap mark_duplicate (unwrap e),
                )
        ]
      ]

  persist_rejection-Backs :
      (call : ℕ) (s : WarmRoom) (d : Document) (r : Rejected)
      → r.operation_id ≡ op.operation_id
      → Backs (persist_rejection o others now call s d op r)
  unfolding persist_rejection
  persist_rejection-Backs call s d r same = after_receipt-Backs (suc call) s r _ _ same

  after_reload-Backs :
      (r : Result WarmRoom) (s : WarmRoom) (d : Document) (next : WarmRoom → Turn)
      → ((t : WarmRoom) → Backs (next t))
      → Backs (after_reload r s d next)
  unfolding after_reload
  after_reload-Backs (throws m) s d next h = λ a e. cc
  after_reload-Backs (ok t) s d next h = h t

  after_commit-Backs :
      (s : WarmRoom) (p : PreparedOperation) (outcome : CommitOutcome) (d : Document) (retry : Turn)
      → IsReceipt now (commit_request o s op p) (outcome, d)
      → Backs retry
      → Backs (after_commit o s op p outcome d retry)
  unfolding after_commit
  after_commit-Backs s p (committed b e) d retry h again =
      λ a e. (_, h, refl, ap mark_duplicate (unwrap e))
  after_commit-Backs s p (duplicate r) d retry h again = λ a e. (
    h.0,
    h.1,
    h.2,
    sym (mark_duplicate-twice h.0.result) ∙ ap mark_duplicate (sym h.3 ∙ unwrap e),
  )
  after_commit-Backs s p (collision v) d retry h again = λ a e. cc
  after_commit-Backs s p (CommitOutcome.fenced v) d retry h again = λ a e. cc
  after_commit-Backs s p (CommitOutcome.version_conflict v) d retry h again = again

  attempt-by :
      (left call : ℕ) (s : WarmRoom) (d : Document) (r : PrepareResult)
      → ((t : WarmRoom) (next : Document) → Backs (attempt o others now left (call + 4) t next op))
      → prepare o.pipeline (prepare_input o s op) ≡ r
      → Backs (attempt o others now (suc left) call s d op)
  unfolding attempt
  attempt-by left call s d (PrepareResult.rejected r) rest e =
      rw (e, attempt)
        (persist_rejection-Backs call s d r
          (prepare-rejected o.pipeline (prepare_input o s op) r e))
  attempt-by left call s d (PrepareResult.resync r) rest e = rw (e, attempt) (λ a f. cc)
  attempt-by left call s d (PrepareResult.prepared p) rest e =
      elim (Result-cases (commit now (commit_request o s op p) (others call d))) [
        | inr (m, c) ↦ rw (e, c, attempt) (λ a f. cc)
        | inl ((outcome, next), c) ↦
            rw (e, c, attempt)
              (after_commit-Backs s p outcome next _
                (Ensures-ok (IsReceipt now (commit_request o s op p)) _ (outcome, next) c
                  (commit-IsReceipt now (commit_request o s op p) (others call d)))
                (after_reload-Backs (reloaded others (call + 1) s next) s
                  (at_wal others (call + 1) next) _ (λ t. rest t (at_wal others (call + 1) next))))
      ]

  attempt-Backs :
      (left call : ℕ) (s : WarmRoom) (d : Document) → Backs (attempt o others now left call s d op)
  unfolding attempt
  attempt-Backs zero call s d = λ a e. cc
  attempt-Backs (suc left) call s d =
      attempt-by left call s d (prepare o.pipeline (prepare_input o s op))
        (λ t next. attempt-Backs left (call + 4) t next) refl

-- An operation that a turn answers as accepted, at once or as a duplicate, has a receipt of its payload and of
-- that acceptance among the rows, whatever others do to them.
pub process_operation-IsBacked :
    (o : WorkerOptions) (others : Others) (now : ℕ) (op : Operation) (s : WarmRoom) (d : Document)
    (a : Accepted)
    → (process_operation o others now s d op).result ≡ ok (accepted a)
    → IsBacked o op a (process_operation o others now s d op).rows
unfolding process_operation lookup_receipt
process_operation-IsBacked o others now op s d =
    elim (Option-cases (lookup (others 0 d).receipts op.operation_id)) [
      | inl unknown ↦
          rw (unknown, process_operation) (attempt-Backs o others now op 2 1 s (others 0 d))
      | inr (prior, found) ↦ elim (Bool-cases (prior.fingerprint === o.fingerprint op)) [
        | inr other ↦
            rw (found, other, process_operation)
              (λ a e. absurd (no_rejection o others now op _ a e))
        | inl same ↦
            rw (found, same, process_operation)
              λ a e. (
                prior,
                found,
                (===_iff prior.fingerprint (o.fingerprint op)).0 same,
                sym (mark_duplicate-twice prior.result) ∙ ap mark_duplicate (unwrap e),
              )
      ]
    ]
