-- ===== src/Distributed/Worker/Turns.antt =====
-- A turn of packages/server-distributed/src/worker.ts, while others change the rows between its calls of
-- the store.
use collabhub.Prelude.{
  ℕ, zero, suc, ◌+◌, ◌≡◌, refl, sym, ◌∙◌, subst, Bool, true, ◌||◌, List, ◌==◌, All, Option-cases,
  inl, inr,
}
use collabhub.Errors.{ok, Result-cases, Ensures-ok}
use collabhub.Protocol.Json.{Value}
use collabhub.Protocol.Messages.{Operation, Rejected}
use collabhub.Protocol.Envelope.{assert_operation_envelope}
use collabhub.ServerCore.Pipeline.{PreparedOperation, PrepareResult, prepare}
use collabhub.ServerCore.Pipeline.Prepared.{IsPrepared, prepare-IsPrepared}
use collabhub.Distributed.Rows.{
  Document, Owner, CommitOutcome, committed, duplicate, collision, ReceiptOutcome, stored, exists,
}
use collabhub.Distributed.Store.{commit, lookup_receipt}
use collabhub.Distributed.Store.Restoring.{IsWellFormed, IsCommit, commit-IsCommit}
use collabhub.Distributed.Database.Transactions.{Transaction, transact_all, IsHonestRun}
use collabhub.Distributed.Database.Steps.{record_receipt-Keeps}
use collabhub.Distributed.Database.Receipts.{IsKeeping}
use collabhub.Distributed.Worker.{
  WorkerOptions, WarmRoom, Others, Turn, reloaded, at_head, at_snapshot, at_wal, prepare_input,
  commit_request, after_receipt, persist_rejection, after_commit, after_reload, attempt,
  process_operation, process,
}
use collabhub.Distributed.Worker.Drifts.{
  IsOther, Drift, Still, transact_all-Drift, transact_all-Still,
}
use collabhub.Distributed.Worker.Coherence.{
  IsCoherent, Drift-IsCoherent, Keeps-IsCoherent, Follows, commit-Follows, reload-IsCoherent,
}

-- The store's calls between the queries of a reload
abbrev pub is_reading : ℕ → Bool
is_reading call = call == 3 || call == 4 || call == 7 || call == 8

-- Others run transactions whose snapshots are of the state at their version. None migrates the room
-- under the owner's epoch, and none compacts it between the queries of a reload.
abbrev pub IsOthers : Owner → Others → Type 0
IsOthers owner others =
    (call : ℕ) (d : Document)
    → IsWellFormed d
    → (ts : List Transaction) × (others call d ≡ transact_all d ts)
      × IsHonestRun d ts
      × All (IsOther owner) ts
      × (is_reading call ≡ true → All IsKeeping ts)

module _ (o : WorkerOptions) (others : Others) (owner : Owner) (honest : IsOthers owner others)
    (now : ℕ) where
  pub others-Drift : (call : ℕ) (d : Document) → IsWellFormed d → Drift owner d (others call d)
  others-Drift call d w =
      let h = honest call d w in
      subst (Drift owner d) (sym h.1) (transact_all-Drift owner d h.0 w h.2 h.3)

  pub others-Still :
      (call : ℕ) (d : Document)
      → IsWellFormed d
      → is_reading call ≡ true
      → Still owner d (others call d)
  others-Still call d w reading =
      let h = honest call d w in
      subst (Still owner d) (sym h.1) (transact_all-Still owner d h.0 w h.2 h.3 (h.4 reading))

  -- A room of the owner, and rows that go with it
  abbrev Goes : WarmRoom → Document → Type 0
  Goes s d = IsCoherent s d × (s.owner ≡ owner)

  abbrev GoesOn : Turn → Type 0
  GoesOn t = Goes t.session t.rows

  others-Goes : (call : ℕ) (s : WarmRoom) (d : Document) → Goes s d → Goes s (others call d)
  others-Goes call s d h = (
    Drift-IsCoherent s d h.0 (others call d)
        (subst (λ w. Drift w d (others call d)) (sym h.1) (others-Drift call d h.0.in_order)),
    h.1,
  )

  after_receipt-Goes :
      (call : ℕ) (s : WarmRoom) (op : Operation) (r : Rejected) (outcome : ReceiptOutcome)
      (d : Document)
      → Goes s d
      → GoesOn (after_receipt o others call s op r outcome d)
  unfolding after_receipt
  after_receipt-Goes call s op r ReceiptOutcome.fenced d h = h
  after_receipt-Goes call s op r stored d h = h
  after_receipt-Goes call s op r exists d h =
      elim (Option-cases (lookup_receipt r.operation_id (others call d))) [
        | inl no_receipt ↦ rw (no_receipt, after_receipt) (others-Goes call s d h)
        | inr (prior, e) ↦ rw (e, after_receipt) (others-Goes call s d h)
      ]

  persist_rejection-Goes :
      (call : ℕ) (s : WarmRoom) (d : Document) (op : Operation) (r : Rejected)
      → Goes s d
      → GoesOn (persist_rejection o others now call s d op r)
  unfolding persist_rejection
  persist_rejection-Goes call s d op r h =
      let before = others-Goes call s d h in
      after_receipt-Goes (suc call) s op r _ _ (
        Keeps-IsCoherent s (others call d) before.0 _ (
            record_receipt-Keeps (others call d) before.0.in_order now s.owner (o.fingerprint op)
              _),
        h.1,
      )

  Drift-of : (s : WarmRoom) (call : ℕ) (d : Document) → Goes s d → Drift s.owner d (others call d)
  Drift-of s call d h =
      subst (λ w. Drift w d (others call d)) (sym h.1) (others-Drift call d h.0.in_order)

  Still-of :
      (s : WarmRoom) (call : ℕ) (d : Document)
      → Goes s d
      → is_reading call ≡ true
      → Still s.owner d (others call d)
  Still-of s call d h reading =
      subst (λ w. Still w d (others call d)) (sym h.1) (others-Still call d h.0.in_order reading)

  reloaded-Goes :
      (call : ℕ) (s t : WarmRoom) (d : Document)
      → is_reading (call + 1) ≡ true
      → is_reading (call + 2) ≡ true
      → Goes s d
      → reloaded others call s d ≡ ok t
      → Goes t (at_wal others call d)
  reloaded-Goes call s t d first second h e =
      let w0 = others-Goes call s d h in
      let w1 = others-Goes (call + 1) s _ w0 in
      let done =
        reload-IsCoherent s (at_head others call d) (at_snapshot others call d)
          (at_wal others call d) w0.0.in_order (Drift-of s (call + 1) _ w0)
          (Drift-of s (call + 2) _ w1) (Still-of s (call + 1) _ w0 first)
          (Still-of s (call + 2) _ w1 second) t w0.0.epoch e in
      (done.0, done.1 ∙ h.1)

  module _ (left call : ℕ) (op : Operation) (first : is_reading (call + 1 + 1) ≡ true)
      (second : is_reading (call + 1 + 2) ≡ true)
      (rest : (t : WarmRoom) (d : Document)
        → Goes t d
        → GoesOn (attempt o others now left (call + 4) t d op))
      (s : WarmRoom) where
    after_reload-Goes :
        (d : Document)
        → Goes s d
        → GoesOn (
            after_reload
              (reloaded others (call + 1) s d)
              s
              (at_wal others (call + 1) d)
              (λ t. attempt o others now left (call + 4) t (at_wal others (call + 1) d) op))
    unfolding after_reload
    after_reload-Goes d h = elim (Result-cases (reloaded others (call + 1) s d)) [
      | inr (m, e) ↦
          rw (e, after_reload)
            (others-Goes (call + 1 + 2) s _
              (others-Goes (call + 1 + 1) s _ (others-Goes (call + 1) s d h)))
      | inl (t, e) ↦
          rw (e, after_reload)
            (rest t (at_wal others (call + 1) d) (reloaded-Goes (call + 1) s t d first second h e))
    ]

    after_commit-Goes :
        (p : PreparedOperation) (d : Document) (h : Goes s d)
        (prepared : IsPrepared o.pipeline (prepare_input o s op) p) (outcome : CommitOutcome)
        (next : Document)
        → Follows s d h.0 o now op p prepared outcome next
        → GoesOn (
            after_commit o s op p outcome next (
              after_reload
                (reloaded others (call + 1) s next)
                s
                (at_wal others (call + 1) next)
                (λ t. attempt o others now left (call + 4) t (at_wal others (call + 1) next) op)))
    unfolding after_commit
    after_commit-Goes p d h prepared (committed a e) next f = (f, h.1)
    after_commit-Goes p d h prepared (duplicate r) next f = (f, h.1)
    after_commit-Goes p d h prepared (collision v) next f = (f, h.1)
    after_commit-Goes p d h prepared (CommitOutcome.fenced v) next f = (f, h.1)
    after_commit-Goes p d h prepared (CommitOutcome.version_conflict v) next f =
        after_reload-Goes next (f, h.1)

    attempt-by :
        (d : Document)
        → Goes s d
        → (r : PrepareResult) → prepare o.pipeline (prepare_input o s op) ≡ r
        → GoesOn (attempt o others now (suc left) call s d op)
    unfolding attempt
    attempt-by d h (PrepareResult.rejected r) e =
        rw (e, attempt) (persist_rejection-Goes call s d op r h)
    attempt-by d h (PrepareResult.resync r) e = rw (e, attempt) h
    attempt-by d h (PrepareResult.prepared p) e =
        let before = others-Goes call s d h in
        elim (Result-cases (commit now (commit_request o s op p) (others call d))) [
          | inr (m, c) ↦ rw (e, c, attempt) before
          | inl ((outcome, next), c) ↦
              let prepared = prepare-IsPrepared o.pipeline (prepare_input o s op) p e in
              rw (e, c, attempt)
                (after_commit-Goes p (others call d) before prepared outcome next (
                  commit-Follows s (others call d) before.0 o now op p prepared outcome next (
                    Ensures-ok (IsCommit now (others call d) (commit_request o s op p)) _
                      (outcome, next) c
                      (commit-IsCommit now (commit_request o s op p) (others call d)
                        before.0.in_order))))
        ]

    attempt-Goes : (d : Document) → Goes s d → GoesOn (attempt o others now (suc left) call s d op)
    attempt-Goes d h = attempt-by d h (prepare o.pipeline (prepare_input o s op)) refl

  no_attempt-Goes :
      (call : ℕ) (s : WarmRoom) (d : Document) (op : Operation)
      → Goes s d
      → GoesOn (attempt o others now zero call s d op)
  unfolding attempt
  no_attempt-Goes call s d op h = h

  attempts-Goes :
      (s : WarmRoom) (d : Document) (op : Operation)
      → Goes s d
      → GoesOn (attempt o others now 2 1 s d op)
  attempts-Goes s d op =
      attempt-Goes 1 1 op refl refl
        (λ t. attempt-Goes 0 5 op refl refl (λ u next h. no_attempt-Goes 9 u next op h) t) s d

  process_operation-Goes :
      (s : WarmRoom) (d : Document) (op : Operation)
      → Goes s d
      → GoesOn (process_operation o others now s d op)
  unfolding process_operation
  process_operation-Goes s d op h =
      let looked = others-Goes 0 s d h in
      elim (Option-cases (lookup_receipt op.operation_id (others 0 d))) [
        | inl unknown ↦ rw (unknown, process_operation) (attempts-Goes s (others 0 d) op looked)
        | inr (prior, e) ↦ rw (e, process_operation) looked
      ]

-- While others run transactions on the rows, a turn of a warm room, whatever it is handed and whatever it
-- answers or throws, leaves the rows in order, and a room of no later version or epoch than they are
-- that has the state a load finds while they are of the same; if others migrate nothing under its
-- epoch, compact nothing between the queries of a reload, and take snapshots of the states at their
-- versions.
pub process-IsCoherent :
    (o : WorkerOptions) (others : Others) (now : ℕ) (s : WarmRoom) (d : Document) (raw : Value)
    → IsOthers s.owner others
    → IsCoherent s d
    → IsCoherent (process o others now s d raw).session (process o others now s d raw).rows
unfolding process
process-IsCoherent o others now s d raw honest c =
    elim (Result-cases (assert_operation_envelope raw)) [
      | inr (m, e) ↦ rw (e, process) c
      | inl (op, e) ↦
          rw (e, process) (process_operation-Goes o others s.owner honest now s d op (c, refl)).0
    ]
