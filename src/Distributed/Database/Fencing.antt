-- ===== src/Distributed/Database/Fencing.antt =====
-- Owners of a room and answers to a request, across the transactions of
-- packages/server-distributed/src/postgres-store.ts.
use collabhub.Prelude.{ℕ, ◌≤◌, ◌<◌, ◌≡◌, refl, true, List, [], ◌∷◌, arith, inl, inr}
use collabhub.Errors.{Result-cases, Ensures-ok}
use collabhub.Distributed.Rows.{
  Document, CommitRequest, CommitOutcome, committed, duplicate, collision, is_owner,
}
use collabhub.Distributed.Store.{commit}
use collabhub.Distributed.Store.Restoring.{IsWellFormed, IsCommit, commit-IsCommit}
use collabhub.Distributed.Database.Transactions.{
  Transaction, transact, transact_all, rows_after, View, view, Advance, unchanged, claimed,
  advanced, replaced, IsHonestRun,
}
use collabhub.Distributed.Database.Steps.{transact-Steps}

pub epoch-le : (v w : View) → Advance v w → v.owner_epoch ≤ w.owner_epoch
epoch-le v w (unchanged e) = rw e (omega arith)
epoch-le v w (claimed i e) = rw e (omega arith)
epoch-le v w (advanced ps e) = rw e (omega arith)
epoch-le v w (replaced schema s e) = rw e (omega arith)

epochs-le :
    (d : Document) (ts : List Transaction)
    → IsWellFormed d
    → IsHonestRun d ts
    → (d.head.owner_epoch ≤ (transact_all d ts).head.owner_epoch) × IsWellFormed (transact_all d ts)
unfolding transact_all
epochs-le d [] w honest = (omega arith, w)
epochs-le d (t ∷ ts) w honest =
    let moved = transact-Steps d t w honest.0 in
    let rest = epochs-le (transact d t) ts moved.0 honest.1 in
    (omega (arith, epoch-le (view d) (view (transact d t)) moved.1, rest.0), rest.1)

foreign :
    (q : CommitRequest) (d : Document)
    → q.owner.epoch < d.head.owner_epoch
    → is_owner q.owner d.head ≡ true
    → ⊥
foreign q d old owns = ground arith

-- Once a room has been claimed with a later epoch than a request's, a commit of that request leaves the
-- rows as they are, whatever transactions come before it.
pub commit-fenced :
    (d : Document) (ts : List Transaction) (now : ℕ) (q : CommitRequest)
    → IsWellFormed d
    → IsHonestRun d ts
    → q.owner.epoch < d.head.owner_epoch
    → rows_after (transact_all d ts) (commit now q (transact_all d ts)) ≡ transact_all d ts
commit-fenced d ts now q w honest old = elim (Result-cases (commit now q (transact_all d ts))) [
  | inr (m, e) ↦ rw e refl
  | inl ((outcome, next), e) ↦
      let run = epochs-le d ts w honest in
      rw e (
        go outcome next (omega (arith, run.0)) (
          Ensures-ok (IsCommit now (transact_all d ts) q) (commit now q (transact_all d ts))
            (outcome, next) e (commit-IsCommit now q (transact_all d ts) run.1)))
]
  where
    go :
        (outcome : CommitOutcome) (next : Document)
        → q.owner.epoch < (transact_all d ts).head.owner_epoch
        → IsCommit now (transact_all d ts) q (outcome, next)
        → next ≡ transact_all d ts
    go (committed a event) next later h = absurd (foreign q (transact_all d ts) later h.3)
    go (duplicate r) next later h = h.0
    go (collision v) next later h = h.0
    go (CommitOutcome.fenced v) next later h = h.0
    go (CommitOutcome.version_conflict v) next later h = h.0
