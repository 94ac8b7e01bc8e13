-- ===== src/Distributed/Worker/Delivered.antt =====
-- A commit of packages/server-distributed/src/postgres-store.ts leaves an event in the outbox, which
-- dispatchOutbox of packages/server-distributed/src/worker.ts publishes.
use mathlib.Core.List.{Perm}
use collabhub.Prelude.{
  subst, ℕ, suc, ◌+◌, ◌*◌, ◌≤◌, Text, ◌≡◌, sym, ◌∙◌, ap, none, List, [], ◌∷◌, ◌++◌, length,
  length-append, keep, arith, Option-cases, inl, inr,
}
use collabhub.Errors.{Message, Result, ok, throws, unwrap, Result-cases}
use collabhub.Protocol.Messages.{Accepted, Canonical}
use collabhub.Distributed.Rows.{
  RoomIdentity, Document, OutboxRow, Database, CommitRequest, CommitOutcome, committed,
}
use collabhub.Distributed.Store.{commit}
use collabhub.Distributed.Store.Runs.{keep-append}
use collabhub.Distributed.Database.{
  is_claimable, put_document, announce, with_document, commit_operation,
}
use collabhub.Distributed.Database.Outbox.{IsNumbered}
use collabhub.Distributed.Worker.Dispatch.{
  Delivery, failed, dispatch_times, dispatch_times-publishes,
}

-- The ids grow from a number on, and a last one is above them.
abbrev pub IsNumberedTo : ℕ → ℕ → List OutboxRow → Type 0
IsNumberedTo n last [] = n ≤ last
IsNumberedTo n last (r ∷ rs) = (n ≤ r.id) × IsNumberedTo (suc r.id) last rs

IsNumberedTo-append :
    (n : ℕ) (rs : List OutboxRow) (r : OutboxRow)
    → IsNumberedTo n r.id rs
    → IsNumbered n (rs ++ r ∷ [])
IsNumberedTo-append n [] r h = (h, tt)
IsNumberedTo-append n (q ∷ rs) r h = (h.0, IsNumberedTo-append (suc q.id) rs r h.1)

-- The row of an event that has been added
abbrev pub event_row : RoomIdentity → Canonical → ℕ → OutboxRow
event_row room event id = record {
  id = id;
  room = room;
  event = event;
  delivered_at = none;
  locked_by = none;
  locked_until = none;
}

no_result : {A : Type 0} (m : Message) (a : A) → Path (Result A) (throws m) (ok a) → ⊥
no_result m a h = cc

commit_operation-outbox :
    (now : ℕ) (room : RoomIdentity) (q : CommitRequest) (db next : Database) (a : Accepted)
    (e : Canonical)
    → commit_operation now room q db ≡ ok (committed a e, next)
    → next.outbox ≡ db.outbox ++ event_row room e db.next_outbox_id ∷ []
unfolding commit_operation
commit_operation-outbox now room q db next a e h = elim (Option-cases (db.documents room)) [
  | inl no_room ↦ absurd (no_result _ _ (rw (no_room, commit_operation, with_document) at h))
  | inr (d, found) ↦ elim (Result-cases (commit now q d)) [
    | inr (m, c) ↦ absurd (no_result _ _ (rw (found, c, commit_operation, with_document) at h))
    | inl ((outcome, rows), c) ↦
        go outcome rows (unwrap (rw (found, c, commit_operation, with_document) at h))
  ]
]
  where
    go :
        (outcome : CommitOutcome) (rows : Document)
        → Path
            (CommitOutcome × Database)
            (outcome, announce room outcome (put_document room rows db))
            (committed a e, next)
        → next.outbox ≡ db.outbox ++ event_row room e db.next_outbox_id ∷ []
    go outcome rows p =
        sym (ap (λ (x : CommitOutcome × Database). x.1.outbox) p)
        ∙ ap (λ o. (announce room o (put_document room rows db)).outbox)
            (ap (λ (x : CommitOutcome × Database). x.0) p)

-- Once an operation is committed, dispatches at one time publish its event with all others that may be
-- claimed by then, and each once, in whatever order the database returns what a dispatch has claimed; while
-- the coordinator takes every event, if there are as many dispatches as a hundred events each call for, and
-- the ids of the outbox grow up to the next one.
pub dispatch_times-commit_operation :
    (now later times : ℕ) (room : RoomIdentity) (q : CommitRequest) (db next : Database)
    (a : Accepted) (e : Canonical) (instance_id : Text) (deliver : OutboxRow → Delivery)
    (returning : List OutboxRow → List OutboxRow)
    → ((r : OutboxRow) → ¬ (deliver r ≡ failed))
    → ((rs : List OutboxRow) → Perm (returning rs) rs)
    → IsNumberedTo 0 db.next_outbox_id db.outbox
    → commit_operation now room q db ≡ ok (committed a e, next)
    → length (keep (is_claimable later) db.outbox) + 1 ≤ times * 100
    → Perm
        (dispatch_times times returning later instance_id deliver next).0
        (keep (is_claimable later) db.outbox ++ event_row room e db.next_outbox_id ∷ [])
unfolding is_claimable keep
dispatch_times-commit_operation now later times room q db next a e instance_id deliver returning
      reliable reorders numbered done enough =
    let row = event_row room e db.next_outbox_id in
    let outbox = commit_operation-outbox now room q db next a e done in
    let left : keep (is_claimable later) next.outbox
        ≡ keep (is_claimable later) db.outbox ++ row ∷ [] =
      rw outbox (keep-append (is_claimable later) db.outbox (row ∷ [])) in
    let published =
      dispatch_times-publishes later instance_id deliver returning reorders reliable times next 0
        (rw outbox (IsNumberedTo-append 0 db.outbox row numbered))
        (rw left (
          omega (arith, length-append (keep (is_claimable later) db.outbox) (row ∷ []), enough))) in
    let all = (dispatch_times times returning later instance_id deliver next).0 in
    subst (λ rs. Perm all rs) left published
