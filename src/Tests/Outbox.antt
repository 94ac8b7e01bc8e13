-- ===== src/Tests/Outbox.antt =====
-- Tests and instances for the outbox: one event that was delivered, one that another worker holds, and two
-- that may be claimed.
use mathlib.Core.List.{Perm, perm_middle, append-nil}
use mathlib.Core.List.Perm
use collabhub.Prelude.{
  subst, sym, List, ℕ, ◌+◌, ◌*◌, ◌≤◌, ◌≡◌, refl, text, Option, none, some, [], ◌∷◌, ◌++◌, length,
  keep, arith,
}
use collabhub.Errors.{ok}
use collabhub.Protocol.Messages.{Canonical}
use collabhub.Distributed.Rows.{OutboxRow, Database, committed}
use collabhub.Distributed.Store.{accepted_result, committed_event}
use collabhub.Distributed.Store.Restoring.{written}
use collabhub.Distributed.Database.{is_claimable, put_document, add_event, commit_operation}
use collabhub.Distributed.Worker.Dispatch.{
  Delivery, delivered, failed, dispatch_times, dispatch_times-publishes,
}
use collabhub.Distributed.Worker.Delivered.{event_row, dispatch_times-commit_operation}
use collabhub.Tests.Distributed.{room, rows, request, request_committed}

abbrev event : ℕ → Canonical
event version = record {
  operation_id = text "op";
  actor_id = text "alice";
  canonical_version = version;
  patches = [];
}

abbrev row : ℕ → Option ℕ → Option ℕ → OutboxRow
row id delivered_at locked_until = record {
  id = id;
  room = record { tenant_id = text "t"; document_id = text "d" };
  event = event id;
  delivered_at = delivered_at;
  locked_by = none;
  locked_until = locked_until;
}

abbrev outbox : Database
outbox = record {
  documents = λ room. none;
  outbox =
      row 1 (some 5) none ∷ row 2 none none ∷ row 3 none (some 999) ∷ row 4 none (some 50) ∷ [];
  next_outbox_id = 5;
}

abbrev deliver : OutboxRow → Delivery
deliver r = delivered

deliver-reliable : (r : OutboxRow) → ¬ (deliver r ≡ failed)
deliver-reliable r e = cc

-- A database that returns claimed rows the last one first
unfoldable backwards : List OutboxRow → List OutboxRow
backwards [] = []
backwards (r ∷ rs) = backwards rs ++ r ∷ []

backwards-Perm : (rs : List OutboxRow) → Perm (backwards rs) rs
unfolding backwards
backwards-Perm [] = Perm.nil
backwards-Perm (r ∷ rs) =
    Perm.trans (perm_middle (backwards rs) [])
      (Perm.cons r (subst (λ xs. Perm xs rs) (sym (append-nil (backwards rs))) (backwards-Perm rs)))

outbox_claimable :
    keep (is_claimable 100) outbox.outbox ≡ row 2 none none ∷ row 4 none (some 50) ∷ []
unfolding keep is_claimable
outbox_claimable = refl

enough : length (keep (is_claimable 100) outbox.outbox) ≤ 1 * 100
enough = rw outbox_claimable (omega arith)

dispatch_times-publishes_example :
    Perm
      (dispatch_times 1 backwards 100 (text "w1") deliver outbox).0
      (keep (is_claimable 100) outbox.outbox)
dispatch_times-publishes_example =
    dispatch_times-publishes 100 (text "w1") deliver backwards backwards-Perm deliver-reliable 1
      outbox 0 (omega arith, (omega arith, (omega arith, (omega arith, tt)))) enough

abbrev before : Database
before = record outbox { documents = λ r. some rows }

abbrev after : Database
after =
    add_event room (committed_event 1 request) (put_document room (written 7 request rows) before)

commit_announced :
    commit_operation 7 room request before
    ≡ ok (committed (accepted_result 1 request) (committed_event 1 request), after)
unfolding commit_operation
commit_announced = rw request_committed refl

one_hundred : length (keep (is_claimable 100) before.outbox) + 1 ≤ 1 * 100
one_hundred = rw outbox_claimable (omega arith)

dispatch_times-commit_operation_example :
    Perm (dispatch_times 1 backwards 100 (text "w1") deliver after).0 (
      keep (is_claimable 100) before.outbox
      ++ event_row room (committed_event 1 request) before.next_outbox_id ∷ [])
dispatch_times-commit_operation_example =
    dispatch_times-commit_operation 7 100 1 room request before after (accepted_result 1 request)
      (committed_event 1 request) (text "w1") deliver backwards deliver-reliable backwards-Perm
      (omega arith, (omega arith, (omega arith, (omega arith, omega arith)))) commit_announced
      one_hundred
