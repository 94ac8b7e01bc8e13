-- ===== src/ClientCore/Settling/Promises.antt =====
-- The promises that submit of packages/client-core/src/index.ts returns: open, resolved or rejected.
use collabhub.Prelude.{
  ℕ, ◌+◌, ◌≡◌, ◌∙◌, ap, refl, Bool, true, false, not, ◌&&◌, Option, none, some, List, [], ◌∷◌, ◌++◌,
  map, ltb, ◌==◌, arith, if◌then◌else◌, Bool-cases, Option-cases, inl, inr,
}
use collabhub.Errors.{Message, Result-cases}
use collabhub.Protocol.Messages.{Operation, Patch}
use collabhub.ClientCore.State.{
  Mutation, PendingOperation, Settled, ClientOptions, Client, Run, persist_mutation, project,
  reproject,
}
use collabhub.ClientCore.Handlers.{
  filled, is_full, new_pending, reject_promise, settle_executor, submit_operation,
}
use collabhub.ClientCore.Settling.{pending_of, pending_of-append, settled_of, IsAccounted}

abbrev is_rejected : Option Message → Bool
is_rejected none = false
is_rejected (some m) = true

-- The pending operations of a key whose promise is open
unfoldable pub open_of : ℕ → List PendingOperation → ℕ
open_of k [] = 0
open_of k (p ∷ ps) =
    (if p.key == k && not (is_rejected p.promise_failure) then 1 else 0) + open_of k ps

-- Those whose promise has been rejected
unfoldable pub rejected_of : ℕ → List PendingOperation → ℕ
rejected_of k [] = 0
rejected_of k (p ∷ ps) =
    (if p.key == k && is_rejected p.promise_failure then 1 else 0) + rejected_of k ps

-- The calls of resolve that a promise of the key has heard
unfoldable pub resolved_of : ℕ → List Settled → ℕ
resolved_of k [] = 0
resolved_of k (s ∷ ss) =
    (if s.key == k && not (is_rejected s.promise_failure) then 1 else 0) + resolved_of k ss

-- Those that came to a rejected promise
unfoldable pub unheard_of : ℕ → List Settled → ℕ
unheard_of k [] = 0
unheard_of k (s ∷ ss) =
    (if s.key == k && is_rejected s.promise_failure then 1 else 0) + unheard_of k ss

open_of-rejected_of :
    (k : ℕ) (ps : List PendingOperation) → open_of k ps + rejected_of k ps ≡ pending_of k ps
unfolding open_of rejected_of pending_of
open_of-rejected_of k [] = refl
open_of-rejected_of k (p ∷ ps) = ground (arith, open_of-rejected_of k ps)

resolved_of-unheard_of :
    (k : ℕ) (ss : List Settled) → resolved_of k ss + unheard_of k ss ≡ settled_of k ss
unfolding resolved_of unheard_of settled_of
resolved_of-unheard_of k [] = refl
resolved_of-unheard_of k (s ∷ ss) = ground (arith, resolved_of-unheard_of k ss)

-- The promise of a key below `next_key` is open, resolved once, or rejected; and its operation is pending
-- or has had its one call of resolve. Of a later key there is neither.
pub record IsPromised {ℓ} {S : Type ℓ} (k : ℕ) (c : Client S) : Type 0 where
  pub operations : IsAccounted k c
  pub promises :
      open_of k c.pending
        + resolved_of k c.settled
        + (rejected_of k c.pending + unheard_of k c.settled)
      ≡ (if ltb k c.next_key then 1 else 0)

pub IsAccounted-IsPromised {ℓ} :
    {S : Type ℓ} (k : ℕ) (c : Client S) → IsAccounted k c → IsPromised k c
IsAccounted-IsPromised k c h = record {
  operations = h;
  promises = ground (arith, open_of-rejected_of k c.pending, resolved_of-unheard_of k c.settled, h);
}

rejected_of-reject_promise {ℓ} :
    {S : Type ℓ} (o : ClientOptions S) (k : ℕ) (m : Message) (ps : List PendingOperation)
    → rejected_of k (map (reject_promise o k m) ps) ≡ pending_of k ps
unfolding rejected_of pending_of
rejected_of-reject_promise o k m [] = refl
rejected_of-reject_promise o k m (p ∷ ps) = elim (Bool-cases (p.key == k)) [
  | inl e ↦ rw (e, e, rejected_of-reject_promise o k m ps) refl
  | inr e ↦ rw (e, e, rejected_of-reject_promise o k m ps) refl
]

module _ {ℓ} {S : Type ℓ} (o : ClientOptions S) where
  reproject-kept :
      (c : Client S)
      → ((reproject o c).client.pending ≡ c.pending) × ((reproject o c).client.outbox ≡ c.outbox)
  unfolding reproject
  reproject-kept c = elim (Option-cases c.canonical) [
    | inl e ↦ rw (e, reproject) (refl, refl)
    | inr (s, e) ↦ elim (Result-cases (project o s c.pending)) [
      | inl (p, f) ↦ rw (e, f, reproject) (refl, refl)
      | inr (m, f) ↦ rw (e, f, reproject) (refl, refl)
    ]
  ]

  persist_mutation-kept :
      (m : Mutation) (c : Client S)
      → ((persist_mutation o m c).pending ≡ c.pending)
        × ((persist_mutation o m c).outbox ≡ c.outbox)
  unfolding persist_mutation
  persist_mutation-kept m c = (ground arith, ground arith)

  settle_executor-thrown :
      (key : ℕ) (r : Run S) (m : Message)
      → (settle_executor o key r).failure ≡ some m
      → (rejected_of key (settle_executor o key r).client.pending ≡ pending_of key r.client.pending)
        × ((settle_executor o key r).client.outbox ≡ r.client.outbox)
  unfolding settle_executor
  settle_executor-thrown key r m h = elim (Option-cases r.failure) [
    | inl e ↦ absurd (fine (rw (e, settle_executor) at h))
    | inr (found, e) ↦
        rw (e, settle_executor) (rejected_of-reject_promise o key found r.client.pending, refl)
  ]
    where
      fine : none ≡ some m → ⊥
      fine e = cc

  pushed_once :
      (c : Client S) (p : PendingOperation)
      → p.key ≡ c.next_key
      → IsAccounted c.next_key c
      → pending_of c.next_key (c.pending ++ p ∷ []) ≡ 1
  unfolding pending_of
  pushed_once c p same h =
      rw (pending_of-append c.next_key c.pending (p ∷ [])) (ground (arith, same, h))

  -- Where `submit` throws, its promise is rejected, nothing is sent, and the operation is pending all the
  -- same, once; of a client that accounts for the key that it gives next.
  pub submit_operation-thrown :
      (c : Client S) (input : Operation) (patches : List Patch) (m : Message)
      → IsAccounted c.next_key c
      → (submit_operation o c input patches).failure ≡ some m
      → (rejected_of c.next_key (submit_operation o c input patches).client.pending ≡ 1)
        × ((submit_operation o c input patches).client.outbox ≡ c.outbox)
  unfolding submit_operation
  submit_operation-thrown c input patches m h thrown =
      elim (Bool-cases (is_full o c (filled o c input))) [
        | inl full ↦ absurd (fine (rw (full, submit_operation) at thrown))
        | inr fits ↦
            let end =
              settle_executor-thrown c.next_key _ m (rw (fits, submit_operation) at thrown) in
            let projected = reproject-kept _ in
            let saved = persist_mutation-kept _ _ in
            rw (fits, submit_operation)
              (
                end.0
                    ∙ ap (pending_of c.next_key) (projected.0 ∙ saved.0)
                    ∙ pushed_once c (new_pending o c (filled o c input) patches) refl h,
                end.1 ∙ projected.1 ∙ saved.1,
              )
      ]
    where
      fine : none ≡ some m → ⊥
      fine e = cc
