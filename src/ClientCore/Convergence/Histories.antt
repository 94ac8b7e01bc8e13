-- ===== src/ClientCore/Convergence/Histories.antt =====
-- What the client of packages/client-core/src/index.ts holds as canonical is what the server held at
-- that version, in whatever order the server's messages arrive and whatever is lost or repeated.
use collabhub.Prelude.{
  ℕ, ◌+◌, ◌≡◌, refl, subst, some, List, [], ◌∷◌, ltb, leb, ◌==◌, arith, Bool-cases, Option-cases,
  inl, inr, Text, All,
}
use collabhub.Errors.{ok}
use collabhub.Protocol.Messages.{
  Patch, Accepted, OperationResult, accepted, rejected, resync_required, retry_later, Snapshot,
  Canonical, ServerMessage,
}
use collabhub.ClientCore.State.{ClientOptions, Client, is_connecting, reproject}
use collabhub.ClientCore.Handlers.{
  persist_settled, take_snapshot, handle_snapshot, handle_ready, handle_canonical, handle_accepted,
  handle_result, handle, receive,
}
use collabhub.ClientCore.Events.{
  Event, received, presence_sent, on_socket-keeps, unreadable, submitted, connected, opens, opened,
  closed, disconnected, reconnects, token_arrived, network, retried, restored, restore_failed,
  persistence_answered, socket_closed, disconnect, step, run,
}
use collabhub.ClientCore.Convergence.{
  IsCopy, IsSynced, send-IsSynced, persist_mutation-IsSynced, flush-IsSynced, reproject-IsSynced,
  request_recovery-IsSynced, connect-IsSynced, open_socket-IsSynced, reconnect-IsSynced,
  network-IsSynced, retry_due-IsSynced, restore_pending-IsSynced, send_hello-IsSynced,
  socket_opened-IsSynced, settle-IsSynced, then_flush-IsSynced, submit_operation-IsSynced,
}

module _ {S : Type 0} (o : ClientOptions S) (server : ℕ → S) (log : ℕ → List Patch) where
  -- A message that tells of the server's history. It need not be a recent one.
  abbrev pub FromServer : ServerMessage S → Type 0
  FromServer (ServerMessage.snapshot m) = m.snapshot ≡ server m.canonical_version
  FromServer (ServerMessage.canonical e) = e.patches ≡ log e.canonical_version
  FromServer (ServerMessage.result (accepted a)) = a.patches ≡ log a.canonical_version
  FromServer _ = Unit

  -- An event in which the server, if it is heard, tells of its history.
  abbrev pub IsTold : Event o → Type 0
  IsTold (received m) = FromServer m
  IsTold _ = Unit

module _ {S : Type 0} (o : ClientOptions S) (server : ℕ → S) (log : ℕ → List Patch)
    (follows : (v : ℕ) → o.apply_patches (server v) (log (v + 1)) ≡ ok (server (v + 1))) where
  abbrev Synced : Client S → Type 0
  Synced = IsSynced o server

  -- The next version's patches lead a synced client to the server's next state.
  next-state :
      (c : Client S) (s : S) (v : ℕ) (ps : List Patch)
      → c.canonical ≡ some s
      → Synced c
      → v ≡ c.canonical_version + 1
      → ps ≡ log v
      → o.apply_patches s ps ≡ ok (server v)
  next-state c s v ps e h ev ep = rw (same, ep, ev) (follows c.canonical_version)
    where
      same : s ≡ server c.canonical_version
      same = subst (λ x. IsCopy o server x c.canonical_version) e h

  persist_settled-IsSynced :
      (ids : List Text) (c : Client S) → Synced c → Synced (persist_settled o ids c)
  unfolding persist_settled
  persist_settled-IsSynced [] c h = h
  persist_settled-IsSynced (id ∷ ids) c h = persist_mutation-IsSynced o server _ c h

  take_snapshot-IsSynced :
      (c : Client S) (m : Snapshot S)
      → m.snapshot ≡ server m.canonical_version
      → Synced (take_snapshot o c m)
  unfolding take_snapshot
  take_snapshot-IsSynced c m h = persist_settled-IsSynced _ _ h

  handle_snapshot-IsSynced :
      (c : Client S) (m : Snapshot S)
      → m.snapshot ≡ server m.canonical_version
      → Synced (handle_snapshot o c m).client
  unfolding handle_snapshot
  handle_snapshot-IsSynced c m h = elim (Bool-cases (is_connecting c.connection)) [
    | inl e ↦ rw (e, handle_snapshot) projected
    | inr e ↦ rw (e, handle_snapshot) (then_flush-IsSynced o server _ projected)
  ]
    where
      projected : Synced (reproject o (take_snapshot o c m)).client
      projected = reproject-IsSynced o server (take_snapshot o c m) (take_snapshot-IsSynced c m h)

  handle_ready-IsSynced :
      (c : Client S) (version : ℕ) → Synced c → Synced (handle_ready o c version)
  unfolding handle_ready
  handle_ready-IsSynced c version h = elim (Option-cases c.canonical) [
    | inl e ↦ rw (e, handle_ready) (request_recovery-IsSynced o server c h)
    | inr (s, e) ↦ elim (Bool-cases (version == c.canonical_version)) [
      | inl f ↦ rw (e, f, handle_ready) (flush-IsSynced o server _ h)
      | inr f ↦ rw (e, f, handle_ready) (request_recovery-IsSynced o server c h)
    ]
  ]

  handle_canonical-IsSynced :
      (c : Client S) (e : Canonical)
      → e.patches ≡ log e.canonical_version
      → Synced c
      → Synced (handle_canonical o c e).client
  unfolding handle_canonical
  handle_canonical-IsSynced c e from h = elim (Option-cases c.canonical) [
    | inl n ↦ rw (n, handle_canonical) (request_recovery-IsSynced o server c h)
    | inr (s, p) ↦ elim (Bool-cases (ltb (c.canonical_version + 1) e.canonical_version)) [
      | inl gap ↦ rw (p, gap, handle_canonical) (request_recovery-IsSynced o server c h)
      | inr near ↦ elim (Bool-cases (leb e.canonical_version c.canonical_version)) [
        | inl old ↦ rw (p, near, old, handle_canonical) h
        | inr next ↦
            rw
              (
                p,
                near,
                next,
                next-state c s e.canonical_version e.patches p h (ground arith) from,
                handle_canonical,
              )
              (reproject-IsSynced o server _ refl)
      ]
    ]
  ]

  handle_accepted-IsSynced :
      (c : Client S) (a : Accepted)
      → a.patches ≡ log a.canonical_version
      → Synced c
      → Synced (handle_accepted o c a).client
  unfolding handle_accepted
  handle_accepted-IsSynced c a from h = elim (Option-cases c.canonical) [
    | inl n ↦ rw (n, handle_accepted) (request_recovery-IsSynced o server _ h)
    | inr (s, p) ↦ elim (Bool-cases (ltb (c.canonical_version + 1) a.canonical_version)) [
      | inl gap ↦ rw (p, gap, handle_accepted) (request_recovery-IsSynced o server _ h)
      | inr near ↦ elim (Bool-cases (a.canonical_version == c.canonical_version + 1)) [
        | inr old ↦
            rw (p, near, old, handle_accepted)
              (reproject-IsSynced o server _ (settle-IsSynced o server _ _ c h))
        | inl next ↦
            rw
              (
                p,
                near,
                next,
                next-state c s a.canonical_version a.patches p h (ground arith) from,
                handle_accepted,
              )
              (reproject-IsSynced o server _ (settle-IsSynced o server _ _ _ refl))
      ]
    ]
  ]

  handle_result-IsSynced :
      (c : Client S) (r : OperationResult)
      → FromServer o server log (ServerMessage.result r)
      → Synced c
      → Synced (handle_result o c r).client
  unfolding handle_result
  handle_result-IsSynced c (accepted a) from h = handle_accepted-IsSynced c a from h
  handle_result-IsSynced c (rejected r) from h =
      reproject-IsSynced o server _ (settle-IsSynced o server _ _ c h)
  handle_result-IsSynced c (resync_required r) from h = send-IsSynced o server _ _ h
  handle_result-IsSynced c (retry_later r) from h = h

  handle-IsSynced :
      (c : Client S) (m : ServerMessage S)
      → FromServer o server log m
      → Synced c
      → Synced (handle o c m).client
  unfolding handle
  handle-IsSynced c (ServerMessage.snapshot m) from h = handle_snapshot-IsSynced c m from
  handle-IsSynced c (ServerMessage.ready version) from h = handle_ready-IsSynced c version h
  handle-IsSynced c (ServerMessage.canonical e) from h = handle_canonical-IsSynced c e from h
  handle-IsSynced c (ServerMessage.presence p) from h = h
  handle-IsSynced c (ServerMessage.result r) from h = handle_result-IsSynced c r from h

  receive-IsSynced :
      (c : Client S) (m : ServerMessage S)
      → FromServer o server log m
      → Synced c
      → Synced (receive o c m)
  unfolding receive
  receive-IsSynced c m from h = elim (Option-cases (handle o c m).failure) [
    | inl e ↦ rw (e, receive) (handle-IsSynced c m from h)
    | inr (f, e) ↦ rw (e, receive) (handle-IsSynced c m from h)
  ]

  step-IsSynced :
      (c : Client S) (e : Event o) → IsTold o server log e → Synced c → Synced (step o c e)
  unfolding step socket_closed disconnect
  step-IsSynced c (received m) told h =
      on_socket-keeps o Synced c.socket c _ h (receive-IsSynced c m told h)
  step-IsSynced c (presence_sent content) told h = send-IsSynced o server _ c h
  step-IsSynced c unreadable told h = on_socket-keeps o Synced c.socket c _ h h
  step-IsSynced c (submitted op ps) told h = submit_operation-IsSynced o server c op ps h
  step-IsSynced c connected told h = connect-IsSynced o server c h
  step-IsSynced c opens told h = open_socket-IsSynced o server c h
  step-IsSynced c opened told h = socket_opened-IsSynced o server c h
  step-IsSynced c closed told h = on_socket-keeps o Synced c.socket c _ h h
  step-IsSynced c disconnected told h = h
  step-IsSynced c reconnects told h = reconnect-IsSynced o server c h
  step-IsSynced c (token_arrived t) told h =
      on_socket-keeps o Synced c.socket c _ h (send_hello-IsSynced o server t c h)
  step-IsSynced c (network b) told h = network-IsSynced o server b c h
  step-IsSynced c (retried key) told h = retry_due-IsSynced o server key c h
  step-IsSynced c (restored es) told h = restore_pending-IsSynced o server es c h
  step-IsSynced c restore_failed told h = h
  step-IsSynced c (persistence_answered b) told h = h

  -- Where the log's patches lead from each server state to the next, a client whose copy is the
  -- server's state of its version keeps that through any events, if the snapshots, canonical events
  -- and accepted results that it receives tell of that log, in any order, repeated or with gaps.
  pub run-IsSynced :
      (c : Client S) (es : List (Event o))
      → All (IsTold o server log) es
      → IsSynced o server c
      → IsSynced o server (run o c es)
  unfolding run
  run-IsSynced c [] told h = h
  run-IsSynced c (e ∷ es) told h = run-IsSynced (step o c e) es told.1 (step-IsSynced c e told.0 h)
