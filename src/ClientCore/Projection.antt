-- ===== src/ClientCore/Projection.antt =====
-- What the client of packages/client-core/src/index.ts shows: its canonical copy with the optimistic
-- patches of the pending operations on top.
use collabhub.Prelude.{
  ℕ, ◌+◌, ◌≡◌, refl, ◌∙◌, Text, true, Option, none, some, List, [], ◌∷◌, map, ltb, leb, ◌==◌, ◌&&◌,
  Bool-cases, Option-cases, inl, inr,
}
use collabhub.Errors.{Result, ok, throws, ◌>>=◌, Result-cases}
use collabhub.Protocol.Messages.{
  Accepted, OperationResult, accepted, rejected, resync_required, retry_later, Snapshot, Canonical,
  ClientMessage, ServerMessage,
}
use collabhub.ClientCore.State.{
  PendingOperation, ClientOptions, Client, is_open, is_online, is_connecting, mark_sent,
  of_operation, update_first, send, request_recovery, flush, project, Run, reproject,
}
use collabhub.ClientCore.Handlers.{
  then_flush, take_snapshot, handle_snapshot, handle_ready, handle_canonical, handle_accepted,
  handle_result, handle,
}

module _ {S : Type 0} (o : ClientOptions S) where
  -- There is no copy yet, or what is shown is the projection of the copy.
  abbrev pub Shows : Option S → List PendingOperation → Option S → Type 0
  Shows none pending projected = Unit
  Shows (some s) pending projected =
      (shown : S) × (project o s pending ≡ ok shown) × (projected ≡ some shown)

  abbrev pub IsProjected : Client S → Type 0
  IsProjected c = Shows c.canonical c.pending c.projected

  abbrev pub IsProjectedRun : Run S → Type 0
  IsProjectedRun r = r.failure ≡ none → IsProjected r.client

  Shows-same :
      (x y : Option S) (ps qs : List PendingOperation)
      → ((s : S) → project o s qs ≡ project o s ps)
      → Shows x ps y
      → Shows x qs y
  Shows-same none y ps qs same h = tt
  Shows-same (some s) y ps qs same (shown, e, f) = (shown, same s ∙ e, f)

  project-map :
      (f : PendingOperation → PendingOperation) (ps : List PendingOperation)
      → ((p : PendingOperation) → (f p).optimistic_patches ≡ p.optimistic_patches)
      → (s : S) → project o s (map f ps) ≡ project o s ps
  unfolding project
  project-map f [] same s = refl
  project-map f (p ∷ ps) same s =
      rw (same p) (next (o.apply_patches s p.optimistic_patches) (project-map f ps same))
    where
      next :
          (r : Result S)
          → ((t : S) → project o t (map f ps) ≡ project o t ps)
          → (r >>= λ t. project o t (map f ps)) ≡ (r >>= λ t. project o t ps)
      next (ok t) rest = rest t
      next (throws m) rest = refl

  project-update_first :
      (id : Text) (f : PendingOperation → PendingOperation) (ps : List PendingOperation)
      → ((p : PendingOperation) → (f p).optimistic_patches ≡ p.optimistic_patches)
      → (s : S) → project o s (update_first id f ps) ≡ project o s ps
  unfolding project update_first
  project-update_first id f [] same s = refl
  project-update_first id f (p ∷ ps) same s = elim (Bool-cases (of_operation id p)) [
    | inl e ↦ rw (e, same p) refl
    | inr e ↦
        rw e (next (o.apply_patches s p.optimistic_patches) (project-update_first id f ps same))
  ]
    where
      next :
          (r : Result S)
          → ((t : S) → project o t (update_first id f ps) ≡ project o t ps)
          → (r >>= λ t. project o t (update_first id f ps)) ≡ (r >>= λ t. project o t ps)
      next (ok t) rest = rest t
      next (throws m) rest = refl

  updated-IsProjected :
      (id : Text) (f : PendingOperation → PendingOperation) (c : Client S)
      → ((p : PendingOperation) → (f p).optimistic_patches ≡ p.optimistic_patches)
      → IsProjected c
      → IsProjected (record c { pending = update_first id f c.pending })
  updated-IsProjected id f c same h =
      Shows-same c.canonical c.projected c.pending (update_first id f c.pending)
        (project-update_first id f c.pending same) h

  send-IsProjected : (m : ClientMessage) (c : Client S) → IsProjected c → IsProjected (send o m c)
  unfolding send
  send-IsProjected m c h = elim (Bool-cases (is_open c.socket)) [
    | inl e ↦ rw (e, send) h
    | inr e ↦ rw (e, send) h
  ]

  request_recovery-IsProjected : (c : Client S) → IsProjected c → IsProjected (request_recovery o c)
  unfolding request_recovery
  request_recovery-IsProjected c h = send-IsProjected _ _ h

  flush-IsProjected : (c : Client S) → IsProjected c → IsProjected (flush o c)
  unfolding flush
  flush-IsProjected c h = elim (Bool-cases (is_open c.socket && is_online c.connection)) [
    | inl e ↦
        rw (e, flush)
          (Shows-same c.canonical c.projected c.pending (map (mark_sent true) c.pending)
            (project-map (mark_sent true) c.pending (λ p. refl)) h)
    | inr e ↦ rw (e, flush) h
  ]

  reproject-IsProjected : (c : Client S) → IsProjectedRun (reproject o c)
  unfolding reproject
  reproject-IsProjected c = elim (Option-cases c.canonical) [
    | inl e ↦ rw (e, reproject) (λ h. rw e tt)
    | inr (s, e) ↦ elim (Result-cases (project o s c.pending)) [
      | inl (p, f) ↦ rw (e, f, reproject) (λ h. rw e (p, f, refl))
      | inr (m, f) ↦ rw (e, f, reproject) (λ h. cc)
    ]
  ]

  then_flush-IsProjected : (r : Run S) → IsProjectedRun r → IsProjectedRun (then_flush o r)
  then_flush-IsProjected r good = elim (Option-cases r.failure) [
    | inl e ↦ rw e (λ h. flush-IsProjected _ (good e))
    | inr (m, e) ↦ rw e (λ h. cc)
  ]

  handle_snapshot-IsProjected :
      (c : Client S) (m : Snapshot S) → IsProjectedRun (handle_snapshot o c m)
  unfolding handle_snapshot
  handle_snapshot-IsProjected c m = elim (Bool-cases (is_connecting c.connection)) [
    | inl e ↦ rw (e, handle_snapshot) (reproject-IsProjected (take_snapshot o c m))
    | inr e ↦
        rw (e, handle_snapshot)
          (then_flush-IsProjected _ (reproject-IsProjected (take_snapshot o c m)))
  ]

  handle_ready-IsProjected :
      (c : Client S) (version : ℕ) → IsProjected c → IsProjected (handle_ready o c version)
  unfolding handle_ready
  handle_ready-IsProjected c version h = elim (Option-cases c.canonical) [
    | inl e ↦ rw (e, handle_ready) (request_recovery-IsProjected c h)
    | inr (s, e) ↦ elim (Bool-cases (version == c.canonical_version)) [
      | inl f ↦ rw (e, f, handle_ready) (flush-IsProjected _ h)
      | inr f ↦ rw (e, f, handle_ready) (request_recovery-IsProjected c h)
    ]
  ]

  handle_canonical-IsProjected :
      (c : Client S) (e : Canonical) → IsProjected c → IsProjectedRun (handle_canonical o c e)
  unfolding handle_canonical
  handle_canonical-IsProjected c e h = elim (Option-cases c.canonical) [
    | inl n ↦ rw (n, handle_canonical) (λ fine. request_recovery-IsProjected c h)
    | inr (s, p) ↦ elim (Bool-cases (ltb (c.canonical_version + 1) e.canonical_version)) [
      | inl gap ↦ rw (p, gap, handle_canonical) (λ fine. request_recovery-IsProjected c h)
      | inr near ↦ elim (Bool-cases (leb e.canonical_version c.canonical_version)) [
        | inl old ↦ rw (p, near, old, handle_canonical) (λ fine. h)
        | inr next ↦ elim (Result-cases (o.apply_patches s e.patches)) [
          | inl (t, f) ↦ rw (p, near, next, f, handle_canonical) (reproject-IsProjected _)
          | inr (m, f) ↦ rw (p, near, next, f, handle_canonical) (λ fine. cc)
        ]
      ]
    ]
  ]

  handle_accepted-IsProjected :
      (c : Client S) (a : Accepted) → IsProjected c → IsProjectedRun (handle_accepted o c a)
  unfolding handle_accepted
  handle_accepted-IsProjected c a h = elim (Option-cases c.canonical) [
    | inl n ↦ rw (n, handle_accepted) (λ fine. waits)
    | inr (s, p) ↦ elim (Bool-cases (ltb (c.canonical_version + 1) a.canonical_version)) [
      | inl gap ↦ rw (p, gap, handle_accepted) (λ fine. waits)
      | inr near ↦ elim (Bool-cases (a.canonical_version == c.canonical_version + 1)) [
        | inr old ↦ rw (p, near, old, handle_accepted) (reproject-IsProjected _)
        | inl next ↦ elim (Result-cases (o.apply_patches s a.patches)) [
          | inl (t, f) ↦ rw (p, near, next, f, handle_accepted) (reproject-IsProjected _)
          | inr (m, f) ↦ rw (p, near, next, f, handle_accepted) (λ fine. cc)
        ]
      ]
    ]
  ]
    where
      keep_result : PendingOperation → PendingOperation
      keep_result p = record p { accepted_result = some a }

      waits : IsProjected (
          request_recovery o
            (record c { pending = update_first a.operation_id keep_result c.pending }))
      waits =
          request_recovery-IsProjected _
            (updated-IsProjected a.operation_id keep_result c (λ p. refl) h)

  handle_result-IsProjected :
      (c : Client S) (r : OperationResult) → IsProjected c → IsProjectedRun (handle_result o c r)
  unfolding handle_result
  handle_result-IsProjected c (accepted a) h = handle_accepted-IsProjected c a h
  handle_result-IsProjected c (rejected r) h = reproject-IsProjected _
  handle_result-IsProjected c (resync_required r) h = λ fine. send-IsProjected _ _ (
      updated-IsProjected r.operation_id (λ p. record p { resync_result = some r }) c (λ p. refl) h)
  handle_result-IsProjected c (retry_later r) h =
      λ fine. updated-IsProjected r.operation_id (mark_sent true) c (λ p. refl) h

  -- Where a client shows the projection of its copy, or has no copy yet, that holds again after any
  -- message of the server that its handler takes without throwing.
  pub handle-IsProjected :
      (c : Client S) (m : ServerMessage S)
      → IsProjected c
      → (handle o c m).failure ≡ none
      → IsProjected (handle o c m).client
  unfolding handle
  handle-IsProjected c (ServerMessage.snapshot m) h = handle_snapshot-IsProjected c m
  handle-IsProjected c (ServerMessage.ready version) h =
      λ fine. handle_ready-IsProjected c version h
  handle-IsProjected c (ServerMessage.canonical e) h = handle_canonical-IsProjected c e h
  handle-IsProjected c (ServerMessage.presence p) h = λ fine. h
  handle-IsProjected c (ServerMessage.result r) h = handle_result-IsProjected c r h
