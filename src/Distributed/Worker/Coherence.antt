-- ===== src/Distributed/Worker/Coherence.antt =====
-- A warm room of packages/server-distributed/src/worker.ts against the rows it was loaded from.
use collabhub.Prelude.{
  ℕ, ◌+◌, ◌≤◌, ◌≡◌, refl, sym, ◌∙◌, subst, ap, true, find, arith, Option-cases, inl, inr,
}
use collabhub.Errors.{unwrap, Message, Result, ok, throws, ◌>>=◌, bind-ok}
use collabhub.Protocol.Messages.{Operation, Accepted}
use collabhub.DomainJson.Patches.{apply_canonical_patches}
use collabhub.ServerCore.Pipeline.{PreparedOperation}
use collabhub.ServerCore.Pipeline.Prepared.{IsPrepared}
use collabhub.Distributed.Rows.{
  Document, Owner, CommitRequest, CommitOutcome, committed, duplicate, collision, LoadedRoom,
  is_owner, of_version,
}
use collabhub.Distributed.Store.{load_room, loaded_state, wal_after}
use collabhub.Distributed.Store.Restoring.{
  restore, IsWellFormed, IsCommit, written, written-IsWellFormed,
}
use collabhub.Distributed.Database.Transactions.{View}
use collabhub.Distributed.Database.Kept.{Keeps}
use collabhub.Distributed.Worker.{
  WorkerOptions, WarmRoom, reload, prepare_input, commit_request, committed_room,
}
use collabhub.Distributed.Worker.Drifts.{Drift, Still, IsUntouched, between, trans-Drift}

-- Rows that are in order, of a version and an epoch that are not before the room's. While they are of
-- the same, the room has the state that a load finds.
pub record IsCoherent (s : WarmRoom) (d : Document) : Type 0 where
  pub in_order : IsWellFormed d
  pub version : s.version ≤ d.head.canonical_version
  pub epoch : s.owner.epoch ≤ d.head.owner_epoch
  pub same :
      d.head.owner_epoch ≡ s.owner.epoch
      → d.head.canonical_version ≡ s.version
      → restore d ≡ ok s.state

module _ (s : WarmRoom) (d : Document) (c : IsCoherent s d) where
  pub Drift-IsCoherent : (next : Document) → Drift s.owner d next → IsCoherent s next
  Drift-IsCoherent next m = record {
    in_order = m.in_order;
    version = omega (arith, c.version, m.version);
    epoch = omega (arith, c.epoch, m.epoch);
    same = λ epoch version.
        let before : d.head.owner_epoch ≡ s.owner.epoch = omega (arith, c.epoch, m.epoch, epoch) in
        let at : d.head.canonical_version ≡ s.version =
          omega (arith, c.version, m.version, version) in
        ap (λ (v : View). v.state) (m.same (before, epoch, version ∙ sym at)) ∙ c.same before at;
  }

  pub Keeps-IsCoherent : (next : Document) → Keeps d next → IsCoherent s next
  Keeps-IsCoherent next k =
      let version : next.head.canonical_version ≡ d.head.canonical_version =
        ap (λ (v : View). v.version) k.1 in
      let epoch : next.head.owner_epoch ≡ d.head.owner_epoch =
        ap (λ (v : View). v.owner_epoch) k.1 in
      record {
        in_order = k.0;
        version = omega (arith, c.version, version);
        epoch = omega (arith, c.epoch, epoch);
        same = λ e v. ap (λ (w : View). w.state) k.1 ∙ c.same (sym epoch ∙ e) (sym version ∙ v);
      }

  module _ (o : WorkerOptions) (now : ℕ) (op : Operation) (p : PreparedOperation)
      (prepared : IsPrepared o.pipeline (prepare_input o s op) p) where
    abbrev request : CommitRequest
    request = commit_request o s op p

    owned : (q : Owner) → is_owner q d.head ≡ true → d.head.owner_epoch ≡ q.epoch
    owned q owns = ground arith

    written-IsCoherent :
        is_owner s.owner d.head ≡ true
        → d.head.canonical_version ≡ p.resolved_at_version
        → restore (written now request d) ≡ (restore d >>= λ t. apply_canonical_patches t p.patches)
        → IsCoherent (committed_room s op p (d.head.canonical_version + 1)) (written now request d)
    written-IsCoherent owns current applied = record {
      in_order = written-IsWellFormed now request d c.in_order;
      version = omega arith;
      epoch = c.epoch;
      same = λ e v.
          applied
          ∙ rw (c.same (owned s.owner owns) (current ∙ prepared.at_version)) prepared.applies;
    }

    -- The room that an outcome leaves goes with the rows that it leaves.
    abbrev pub Follows : CommitOutcome → Document → Type 0
    Follows (committed a e) next = IsCoherent (committed_room s op p a.canonical_version) next
    Follows _ next = IsCoherent s next

    pub commit-Follows :
        (outcome : CommitOutcome) (next : Document)
        → IsCommit now d request (outcome, next)
        → Follows outcome next
    commit-Follows (committed a e) next h =
        subst (λ (b : Accepted). IsCoherent (committed_room s op p b.canonical_version) next)
          (sym h.0)
          (subst (IsCoherent (committed_room s op p (d.head.canonical_version + 1))) (sym h.5)
            (written-IsCoherent h.3 h.4 (sym (ap restore h.5) ∙ h.6)))
    commit-Follows (duplicate r) next h = subst (IsCoherent s) (sym h.0) c
    commit-Follows (collision v) next h = subst (IsCoherent s) (sym h.0) c
    commit-Follows (CommitOutcome.fenced v) next h = subst (IsCoherent s) (sym h.0) c
    commit-Follows (CommitOutcome.version_conflict v) next h = subst (IsCoherent s) (sym h.0) c

-- A reload, of rows that may change between its queries
module _ (s : WarmRoom) (d0 d1 d2 : Document) (w : IsWellFormed d0) (first : Drift s.owner d0 d1)
    (second : Drift s.owner d1 d2) (still1 : Still s.owner d0 d1)
    (still2 : Still s.owner d1 d2) where
  pub load_room-head :
      (l : LoadedRoom)
      → load_room d0 d1 d2 ≡ ok l
      → (l.version ≡ d0.head.canonical_version) × (l.schema_version ≡ d0.head.schema_version)
  unfolding load_room
  load_room-head l e =
      elim (Option-cases (find (of_version d0.head.snapshot_version) d1.snapshots)) [
        | inl gone ↦ absurd (no_row l (rw (gone, load_room) at e))
        | inr (row, found) ↦
            let h = unwrap (rw (found, load_room) at e) in
            (
              sym (ap (λ (r : LoadedRoom). r.version) h),
              sym (ap (λ (r : LoadedRoom). r.schema_version) h),
            )
      ]
    where
      no_row :
          (l : LoadedRoom)
          → Path (Result LoadedRoom) (throws Message.snapshot_pointer_invalid) (ok l)
          → ⊥
      no_row l h = cc

  load_room-untouched : IsUntouched s.owner d0 d2 → load_room d0 d1 d2 ≡ load_room d0 d0 d0
  unfolding load_room wal_after
  load_room-untouched h =
      let parts = between s.owner d0 d1 d2 first second h in
      let a = still1 parts.0 in
      let b = still2 parts.1 in
      rw (w.pointed, a.1 d0.head.snapshot_version w.row w.pointed, b.0 ∙ a.0, load_room) refl

  pub reload-IsCoherent :
      (t : WarmRoom)
      → s.owner.epoch ≤ d0.head.owner_epoch
      → reload s d0 d1 d2 ≡ ok t
      → IsCoherent t d2 × (t.owner ≡ s.owner)
  unfolding reload
  reload-IsCoherent t epoch e =
      let all = trans-Drift s.owner d0 d1 d2 first second in
      let l = bind-ok (load_room d0 d1 d2) e in
      let u = bind-ok (loaded_state l.value) l.rest in
      let same_version = (load_room-head l.value l.first).0 in
      subst (λ r. IsCoherent r d2 × (r.owner ≡ s.owner)) (unwrap u.rest)
        (
          record {
            in_order = second.in_order;
            version = omega (arith, same_version, all.version);
            epoch = omega (arith, epoch, all.epoch);
            same = λ e2 v2.
                let h : IsUntouched s.owner d0 d2 =
                  (omega (arith, epoch, all.epoch, e2), e2, v2 ∙ same_version) in
                ap (λ (v : View). v.state) (all.same h)
                ∙ rw (sym (load_room-untouched h) ∙ l.first) u.first;
          },
          refl,
        )
