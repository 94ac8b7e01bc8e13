-- ===== src/Distributed/Worker/Warming.antt =====
-- How a room of packages/server-distributed/src/worker.ts becomes warm, while others change the rows between
-- its calls of the store.
use collabhub.Prelude.{
  ℕ, ◌≤◌, Text, ◌≡◌, refl, sym, ◌∙◌, subst, ap, true, false, not, ◌&&◌, ◌||◌, Option, none, some,
  [], find, ◌==◌, ==_iff, ◌===◌, ===-refl, any, arith, Bool-cases, Option-cases, inl, inr,
}
use collabhub.Errors.{ok, Ensures, Result-cases, Ensures-ok}
use collabhub.Protocol.Json.{Fields}
use collabhub.Strategy.{Migrated, migrate_domain_state}
use collabhub.Distributed.Rows.{
  Document, Owner, LoadedRoom, MigrationRequest, MigrationOutcome, migrated, already_current,
  is_owner,
}
use collabhub.Distributed.Store.{
  ensure_document, claim_ownership, load_room, loaded_state, migrate_document, migrated_document,
  is_history,
}
use collabhub.Distributed.Store.Restoring.{IsWellFormed}
use collabhub.Distributed.Database.Transactions.{View}
use collabhub.Distributed.Database.Kept.{claim_ownership-Steps}
use collabhub.Distributed.Database.Steps.{migrated-IsWellFormed, restore-migrated}
use collabhub.Distributed.Worker.{WorkerOptions, WarmRoom, Others, recent_of, reload}
use collabhub.Distributed.Worker.Activation.{
  Activation, warm_room, migration_request, after_migration, migrate_loaded, warm_loaded,
  do_activate,
}
use collabhub.Distributed.Worker.Drifts.{Drift, trans-Drift}
use collabhub.Distributed.Worker.Coherence.{
  IsCoherent, Drift-IsCoherent, reload-IsCoherent, load_room-head,
}
use collabhub.Distributed.Worker.Turns.{IsOthers, others-Drift, others-Still}

pub ensure_document-IsWellFormed :
    (schema : Text) (initial : Fields) (found : Option Document)
    → ((d : Document) → found ≡ some d → IsWellFormed d)
    → IsWellFormed (ensure_document schema initial found)
unfolding ensure_document find
ensure_document-IsWellFormed schema initial (some d) w = w d refl
ensure_document-IsWellFormed schema initial none w = record {
  base = 0;
  reaches = omega arith;
  below = omega arith;
  run = refl;
  row = record { version = 0; schema_version = schema; state = initial };
  pointed = refl;
}

-- What a migration that changes nothing, or the schema, says of the rows
abbrev pub IsMigration : Document → MigrationRequest → MigrationOutcome × Document → Type 0
IsMigration d q (migrated, next) =
    (next ≡ migrated_document q d) × (d.head.canonical_version ≡ q.version)
IsMigration d q (already_current, next) =
    (d.head.owner_epoch ≡ q.owner.epoch)
    × (d.head.canonical_version ≡ q.version)
    × (d.head.schema_version === q.from_schema_version ≡ false)
IsMigration d q (_, next) = Unit

module _ (q : MigrationRequest) (d : Document) where
  owned : is_owner q.owner d.head ≡ true → d.head.owner_epoch ≡ q.owner.epoch
  owned owns = ground arith

  current :
      (not (d.head.canonical_version == q.version)
          || not (d.head.schema_version === q.from_schema_version))
        ≡ false
      → d.head.canonical_version ≡ q.version
  current same = ground arith

  other_schema :
      (not (d.head.canonical_version == q.version)
          || not (d.head.schema_version === q.from_schema_version))
        ≡ true
      → d.head.canonical_version == q.version ≡ true
      → d.head.schema_version === q.from_schema_version ≡ false
  other_schema other same = ground arith

  reached :
      d.head.schema_version === q.to_schema_version && d.head.canonical_version == q.version ≡ true
      → d.head.canonical_version == q.version ≡ true
  reached h = ground arith

  migrate_document-IsMigration : Ensures (IsMigration d q) (migrate_document q d)
  unfolding migrate_document
  migrate_document-IsMigration = elim (Bool-cases (is_owner q.owner d.head)) [
    | inr foreign ↦ rw (foreign, migrate_document) tt
    | inl owns ↦
        elim (Bool-cases (
          not (d.head.canonical_version == q.version)
          || not (d.head.schema_version === q.from_schema_version))) [
            | inl other ↦
                elim (Bool-cases (
                  d.head.schema_version === q.to_schema_version
                  && d.head.canonical_version == q.version)) [
                    | inl there ↦
                        rw (owns, other, there, migrate_document)
                          (
                            owned owns,
                            (==_iff d.head.canonical_version q.version).0 (reached there),
                            other_schema other (reached there),
                          )
                    | inr elsewhere ↦ rw (owns, other, elsewhere, migrate_document) tt
                  ]
            | inr same ↦
                elim (Bool-cases
                  (any (is_history q.version q.to_schema_version) d.schema_history)) [
                    | inl clash ↦ rw (owns, same, clash, migrate_document) tt
                    | inr clear ↦ rw (owns, same, clear, migrate_document) (refl, current same)
                  ]
          ]
  ]

module _ (o : WorkerOptions) (others : Others) (now : ℕ) (owner : Owner)
    (honest : IsOthers owner others) (claimed : Document) (w : IsWellFormed claimed)
    (epoch : owner.epoch ≤ claimed.head.owner_epoch) where
  d0 : Document
  d0 = others 2 claimed

  d1 : Document
  d1 = others 3 d0

  d2 : Document
  d2 = others 4 d1

  m0 : Drift owner claimed d0
  unfolding d0
  m0 = others-Drift o others owner honest now 2 claimed w

  m1 : Drift owner d0 d1
  unfolding d1
  m1 = others-Drift o others owner honest now 3 d0 m0.in_order

  m2 : Drift owner d1 d2
  unfolding d2
  m2 = others-Drift o others owner honest now 4 d1 m1.in_order

  module _ (l : LoadedRoom) (state : Fields) (found : load_room d0 d1 d2 ≡ ok l)
      (applied : loaded_state l ≡ ok state) where
    abbrev at_load : WarmRoom
    at_load = warm_room now owner l.schema_version l.version state (recent_of l.wal)

    reload_loaded : reload at_load d0 d1 d2 ≡ ok at_load
    unfolding reload
    reload_loaded = rw (found, applied) refl

    loaded-IsCoherent : IsCoherent at_load d2
    unfolding d1 d2
    loaded-IsCoherent =
        (reload-IsCoherent at_load d0 d1 d2 m0.in_order m1 m2
          (others-Still o others owner honest now 3 d0 m0.in_order refl)
          (others-Still o others owner honest now 4 d1 m1.in_order refl) at_load
          (omega (arith, epoch, m0.epoch)) reload_loaded).0

    d3 : Document
    d3 = others 5 d2

    before_migration : IsCoherent at_load d3
    unfolding d3
    before_migration =
        Drift-IsCoherent at_load d2 loaded-IsCoherent d3
          (others-Drift o others owner honest now 5 d2 m2.in_order)

    -- The room does not get another schema on the way to its migration.
    schema_kept :
        d3.head.owner_epoch ≡ owner.epoch
        → d3.head.canonical_version ≡ l.version
        → d3.head.schema_version ≡ l.schema_version
    unfolding d3 d1 d2
    schema_kept e v =
        let m3 = others-Drift o others owner honest now 5 d2 m2.in_order in
        let all = trans-Drift owner d0 d2 d3 (trans-Drift owner d0 d1 d2 m1 m2) m3 in
        let head =
          load_room-head at_load d0 d1 d2 m0.in_order m1 m2
            (others-Still o others owner honest now 3 d0 m0.in_order refl)
            (others-Still o others owner honest now 4 d1 m1.in_order refl) l found in
        ap (λ (x : View). x.schema_version)
          (all.same (omega (arith, epoch, m0.epoch, all.epoch, e), e, v ∙ head.0))
        ∙ sym head.1

    abbrev IsWarm : Activation → Type 0
    IsWarm a = Ensures (λ s. IsCoherent s a.rows) a.session

    after_migration-IsWarm :
        (m : Migrated) (outcome : MigrationOutcome) (next : Document)
        → IsMigration d3 (migration_request owner l m) (outcome, next)
        → IsWarm (after_migration now owner l m outcome next)
    unfolding after_migration
    after_migration-IsWarm m migrated next h =
        subst (IsCoherent (warm_room now owner m.schema_version l.version m.state [])) (sym h.0)
          (record {
            in_order =
                migrated-IsWellFormed d3 before_migration.in_order (migration_request owner l m)
                  h.1;
            version = omega (arith, h.1);
            epoch = before_migration.epoch;
            same = λ e v.
                restore-migrated d3 before_migration.in_order (migration_request owner l m) h.1;
          })
    after_migration-IsWarm m already_current next h =
        absurd (clash (rw (schema_kept h.0 h.1, ===-refl l.schema_version) at h.2))
      where
        clash : true ≡ false → ⊥
        clash e = cc
    after_migration-IsWarm m MigrationOutcome.fenced next h = tt
    after_migration-IsWarm m (MigrationOutcome.version_conflict v schema) next h = tt

    migrate_loaded-IsWarm : IsWarm (migrate_loaded o now owner l state d3)
    unfolding migrate_loaded
    migrate_loaded-IsWarm =
        elim (Option-cases (migrate_domain_state o.domain_pack l.schema_version state)) [
          | inl no_end ↦ rw (no_end, migrate_loaded) tt
          | inr (r, e) ↦ elim (Result-cases r) [
            | inr (m, f) ↦ rw (e, f, migrate_loaded) tt
            | inl (m, f) ↦ elim (Result-cases (migrate_document (migration_request owner l m) d3)) [
              | inr (x, g) ↦ rw (e, f, g, migrate_loaded) tt
              | inl ((outcome, next), g) ↦
                  rw (e, f, g, migrate_loaded)
                    (after_migration-IsWarm m outcome next (
                      Ensures-ok (IsMigration d3 (migration_request owner l m)) _ (outcome, next) g
                        (migrate_document-IsMigration (migration_request owner l m) d3)))
            ]
          ]
        ]

    warm_loaded-IsWarm : IsWarm (warm_loaded o others now owner l state d2)
    unfolding warm_loaded d3
    warm_loaded-IsWarm = elim (Bool-cases (l.schema_version === o.domain_pack.schema_version)) [
      | inl same ↦ rw (same, warm_loaded) loaded-IsCoherent
      | inr other ↦ rw (other, warm_loaded) migrate_loaded-IsWarm
    ]

-- The rows once they are claimed
abbrev pub claim_of : WorkerOptions → Others → Option Document → ℕ × Document
claim_of o others found = claim_ownership o.instance_id (
    others 1 (
      ensure_document o.domain_pack.schema_version (o.domain_pack.initial_state o.room.document_id)
        found))

abbrev pub owner_of : WorkerOptions → Others → Option Document → Owner
owner_of o others found = record {
  epoch = (claim_of o others found).0;
  instance_id = o.instance_id;
}

-- A room that becomes warm, be it new, loaded or migrated, has the state that a load of the rows finds while
-- no other claims or changes it; where others do no more to the rows than in a turn.
pub do_activate-IsCoherent :
    (o : WorkerOptions) (others : Others) (now : ℕ) (found : Option Document)
    → ((d : Document) → found ≡ some d → IsWellFormed d)
    → IsOthers (owner_of o others found) others
    → Ensures
        (λ s. IsCoherent s (do_activate o others now found).rows)
        (do_activate o others now found).session
unfolding do_activate claim_ownership d0 d1 d2
do_activate-IsCoherent o others now found w honest =
    let owner = owner_of o others found in
    let made =
      ensure_document o.domain_pack.schema_version (o.domain_pack.initial_state o.room.document_id)
        found in
    let made_in_order =
      ensure_document-IsWellFormed o.domain_pack.schema_version
        (o.domain_pack.initial_state o.room.document_id) found w in
    let before = others-Drift o others owner honest now 1 made made_in_order in
    let claimed = (claim_of o others found).1 in
    let in_order = (claim_ownership-Steps (others 1 made) before.in_order o.instance_id).0 in
    let at_head = others 2 claimed in
    let at_snapshot = others 3 at_head in
    let at_wal = others 4 at_snapshot in
    elim (Result-cases (load_room at_head at_snapshot at_wal)) [
      | inr (m, e) ↦ rw (e, do_activate) tt
      | inl (l, e) ↦ elim (Result-cases (loaded_state l)) [
        | inr (m, f) ↦ rw (e, f, do_activate) tt
        | inl (state, f) ↦
            rw (e, f, do_activate)
              (warm_loaded-IsWarm o others now owner honest claimed in_order (omega arith) l state e
                f)
      ]
    ]
