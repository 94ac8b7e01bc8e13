-- ===== src/Strategy/Migrating.antt =====
-- migrateDomainState ends, and what it returns is the pack's one chain of migrations.
use mathlib.Core.List.{append-nil, append_assoc}
use collabhub.Prelude.{
  ℕ, zero, suc, ◌+◌, ◌≤◌, ◌<◌, Text, ◌≡◌, refl, sym, subst, inl, inr, Bool, false, Option, some,
  List, [], ◌∷◌, ◌++◌, arith, any, length, ◌===◌, ===_iff, Bool-cases, Option-cases, ◌∙◌,
  if◌then◌else◌,
}
use collabhub.Errors.{Result, ok, throws, ◌>>=◌, Ensures, Result-cases}
use collabhub.Protocol.Json.{Value, object, Fields}
use collabhub.Strategy.{
  Migration, DomainPack, Applied, Migrated, object_state, migration_from, migrate_loop,
  validate_migration_graph, migrate_domain_state,
}

abbrev visits : List Text → Text → Bool
visits visited v = any (λ w. w === v) visited

-- The migrations whose source the loop has not visited.
unvisited : List Text → List Migration → ℕ
unvisited visited [] = 0
unvisited visited (m ∷ ms) = (if visits visited m.from_version then 0 else 1) + unvisited visited ms

unvisited-le-length : (visited : List Text) (ms : List Migration) → unvisited visited ms ≤ length ms
unfolding unvisited
unvisited-le-length visited [] = omega arith
unvisited-le-length visited (m ∷ ms) = ground (arith, unvisited-le-length visited ms)

unvisited_mono :
    (c : Text) (visited : List Text) (ms : List Migration)
    → unvisited (c ∷ visited) ms ≤ unvisited visited ms
unfolding unvisited any
unvisited_mono c visited [] = omega arith
unvisited_mono c visited (m ∷ ms) = ground (arith, unvisited_mono c visited ms)

unvisited-lt :
    (c : Text) (visited : List Text) (ms : List Migration) (m : Migration)
    → migration_from c ms ≡ some m
    → visits visited c ≡ false
    → unvisited (c ∷ visited) ms < unvisited visited ms
unfolding unvisited any migration_from
unvisited-lt c visited [] m h new = cc
unvisited-lt c visited (n ∷ ms) m h new = elim (Bool-cases (n.from_version === c)) [
  | inl e ↦
      let same = (===_iff n.from_version c).0 e in
      rw same (ground (arith, unvisited_mono c visited ms, ===_iff c c))
  | inr e ↦
      ground
        (arith, unvisited-lt c visited ms m, ===_iff c n.from_version, ===_iff n.from_version c)
]

abbrev step_of : Migration → Applied
step_of m = record { from_version = m.from_version; to_version = m.to_version }

-- The steps lead from a version and a state to a state of the pack's version: each is the pack's
-- migration from the version that stands, and gave an object.
pub data Chain (pack : DomainPack) : Text → Fields → List Applied → Fields → Type 0 where
  done : {v : Text} {s : Fields} → v ≡ pack.schema_version → Chain pack v s [] s
  step :
      {v : Text} {s next t : Fields} {rest : List Applied} (m : Migration)
      → migration_from v pack.migrations ≡ some m
      → m.migrate s ≡ ok (object next)
      → Chain pack m.to_version next rest t
      → Chain pack v s (step_of m ∷ rest) t

object_state-ok :
    (m : Migration) (r : Result Value) (next : Fields)
    → (r >>= object_state m) ≡ ok next
    → r ≡ ok (object next)
object_state-ok m (throws e) next h = cc
object_state-ok m (ok (object fs)) next h = cc
object_state-ok m (ok v) next h = cc

module _ (pack : DomainPack) where
  abbrev Follows : Text → Fields → List Applied → Migrated → Type 0
  Follows v s applied r =
      (r.schema_version ≡ pack.schema_version)
      × (rest : List Applied) × (r.applied ≡ applied ++ rest)
      × Chain pack v s rest r.state

  abbrev Ends : Text → Fields → List Applied → Option (Result Migrated) → Type 0
  Ends v s applied o = (r : Result Migrated) × (o ≡ some r) × Ensures (Follows v s applied) r

  Ends-migrated :
      (fuel : ℕ) (current : Text) (state : Fields) (visited : List Text) (applied : List Applied)
      (m : Migration) (r : Result Fields)
      → migration_from current pack.migrations ≡ some m
      → (m.migrate state >>= object_state m) ≡ r
      → ((next : Fields)
          → Ends m.to_version next (applied ++ step_of m ∷ []) (
              migrate_loop pack fuel m.to_version next
                (current ∷ visited)
                (applied ++ step_of m ∷ [])))
      → Ends current state applied (elim r [
        | throws e ↦ some (throws e)
        | ok next ↦
            migrate_loop pack fuel m.to_version next (current ∷ visited) (applied ++ step_of m ∷ [])
      ])
  Ends-migrated fuel current state visited applied m (throws e) found gave ih = (throws e, refl, tt)
  Ends-migrated fuel current state visited applied m (ok next) found gave ih =
      let (r, e, f) = ih next in (r, e, extend r f)
    where
      extend :
          (r : Result Migrated)
          → Ensures (Follows m.to_version next (applied ++ step_of m ∷ [])) r
          → Ensures (Follows current state applied) r
      extend (throws e) f = tt
      extend (ok r) (v, rest, a, chain) = (
        v,
        step_of m ∷ rest,
        a ∙ append_assoc applied (step_of m ∷ []) rest,
        step m found (object_state-ok m (m.migrate state) next gave) chain,
      )

  migrate_loop-Ends :
      (fuel : ℕ) (current : Text) (state : Fields) (visited : List Text) (applied : List Applied)
      → unvisited visited pack.migrations < fuel
      → Ends current state applied (migrate_loop pack fuel current state visited applied)
  unfolding migrate_loop
  migrate_loop-Ends zero current state visited applied h = elim h [ ]
  migrate_loop-Ends (suc fuel) current state visited applied h =
      elim (Bool-cases (current === pack.schema_version)) [
        | inl e ↦ rw e (
          ok _,
          refl,
          ((===_iff _ _).0 e, [], sym (append-nil applied), done ((===_iff _ _).0 e)),
        )
        | inr e ↦ elim (Bool-cases (visits visited current)) [
          | inl seen ↦ rw (e, seen) (throws _, refl, tt)
          | inr new ↦ elim (Option-cases (migration_from current pack.migrations)) [
            | inl missing ↦ rw (e, new, missing) (throws _, refl, tt)
            | inr (m, found) ↦
                rw (e, new, found)
                  (Ends-migrated fuel current state visited applied m _ found refl λ next.
                    migrate_loop-Ends fuel m.to_version next (current ∷ visited) _
                      (omega (arith, unvisited-lt current visited pack.migrations m found new)))
          ]
        ]
      ]

  from_start :
      (v : Text) (s : Fields) (r : Result Migrated)
      → Ensures (Follows v s []) r
      → Ensures (λ m. (m.schema_version ≡ pack.schema_version) × Chain pack v s m.applied m.state) r
  from_start v s (throws e) h = tt
  from_start v s (ok m) (e, rest, a, chain) =
      (e, subst (λ steps. Chain pack v s steps m.state) (sym a) chain)

  -- The migration of a stored state ends: with an error, or with a state of the pack's schema to
  -- which the steps that it lists lead from the stored state, one after the other. Each step is the
  -- pack's migration from the version then reached, and gave an object.
  pub migrate_domain_state-Chain :
      (from_version : Text) (state : Fields)
      → (r : Result Migrated) × (migrate_domain_state pack from_version state ≡ some r)
        × Ensures
            (λ m.
              (m.schema_version ≡ pack.schema_version)
              × Chain pack from_version state m.applied m.state)
            r
  unfolding migrate_domain_state
  migrate_domain_state-Chain v s = elim (Result-cases (validate_migration_graph pack)) [
    | inr (e, bad) ↦ rw (bad, migrate_domain_state) (throws e, refl, tt)
    | inl (_, good) ↦ elim (Bool-cases (v === pack.schema_version)) [
      | inl same ↦
          rw (good, same, migrate_domain_state)
            (ok _, refl, ((===_iff _ _).0 same, done ((===_iff _ _).0 same)))
      | inr other ↦
          let (r, e, f) =
            migrate_loop-Ends (suc (suc (length pack.migrations))) v s [] []
              (omega (arith, unvisited-le-length [] pack.migrations)) in
          rw (good, other, migrate_domain_state) (r, e, from_start v s r f)
    ]
  ]
