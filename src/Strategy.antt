-- ===== src/Strategy.antt =====
-- packages/strategy-sdk/src/index.ts: what an application plugs into the server, its registry of
-- strategies, and the migrations of a stored state.
pub mod Migrating
use collabhub.Prelude.{
  ℕ, Text, text, ◌≡◌, Bool, true, false, ◌&&◌, ◌||◌, Option, none, some, List, [], ◌∷◌, ◌++◌, zero,
  suc, find, any, leb, length, ◌===◌, if◌then◌else◌,
}
use collabhub.Errors.{
  Message, Result, ok, throws, ◌>>=◌, ◌>>◌, empty_migration_version, migration_targets_itself,
  multiple_migrations, migration_cycle, no_migration, non_object_state,
}
use collabhub.Protocol.Json.{Value, object, Fields}
use collabhub.Protocol.Messages.{Operation, Patch, RejectReason}

-- CommittedOperation
pub record Committed : Type 0 where
  pub canonical_version : ℕ
  pub operation : Operation

pub record ResolveContext : Type 0 where
  pub current_version : ℕ
  pub current_state : Fields
  pub operation : Operation
  -- committed after the operation's base version, by canonical version
  pub concurrent_operations : List Committed
  -- false when only a suffix of the history is there
  pub history_complete : Bool

pub data ResolveResult : Type 0 where
  accept : List Patch → ResolveResult
  reject : RejectReason → Option (List Patch) → ResolveResult
  resync : Message → ResolveResult

-- ConflictStrategy; application code may throw
pub record Strategy : Type 0 where
  pub id : Text
  pub version : Text
  pub supports : (operation_type schema_version : Text) → Bool
  pub resolve : ResolveContext → Result ResolveResult

-- OperationVersionContext
pub record VersionContext : Type 0 where
  pub base : ResolveContext
  pub open base use *
  pub submitted_version : ℕ
  pub version_gap : ℕ
  pub recovery_window_exceeded : Bool

-- OperationVersionDecision
pub data VersionDecision : Type 0 where
  resolve : VersionDecision
  reject : RejectReason → Option (List Patch) → VersionDecision
  resync : Message → VersionDecision

-- Invariant; `check` gives `none` for true, or the text that it found
pub record Invariant : Type 0 where
  pub id : Text
  pub check : Fields → Operation → Result (Option Text)

-- DomainSchemaMigration; the state that comes back is not yet known to be an object
pub record Migration : Type 0 where
  pub from_version : Text
  pub to_version : Text
  pub migrate : Fields → Result Value

pub record DomainPack : Type 0 where
  pub id : Text
  pub schema_version : Text
  pub strategies : List Strategy
  pub decide : Option (VersionContext → Result VersionDecision)
  pub invariants : List Invariant
  pub migrations : List Migration
  pub initial_state : Text → Fields

-- StrategyRegistry.resolve: the first strategy with the operation's id and version that supports it
unfoldable pub serves : Operation → Strategy → Bool
serves op s =
    s.id === op.strategy_id
    && s.version === op.strategy_version
    && s.supports op.operation_type op.schema_version

unfoldable pub resolve_strategy : List Strategy → Operation → Option Strategy
unfolding find serves
resolve_strategy strategies op = find (serves op) strategies

abbrev pub is_empty : Text → Bool
is_empty s = leb (length s) 0

-- validateMigrationGraph; `outgoing` is the set of the sources seen so far
unfoldable pub validate_from : List Text → List Migration → Result (Unit {0})
unfolding any
validate_from outgoing [] = ok tt
validate_from outgoing (m ∷ ms) =
    if is_empty m.from_version || is_empty m.to_version
    then throws empty_migration_version
    else if m.from_version === m.to_version
    then throws (migration_targets_itself m.from_version)
    else if any (λ v. v === m.from_version) outgoing
    then throws (multiple_migrations m.from_version)
    else validate_from (m.from_version ∷ outgoing) ms

unfoldable pub validate_migration_graph : DomainPack → Result (Unit {0})
unfolding validate_from
validate_migration_graph pack = validate_from [] pack.migrations

-- new Map(migrations.map(m => [m.fromVersion, m])).get(version): the last entry of a key counts
unfoldable pub migration_from : Text → List Migration → Option Migration
migration_from version [] = none
migration_from version (m ∷ ms) = elim (migration_from version ms) [
  | some later ↦ some later
  | none ↦ if m.from_version === version then some m else none
]

pub record Applied : Type 0 where
  pub from_version : Text
  pub to_version : Text

-- DomainMigrationResult
pub record Migrated : Type 0 where
  pub state : Fields
  pub schema_version : Text
  pub applied : List Applied

abbrev pub object_state : Migration → Value → Result Fields
object_state m (object fs) = ok fs
object_state m v = throws (non_object_state m.from_version m.to_version)

-- The while loop. A version is visited once and has a migration, so one round for each migration
-- and one more are enough.
unfoldable pub migrate_loop :
    DomainPack → ℕ → Text → Fields → List Text → List Applied → Option (Result Migrated)
unfolding any migration_from
migrate_loop pack zero current state visited applied = none
migrate_loop pack (suc fuel) current state visited applied =
    if current === pack.schema_version
    then some (ok (record { state = state; schema_version = current; applied = applied }))
    else if any (λ v. v === current) visited
    then some (throws (migration_cycle current))
    else elim (migration_from current pack.migrations) [
      | none ↦ some (throws (no_migration current pack.schema_version))
      | some m ↦ elim (m.migrate state >>= object_state m) [
        | throws e ↦ some (throws e)
        | ok next ↦
            migrate_loop pack fuel m.to_version next (current ∷ visited)
              (applied ++ record { from_version = m.from_version; to_version = m.to_version } ∷ [])
      ]
    ]

-- migrateDomainState
unfoldable pub migrate_domain_state : DomainPack → Text → Fields → Option (Result Migrated)
migrate_domain_state pack from_version state = elim (validate_migration_graph pack) [
  | throws e ↦ some (throws e)
  | ok _ ↦
      if from_version === pack.schema_version
      then some (ok (record { state = state; schema_version = from_version; applied = [] }))
      else migrate_loop pack (suc (suc (length pack.migrations))) from_version state [] []
]
