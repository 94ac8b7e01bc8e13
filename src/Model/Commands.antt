-- ===== src/Model/Commands.antt =====
-- runModelCommand and createModelDomainPack of packages/model/src/index.ts. A model's reducer and its
-- validation are parameters: what comes back from the reducer is its replacement, or the draft. So
-- is what the diff does with values that JSON does not hold.
pub mod Reduced
use collabhub.Prelude.{
  ℕ, Text, text, ◌≡◌, refl, sym, ◌∙◌, subst, ap, Bool, true, false, not, ◌&&◌, ◌||◌, Option, none,
  some, List, [], ◌∷◌, ◌++◌, All, any, leb, ◌==◌, ◌===◌, if◌then◌else◌, Bool-cases, Option-cases,
  inl, inr,
}
use collabhub.Errors.{
  Message, Result, ok, throws, ◌>>=◌, unwrap, bind-ok, Result-cases, command_type_required,
  state_not_object, command_required, state_required, command_based_on,
}
use collabhub.Protocol.Json.{Value, string, object, Fields, get}
use collabhub.Protocol.Messages.{Patch, RejectReason, invalid_operation, stale_version}
use collabhub.Strategy.{
  ResolveContext, ResolveResult, Strategy, VersionContext, VersionDecision, DomainPack,
}
use collabhub.DomainJson.Patches.{apply_canonical_patches}
use collabhub.Model.Diff.{Differ, diff_json_objects}

pub data StaleCommandPolicy : Type 0 where
  rebase reject resync : StaleCommandPolicy

-- CollaborationModel
pub record Model : Type 0 where
  pub id : Text
  pub schema_version : Text
  pub initial_state : Text → Fields
  pub reduce : Fields → Fields → Result Value
  pub validate : Fields → Fields → Result (Option Text)
  pub stale : Fields → StaleCommandPolicy

-- What trim takes away
abbrev is_space : ℕ → Bool
is_space c =
    (leb 9 c && leb c 13)
    || c == 32
    || c == 160
    || c == 5760
    || (leb 8192 c && leb c 8202)
    || c == 8232
    || c == 8233
    || c == 8239
    || c == 8287
    || c == 12288
    || c == 65279

abbrev pub command_type : Fields → Option Text
command_type command = elim (get command (text "type")) [ some (string t) ↦ some t | _ ↦ none ]

-- typeof command.type === 'string' && command.type.trim()
unfoldable pub has_type : Fields → Bool
has_type command = elim (command_type command) [
  | none ↦ false
  | some t ↦ any (λ c. not (is_space c)) t
]

abbrev pub assert_json_object : Value → Result Fields
assert_json_object (object fs) = ok fs
assert_json_object _ = throws state_not_object

abbrev pub assert_valid : Option Text → Result (Unit {0})
assert_valid none = ok tt
assert_valid (some found) = throws (Message.text found)

unfoldable pub run_model_command : Differ → Model → Fields → Fields → Result (Fields × List Patch)
run_model_command foreign model state command = elim (has_type command) [
  | false ↦ throws command_type_required
  | true ↦ do
    reduced ← model.reduce state command
    next ← assert_json_object reduced
    verdict ← model.validate next command
    _ ← assert_valid verdict
    patches ← diff_json_objects foreign state next
    ok (next, patches)
]

abbrev pub with_type : Fields → Option Fields
with_type command = elim (command_type command) [ none ↦ none | some t ↦ some command ]

-- readCommand
unfoldable pub read_command : Value → Option Fields
read_command (object payload) = elim (get payload (text "command")) [
  | some (object command) ↦ with_type command
  | _ ↦ none
]
read_command payload = none

abbrev pub invalid : Message → ResolveResult
invalid message = ResolveResult.reject (record { code = invalid_operation; message = message }) none

-- The strategy's resolve: what the command throws is its rejection.
unfoldable pub resolve_command : Differ → Model → ResolveContext → Result ResolveResult
resolve_command foreign model context = elim (read_command context.operation.payload) [
  | none ↦ ok (invalid command_required)
  | some command ↦ elim (run_model_command foreign model context.current_state command) [
    | throws m ↦ ok (invalid m)
    | ok (next, patches) ↦ ok (ResolveResult.accept patches)
  ]
]

abbrev type_of : Fields → Text
type_of command = elim (command_type command) [ none ↦ [] | some t ↦ t ]

abbrev stale_decision : Fields → VersionContext → StaleCommandPolicy → VersionDecision
stale_decision command context rebase = VersionDecision.resolve
stale_decision command context resync = VersionDecision.resync (state_required (type_of command))
stale_decision command context reject =
    VersionDecision.reject
      (record {
        code = stale_version;
        message =
            command_based_on (type_of command) context.submitted_version context.current_version;
      })
      none

-- operationVersionPolicy.decide
unfoldable pub decide_command : Model → VersionContext → Result VersionDecision
decide_command model context = elim (read_command context.operation.payload) [
  | none ↦ ok VersionDecision.resolve
  | some command ↦
      if context.version_gap == 0
      then ok VersionDecision.resolve
      else ok (stale_decision command context (model.stale command))
]

abbrev pub commands_id : Model → Text
commands_id model = model.id ++ text ".commands"

unfoldable pub command_strategy : Differ → Model → Strategy
command_strategy foreign model = record {
  id = commands_id model;
  version = text "1.0";
  supports = λ operation_type schema.
      operation_type === text "model.command" && schema === model.schema_version;
  resolve = resolve_command foreign model;
}

unfoldable pub create_model_domain_pack : Differ → Model → DomainPack
create_model_domain_pack foreign model = record {
  id = model.id;
  schema_version = model.schema_version;
  strategies = command_strategy foreign model ∷ [];
  decide = some (decide_command model);
  invariants = [];
  migrations = [];
  initial_state = model.initial_state;
}
