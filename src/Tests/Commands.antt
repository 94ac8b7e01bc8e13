-- ===== src/Tests/Commands.antt =====
-- Tests and instances for the model's commands: a reducer that knows one next state.
use collabhub.Prelude.{text, ◌≡◌, subst, ap, refl, none, some, [], any, ◌===◌, true}
use collabhub.Errors.{ok, unwrap}
use collabhub.Protocol.Json.{Value, string, object, Fields, end, field, get}
use collabhub.Strategy.{ResolveContext, ResolveResult}
use collabhub.Model.Commands.{
  Model, rebase, has_type, run_model_command, read_command, resolve_command,
}
use collabhub.Model.Commands.Reduced.{IsReduced, resolve_command-IsReduced}
use collabhub.Tests.Data.{set_title_operation}
use collabhub.Tests.Model.{
  before, after, foreign, patches, patches_found, patches-IsReadable, before-FieldsArePlain,
  after-FieldsArePlain,
}
use collabhub.Model.Plain.{FieldsArePlain}

abbrev model : Model
model = record {
  id = text "notes";
  schema_version = text "1.0";
  initial_state = λ id. before;
  reduce = λ state command. ok (object after);
  validate = λ next command. ok none;
  stale = λ command. rebase;
}

abbrev command : Fields
command = field (text "type") (string (text "tidy")) end

abbrev context : ResolveContext
context = record {
  current_version = 0;
  current_state = before;
  operation = record set_title_operation {
    payload = object (field (text "command") (object command) end);
  };
  concurrent_operations = [];
  history_complete = true;
}

command_read : read_command context.operation.payload ≡ some command
unfolding read_command get text ◌===◌
command_read = refl

command_run : run_model_command foreign model before command ≡ ok (after, patches)
unfolding run_model_command has_type any get text ◌===◌
command_run = rw patches_found refl

command_accepted : resolve_command foreign model context ≡ ok (ResolveResult.accept patches)
unfolding resolve_command
command_accepted = rw (command_read, command_run, resolve_command) refl

reduced-FieldsArePlain :
    (c next : Fields) → model.reduce before c ≡ ok (object next) → FieldsArePlain next
reduced-FieldsArePlain c next e =
    subst FieldsArePlain (object-fields (unwrap e)) after-FieldsArePlain
  where
    fields_of : Value → Fields
    fields_of (object fs) = fs
    fields_of v = end

    object-fields : {fs gs : Fields} → object fs ≡ object gs → fs ≡ gs
    object-fields e = ap fields_of e

resolve_command-IsReduced_example :
    (c : Fields) × (read_command context.operation.payload ≡ some c)
    × IsReduced model before c patches
resolve_command-IsReduced_example =
    resolve_command-IsReduced foreign model context patches before-FieldsArePlain
      reduced-FieldsArePlain command_accepted patches-IsReadable
