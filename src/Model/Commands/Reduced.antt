-- ===== src/Model/Commands/Reduced.antt =====
-- What the domain pack of packages/model/src/index.ts accepts is what its reducer makes of the server's state.
use collabhub.Prelude.{
  Text, ◌≡◌, refl, ◌∙◌, ap, Option, none, some, List, [], All, Bool-cases, Option-cases, inl, inr,
}
use collabhub.Errors.{Message, Result, ok, throws, unwrap, bind-ok, Result-cases}
use collabhub.Protocol.Json.{Value, object, Fields}
use collabhub.Protocol.Messages.{Patch}
use collabhub.Strategy.{ResolveContext, ResolveResult}
use collabhub.DomainJson.Patches.{apply_canonical_patches}
use collabhub.Model.Diff.{Differ, diff_json_objects}
use collabhub.Model.Plain.{FieldsArePlain}
use collabhub.Model.Changes.{Alike}
use collabhub.Model.RoundTrip.{IsReadable, diff_json_objects-apply}
use collabhub.Model.Commands.{
  Model, has_type, assert_json_object, assert_valid, run_model_command, read_command,
  resolve_command, invalid,
}

-- The reducer's next state, which passes the validation, and a state like it that the patches lead to
pub record IsReduced (model : Model) (state command : Fields) (patches : List Patch) : Type 0 where
  pub next : Fields
  pub reduced : model.reduce state command ≡ ok (object next)
  pub valid : model.validate next command ≡ ok none
  pub result : Fields
  pub applied : apply_canonical_patches state patches ≡ ok result
  pub alike : Alike (some (object result)) (some (object next))

assert_json_object-lem : (v : Value) (fs : Fields) → assert_json_object v ≡ ok fs → v ≡ object fs
assert_json_object-lem (object gs) fs e = ap object (unwrap e)
assert_json_object-lem _ fs e = cc

assert_valid-lem : (v : Option Text) (u : Unit {0}) → assert_valid v ≡ ok u → v ≡ none
assert_valid-lem none u e = refl
assert_valid-lem (some t) u e = cc

run_model_command-IsReduced :
    (foreign : Differ) (model : Model) (state command next : Fields) (patches : List Patch)
    → FieldsArePlain state
    → ((after : Fields) → model.reduce state command ≡ ok (object after) → FieldsArePlain after)
    → run_model_command foreign model state command ≡ ok (next, patches)
    → All IsReadable patches
    → IsReduced model state command patches
unfolding run_model_command
run_model_command-IsReduced foreign model state command next patches plain plain_after e readable =
    elim (Bool-cases (has_type command)) [
      | inr untyped ↦ absurd (refused (rw (untyped, run_model_command) at e))
      | inl typed ↦
          let reduced = bind-ok (model.reduce state command) (rw (typed, run_model_command) at e) in
          let object_next = bind-ok (assert_json_object reduced.value) reduced.rest in
          let verdict = bind-ok (model.validate object_next.value command) object_next.rest in
          let valid = bind-ok (assert_valid verdict.value) verdict.rest in
          let found = bind-ok (diff_json_objects foreign state object_next.value) valid.rest in
          let same : found.value ≡ patches =
            ap (λ (x : Fields × List Patch). x.1) (unwrap found.rest) in
          let reduces : model.reduce state command ≡ ok (object object_next.value) =
            reduced.first
            ∙ ap (λ v. ok v)
                (assert_json_object-lem reduced.value object_next.value object_next.first) in
          let round =
            diff_json_objects-apply foreign state object_next.value patches plain
              (plain_after object_next.value reduces) (found.first ∙ ap (λ ps. ok ps) same)
              readable in
          record {
            next = object_next.value;
            reduced = reduces;
            valid =
                verdict.first
                ∙ ap (λ v. ok v) (assert_valid-lem verdict.value valid.value valid.first);
            result = round.0;
            applied = round.1;
            alike = round.2;
          }
    ]
  where
    refused :
        Path
          (Result (Fields × List Patch))
          (throws Message.command_type_required)
          (ok (next, patches))
        → ⊥
    refused h = cc

-- Where a model's strategy accepts, the operation carries a command, and its patches, if pointers read their
-- paths, apply to the server's state and lead to one that equals the reducer's next state of it up to
-- the order of fields, which passes the model's validation. The server's state and what the reducer makes
-- of it hold nothing but JSON, under names that no object inherits.
pub resolve_command-IsReduced :
    (foreign : Differ) (model : Model) (context : ResolveContext) (patches : List Patch)
    → FieldsArePlain context.current_state
    → ((command after : Fields)
        → model.reduce context.current_state command ≡ ok (object after)
        → FieldsArePlain after)
    → resolve_command foreign model context ≡ ok (ResolveResult.accept patches)
    → All IsReadable patches
    → (command : Fields) × (read_command context.operation.payload ≡ some command)
      × IsReduced model context.current_state command patches
unfolding resolve_command
resolve_command-IsReduced foreign model context patches plain plain_after e readable =
    elim (Option-cases (read_command context.operation.payload)) [
      | inl no_command ↦ absurd (rejects _ (rw (no_command, resolve_command) at e))
      | inr (command, given) ↦
          elim (Result-cases (run_model_command foreign model context.current_state command)) [
            | inr (m, run) ↦ absurd (rejects m (rw (given, run, resolve_command) at e))
            | inl ((next, found), run) ↦
                let same : found ≡ patches = patches_of (rw (given, run, resolve_command) at e) in
                (
                  command,
                  given,
                  run_model_command-IsReduced foreign model context.current_state command next
                      patches plain (plain_after command) (run ∙ ap (λ ps. ok (next, ps)) same)
                      readable,
                )
          ]
    ]
  where
    rejects :
        (m : Message)
        → Path (Result ResolveResult) (ok (invalid m)) (ok (ResolveResult.accept patches))
        → ⊥
    rejects m h = cc

    patches_of :
        {found : List Patch}
        → Path
            (Result ResolveResult)
            (ok (ResolveResult.accept found))
            (ok (ResolveResult.accept patches))
        → found ≡ patches
    patches_of h = ap (λ r. in_result r) h
      where
        in_result : Result ResolveResult → List Patch
        in_result (ok (ResolveResult.accept ps)) = ps
        in_result _ = []
