-- ===== src/Tests/Protocol.antt =====
-- Tests and instances for the protocol's checks and the migrations of a stored state.
use collabhub.Prelude.{text, ◌≡◌, refl, ◌⊎◌, some, [], ◌∷◌, ◌===◌}
use collabhub.Errors.{Message, Result, ok, throws, Ensures}
use collabhub.Protocol.Json.{Value, null, integer, string, object, array, nil, cons, get, put}
use collabhub.Protocol.Complexity.{default_limits, assert_json_complexity}
use collabhub.Protocol.Complexity.Accepts.{InBounds, assert_json_complexity-InBounds}
use collabhub.Protocol.Envelope.{
  assert_operation_envelope, read_envelope, short_string, safe_version, own_payload, json_payload,
}
use collabhub.Protocol.Envelope.Bounds.{IsEnvelope, assert_operation_envelope-IsEnvelope}
use collabhub.Strategy.{
  DomainPack, Migrated, validate_migration_graph, migrate_loop, migrate_domain_state,
}
use collabhub.Strategy.Migrating.{Chain, migrate_domain_state-Chain}
use collabhub.Tests.Data.{set_title, set_title_operation, document, title, pack}

abbrev sample : Value
sample = array (cons null (cons (integer 3) nil))

assert_json_complexity-InBounds_example :
    ((assert_json_complexity default_limits sample ≡ some (ok tt)) × InBounds default_limits sample)
    ⊎ ((m : Message) × (assert_json_complexity default_limits sample ≡ some (throws m))
        × (¬ InBounds default_limits sample))
assert_json_complexity-InBounds_example = assert_json_complexity-InBounds default_limits sample

sample_accepted : assert_json_complexity default_limits sample ≡ some (ok tt)
unfolding assert_json_complexity
sample_accepted = refl

set_title_read : assert_operation_envelope (object set_title) ≡ ok set_title_operation
unfolding assert_operation_envelope read_envelope short_string safe_version own_payload json_payload
    assert_json_complexity get text ◌===◌
set_title_read = refl

assert_operation_envelope-IsEnvelope_example : IsEnvelope set_title_operation
assert_operation_envelope-IsEnvelope_example =
    assert_operation_envelope-IsEnvelope (object set_title) set_title_operation set_title_read

-- A pack at 1.1 that takes documents of 1.0 by a new title.
abbrev newer : DomainPack
newer = record pack {
  schema_version = text "1.1";
  migrations =
      record {
        from_version = text "1.0";
        to_version = text "1.1";
        migrate = λ state. ok (object (put state (text "title") (string (text "migrated"))));
      }
      ∷ [];
}

migrate_domain_state-Chain_example :
    (r : Result Migrated) × (migrate_domain_state newer (text "1.0") document ≡ some r)
    × Ensures
        (λ m. (m.schema_version ≡ text "1.1") × Chain newer (text "1.0") document m.applied m.state)
        r
migrate_domain_state-Chain_example = migrate_domain_state-Chain newer (text "1.0") document

document_migrated :
    migrate_domain_state newer (text "1.0") document
    ≡ some (
        ok (record {
          state = title (text "migrated");
          schema_version = text "1.1";
          applied = record { from_version = text "1.0"; to_version = text "1.1" } ∷ [];
        }))
unfolding migrate_domain_state validate_migration_graph migrate_loop text ◌===◌ put
document_migrated = refl
