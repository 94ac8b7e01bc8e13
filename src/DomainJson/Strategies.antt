-- ===== src/DomainJson/Strategies.antt =====
-- propertyLwwStrategy, entityLifecycleStrategy and rejectIfStaleStrategy of
-- packages/domain-json/src/index.ts. A payload is read at its declared type: a field of another
-- type counts as missing.
pub mod Lifecycle
use collabhub.Prelude.{
  ℕ, Text, text, Bool, true, false, not, ◌&&◌, ◌||◌, Option, none, some, List, [], ◌∷◌, leb, length,
  ◌==◌, ◌===◌, if◌then◌else◌,
}
use collabhub.Errors.{
  Message, Result, ok, throws, ◌>>=◌, ◌>>◌, type_error, unbounded_pointer,
  property_set_requires_value, unsafe_entity, entity_missing, entity_exists, requires_value,
  transaction_requires_patches, patch_not_object, expected_version,
}
use collabhub.Protocol.Json.{
  Value, string, object, array, Items, nil, cons, Fields, to_list, get, put,
}
use collabhub.Protocol.Messages.{
  Operation, Patch, set, remove, entity_upsert, entity_delete, list_order, RejectReason, RejectCode,
  invalid_operation, stale_version,
}
use collabhub.Strategy.{ResolveContext, ResolveResult, accept, Strategy}
use collabhub.DomainJson.Pointer.{is_safe_property_name, pointer_segments}
use collabhub.DomainJson.Patches.{assert_safe_canonical_patch}
use collabhub.DomainJson.Patches.Entities.{entity}

unfoldable pub invalid : Message → ResolveResult
invalid message = ResolveResult.reject (record { code = invalid_operation; message = message }) none

abbrev pub payload_field : Value → Text → Option Value
payload_field (object fs) key = get fs key
payload_field v key = none

abbrev pub as_text : Option Value → Option Text
as_text (some (string s)) = some s
as_text _ = none

abbrev pub as_object : Option Value → Option Fields
as_object (some (object fs)) = some fs
as_object _ = none

abbrev pub text_field : Value → Text → Option Text
text_field v key = as_text (payload_field v key)

unfoldable pub resolve_property : ResolveContext → Result ResolveResult
unfolding invalid
resolve_property context =
    let op = context.operation in
    elim (text_field op.payload (text "path")) [
      | none ↦ ok (invalid unbounded_pointer)
      | some path ↦ elim (pointer_segments path) [
        | throws e ↦ ok (invalid e)
        | ok segments ↦
            if op.operation_type === text "property.unset"
            then ok (accept (remove path ∷ []))
            else elim (payload_field op.payload (text "value")) [
              | none ↦ ok (invalid property_set_requires_value)
              | some value ↦ ok (accept (set path value ∷ []))
            ]
      ]
    ]

abbrev pub property_lww_strategy : Strategy
property_lww_strategy = record {
  id = text "json.property-lww";
  version = text "1.0";
  supports = λ type schema. type === text "property.set" || type === text "property.unset";
  resolve = resolve_property;
}

-- The decision on an entity operation, once its payload is read.
unfoldable pub resolve_entity_at : Text → Fields → Text → Text → Option Fields → ResolveResult
unfolding invalid
resolve_entity_at type state collection id value =
    let existing = entity state collection id in
    if type === text "entity.delete"
    then elim existing [
      | none ↦ invalid (entity_missing id)
      | some v ↦ accept (entity_delete collection id ∷ [])
    ]
    else elim value [
      | none ↦ invalid (requires_value type)
      | some fs ↦ elim existing [
        | some v ↦
            if type === text "entity.create"
            then invalid (entity_exists id)
            else accept (entity_upsert collection id (put fs (text "id") (string id)) ∷ [])
        | none ↦ accept (entity_upsert collection id (put fs (text "id") (string id)) ∷ [])
      ]
    ]

abbrev or_empty : Option Text → Text
or_empty none = []
or_empty (some s) = s

unfoldable pub resolve_entity : ResolveContext → Result ResolveResult
unfolding invalid
resolve_entity context =
    let op = context.operation in
    let id = or_empty (text_field op.payload (text "id")) in
    elim (text_field op.payload (text "collection")) [
      | none ↦ throws type_error
      | some collection ↦ ok (
          if not (is_safe_property_name collection) || leb (length id) 0
          then invalid unsafe_entity
          else resolve_entity_at op.operation_type context.current_state collection id
              (as_object (payload_field op.payload (text "value"))))
    ]

abbrev pub entity_lifecycle_strategy : Strategy
entity_lifecycle_strategy = record {
  id = text "json.entity-lifecycle";
  version = text "1.0";
  supports = λ type schema.
      type === text "entity.create"
      || type === text "entity.delete"
      || type === text "entity.restore";
  resolve = resolve_entity;
}

abbrev or_fail {ℓ} : {A : Type ℓ} → Option A → Result A
or_fail none = throws patch_not_object
or_fail (some a) = ok a

-- A value as a CanonicalPatch.
unfoldable pub read_patch : Value → Result Patch
read_patch v = do
  op ← or_fail (text_field v (text "op"))
  if op === text "set"
      then (do
        path ← or_fail (text_field v (text "path"))
        value ← or_fail (payload_field v (text "value"))
        ok (set path value))
      else if op === text "remove"
      then (do path ← or_fail (text_field v (text "path")); ok (remove path))
      else (do
        collection ← or_fail (text_field v (text "collection"))
        id ← or_fail (text_field v (text "id"))
        if op === text "entityUpsert"
            then (do
              value ← or_fail (as_object (payload_field v (text "value")))
              ok (entity_upsert collection id value))
            else if op === text "entityDelete"
            then ok (entity_delete collection id)
            else (do
              position ← or_fail (text_field v (text "position"))
              ok (list_order collection id position)))

unfoldable pub read_patches : List Value → Result (List Patch)
unfolding read_patch
read_patches [] = ok []
read_patches (v ∷ vs) = do
  p ← read_patch v
  assert_safe_canonical_patch p
  ps ← read_patches vs
  ok (p ∷ ps)

unfoldable pub resolve_transaction : ResolveContext → Result ResolveResult
unfolding invalid
resolve_transaction context =
    let base = context.operation.base_version in
    if not (base == context.current_version)
    then ok (
        ResolveResult.reject
          (record { code = stale_version; message = expected_version context.current_version base })
          none)
    else elim (payload_field context.operation.payload (text "patches")) [
      | some (array items) ↦ elim (read_patches (to_list items)) [
        | throws e ↦ ok (invalid e)
        | ok patches ↦ ok (accept patches)
      ]
      | _ ↦ ok (invalid transaction_requires_patches)
    ]

abbrev pub reject_if_stale_strategy : Strategy
reject_if_stale_strategy = record {
  id = text "json.reject-if-stale";
  version = text "1.0";
  supports = λ type schema. type === text "transaction.apply";
  resolve = resolve_transaction;
}
