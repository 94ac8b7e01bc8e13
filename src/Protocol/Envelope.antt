-- ===== src/Protocol/Envelope.antt =====
-- assertOperationEnvelope of packages/protocol/src/index.ts: a value off the wire becomes an operation.
pub mod Bounds
use collabhub.Prelude.{
  ℕ, ◌<◌, ◌≤◌, ◌^◌, ◌≡◌, refl, Text, text, Bool, true, false, ◌||◌, Option, none, some, List, [],
  ◌∷◌, arith, ltb, leb, length, ◌===◌, ===_iff, if◌then◌else◌,
}
use collabhub.Errors.{
  Message, Result, ok, throws, ◌>>=◌, ◌>>◌, not_an_object, not_a_non_empty_string, not_at_most_256,
  bad_base_version, payload_required,
}
use collabhub.Protocol.Json.{Value, integer, string, array, object, other, Fields, get}
use collabhub.Protocol.Messages.{Operation}
use collabhub.Protocol.Complexity.{default_limits, assert_json_complexity}

-- operation[key] where it is a string of 1 to 256 code units
unfoldable pub short_string : Fields → Text → Result Text
short_string fs key = elim (get fs key) [
  | some (string s) ↦
      if leb (length s) 0
      then throws (not_a_non_empty_string key)
      else if ltb 256 (length s)
      then throws (not_at_most_256 key)
      else ok s
  | _ ↦ throws (not_a_non_empty_string key)
]

-- Number.isSafeInteger and not negative
unfoldable pub safe_version : Fields → Result ℕ
safe_version fs = elim (get fs (text "baseVersion")) [
  | some (integer n) ↦ if ltb n (2 ^ 53) then ok n else throws bad_base_version
  | _ ↦ throws bad_base_version
]

unfoldable pub own_payload : Fields → Result Value
own_payload fs = elim (get fs (text "payload")) [ none ↦ throws payload_required | some v ↦ ok v ]

unfoldable pub json_payload : Value → Result (Unit {0})
json_payload v = elim (assert_json_complexity default_limits v) [
  | some r ↦ r
  | none ↦ throws not_an_object
]

-- traceId and intent are passed on as they are: the source's check does not look at them.
abbrev optional_text : Option Value → Option Text
optional_text (some (string s)) = some s
optional_text _ = none

unfoldable pub read_envelope : Fields → Result Operation
read_envelope fs = do
  tenant ← short_string fs (text "tenantId")
  document ← short_string fs (text "documentId")
  actor ← short_string fs (text "actorId")
  client ← short_string fs (text "clientId")
  operation ← short_string fs (text "operationId")
  schema ← short_string fs (text "schemaVersion")
  type ← short_string fs (text "operationType")
  strategy ← short_string fs (text "strategyId")
  version ← short_string fs (text "strategyVersion")
  base ← safe_version fs
  payload ← own_payload fs
  json_payload payload
  ok (record {
    tenant_id = tenant;
    document_id = document;
    actor_id = actor;
    client_id = client;
    operation_id = operation;
    base_version = base;
    schema_version = schema;
    operation_type = type;
    strategy_id = strategy;
    strategy_version = version;
    payload = payload;
    intent = get fs (text "intent");
    trace_id = optional_text (get fs (text "traceId"));
  })

unfoldable pub assert_operation_envelope : Value → Result Operation
assert_operation_envelope (object fs) = read_envelope fs
-- an array is an object to `typeof`, and has none of the keys
assert_operation_envelope (array vs) = throws (not_a_non_empty_string (text "tenantId"))
assert_operation_envelope v = throws not_an_object
