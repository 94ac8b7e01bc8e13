-- ===== src/Protocol/Envelope/Bounds.antt =====
-- What an accepted envelope promises to the code behind it.
use collabhub.Prelude.{ℕ, ◌<◌, ◌≤◌, ◌^◌, ◌≡◌, Text, text, arith, length, inl, inr}
use collabhub.Errors.{ok, Ensures-bind, Ensures-ok, Ensures}
use collabhub.Protocol.Json.{Value, object, array, Fields}
use collabhub.Protocol.Messages.{Operation}
use collabhub.Protocol.Complexity.{default_limits}
use collabhub.Protocol.Complexity.Accepts.{count, Admits, assert_json_complexity-InBounds}
use collabhub.Protocol.Envelope.{
  short_string, safe_version, own_payload, json_payload, read_envelope, assert_operation_envelope,
}

abbrev pub IsShort : Text → Type 0
IsShort s = (0 < length s) × (length s ≤ 256)

pub record IsEnvelope (op : Operation) : Type 0 where
  pub tenant : IsShort op.tenant_id
  pub document : IsShort op.document_id
  pub actor : IsShort op.actor_id
  pub client : IsShort op.client_id
  pub operation : IsShort op.operation_id
  pub schema : IsShort op.schema_version
  pub type_name : IsShort op.operation_type
  pub strategy : IsShort op.strategy_id
  pub strategy_version : IsShort op.strategy_version
  pub safe_base : op.base_version < 2 ^ 53
  pub payload_nodes : count op.payload ≤ 10_000
  pub payload_shape : Admits default_limits 0 op.payload

short_string-IsShort : (fs : Fields) (key s : Text) → short_string fs key ≡ ok s → IsShort s
unfolding short_string
short_string-IsShort fs key s h = ground arith

safe_version-lt : (fs : Fields) (n : ℕ) → safe_version fs ≡ ok n → n < 2 ^ 53
unfolding safe_version
safe_version-lt fs n h = ground arith

json_payload-Admits :
    (v : Value) {u : Unit} → json_payload v ≡ ok u → (count v ≤ 10_000) × Admits default_limits 0 v
unfolding json_payload
json_payload-Admits v h = elim (assert_json_complexity-InBounds default_limits v) [
  | inl (e, a) ↦ a
  | inr (m, e, no_way) ↦ cc (rw (e, json_payload) at h)
]

read_envelope-IsEnvelope : (fs : Fields) → Ensures IsEnvelope (read_envelope fs)
unfolding read_envelope
read_envelope-IsEnvelope fs = Ensures-bind IsEnvelope (short_string fs (text "tenantId")) _ λ t et.
    Ensures-bind IsEnvelope (short_string fs (text "documentId")) _ λ d ed.
      Ensures-bind IsEnvelope (short_string fs (text "actorId")) _ λ a ea.
        Ensures-bind IsEnvelope (short_string fs (text "clientId")) _ λ c ec.
          Ensures-bind IsEnvelope (short_string fs (text "operationId")) _ λ o eo.
            Ensures-bind IsEnvelope (short_string fs (text "schemaVersion")) _ λ s es.
              Ensures-bind IsEnvelope (short_string fs (text "operationType")) _ λ y ey.
                Ensures-bind IsEnvelope (short_string fs (text "strategyId")) _ λ g eg.
                  Ensures-bind IsEnvelope (short_string fs (text "strategyVersion")) _ λ v ev.
                    Ensures-bind IsEnvelope (safe_version fs) _ λ b eb.
                      Ensures-bind IsEnvelope (own_payload fs) _ λ p ep.
                        Ensures-bind IsEnvelope (json_payload p) _ λ u eu. record {
                          tenant = short_string-IsShort fs (text "tenantId") t et;
                          document = short_string-IsShort fs (text "documentId") d ed;
                          actor = short_string-IsShort fs (text "actorId") a ea;
                          client = short_string-IsShort fs (text "clientId") c ec;
                          operation = short_string-IsShort fs (text "operationId") o eo;
                          schema = short_string-IsShort fs (text "schemaVersion") s es;
                          type_name = short_string-IsShort fs (text "operationType") y ey;
                          strategy = short_string-IsShort fs (text "strategyId") g eg;
                          strategy_version = short_string-IsShort fs (text "strategyVersion") v ev;
                          safe_base = safe_version-lt fs b eb;
                          payload_nodes = (json_payload-Admits p eu).0;
                          payload_shape = (json_payload-Admits p eu).1;
                        }

-- An envelope that the check accepts has nine non-empty texts of at most 256 code units, a base
-- version below 2^53, and a payload within the default bounds on nodes, depth and entries.
pub assert_operation_envelope-IsEnvelope :
    (v : Value) (op : Operation) → assert_operation_envelope v ≡ ok op → IsEnvelope op
unfolding assert_operation_envelope
assert_operation_envelope-IsEnvelope (object fs) op h =
    Ensures-ok IsEnvelope (read_envelope fs) op h (read_envelope-IsEnvelope fs)
assert_operation_envelope-IsEnvelope (array vs) op h = cc
assert_operation_envelope-IsEnvelope v op h = cc
