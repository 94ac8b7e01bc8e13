-- ===== src/Tests/Data.antt =====
-- The document, the operations and the pack that the tests share.
use collabhub.Prelude.{Text, text, none, some, [], ◌∷◌}
use collabhub.Protocol.Json.{string, integer, object, array, nil, cons, Fields, end, field}
use collabhub.Protocol.Messages.{Operation}
use collabhub.Strategy.{DomainPack}
use collabhub.DomainJson.Strategies.{
  property_lww_strategy, entity_lifecycle_strategy, reject_if_stale_strategy,
}
use collabhub.ServerCore.Session.{SessionOptions}

-- { title: 'old', tasks: [{ id: 'a' }] }
abbrev pub document : Fields
document = field (text "title") (string (text "old")) (
    field (text "tasks") (array (cons (object (field (text "id") (string (text "a")) end)) nil))
      end)

abbrev pub pack : DomainPack
pack = record {
  id = text "tasks";
  schema_version = text "1.0";
  strategies = property_lww_strategy ∷ entity_lifecycle_strategy ∷ reject_if_stale_strategy ∷ [];
  decide = none;
  invariants = [];
  migrations = [];
  initial_state = λ id. document;
}

abbrev pub options : SessionOptions
options = record {
  tenant_id = text "t";
  document_id = text "d";
  pipeline = record { domain_pack = pack; max_recovery_gap = none; hooks = [] };
  snapshot_interval = some 1;
}

-- A submitted operation that sets the title.
abbrev pub set_title : Fields
set_title = field (text "tenantId") (string (text "t")) (
    field (text "documentId") (string (text "d")) (
      field (text "actorId") (string (text "alice")) (
        field (text "clientId") (string (text "c1")) (
          field (text "operationId") (string (text "op-1")) (
            field (text "baseVersion") (integer 0) (
              field (text "schemaVersion") (string (text "1.0")) (
                field (text "operationType") (string (text "property.set")) (
                  field (text "strategyId") (string (text "json.property-lww")) (
                    field (text "strategyVersion") (string (text "1.0")) (
                      field (text "payload")
                        (object (
                          field (text "path") (string (text "/title"))
                            (field (text "value") (string (text "new")) end)))
                        end))))))))))

-- The operation that `set_title` is read as.
abbrev pub set_title_operation : Operation
set_title_operation = record {
  tenant_id = text "t";
  document_id = text "d";
  actor_id = text "alice";
  client_id = text "c1";
  operation_id = text "op-1";
  base_version = 0;
  schema_version = text "1.0";
  operation_type = text "property.set";
  strategy_id = text "json.property-lww";
  strategy_version = text "1.0";
  payload = object (
      field (text "path") (string (text "/title"))
        (field (text "value") (string (text "new")) end));
  intent = none;
  trace_id = none;
}

abbrev pub title : Text → Fields
title new = field (text "title") (string new) (
    field (text "tasks") (array (cons (object (field (text "id") (string (text "a")) end)) nil))
      end)
