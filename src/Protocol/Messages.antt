-- ===== src/Protocol/Messages.antt =====
-- The message types of packages/protocol/src/index.ts.
use collabhub.Prelude.{ℕ, Text, Bool, Option, List}
use collabhub.Errors.{Message}
use collabhub.Protocol.Json.{Value, Fields}

-- CollaborationOperation
pub record Operation : Type 0 where
  pub tenant_id : Text
  pub document_id : Text
  pub actor_id : Text
  pub client_id : Text
  pub operation_id : Text
  -- the canonical version observed when the operation was created
  pub base_version : ℕ
  pub schema_version : Text
  pub operation_type : Text
  pub strategy_id : Text
  pub strategy_version : Text
  pub payload : Value
  pub intent : Option Value
  pub trace_id : Option Text

-- CanonicalPatch
pub data Patch : Type 0 where
  set : (path : Text) (value : Value) → Patch
  remove : (path : Text) → Patch
  entity_upsert : (collection id : Text) (value : Fields) → Patch
  entity_delete : (collection id : Text) → Patch
  list_order : (collection id position : Text) → Patch

pub data RejectCode : Type 0 where
  invalid_operation unauthorized stale_version invariant_violation : RejectCode
  backpressure strategy_failure collaborative_session_active : RejectCode

-- RejectReason without `details`, which no package fills.
pub record RejectReason : Type 0 where
  pub code : RejectCode
  pub message : Message

pub data RetryReason : Type 0 where
  owner_changing temporarily_unavailable backpressure : RetryReason

-- The address of a snapshot, `scheme://tenant/document/version`, by what it encodes.
pub record SnapshotRef : Type 0 where
  pub tenant_id : Text
  pub document_id : Text
  pub version : ℕ

-- The variants of OperationResult that carry fields of their own, by the name of their `kind`.
pub record Accepted : Type 0 where
  pub operation_id : Text
  pub canonical_version : ℕ
  pub patches : List Patch
  pub duplicate : Bool

pub record Rejected : Type 0 where
  pub operation_id : Text
  pub canonical_version : ℕ
  pub reason : RejectReason
  pub corrective_patches : Option (List Patch)

pub record ResyncRequired : Type 0 where
  pub operation_id : Text
  pub canonical_version : ℕ
  pub snapshot_ref : SnapshotRef
  pub reason : Message

pub record RetryLater : Type 0 where
  pub operation_id : Text
  pub canonical_version : ℕ
  pub retry_after_ms : ℕ
  pub reason : RetryReason

pub data OperationResult : Type 0 where
  accepted : Accepted → OperationResult
  rejected : Rejected → OperationResult
  resync_required : ResyncRequired → OperationResult
  retry_later : RetryLater → OperationResult

-- SnapshotMessage, over the application's state
pub record Snapshot {ℓ} (S : Type ℓ) : Type ℓ where
  pub tenant_id : Text
  pub document_id : Text
  pub canonical_version : ℕ
  pub schema_version : Text
  pub snapshot : S
  pub snapshot_ref : SnapshotRef

-- CanonicalEvent
pub record Canonical : Type 0 where
  pub operation_id : Text
  pub actor_id : Text
  pub canonical_version : ℕ
  pub patches : List Patch

-- PresenceMessage
pub record Presence : Type 0 where
  pub tenant_id : Option Text
  pub document_id : Text
  pub actor_id : Text
  pub client_id : Text
  pub content : Fields

-- CapabilityHello
pub record Hello : Type 0 where
  pub tenant_id : Text
  pub document_id : Text
  pub actor_id : Text
  pub client_id : Text
  pub last_known_version : ℕ
  pub auth_token : Option Text

-- ClientWireMessage
pub data ClientMessage : Type 0 where
  hello : Hello → ClientMessage
  submit : Operation → ClientMessage
  presence : Presence → ClientMessage
  recover : (tenant_id document_id : Text) (since_version : ℕ) → ClientMessage

-- ServerWireMessage
pub data ServerMessage {ℓ} (S : Type ℓ) : Type ℓ where
  snapshot : Snapshot S → ServerMessage S
  canonical : Canonical → ServerMessage S
  result : OperationResult → ServerMessage S
  presence : Presence → ServerMessage S
  ready : (canonical_version : ℕ) → ServerMessage S
