-- ===== src/ServerCore/Pipeline.antt =====
-- AuthoritativeOperationPipeline of packages/server-core/src/index.ts: how the server decides on an
-- operation before it commits it. A hook returns or throws; that a hook changes the objects of its
-- context in place is not modelled.
pub mod Prepared
use collabhub.Prelude.{
  ℕ, ◌+◌, ◌-◌, Text, text, ◌≡◌, refl, Bool, true, false, not, ◌&&◌, ◌||◌, Option, none, some, List,
  [], ◌∷◌, ltb, leb, keep, ◌===◌, sort_by, if◌then◌else◌,
}
use collabhub.Errors.{
  Message, Result, ok, throws, ◌>>=◌, ◌>>◌, schema_not_supported, version_ahead, outside_history,
  strategy_unsupported, invariant_failed,
}
use collabhub.Protocol.Json.{Fields}
use collabhub.Protocol.Messages.{
  Operation, Patch, RejectReason, RejectCode, Rejected, ResyncRequired, SnapshotRef,
  invalid_operation, invariant_violation, strategy_failure,
}
use collabhub.Strategy.{
  Committed, ResolveContext, ResolveResult, VersionContext, VersionDecision, Invariant, DomainPack,
  resolve_strategy,
}
use collabhub.DomainJson.Patches.{apply_canonical_patches}

pub data Stage : Type 0 where
  authenticate authorize schema_validate normalize before_resolve : Stage
  invariant_check before_commit after_commit : Stage

abbrev pub same_stage : Stage → Stage → Bool
same_stage authenticate authenticate = true
same_stage authorize authorize = true
same_stage schema_validate schema_validate = true
same_stage normalize normalize = true
same_stage before_resolve before_resolve = true
same_stage invariant_check invariant_check = true
same_stage before_commit before_commit = true
same_stage after_commit after_commit = true
same_stage a b = false

-- PipelineContext
pub record Context : Type 0 where
  pub operation : Operation
  pub state : Fields
  pub current_version : ℕ
  pub resolution : Option ResolveResult

-- OperationPipelineHook
pub record Hook : Type 0 where
  pub stage : Stage
  pub run : Context → Result (Unit {0})

-- AuthoritativeOperationPipelineOptions
pub record PipelineOptions : Type 0 where
  pub domain_pack : DomainPack
  pub max_recovery_gap : Option ℕ
  pub hooks : List Hook

-- PrepareOperationInput
pub record PrepareInput : Type 0 where
  pub operation : Operation
  pub state : Fields
  pub current_version : ℕ
  pub committed_operations : List Committed
  pub snapshot_ref : SnapshotRef

-- PreparedOperation
pub record PreparedOperation : Type 0 where
  pub operation : Operation
  pub resolved_at_version : ℕ
  pub patches : List Patch
  pub next_state : Fields
  pub context : Context

pub data PrepareResult : Type 0 where
  prepared : PreparedOperation → PrepareResult
  rejected : Rejected → PrepareResult
  resync : ResyncRequired → PrepareResult

unfoldable pub run_hooks : List Hook → Stage → Context → Result (Unit {0})
run_hooks [] stage context = ok tt
run_hooks (h ∷ hs) stage context =
    if same_stage h.stage stage
    then (do h.run context; run_hooks hs stage context)
    else run_hooks hs stage context

abbrev pub reject_operation : Operation → ℕ → RejectCode → Message → PrepareResult
reject_operation op version code message = rejected (record {
  operation_id = op.operation_id;
  canonical_version = version;
  reason = record { code = code; message = message };
  corrective_patches = none;
})

abbrev pub ask_resync : PrepareInput → Message → PrepareResult
ask_resync input reason = resync (record {
  operation_id = input.operation.operation_id;
  canonical_version = input.current_version;
  snapshot_ref = input.snapshot_ref;
  reason = reason;
})

abbrev pub reject_with : PrepareInput → RejectReason → Option (List Patch) → PrepareResult
reject_with input reason corrective = rejected (record {
  operation_id = input.operation.operation_id;
  canonical_version = input.current_version;
  reason = reason;
  corrective_patches = corrective;
})

abbrev pub default_to : ℕ → Option ℕ → ℕ
default_to d none = d
default_to d (some n) = n

-- committedOperations[0]?.canonicalVersion ?? currentVersion + 1
abbrev earliest_version : List Committed → ℕ → ℕ
earliest_version [] current = current + 1
earliest_version (c ∷ cs) current = c.canonical_version

-- What the strategies see of the history: the operations after the base version, in order.
unfoldable pub resolve_context : PrepareInput → ResolveContext
resolve_context input =
    let committed = sort_by (λ (c : Committed). c.canonical_version) input.committed_operations in
    let base = input.operation.base_version in
    record {
      current_version = input.current_version;
      current_state = input.state;
      operation = input.operation;
      concurrent_operations = keep (λ c. ltb base c.canonical_version) committed;
      history_complete = leb (earliest_version committed input.current_version - 1) base;
    }

unfoldable pub version_context : PipelineOptions → PrepareInput → VersionContext
unfolding resolve_context
version_context options input =
    let gap = input.current_version - input.operation.base_version in
    record {
      base = resolve_context input;
      submitted_version = input.operation.base_version;
      version_gap = gap;
      recovery_window_exceeded = ltb (default_to 100 options.max_recovery_gap) gap;
    }

-- The pack's policy for stale operations, or the default: resync outside the recoverable history.
unfoldable pub decide_version : PipelineOptions → PrepareInput → Result VersionDecision
decide_version options input =
    let context = version_context options input in
    elim options.domain_pack.decide [
      | some decide ↦ decide context
      | none ↦ ok (
          if context.recovery_window_exceeded || not context.base.history_complete
          then VersionDecision.resync outside_history
          else VersionDecision.resolve)
    ]

-- The first invariant that the state breaks.
unfoldable pub check_invariants : List Invariant → Fields → Operation → Result (Option Message)
check_invariants [] state op = ok none
check_invariants (i ∷ is) state op = do
  verdict ← i.check state op
  elim verdict [
    | none ↦ check_invariants is state op
    | some found ↦ ok (some (invariant_failed i.id found))
  ]

abbrev context_of : PrepareInput → Context
context_of input = record {
  operation = input.operation;
  state = input.state;
  current_version = input.current_version;
  resolution = none;
}

-- From an accepted resolution on: the patches are applied and the next state is checked.
unfoldable pub prepare_accepted : PipelineOptions → PrepareInput → List Patch → Result PrepareResult
prepare_accepted options input patches = do
  let context = record (context_of input) { resolution = some (ResolveResult.accept patches) }
  run_hooks options.hooks invariant_check context
  next ← apply_canonical_patches input.state patches
  broken ← check_invariants options.domain_pack.invariants next input.operation
  elim broken [
    | some message ↦
        ok (reject_operation input.operation input.current_version invariant_violation message)
    | none ↦ do
      run_hooks options.hooks before_commit (record context { state = next })
      ok (
          prepared (record {
            operation = input.operation;
            resolved_at_version = input.current_version;
            patches = patches;
            next_state = next;
            context = context;
          }))
  ]

unfoldable pub prepare_resolved : PipelineOptions → PrepareInput → Result PrepareResult
prepare_resolved options input = do
  run_hooks options.hooks before_resolve (context_of input)
  elim (resolve_strategy options.domain_pack.strategies input.operation) [
    | none ↦ ok (
        reject_operation input.operation input.current_version invalid_operation (
          strategy_unsupported input.operation.strategy_id input.operation.strategy_version
            input.operation.operation_type))
    | some strategy ↦ do
      resolution ← strategy.resolve (resolve_context input)
      elim resolution [
        | ResolveResult.reject reason corrective ↦ ok (reject_with input reason corrective)
        | ResolveResult.resync reason ↦ ok (ask_resync input reason)
        | ResolveResult.accept patches ↦ prepare_accepted options input patches
      ]
  ]

unfoldable pub prepare_current : PipelineOptions → PrepareInput → Result PrepareResult
prepare_current options input =
    if ltb input.operation.base_version input.current_version
    then (do
      decision ← decide_version options input
      elim decision [
        | VersionDecision.reject reason corrective ↦ ok (reject_with input reason corrective)
        | VersionDecision.resync reason ↦ ok (ask_resync input reason)
        | VersionDecision.resolve ↦ prepare_resolved options input
      ])
    else prepare_resolved options input

unfoldable pub prepare_body : PipelineOptions → PrepareInput → Result PrepareResult
prepare_body options input = do
  let op = input.operation
  run_hooks options.hooks authenticate (context_of input)
  run_hooks options.hooks authorize (context_of input)
  if not (op.schema_version === options.domain_pack.schema_version)
      then ok (ask_resync input (schema_not_supported op.schema_version))
      else do
        run_hooks options.hooks schema_validate (context_of input)
        run_hooks options.hooks normalize (context_of input)
        if ltb input.current_version op.base_version
            then ok (ask_resync input (version_ahead op.base_version input.current_version))
            else prepare_current options input

abbrev catching : PrepareInput → Result PrepareResult → PrepareResult
catching input (ok r) = r
catching input (throws e) =
    reject_operation input.operation input.current_version strategy_failure e

-- prepare: what is thrown on the way becomes a rejection
unfoldable pub prepare : PipelineOptions → PrepareInput → PrepareResult
prepare options input = catching input (prepare_body options input)

-- afterCommit
unfoldable pub run_after_commit : PipelineOptions → PreparedOperation → Fields → Result (Unit {0})
run_after_commit options p committed =
    run_hooks options.hooks after_commit (record (p.context) { state = committed })
