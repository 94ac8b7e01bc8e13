-- ===== src/ServerCore/Pipeline/Prepared.antt =====
-- What a prepared operation promises to the code that commits it.
use collabhub.Prelude.{
  ◌≤◌, ◌≡◌, ◌⊎◌, refl, subst, Option, none, some, List, [], ◌∷◌, inl, inr, ltb, All, arith, ltb→le,
  ===_iff, ◌===◌, Bool-cases, Option-cases,
}
use collabhub.Errors.{Message, Result, Result-cases, ok, throws, Ensures, Ensures-bind}
use collabhub.Protocol.Json.{Fields}
use collabhub.Protocol.Messages.{Operation, Patch, Rejected}
use collabhub.Strategy.{Invariant, ResolveResult, VersionDecision, Strategy, resolve_strategy}
use collabhub.DomainJson.Patches.{apply_canonical_patches}
use collabhub.ServerCore.Pipeline.{
  PipelineOptions, PrepareInput, PreparedOperation, PrepareResult, prepared, rejected, resync,
  run_hooks, check_invariants, resolve_context, decide_version, prepare_accepted, prepare_resolved,
  prepare_current, prepare_body, prepare, catching,
}

-- What stops at no invariant has run each of them, and each has held.
check_invariants-All :
    (is : List Invariant) (state : Fields) (op : Operation)
    → check_invariants is state op ≡ ok none
    → All (λ (i : Invariant). i.check state op ≡ ok none) is
unfolding check_invariants
check_invariants-All [] state op h = tt
check_invariants-All (i ∷ is) state op h = elim (Result-cases (i.check state op)) [
  | inr (m, e) ↦ absurd (thrown (rw (e, check_invariants) at h))
  | inl (some m, e) ↦ absurd (broken (rw (e, check_invariants) at h))
  | inl (none, e) ↦ (e, check_invariants-All is state op (rw (e, check_invariants) at h))
]
  where
    thrown : {m : Message} → Path (Result (Option Message)) (throws m) (ok none) → ⊥
    thrown e = cc

    broken : {m : Message} → Path (Result (Option Message)) (ok (some m)) (ok none) → ⊥
    broken e = ground arith

module _ (options : PipelineOptions) (input : PrepareInput) where
  -- A prepared operation is the submitted one. It is of the pack's schema, based on no later version
  -- than the current one, and stale only where the version policy resolves it; its patches are those that the pack's strategy for it accepted, and lead
  -- from the current state to a next state in which each invariant of the pack holds.
  pub record IsPrepared (p : PreparedOperation) : Type 0 where
    pub same_operation : p.operation ≡ input.operation
    pub at_version : p.resolved_at_version ≡ input.current_version
    pub pack_schema : input.operation.schema_version ≡ options.domain_pack.schema_version
    pub known_base : input.operation.base_version ≤ input.current_version
    pub decided :
        (input.operation.base_version ≡ input.current_version)
        ⊎ (decide_version options input ≡ ok VersionDecision.resolve)
    pub strategy : Strategy
    pub chosen : resolve_strategy options.domain_pack.strategies input.operation ≡ some strategy
    pub accepted : strategy.resolve (resolve_context input) ≡ ok (ResolveResult.accept p.patches)
    pub applies : apply_canonical_patches input.state p.patches ≡ ok p.next_state
    pub holds :
        All
          (λ (i : Invariant). i.check p.next_state input.operation ≡ ok none)
          options.domain_pack.invariants

  abbrev pub Promises : PrepareResult → Type 0
  Promises (prepared p) = IsPrepared p
  Promises (rejected r) = r.operation_id ≡ input.operation.operation_id
  Promises (resync r) = Unit

  module _ (schema : input.operation.schema_version ≡ options.domain_pack.schema_version)
      (base : input.operation.base_version ≤ input.current_version)
      (decided : (input.operation.base_version ≡ input.current_version)
        ⊎ (decide_version options input ≡ ok VersionDecision.resolve)) where
    prepare_accepted-Promises :
        (strategy : Strategy) (patches : List Patch)
        → resolve_strategy options.domain_pack.strategies input.operation ≡ some strategy
        → strategy.resolve (resolve_context input) ≡ ok (ResolveResult.accept patches)
        → Ensures Promises (prepare_accepted options input patches)
    unfolding prepare_accepted
    prepare_accepted-Promises strategy patches chosen accepted =
        Ensures-bind Promises (run_hooks options.hooks _ _) _ λ u e.
          Ensures-bind Promises (apply_canonical_patches input.state patches) _ λ next applies.
            Ensures-bind Promises
              (check_invariants options.domain_pack.invariants next input.operation) _
              (elim [
                | some message ↦ λ broken. refl
                | none ↦ λ passes. Ensures-bind Promises (run_hooks options.hooks _ _) _ λ u e.
                    record {
                      same_operation = refl;
                      at_version = refl;
                      pack_schema = schema;
                      known_base = base;
                      decided = decided;
                      strategy = strategy;
                      chosen = chosen;
                      accepted = accepted;
                      applies = applies;
                      holds = check_invariants-All _ _ _ passes;
                    }
              ])

    prepare_resolved-Promises : Ensures Promises (prepare_resolved options input)
    unfolding prepare_resolved
    prepare_resolved-Promises = Ensures-bind Promises (run_hooks options.hooks _ _) _ λ u e.
        elim (Option-cases (resolve_strategy options.domain_pack.strategies input.operation)) [
          | inl missing ↦ rw (missing) refl
          | inr (strategy, found) ↦ rw (found) (
              Ensures-bind Promises (strategy.resolve (resolve_context input)) _ (elim [
                | ResolveResult.reject reason corrective ↦ λ e. refl
                | ResolveResult.resync reason ↦ λ e. tt
                | ResolveResult.accept patches ↦
                    λ e. prepare_accepted-Promises strategy patches found e
              ]))
        ]

  module _ (schema : input.operation.schema_version ≡ options.domain_pack.schema_version)
      (base : input.operation.base_version ≤ input.current_version) where
    prepare_current-Promises : Ensures Promises (prepare_current options input)
    unfolding prepare_current
    prepare_current-Promises =
        elim (Bool-cases (ltb input.operation.base_version input.current_version)) [
          | inr same ↦
              rw same (prepare_resolved-Promises schema base (inl (omega (arith, ltb→le _ _ same))))
          | inl stale ↦ rw stale (
              Ensures-bind Promises (decide_version options input) _ (elim [
                | VersionDecision.reject reason corrective ↦ λ e. refl
                | VersionDecision.resync reason ↦ λ e. tt
                | VersionDecision.resolve ↦ λ e. prepare_resolved-Promises schema base (inr e)
              ]))
        ]

  prepare_body-Promises : Ensures Promises (prepare_body options input)
  unfolding prepare_body
  prepare_body-Promises = Ensures-bind Promises (run_hooks options.hooks _ _) _ λ u e.
      Ensures-bind Promises (run_hooks options.hooks _ _) _ λ u e.
        elim (Bool-cases (input.operation.schema_version === options.domain_pack.schema_version)) [
          | inr other ↦ rw other tt
          | inl same ↦ rw same (
              Ensures-bind Promises (run_hooks options.hooks _ _) _ λ u e.
                Ensures-bind Promises (run_hooks options.hooks _ _) _ λ u e.
                  elim (Bool-cases (ltb input.current_version input.operation.base_version)) [
                    | inl ahead ↦ rw ahead tt
                    | inr known ↦
                        rw known
                          (prepare_current-Promises ((===_iff _ _).0 same) (ltb→le _ _ known))
                  ])
        ]

  caught : (r : Result PrepareResult) → Ensures Promises r → Promises (catching input r)
  caught (ok r) h = h
  caught (throws e) h = refl

  -- Whatever the hooks and strategies, a prepared operation is the submitted one, at the current
  -- version. It is of the pack's schema, based on no later version, and stale only where the version
  -- policy resolves it. Its patches are those that the pack's strategy for it accepted, and lead
  -- from the current state to a next state in which each invariant of the pack holds.
  pub prepare-IsPrepared :
      (p : PreparedOperation) → prepare options input ≡ prepared p → IsPrepared p
  unfolding prepare
  prepare-IsPrepared p e =
      subst Promises e (caught (prepare_body options input) prepare_body-Promises)

  -- A rejection is of the submitted operation.
  pub prepare-rejected :
      (r : Rejected)
      → prepare options input ≡ rejected r
      → r.operation_id ≡ input.operation.operation_id
  unfolding prepare
  prepare-rejected r e =
      subst Promises e (caught (prepare_body options input) prepare_body-Promises)
