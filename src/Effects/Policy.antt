-- ===== src/Effects/Policy.antt =====
-- crates/effects/src/policy.rs: the kernel-effective contract as the conservative intersection of
-- what the sources of evidence declare.
use ai_harness.Base.{
  ℕ, Bool, true, Option, none, some, String, List, [], ◌∷◌, if◌then◌else◌, all, coalesce,
}
use ai_harness.Base.Select.{filter_map, flatten, find_map, max_by_key}
use ai_harness.Domain.Effect.{EffectClass, IdempotencySemantics, ReconciliationSemantics}
use ai_harness.Domain.Security.{TrustState, trusted, ConformanceState, passed}
use ai_harness.Effects.Contract.{
  CancellationSemantics, before_dispatch, cooperative, provider_specific, unsupported,
  EffectContract,
}
use text.Mathlib.Text.{◌==◌ as str_eq}

pub record DeclaredSemantics : Type 0 where
  pub effect_class : Option EffectClass
  pub idempotency : Option IdempotencySemantics
  pub reconciliation : Option ReconciliationSemantics
  pub cancellation : Option CancellationSemantics
  pub compensation_capability : Option String

pub record ResolveInputs : Type 0 where
  pub kernel : Option DeclaredSemantics
  pub claim : Option DeclaredSemantics
  pub trust : TrustState
  pub conformance : ConformanceState
  pub policy : Option DeclaredSemantics

-- Danger orderings: higher is less safe.
unfoldable pub class_rank : EffectClass → ℕ
class_rank EffectClass.read_only = 0
class_rank EffectClass.local_mutation = 1
class_rank EffectClass.external_mutation = 2
class_rank EffectClass.opaque = 3
class_rank EffectClass.unspecified = 4

unfoldable pub idempotency_rank : IdempotencySemantics → ℕ
idempotency_rank IdempotencySemantics.naturally_idempotent = 0
idempotency_rank IdempotencySemantics.idempotency_key_supported = 1
idempotency_rank IdempotencySemantics.not_idempotent = 2
idempotency_rank IdempotencySemantics.unknown_idempotency = 3
idempotency_rank IdempotencySemantics.unspecified = 4

unfoldable pub reconciliation_rank : ReconciliationSemantics → ℕ
reconciliation_rank ReconciliationSemantics.result_lookup = 0
reconciliation_rank ReconciliationSemantics.deterministic_inspection = 1
reconciliation_rank ReconciliationSemantics.status_lookup = 2
reconciliation_rank ReconciliationSemantics.impossible = 3
reconciliation_rank ReconciliationSemantics.unknown_reconciliation = 4
reconciliation_rank ReconciliationSemantics.unspecified = 5

unfoldable pub cancellation_rank : CancellationSemantics → ℕ
cancellation_rank before_dispatch = 0
cancellation_rank cooperative = 1
cancellation_rank provider_specific = 2
cancellation_rank unsupported = 3

-- The least safe value that the sources contribute to one axis.
unfoldable pub weakest :
    {T : Type 0} → List DeclaredSemantics → (DeclaredSemantics → Option T) → (T → ℕ) → Option T
weakest sources field rank = max_by_key rank (filter_map field sources)

unfoldable pub is_none_or : Option String → String → Bool
is_none_or none c = true
is_none_or (some d) c = str_eq d c

abbrev pub permitted : List DeclaredSemantics → Option String → Option String
permitted sources none = none
permitted sources (some declared) =
    if all (λ s. is_none_or s.compensation_capability declared) sources then some declared else none

unfoldable pub resolve_compensation : List DeclaredSemantics → Option String
resolve_compensation sources = permitted sources (find_map (λ s. s.compensation_capability) sources)

-- A claim counts when its adapter is trusted and its conformance evidence has passed.
unfoldable pub admitted :
    TrustState → ConformanceState → Option DeclaredSemantics → Option DeclaredSemantics
admitted trusted passed claim = claim
admitted _ _ claim = none

unfoldable pub sources_of : ResolveInputs → List DeclaredSemantics
unfolding admitted
sources_of inputs =
    flatten
      (inputs.kernel ∷ admitted inputs.trust inputs.conformance inputs.claim ∷ inputs.policy ∷ [])

-- `Unspecified` is not a value that the store holds.
abbrev pub class_stored : EffectClass → EffectClass
class_stored EffectClass.unspecified = EffectClass.opaque
class_stored other = other

abbrev pub idempotency_stored : IdempotencySemantics → IdempotencySemantics
idempotency_stored IdempotencySemantics.unspecified = IdempotencySemantics.unknown_idempotency
idempotency_stored other = other

abbrev pub reconciliation_stored : ReconciliationSemantics → ReconciliationSemantics
reconciliation_stored ReconciliationSemantics.unspecified =
    ReconciliationSemantics.unknown_reconciliation
reconciliation_stored other = other

-- `.map(f).unwrap_or(d)`.
abbrev pub map_or : {T : Type 0} → (T → T) → T → Option T → T
map_or f d none = d
map_or f d (some x) = f x

unfoldable pub resolve : ResolveInputs → EffectContract
unfolding sources_of weakest resolve_compensation
resolve inputs =
    let sources = sources_of inputs in
    record {
      effect_class =
          map_or class_stored EffectClass.opaque (weakest sources (λ s. s.effect_class) class_rank);
      idempotency =
          map_or idempotency_stored IdempotencySemantics.unknown_idempotency
            (weakest sources (λ s. s.idempotency) idempotency_rank);
      reconciliation =
          map_or reconciliation_stored ReconciliationSemantics.unknown_reconciliation
            (weakest sources (λ s. s.reconciliation) reconciliation_rank);
      cancellation = coalesce (weakest sources (λ s. s.cancellation) cancellation_rank) unsupported;
      compensation_capability = resolve_compensation sources;
    }

abbrev pub no_declaration : DeclaredSemantics
no_declaration = record {
  effect_class = none;
  idempotency = none;
  reconciliation = none;
  cancellation = none;
  compensation_capability = none;
}

unfoldable pub kernel_declared : String → DeclaredSemantics
kernel_declared operation =
    if str_eq operation "fixture.increment_counter"
    then record {
      effect_class = some EffectClass.external_mutation;
      idempotency = some IdempotencySemantics.idempotency_key_supported;
      reconciliation = some ReconciliationSemantics.status_lookup;
      cancellation = some before_dispatch;
      compensation_capability = none;
    }
    else if str_eq operation "fixture.unreconcilable_counter"
    then record {
      effect_class = some EffectClass.external_mutation;
      idempotency = some IdempotencySemantics.not_idempotent;
      reconciliation = some ReconciliationSemantics.impossible;
      cancellation = some unsupported;
      compensation_capability = none;
    }
    else no_declaration
