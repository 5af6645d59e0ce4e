-- ===== src/Effects/Contract.antt =====
-- crates/effects/src/contract.rs: the kernel-effective contract of an effect.
use ai_harness.Base.{Bool, true, false, Option, none, some, String, if◌then◌else◌}
use ai_harness.Domain.Effect.{
  EffectClass, IdempotencySemantics, ReconciliationSemantics, opaque, unknown_idempotency,
  unknown_reconciliation,
}
use text.Mathlib.Text.{◌==◌ as str_eq}

pub data CancellationSemantics : Type 0 where
  before_dispatch cooperative provider_specific unsupported : CancellationSemantics

-- The persisted token of a cancellation semantics.
unfoldable pub as_str : CancellationSemantics → String
as_str before_dispatch = "before_dispatch"
as_str cooperative = "cooperative"
as_str provider_specific = "provider_specific"
as_str unsupported = "unsupported"

-- `from_state_str`; `none` stands for the `UnknownStateValue` error.
unfoldable pub from_state_str : String → Option CancellationSemantics
from_state_str value =
    if str_eq value "before_dispatch"
    then some before_dispatch
    else if str_eq value "cooperative"
    then some cooperative
    else if str_eq value "provider_specific"
    then some provider_specific
    else if str_eq value "unsupported"
    then some unsupported
    else none

pub record EffectContract : Type 0 where
  pub effect_class : EffectClass
  pub idempotency : IdempotencySemantics
  pub reconciliation : ReconciliationSemantics
  pub cancellation : CancellationSemantics
  pub compensation_capability : Option String

-- What an unknown or generated tool resolves to.
unfoldable pub unknown : EffectContract
unknown = record {
  effect_class = opaque;
  idempotency = unknown_idempotency;
  reconciliation = unknown_reconciliation;
  cancellation = unsupported;
  compensation_capability = none;
}

unfoldable pub is_reconcilable : EffectContract → Bool
is_reconcilable c = elim c.reconciliation [
  | ReconciliationSemantics.status_lookup ↦ true
  | ReconciliationSemantics.result_lookup ↦ true
  | ReconciliationSemantics.deterministic_inspection ↦ true
  | _ ↦ false
]

unfoldable pub is_safely_redispatchable : EffectContract → Bool
is_safely_redispatchable c = elim c.idempotency [
  | IdempotencySemantics.naturally_idempotent ↦ true
  | IdempotencySemantics.idempotency_key_supported ↦ true
  | _ ↦ false
]

unfoldable pub can_cancel_before_dispatch : EffectContract → Bool
can_cancel_before_dispatch c = elim c.cancellation [ before_dispatch ↦ true | _ ↦ false ]
