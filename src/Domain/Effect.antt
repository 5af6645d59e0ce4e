-- ===== src/Domain/Effect.antt =====
-- crates/domain/src/effect.rs: what the kernel knows of an effect's behaviour.

pub data EffectClass : Type 0 where
  unspecified read_only local_mutation external_mutation opaque : EffectClass

pub data IdempotencySemantics : Type 0 where
  unspecified naturally_idempotent idempotency_key_supported not_idempotent unknown_idempotency :
      IdempotencySemantics

pub data ReconciliationSemantics : Type 0 where
  unspecified status_lookup result_lookup deterministic_inspection impossible
        unknown_reconciliation :
      ReconciliationSemantics
