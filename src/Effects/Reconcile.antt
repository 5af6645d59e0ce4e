-- ===== src/Effects/Reconcile.antt =====
-- crates/effects/src/reconcile.rs: what the kernel does about a dispatched effect whose response was
-- lost, and how an operator resolves an unknown outcome.
use ai_harness.Base.{
  ℕ, Option, none, some, String, coalesce, if◌then◌else◌, ◌==◌, ◌≡◌, arith, ◌⊎◌, inl, inr,
  Option-cases, Bool-cases,
}
use ai_harness.Base.Txn.{Result, Txn, ok, err, pure, fault, invalid_argument, ◌>>=◌, ◌>>◌}
use ai_harness.Domain.EffectState.{EffectState, to_wire}
use ai_harness.Store.Models.{EffectRow}
use ai_harness.Store.Kernel.{KernelTxn}
use ai_harness.Store.Effects.{no_effect_patch, get_effect}
use ai_harness.Effects.Contract.{
  EffectContract, unsupported, from_state_str, is_safely_redispatchable,
}
use ai_harness.Effects.Executor.{
  Transition, transition, to_acknowledged, to_committed, to_failed, to_unknown, load_effect,
  stage_effect_event,
}
use text.Mathlib.Text.{◌==◌ as str_eq}

pub data ObservedOutcome : Type 0 where
  succeeded failed : String → ObservedOutcome
  not_found unknown : ObservedOutcome

pub data ReconcilePlan : Type 0 where
  settle : ObservedOutcome → ReconcilePlan
  redispatch park : ReconcilePlan

unfoldable pub persisted_contract : EffectRow → EffectContract
persisted_contract row = record {
  effect_class = row.effect_class;
  idempotency = row.idempotency_semantics;
  reconciliation = row.reconciliation_semantics;
  cancellation = coalesce (from_state_str row.cancellation_semantics) unsupported;
  compensation_capability = row.compensation_capability;
}

abbrev pub plan_observed : EffectRow → ObservedOutcome → ReconcilePlan
plan_observed row (succeeded r) = settle (succeeded r)
plan_observed row (failed e) = settle (failed e)
plan_observed row not_found =
    if is_safely_redispatchable (persisted_contract row) then redispatch else park
plan_observed row unknown = park

unfoldable pub reconcile_plan : EffectRow → ObservedOutcome → ReconcilePlan
unfolding persisted_contract
reconcile_plan row observed =
    if to_wire row.state == to_wire EffectState.dispatched then plan_observed row observed else park

abbrev pub to_prepared : Transition
to_prepared = record {
  to = EffectState.prepared;
  event_type = "EffectPrepared";
  patch = record no_effect_patch { state = some EffectState.prepared };
}

abbrev pub apply_plan : ℕ → ℕ → ReconcilePlan → Txn KernelTxn EffectRow
apply_plan now_ms effect_id (settle (succeeded result_ref)) = do
  _ ← transition now_ms effect_id none (to_acknowledged (some result_ref))
  row ← transition now_ms effect_id none (to_committed none)
  stage_effect_event "EffectReconciled" effect_id row
  pure row
apply_plan now_ms effect_id (settle (failed error_code)) = do
  row ← transition now_ms effect_id none (to_failed error_code)
  stage_effect_event "EffectReconciled" effect_id row
  pure row
apply_plan now_ms effect_id (settle not_found) = transition now_ms effect_id none to_unknown
apply_plan now_ms effect_id (settle unknown) = transition now_ms effect_id none to_unknown
apply_plan now_ms effect_id redispatch = transition now_ms effect_id none to_prepared
apply_plan now_ms effect_id park = transition now_ms effect_id none to_unknown

unfoldable pub apply_observed : ℕ → ℕ → ReconcilePlan → Txn KernelTxn EffectRow
apply_observed now_ms effect_id plan = do
  persisted ← load_effect effect_id
  let applied = apply_plan now_ms effect_id plan
  if to_wire persisted.state == to_wire EffectState.dispatched then applied else pure persisted

pub data Resolution : Type 0 where
  mark_succeeded mark_failed retry_accepting_duplicate_risk : Resolution

unfoldable pub parse : String → Result Resolution
parse action =
    if str_eq action "mark_succeeded"
    then ok mark_succeeded
    else if str_eq action "mark_failed"
    then ok mark_failed
    else if str_eq action "retry_accepting_duplicate_risk"
    then ok retry_accepting_duplicate_risk
    else err (fault invalid_argument "unknown ResolveUnknownEffect action")

abbrev pub reason_or : String → String
reason_or reason = if str_eq reason "" then "resolved_failed" else reason

abbrev pub resolution_transition : Resolution → Option String → String → Transition
resolution_transition mark_succeeded result_ref reason = to_committed result_ref
resolution_transition mark_failed result_ref reason = to_failed (reason_or reason)
resolution_transition retry_accepting_duplicate_risk result_ref reason = to_prepared

unfoldable pub apply_resolution :
    ℕ → ℕ → Resolution → Option String → String → Txn KernelTxn EffectRow
apply_resolution now_ms effect_id resolution result_ref reason = do
  row ← transition now_ms effect_id none (resolution_transition resolution result_ref reason)
  stage_effect_event "EffectReconciled" effect_id row
  pure row

-- Applying a plan leaves the effect alone, or carries the plan out.
pub observed_cases :
    (now k : ℕ) (plan : ReconcilePlan) (txn : KernelTxn)
    → ((apply_observed now k plan txn).1 ≡ txn)
      ⊎ (apply_observed now k plan txn ≡ apply_plan now k plan txn)
unfolding apply_observed
observed_cases now k plan txn = elim (Option-cases (get_effect k txn)) [
  | inl missing ↦ inl (ground (arith, missing))
  | inr (row, found) ↦ elim (Bool-cases (to_wire row.state == to_wire EffectState.dispatched)) [
    | inl dispatched ↦ inr (ground (arith, found, dispatched))
    | inr other ↦ inl (ground (arith, found, other))
  ]
]
