-- ===== src/Examples/Data.antt =====
-- Rows and transactions for the tests.
use ai_harness.Base.{ℕ, none, some, [], ◌∷◌}
use ai_harness.Domain.RunState.{RunState}
use ai_harness.Domain.RecoveryDisposition.{RecoveryDisposition}
use ai_harness.Domain.DependencyCondition.{DependencyCondition}
use ai_harness.Domain.Effect.{EffectClass, IdempotencySemantics, ReconciliationSemantics}
use ai_harness.Domain.EffectState.{EffectState}
use ai_harness.Domain.TimerState.{TimerState}
use ai_harness.Store.Models.{RunRow, RunDependencyRow, EffectRow, TimerRow}
use ai_harness.Store.Kernel.{KernelTxn}

abbrev pub run_in : ℕ → RunState → RunRow
run_in id state = record {
  run_id = id;
  task_id = 7;
  session_id = none;
  parent_run_id = none;
  state = state;
  recovery = RecoveryDisposition.normal;
  run_revision = 3;
  loop_epoch = 0;
  step_sequence = 0;
  input_event_cursor = 0;
  cancellation_epoch = 0;
  resolved_environment_id = none;
  agent_spec_id = none;
  agent_spec_version = none;
  agent_spec_digest = none;
  requested_profile = "default";
  workspace_uri = none;
  claim_owner = none;
  claim_token = none;
  claim_expires_ms = none;
  claim_daemon_epoch = none;
  terminal_reason = none;
  output_ref = none;
  current_turn_id = none;
  created_at_ms = 100;
  updated_at_ms = 100;
}

abbrev pub edge_1_2 : RunDependencyRow
edge_1_2 = record {
  dependency_id = 50;
  task_id = 7;
  source_run_id = 1;
  target_run_id = 2;
  dependency_condition = DependencyCondition.completed_successfully;
  created_graph_revision = 0;
  created_at_ms = 100;
}

abbrev pub effect_in : EffectState → EffectRow
effect_in state = record {
  effect_id = 5;
  run_id = 1;
  step_sequence = 1;
  decision_id = 9;
  operation = "fixture.increment_counter";
  request_hash = "h";
  request_payload = [];
  effect_class = EffectClass.external_mutation;
  idempotency_semantics = IdempotencySemantics.idempotency_key_supported;
  reconciliation_semantics = ReconciliationSemantics.status_lookup;
  cancellation_semantics = "before_dispatch";
  compensation_capability = none;
  adapter_id = 4;
  adapter_version = "1";
  adapter_digest = "d";
  state = state;
  executor_id = some "worker";
  executor_fencing_token = some 2;
  daemon_fencing_epoch = some 1;
  lease_expires_ms = some 500;
  provider_operation_ref = none;
  result_ref = none;
  error_code = none;
  created_at_ms = 100;
  updated_at_ms = 100;
}

abbrev pub timer_in : TimerState → TimerRow
timer_in state = record {
  timer_id = 3;
  run_id = some 1;
  timer_kind = "wake";
  payload = [];
  due_at_ms = 200;
  state = state;
  version = 0;
  claim_owner = none;
  claim_fencing_token = none;
  claim_daemon_epoch = none;
  created_at_ms = 100;
  updated_at_ms = 100;
}

-- Run 1 completed, run 2 ready behind it, run 3 created.
abbrev pub kernel : KernelTxn
kernel = record {
  daemon_epoch = 1;
  runs = run_in 1 RunState.completed ∷ run_in 2 RunState.ready ∷ run_in 3 RunState.created ∷ [];
  heads = record { task_id = 7; graph_revision = 1 } ∷ [];
  dependencies = edge_1_2 ∷ [];
  effects = [];
  timers = [];
  leases = [];
  reservations = [];
  stream_heads = [];
  outbox = [];
}

abbrev pub with_effect : EffectState → KernelTxn
with_effect state = record kernel { effects = effect_in state ∷ [] }

abbrev pub with_timer : TimerState → KernelTxn
with_timer state = record kernel { timers = timer_in state ∷ [] }
