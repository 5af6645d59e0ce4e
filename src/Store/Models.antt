-- ===== src/Store/Models.antt =====
-- crates/kernel-store/src/models.rs: rows, inserts and patches. An identifier (UUIDv7) is a number,
-- a timestamp is in unix milliseconds, and a patch field of `none` leaves its column alone.
use ai_harness.Base.{ℕ, String, Bool, Option, List}
use ai_harness.Domain.RunState.{RunState}
use ai_harness.Domain.RecoveryDisposition.{RecoveryDisposition}
use ai_harness.Domain.Effect.{EffectClass, IdempotencySemantics, ReconciliationSemantics}
use ai_harness.Domain.EffectState.{EffectState}
use ai_harness.Domain.TimerState.{TimerState}
use ai_harness.Domain.DependencyCondition.{DependencyCondition}
use ai_harness.Domain.WorkspaceAccessMode.{WorkspaceAccessMode}
use ai_harness.Domain.LeaseEnforcementState.{LeaseEnforcementState}
use ai_harness.Domain.ReservationState.{ReservationState}

pub record RunRow : Type 0 where
  pub run_id : ℕ
  pub task_id : ℕ
  pub session_id : Option ℕ
  pub parent_run_id : Option ℕ
  pub state : RunState
  pub recovery : RecoveryDisposition
  pub run_revision : ℕ
  pub loop_epoch : ℕ
  pub step_sequence : ℕ
  pub input_event_cursor : ℕ
  pub cancellation_epoch : ℕ
  pub resolved_environment_id : Option ℕ
  pub agent_spec_id : Option ℕ
  pub agent_spec_version : Option String
  pub agent_spec_digest : Option String
  pub requested_profile : String
  pub workspace_uri : Option String
  pub claim_owner : Option String
  pub claim_token : Option ℕ
  pub claim_expires_ms : Option ℕ
  pub claim_daemon_epoch : Option ℕ
  pub terminal_reason : Option String
  pub output_ref : Option String
  pub current_turn_id : Option ℕ
  pub created_at_ms : ℕ
  pub updated_at_ms : ℕ

-- What a compare-and-set expects of the row.
pub record RunCas : Type 0 where
  pub run_revision : ℕ
  pub state : Option RunState
  pub cancellation_epoch : Option ℕ

pub record ClaimPatch : Type 0 where
  pub owner : String
  pub token : ℕ
  pub expires_unix_ms : ℕ
  pub daemon_epoch : ℕ

pub record RunPatch : Type 0 where
  pub state : Option RunState
  pub recovery : Option RecoveryDisposition
  pub loop_epoch : Option ℕ
  pub step_sequence : Option ℕ
  pub input_event_cursor : Option ℕ
  pub cancellation_epoch : Option ℕ
  pub resolved_environment_id : Option ℕ
  pub claim : Option ClaimPatch
  pub terminal_reason : Option String
  pub output_ref : Option String
  pub current_turn_id : Option ℕ
  pub bump_revision : Bool

pub record RunGraphHeadRow : Type 0 where
  pub task_id : ℕ
  pub graph_revision : ℕ

pub record NewRunDependency : Type 0 where
  pub dependency_id : ℕ
  pub task_id : ℕ
  pub source_run_id : ℕ
  pub target_run_id : ℕ
  pub dependency_condition : DependencyCondition
  pub created_at_ms : ℕ

pub record RunDependencyRow : Type 0 where
  pub dependency_id : ℕ
  pub task_id : ℕ
  pub source_run_id : ℕ
  pub target_run_id : ℕ
  pub dependency_condition : DependencyCondition
  pub created_graph_revision : ℕ
  pub created_at_ms : ℕ

pub record EffectRow : Type 0 where
  pub effect_id : ℕ
  pub run_id : ℕ
  pub step_sequence : ℕ
  pub decision_id : ℕ
  pub operation : String
  pub request_hash : String
  pub request_payload : List ℕ
  pub effect_class : EffectClass
  pub idempotency_semantics : IdempotencySemantics
  pub reconciliation_semantics : ReconciliationSemantics
  pub cancellation_semantics : String
  pub compensation_capability : Option String
  pub adapter_id : ℕ
  pub adapter_version : String
  pub adapter_digest : String
  pub state : EffectState
  pub executor_id : Option String
  pub executor_fencing_token : Option ℕ
  pub daemon_fencing_epoch : Option ℕ
  pub lease_expires_ms : Option ℕ
  pub provider_operation_ref : Option String
  pub result_ref : Option String
  pub error_code : Option String
  pub created_at_ms : ℕ
  pub updated_at_ms : ℕ

pub record EffectPatch : Type 0 where
  pub state : Option EffectState
  pub executor_id : Option String
  pub executor_fencing_token : Option ℕ
  pub daemon_fencing_epoch : Option ℕ
  pub lease_expires_ms : Option ℕ
  pub provider_operation_ref : Option String
  pub result_ref : Option String
  pub error_code : Option String

pub record TimerRow : Type 0 where
  pub timer_id : ℕ
  pub run_id : Option ℕ
  pub timer_kind : String
  pub payload : List ℕ
  pub due_at_ms : ℕ
  pub state : TimerState
  pub version : ℕ
  pub claim_owner : Option String
  pub claim_fencing_token : Option ℕ
  pub claim_daemon_epoch : Option ℕ
  pub created_at_ms : ℕ
  pub updated_at_ms : ℕ

pub record TimerPatch : Type 0 where
  pub state : Option TimerState
  pub claim_owner : Option String
  pub claim_fencing_token : Option ℕ
  pub claim_daemon_epoch : Option ℕ
  pub due_at_ms : Option ℕ

pub record WorkspaceLeaseRow : Type 0 where
  pub lease_id : ℕ
  pub workspace_id : ℕ
  pub owner_run_id : ℕ
  pub mode : WorkspaceAccessMode
  pub lease_epoch : ℕ
  pub enforcement_state : LeaseEnforcementState
  pub delegated_from : List ℕ
  pub created_at_ms : ℕ
  pub updated_at_ms : ℕ

pub record LeasePatch : Type 0 where
  pub enforcement_state : Option LeaseEnforcementState
  pub owner_run_id : Option ℕ
  pub mode : Option WorkspaceAccessMode
  pub delegated_from : Option (List ℕ)
  pub lease_epoch : Option ℕ

pub record NewWorkspaceLease : Type 0 where
  pub lease_id : ℕ
  pub workspace_id : ℕ
  pub owner_run_id : ℕ
  pub mode : WorkspaceAccessMode
  pub lease_epoch : ℕ
  pub enforcement_state : LeaseEnforcementState
  pub delegated_from : List ℕ
  pub created_at_ms : ℕ

-- `reserve` refuses an amount that is not positive, so the rows hold natural numbers.
pub record ReservationRow : Type 0 where
  pub reservation_id : ℕ
  pub run_id : ℕ
  pub resource_type : String
  pub state : ReservationState
  pub amount : ℕ
  pub unit : String
  pub fencing_token : ℕ
  pub parent_reservation_id : Option ℕ
  pub created_at_ms : ℕ
  pub updated_at_ms : ℕ

pub record NewReservation : Type 0 where
  pub reservation_id : ℕ
  pub run_id : ℕ
  pub resource_type : String
  pub state : ReservationState
  pub amount : ℕ
  pub unit : String
  pub fencing_token : ℕ
  pub parent_reservation_id : Option ℕ
  pub created_at_ms : ℕ

pub record ReservationPatch : Type 0 where
  pub state : Option ReservationState
  pub fencing_token : Option ℕ
