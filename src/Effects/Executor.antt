-- ===== src/Effects/Executor.antt =====
-- crates/effects/src/executor.rs: executor leases, fencing, and the transitions of an effect. The
-- clock's reading is the argument `now_ms`.
use ai_harness.Base.{ℕ, ◌+◌, not, Option, none, some, String, opt_str_is, opt_is}
use ai_harness.Base.Txn.{
  Txn, pure, require, or_fail, fault, not_found, conflict, failed_precondition, KernelError, ◌>>=◌,
  ◌>>◌,
}
use ai_harness.Domain.EffectState.{EffectState}
use ai_harness.Store.Models.{EffectRow, EffectPatch}
use ai_harness.Store.Kernel.{KernelTxn, effect_stream, effect_record}
use ai_harness.Store.Outbox.{stage}
use ai_harness.Store.Effects.{get_effect, cas_transition, claim_effect, no_effect_patch, lease_over}
use ai_harness.Effects.Record.{can_transition}

abbrev pub effect_lease_ms : ℕ
effect_lease_ms = 30000

pub data ClaimOutcome : Type 0 where
  claimed : ℕ → EffectRow → ClaimOutcome
  busy : EffectRow → ClaimOutcome

pub record ExecutorRef : Type 0 where
  pub executor_id : String
  pub fencing_token : ℕ

abbrev pub load_effect : ℕ → Txn KernelTxn EffectRow
load_effect effect_id txn =
    or_fail (get_effect effect_id txn) (fault not_found "effect does not exist") txn

abbrev pub stale_executor : KernelError
stale_executor = fault conflict "effect claim is held by a different executor or fencing token"

abbrev pub stage_effect_event : String → ℕ → EffectRow → Txn KernelTxn (Unit {0})
stage_effect_event event_type effect_id row = do
  _ ← stage (effect_stream effect_id) event_type (effect_record row)
  pure tt

abbrev pub claim_outcome : ℕ → EffectRow → Option ℕ → Txn KernelTxn ClaimOutcome
claim_outcome effect_id row none = pure (busy row)
claim_outcome effect_id row (some token) = do
  stage_effect_event "EffectClaimed" effect_id row
  pure (claimed token row)

unfoldable pub claim : ℕ → ℕ → String → Txn KernelTxn ClaimOutcome
claim now_ms effect_id executor_id txn =
    (do
      token ← claim_effect effect_id executor_id txn.daemon_epoch (now_ms + effect_lease_ms) now_ms
      row ← load_effect effect_id
      claim_outcome effect_id row token)
      txn

-- The executor still holds the effect: identity, token, daemon epoch and an unexpired lease.
unfoldable pub verify_executor : EffectRow → ExecutorRef → ℕ → Txn KernelTxn ℕ
verify_executor row executor now_ms txn =
    (do
      require (opt_str_is row.executor_id executor.executor_id) stale_executor
      require (opt_is row.executor_fencing_token executor.fencing_token) stale_executor
      require (opt_is row.daemon_fencing_epoch txn.daemon_epoch)
          (fault conflict "executor daemon fencing epoch is stale")
      require (not (lease_over row.lease_expires_ms now_ms))
          (fault conflict "executor lease has expired")
      pure executor.fencing_token)
      txn

-- The token that the compare-and-set expects.
abbrev pub expected_token : EffectRow → Option ExecutorRef → ℕ → Txn KernelTxn (Option ℕ)
expected_token row none now_ms = pure row.executor_fencing_token
expected_token row (some executor) now_ms = do
  token ← verify_executor row executor now_ms
  pure (some token)

pub record Transition : Type 0 where
  pub to : EffectState
  pub event_type : String
  pub patch : EffectPatch

unfoldable pub transition : ℕ → ℕ → Option ExecutorRef → Transition → Txn KernelTxn EffectRow
transition now_ms effect_id executor t = do
  row ← load_effect effect_id
  require (can_transition row.state t.to) (fault failed_precondition "illegal effect transition")
  expect_token ← expected_token row executor now_ms
  applied ← cas_transition effect_id row.state expect_token t.patch
  require applied stale_executor
  written ← load_effect effect_id
  stage_effect_event t.event_type effect_id written
  pure written

abbrev pub to_dispatched : Option String → Transition
to_dispatched provider_operation_ref = record {
  to = EffectState.dispatched;
  event_type = "EffectDispatched";
  patch = record no_effect_patch {
    state = some EffectState.dispatched;
    provider_operation_ref = provider_operation_ref;
  };
}

unfoldable pub mark_dispatched : ℕ → ℕ → ExecutorRef → Option String → Txn KernelTxn EffectRow
mark_dispatched now_ms effect_id executor provider_operation_ref =
    transition now_ms effect_id (some executor) (to_dispatched provider_operation_ref)

abbrev pub to_acknowledged : Option String → Transition
to_acknowledged result_ref = record {
  to = EffectState.acknowledged;
  event_type = "EffectAcknowledged";
  patch = record no_effect_patch { state = some EffectState.acknowledged; result_ref = result_ref };
}

unfoldable pub acknowledge : ℕ → ℕ → ExecutorRef → Option String → Txn KernelTxn EffectRow
acknowledge now_ms effect_id executor result_ref =
    transition now_ms effect_id (some executor) (to_acknowledged result_ref)

abbrev pub to_committed : Option String → Transition
to_committed result_ref = record {
  to = EffectState.committed;
  event_type = "EffectCommitted";
  patch = record no_effect_patch { state = some EffectState.committed; result_ref = result_ref };
}

unfoldable pub commit : ℕ → ℕ → ExecutorRef → Option String → Txn KernelTxn EffectRow
commit now_ms effect_id executor result_ref =
    transition now_ms effect_id (some executor) (to_committed result_ref)

-- Recovery commits the acknowledgment of a dead epoch, so no executor is verified.
unfoldable pub commit_durable : ℕ → ℕ → Option String → Txn KernelTxn EffectRow
commit_durable now_ms effect_id result_ref =
    transition now_ms effect_id none (to_committed result_ref)

abbrev pub to_failed : String → Transition
to_failed error_code = record {
  to = EffectState.failed;
  event_type = "EffectFailed";
  patch = record no_effect_patch { state = some EffectState.failed; error_code = some error_code };
}

unfoldable pub fail : ℕ → ℕ → ExecutorRef → String → Txn KernelTxn EffectRow
fail now_ms effect_id executor error_code =
    transition now_ms effect_id (some executor) (to_failed error_code)

abbrev pub to_unknown : Transition
to_unknown = record {
  to = EffectState.unknown;
  event_type = "EffectUnknown";
  patch = record no_effect_patch { state = some EffectState.unknown };
}

unfoldable pub mark_unknown : ℕ → ℕ → Option ExecutorRef → Txn KernelTxn EffectRow
mark_unknown now_ms effect_id executor = transition now_ms effect_id executor to_unknown

abbrev pub to_cancelled : Transition
to_cancelled = record {
  to = EffectState.cancelled;
  event_type = "EffectCancelled";
  patch = record no_effect_patch { state = some EffectState.cancelled };
}

unfoldable pub cancel : ℕ → ℕ → Option ExecutorRef → Txn KernelTxn EffectRow
cancel now_ms effect_id executor = transition now_ms effect_id executor to_cancelled
