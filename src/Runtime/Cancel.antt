-- ===== src/Runtime/Cancel.antt =====
-- `cancel` of crates/runtime/src/cancel.rs: the epoch advance of a run and the transitions of its
-- subtree.
use ai_harness.Base.{ℕ, Option, some, String, List, [], ◌∷◌, ◌++◌}
use ai_harness.Base.Txn.{Txn, KernelError, fault, pure, or_fail, internal, ◌>>=◌, ◌>>◌}
use ai_harness.Domain.RunState.{RunState, cancellation_target}
use ai_harness.Store.Models.{RunRow}
use ai_harness.Store.Kernel.{KernelTxn, run_stream, agent_run}
use ai_harness.Store.Runs.{get_run}
use ai_harness.Store.Outbox.{stage}
use ai_harness.RunGraph.Cancellation.{cancel_subtree}
use ai_harness.Runtime.Transition.{transition}

pub record CancellationReport : Type 0 where
  pub root : ℕ
  pub cancellation_epoch : ℕ
  pub changed : List ℕ

unfoldable pub stage_run_event : RunRow → String → Txn KernelTxn (Unit {0})
stage_run_event row event_type = do
  _ ← stage (run_stream row.run_id) event_type (agent_run row)
  pure tt

abbrev pub vanished : KernelError
vanished = fault internal "eligible run vanished during cancellation"

abbrev pub get_or : ℕ → KernelError → Txn KernelTxn RunRow
get_or id e txn = or_fail (get_run id txn) e txn

abbrev pub moves_to : ℕ → RunRow → RunState → Option String → String → Txn KernelTxn (List ℕ)
moves_to candidate row to reason event_type = do
  final_row ← transition candidate row.run_revision to reason
  stage_run_event final_row event_type
  pure (candidate ∷ [])

-- One pass of the loop: the run that it changed. `reason` is the caller's, `none` where that is blank.
unfoldable pub cancel_on : ℕ → Option String → RunRow → Option RunState → Txn KernelTxn (List ℕ)
cancel_on candidate reason row (some RunState.cancelled) =
    moves_to candidate row RunState.cancelled reason "RunCancelled"
cancel_on candidate reason row (some RunState.cancelling) =
    moves_to candidate row RunState.cancelling (some "cancellation_requested") "RunStateChanged"
cancel_on candidate reason row _ = pure []

unfoldable pub cancel_one : ℕ → Option String → Txn KernelTxn (List ℕ)
cancel_one candidate reason = do
  row ← get_or candidate vanished
  cancel_on candidate reason row (cancellation_target row.state)

unfoldable pub cancel_each : List ℕ → Option String → Txn KernelTxn (List ℕ)
cancel_each [] reason = pure []
cancel_each (candidate ∷ rest) reason = do
  one ← cancel_one candidate reason
  others ← cancel_each rest reason
  pure (one ++ others)

abbrev pub root_vanished : KernelError
root_vanished = fault internal "root run vanished during cancellation"

abbrev pub report_of : ℕ → RunRow → List ℕ → CancellationReport
report_of run_id root_row changed = record {
  root = run_id;
  cancellation_epoch = root_row.cancellation_epoch;
  changed = changed;
}

unfoldable pub cancel : ℕ → ℕ → Option ℕ → Option String → Txn KernelTxn CancellationReport
cancel fuel run_id expected_run_revision reason = do
  eligible ← cancel_subtree fuel run_id expected_run_revision
  changed ← cancel_each eligible reason
  root_row ← get_or run_id root_vanished
  pure (report_of run_id root_row changed)
