-- ===== src/Runtime/Transition.antt =====
-- crates/runtime/src/run.rs: revisioned transitions over the table.
use ai_harness.Base.{ℕ, true, Option, none, some, String, ◌==◌, coalesce}
use ai_harness.Base.Txn.{
  Txn, require, or_fail, fault, not_found, conflict, internal, KernelError, ◌>>=◌, ◌>>◌,
}
use ai_harness.Domain.RunState.{RunState}
use ai_harness.Store.Models.{RunRow, RunCas, RunPatch}
use ai_harness.Store.Kernel.{KernelTxn}
use ai_harness.Store.Runs.{get_run, cas_update, no_patch}
use ai_harness.Runtime.State.{allows}

-- A terminal run keeps the caller's reason, or the canonical token of its state.
unfoldable pub terminal_reason : RunState → Option String → Option String
terminal_reason RunState.completed reason = some (coalesce reason "completed")
terminal_reason RunState.failed reason = some (coalesce reason "failed")
terminal_reason RunState.cancelled reason = some (coalesce reason "cancelled")
terminal_reason _ reason = none

abbrev pub get_or_fail : ℕ → KernelError → Txn KernelTxn RunRow
get_or_fail run_id e txn = or_fail (get_run run_id txn) e txn

abbrev pub move_cas : ℕ → RunRow → RunCas
move_cas revision current = record {
  run_revision = revision;
  state = some current.state;
  cancellation_epoch = none;
}

abbrev pub move_patch : RunState → Option String → RunPatch
move_patch to reason = record no_patch {
  state = some to;
  terminal_reason = terminal_reason to reason;
  bump_revision = true;
}

unfoldable pub transition : ℕ → ℕ → RunState → Option String → Txn KernelTxn RunRow
transition run_id expect_revision to reason = do
  current ← get_or_fail run_id (fault not_found "run does not exist")
  require (allows current.state to) (fault conflict "run state transition is not permitted")
  require (current.run_revision == expect_revision) (fault conflict "run revision does not match")
  updated ← cas_update run_id (move_cas expect_revision current) (move_patch to reason)
  require updated (fault conflict "run transition lost a revision race")
  get_or_fail run_id (fault internal "run vanished after transition")
