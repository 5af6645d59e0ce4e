-- ===== src/Runtime/Claim.antt =====
-- crates/runtime/src/claim.rs: `claim_with_ids`, the fenced, expiring ownership of a ready run. The
-- token is an argument, where the code draws it from an identifier provider.
use ai_harness.Base.{ℕ, ◌+◌, min, Bool, true, not, none, some, String}
use ai_harness.Base.Txn.{
  Txn, pure, require, fault, conflict, failed_precondition, internal, ◌>>=◌, ◌>>◌,
}
use ai_harness.Domain.RunState.{RunState}
use ai_harness.Domain.RecoveryDisposition.{RecoveryDisposition, to_wire}
use ai_harness.Base.{◌==◌}
use ai_harness.Store.Models.{RunRow, RunCas, RunPatch}
use ai_harness.Store.Kernel.{KernelTxn, i64_max, run_stream, agent_run}
use ai_harness.Store.Outbox.{stage}
use ai_harness.Store.Runs.{cas_update, no_patch}
use ai_harness.RunGraph.Repository.{load_run, same_state, has_live_claim}
use ai_harness.RunGraph.Readiness.{dependencies_satisfied}
use ai_harness.Runtime.Transition.{get_or_fail}

-- `now_ms.saturating_add(i64::try_from(ttl_ms).unwrap_or(i64::MAX))`.
unfoldable pub expiry : ℕ → ℕ → ℕ
expiry now_ms ttl_ms = min (now_ms + min ttl_ms i64_max) i64_max

abbrev pub same_recovery : RecoveryDisposition → RecoveryDisposition → Bool
same_recovery a b = to_wire a == to_wire b

abbrev pub claim_cas : RunRow → RunCas
claim_cas current = record {
  run_revision = current.run_revision;
  state = some RunState.ready;
  cancellation_epoch = none;
}

abbrev pub claim_run_patch : String → ℕ → ℕ → ℕ → RunPatch
claim_run_patch owner token expires_unix_ms daemon_epoch = record no_patch {
  state = some RunState.running;
  claim = some (record {
    owner = owner;
    token = token;
    expires_unix_ms = expires_unix_ms;
    daemon_epoch = daemon_epoch;
  });
  bump_revision = true;
}

abbrev pub stage_claimed : ℕ → RunRow → Txn KernelTxn (Unit {0})
stage_claimed run_id claimed = do
  _ ← stage (run_stream run_id) "RunClaimed" (agent_run claimed)
  _ ← stage (run_stream run_id) "RunStarted" (agent_run claimed)
  pure tt

unfoldable pub claim : ℕ → String → ℕ → ℕ → ℕ → ℕ → Txn KernelTxn (Unit {0})
claim run_id owner ttl_ms now_ms daemon_epoch token = do
  current ← load_run run_id
  require (same_state current.state RunState.ready)
      (fault conflict "run is not ready to be claimed")
  require (same_recovery current.recovery RecoveryDisposition.normal)
      (fault failed_precondition "run recovery disposition does not permit claiming")
  require (not (has_live_claim current now_ms)) (fault conflict "run already carries a live claim")
  satisfied ← dependencies_satisfied run_id
  require satisfied (fault failed_precondition "run dependencies are not satisfied")
  updated ←
      cas_update run_id (claim_cas current)
        (claim_run_patch owner token (expiry now_ms ttl_ms) daemon_epoch)
  require updated (fault conflict "run claim lost a revision race")
  claimed ← get_or_fail run_id (fault internal "run vanished after its claim")
  stage_claimed run_id claimed
