-- ===== src/Examples/Runs.antt =====
-- Run lifecycles at concrete inputs.
use ai_harness.Base.{
  ℕ, ◌+◌, true, false, none, some, [], ◌∷◌, ◌≡◌, refl, arith, ◌≢◌, ◌⊎◌, All, filter, ◌==◌,
}
use ai_harness.Base.Table.{put}
use ai_harness.Base.Txn.{ok, err, FailsWith, conflict, never}
use ai_harness.Domain.RunState.{RunState, is_terminal, cancellation_target}
use ai_harness.Domain.RecoveryDisposition.{RecoveryDisposition}
use ai_harness.Store.Models.{RunRow}
use ai_harness.Store.Kernel.{KernelTxn}
use ai_harness.Store.Runs.{get_run, run_key}
use ai_harness.Store.Graph.{list_dependencies}
use ai_harness.RunGraph.Repository.{has_live_claim}
use ai_harness.RunGraph.Readiness.{IsSatisfied}
use ai_harness.Runtime.State.{allows}
use ai_harness.Runtime.Transition.{transition}
use ai_harness.Runtime.Claim.{claim, expiry, stage_claimed}
use ai_harness.Runtime.Lifecycle.{Leads, ends}
use ai_harness.Runtime.Moves.{moved, transition_ok, transition_succeeds}
use ai_harness.Runtime.Ownership.{claimed_row, claim_ok, claim_excludes}
use ai_harness.Examples.Data.{kernel, run_in}

abbrev ready_2 : RunRow
ready_2 = run_in 2 RunState.ready

abbrev cancelled_2 : RunRow
cancelled_2 = moved RunState.cancelled none ready_2

abbrev after_cancel : KernelTxn
after_cancel = record kernel { runs = put run_key cancelled_2 kernel.runs }

cancels_2 : transition 2 3 RunState.cancelled none kernel ≡ (ok cancelled_2, after_cancel)
unfolding transition ai_harness.Base.Table.find allows ai_harness.Store.Runs.cas_update
    ai_harness.Store.Runs.cas_encodes ai_harness.Base.Table.update ai_harness.Store.Runs.cas_holds
    ai_harness.Domain.RunState.to_wire put ai_harness.Store.Runs.run_patched
cancels_2 = refl

transition_ok_example :
    (row : RunRow) × (get_run 2 kernel ≡ some row)
    × (allows row.state RunState.cancelled ≡ true)
    × (row.run_revision ≡ 3)
    × (cancelled_2 ≡ moved RunState.cancelled none row)
    × (after_cancel ≡ record kernel { runs = put run_key cancelled_2 kernel.runs })
transition_ok_example =
    transition_ok 2 3 RunState.cancelled none kernel after_cancel cancelled_2 cancels_2

transition_succeeds_example :
    (transition 2 3 RunState.running none kernel).0 ≡ ok (moved RunState.running none ready_2)
unfolding allows ai_harness.Base.Table.find
transition_succeeds_example =
    transition_succeeds 2 RunState.running none kernel ready_2 refl refl (omega arith)

refused_2 :
    (transition 2 9 RunState.cancelled none kernel).0
    ≡ err (record { code = conflict; retry = never; detail = "run revision does not match" })
unfolding transition ai_harness.Base.Table.find allows
refused_2 = refl

abbrev after_claim : KernelTxn
after_claim =
    let row = claimed_row "worker" 1200 1 77 ready_2 in
    (stage_claimed 2 row (record kernel { runs = put run_key row kernel.runs })).1

claims_2 : claim 2 "worker" 1000 200 1 77 kernel ≡ (ok tt, after_claim)
unfolding claim ai_harness.Base.Table.find ai_harness.Domain.RunState.to_wire
    ai_harness.Domain.RecoveryDisposition.to_wire has_live_claim
    ai_harness.RunGraph.Readiness.dependencies_satisfied ai_harness.RunGraph.Readiness.all_satisfied
    ai_harness.RunGraph.Readiness.condition_met ai_harness.Store.Runs.cas_update
    ai_harness.Store.Runs.cas_encodes ai_harness.Base.Table.update ai_harness.Store.Runs.cas_holds
    put ai_harness.Store.Runs.run_patched ai_harness.Store.Outbox.stage expiry
claims_2 = refl

claim_ok_example :
    (row : RunRow) × (get_run 2 kernel ≡ some row)
    × (row.state ≡ RunState.ready)
    × (row.recovery ≡ RecoveryDisposition.normal)
    × (has_live_claim row 200 ≡ false)
    × All
        (IsSatisfied kernel)
        (filter (λ r. r.target_run_id == 2) (list_dependencies row.task_id kernel))
    × (let row' = claimed_row "worker" (expiry 200 1000) 1 77 row in
        (get_run 2 after_claim ≡ some row')
        × (after_claim
            ≡ (stage_claimed 2 row' (record kernel { runs = put run_key row' kernel.runs })).1))
claim_ok_example = claim_ok 2 "worker" 1000 200 1 77 kernel after_claim claims_2

claim_excludes_example : FailsWith conflict (claim 2 "other" 1000 9000 1 78 after_claim).0
claim_excludes_example =
    claim_excludes 2 "worker" 1000 200 1 77 "other" 1000 9000 1 78 kernel after_claim after_claim
      claims_2 refl

claim_refused :
    (claim 3 "worker" 1000 200 1 77 kernel).0
    ≡ err (record { code = conflict; retry = never; detail = "run is not ready to be claimed" })
unfolding claim ai_harness.Base.Table.find ai_harness.Domain.RunState.to_wire
claim_refused = refl

ends_example : (t : RunState) × Leads RunState.suspended t × (is_terminal t ≡ true)
ends_example = ends RunState.suspended (λ e. cc)
