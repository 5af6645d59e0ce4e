-- ===== src/RunGraph/Repository.antt =====
-- crates/run-graph/src/repository.rs: the read helpers of the run-graph services.
use ai_harness.Base.{
  ℕ, Bool, false, ◌&&◌, ◌||◌, not, Option, none, some, List, [], ◌∷◌, ◌==◌, ltb, if◌then◌else◌,
}
use ai_harness.Base.Txn.{Txn, or_fail, fault, not_found}
use ai_harness.Domain.RunState.{RunState, to_wire}
use ai_harness.Store.Models.{RunRow, RunDependencyRow}
use ai_harness.Store.Kernel.{KernelTxn}
use ai_harness.Store.Runs.{get_run}
use ai_harness.Store.Graph.{list_dependencies}

abbrev pub load_run : ℕ → Txn KernelTxn RunRow
load_run run_id txn = or_fail (get_run run_id txn) (fault not_found "run does not exist") txn

-- `state == other` on the derived equality.
abbrev pub same_state : RunState → RunState → Bool
same_state a b = to_wire a == to_wire b

abbrev pub in_future : Option ℕ → ℕ → Bool
in_future none now_ms = false
in_future (some expires_unix_ms) now_ms = ltb now_ms expires_unix_ms

unfoldable pub has_live_claim : RunRow → ℕ → Bool
has_live_claim run now_ms = in_future run.claim_expires_ms now_ms

-- Only a `Created` run, or a `Ready` run without a live claim, may become the target of an edge.
unfoldable pub is_mutable_target : RunRow → ℕ → Bool
is_mutable_target run now_ms =
    same_state run.state RunState.created
    || (same_state run.state RunState.ready && not (has_live_claim run now_ms))

abbrev pub joins : ℕ → ℕ → RunDependencyRow → Bool
joins source target row = row.source_run_id == source && row.target_run_id == target

abbrev pub first_joining : ℕ → ℕ → List RunDependencyRow → Option RunDependencyRow
first_joining source target [] = none
first_joining source target (row ∷ rows) =
    if joins source target row then some row else first_joining source target rows

-- The persisted edge between two runs of a task.
unfoldable pub find_dependency : ℕ → ℕ → ℕ → KernelTxn → Option RunDependencyRow
find_dependency task source target txn = first_joining source target (list_dependencies task txn)
