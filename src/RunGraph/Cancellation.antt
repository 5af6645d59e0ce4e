-- ===== src/RunGraph/Cancellation.antt =====
-- crates/run-graph/src/cancellation.rs: the advance of the root's cancellation epoch and the runs that
-- are to be cancelled with it.
use ai_harness.Base.{
  ℕ, saturating_add, Bool, true, false, Option, none, some, List, [], ◌∷◌, coalesce,
}
use ai_harness.Base.Txn.{
  Txn, KernelError, fault, pure, require, or_fail, conflict, internal, ◌>>=◌, ◌>>◌,
}
use ai_harness.Domain.RunState.{cancellation_target}
use ai_harness.Store.Models.{RunRow, RunCas, RunPatch}
use ai_harness.Store.Kernel.{KernelTxn, run_stream, agent_run}
use ai_harness.Store.Runs.{get_run, cas_update, no_patch}
use ai_harness.Store.Outbox.{stage}
use ai_harness.RunGraph.Repository.{load_run}
use ai_harness.RunGraph.Descendants.{descendants}

abbrev pub epoch_cas : RunRow → ℕ → RunCas
epoch_cas root expected_revision = record {
  run_revision = expected_revision;
  state = some root.state;
  cancellation_epoch = some root.cancellation_epoch;
}

abbrev pub epoch_patch : RunRow → RunPatch
epoch_patch root = record no_patch {
  cancellation_epoch = some (saturating_add root.cancellation_epoch 1);
  bump_revision = true;
}

abbrev pub epoch_race : KernelError
epoch_race = fault conflict "cancellation epoch advance lost a revision race"

abbrev pub root_vanished : KernelError
root_vanished = fault internal "root run vanished after its epoch advance"

unfoldable pub advance_epoch : RunRow → ℕ → Txn KernelTxn RunRow
advance_epoch root expected_revision = do
  updated ← cas_update root.run_id (epoch_cas root expected_revision) (epoch_patch root)
  require updated epoch_race
  λ txn. or_fail (get_run root.run_id txn) root_vanished txn

unfoldable pub stage_epoch_event : RunRow → Txn KernelTxn (Unit {0})
stage_epoch_event root = do
  _ ← stage (run_stream root.run_id) "CancellationEpochAdvanced" (agent_run root)
  pure tt

abbrev pub is_eligible : RunRow → Bool
is_eligible row = elim (cancellation_target row.state) [ none ↦ false | some t ↦ true ]

abbrev pub push_if : Bool → ℕ → List ℕ → List ℕ
push_if true id ids = id ∷ ids
push_if false id ids = ids

abbrev pub descendant_vanished : KernelError
descendant_vanished = fault internal "descendant vanished during the cancellation walk"

-- The walk's runs that a cancellation still moves, in their order.
unfoldable pub eligible_of : List ℕ → Txn KernelTxn (List ℕ)
eligible_of [] = pure []
eligible_of (id ∷ ids) = do
  row ← λ txn. or_fail (get_run id txn) descendant_vanished txn
  rest ← eligible_of ids
  pure (push_if (is_eligible row) id rest)

-- The part behind the event. The walk takes its fuel from the caller.
unfoldable pub collect : ℕ → ℕ → RunRow → Txn KernelTxn (List ℕ)
collect fuel root advanced = do
  below ← descendants fuel root
  rest ← eligible_of below
  pure (push_if (is_eligible advanced) root rest)

unfoldable pub cancel_subtree : ℕ → ℕ → Option ℕ → Txn KernelTxn (List ℕ)
cancel_subtree fuel root expected_run_revision = do
  root_row ← load_run root
  advanced ← advance_epoch root_row (coalesce expected_run_revision root_row.run_revision)
  stage_epoch_event advanced
  collect fuel root advanced
