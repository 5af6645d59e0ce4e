-- ===== src/RunGraph/AddDependency.antt =====
-- crates/run-graph/src/graph.rs: `add_dependency`. The identifier of the new edge is an argument,
-- where the code draws it from the system's provider.
use ai_harness.Base.{ℕ, Bool, not, none, some, ◌==◌}
use ai_harness.Base.Txn.{Txn, pure, require, fault, conflict, failed_precondition, ◌>>=◌, ◌>>◌}
use ai_harness.Domain.DependencyCondition.{DependencyCondition, to_wire}
use ai_harness.Store.Models.{NewRunDependency}
use ai_harness.Store.Kernel.{KernelTxn, task_stream, run_dependency}
use ai_harness.Store.Outbox.{stage}
use ai_harness.Store.Graph.{head_or, insert_dependency, dependency_row}
use ai_harness.RunGraph.Repository.{load_run, is_mutable_target, find_dependency}

abbrev pub same_condition : DependencyCondition → DependencyCondition → Bool
same_condition a b = to_wire a == to_wire b

-- The part after the duplicate check: the edge, the head and the event.
unfoldable pub insert_edge : NewRunDependency → ℕ → Txn KernelTxn (Unit {0})
insert_edge new expected_revision = do
  insert_dependency new expected_revision
  _ ←
      stage (task_stream new.task_id) "DependencyAdded"
        (run_dependency (dependency_row new expected_revision))
  pure tt

unfoldable pub add_dependency : ℕ → ℕ → ℕ → DependencyCondition → ℕ → ℕ → Txn KernelTxn (Unit {0})
add_dependency dependency_id source target condition expected_revision now_ms = do
  require (not (same_condition condition DependencyCondition.unspecified))
      (fault failed_precondition "dependency condition is unspecified")
  source_row ← load_run source
  target_row ← load_run target
  require (source_row.task_id == target_row.task_id)
      (fault failed_precondition "dependency endpoints belong to different tasks")
  require (is_mutable_target target_row now_ms)
      (fault failed_precondition "dependency target is not Created or unclaimed Ready")
  head ← head_or target_row.task_id
  require (head.graph_revision == expected_revision)
      (fault conflict "graph revision does not match")
  λ txn. elim (find_dependency target_row.task_id source target txn) [
    | some existing ↦
        require (same_condition existing.dependency_condition condition)
          (fault conflict "duplicate run dependency has a different condition") txn
    | none ↦
        insert_edge
          (record {
            dependency_id = dependency_id;
            task_id = target_row.task_id;
            source_run_id = source;
            target_run_id = target;
            dependency_condition = condition;
            created_at_ms = now_ms;
          })
          expected_revision txn
  ]
