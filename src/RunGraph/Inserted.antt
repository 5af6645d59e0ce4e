-- ===== src/RunGraph/Inserted.antt =====
-- The insertion of an edge by crates/run-graph/src/graph.rs and the statements below it.
use ai_harness.Base.{
  ℕ, true, none, some, [], ◌∷◌, ◌++◌, ◌≡◌, ◌⊎◌, ◌≢◌, inl, inr, ◌==◌, ◌&&◌, if◌then◌else◌, any,
  arith, Bool-cases,
}
use ai_harness.Base.Txn.{Result, ok, err, fault, conflict}
use ai_harness.Base.Table.{put, update_found}
use ai_harness.Store.Models.{RunRow, RunGraphHeadRow, RunDependencyRow, NewRunDependency}
use ai_harness.Store.Kernel.{KernelTxn, fits, out_of_range, task_stream, run_dependency}
use ai_harness.Store.Graph.{
  get_head, head_key, head_advanced, is_reachable, collides, dependency_row, insert_dependency,
}
use ai_harness.RunGraph.Reach.{Route, is_reachable_iff}
use ai_harness.RunGraph.AddDependency.{insert_edge}
use ai_harness.RunGraph.Repository.{is_mutable_target, find_dependency}
use ai_harness.Store.Outbox.{stage}
use ai_harness.Store.Runs.{get_run}
use ai_harness.Domain.DependencyCondition.{DependencyCondition}

abbrev with_edge : NewRunDependency → ℕ → KernelTxn → RunGraphHeadRow → KernelTxn
with_edge new revision txn head = record txn {
  heads = put head_key (head_advanced head) txn.heads;
  dependencies = txn.dependencies ++ dependency_row new revision ∷ [];
}

abbrev insert_of :
    NewRunDependency → ℕ → KernelTxn → RunGraphHeadRow → Result (Unit {0}) × KernelTxn
insert_of new revision txn head =
    if head.graph_revision == revision
    then if is_reachable new.target_run_id new.source_run_id txn
      then (err (fault conflict "dependency would create a cycle"), txn)
      else if fits revision
      then if any (collides new) txn.dependencies
        then (err (fault conflict "storage constraint conflict"), txn)
        else (ok tt, with_edge new revision txn head)
      else (err out_of_range, txn)
    else (err (fault conflict "graph revision conflict"), txn)

insert_found :
    (new : NewRunDependency) (revision : ℕ) (txn : KernelTxn) {head : RunGraphHeadRow}
    → get_head new.task_id txn ≡ some head
    → insert_dependency new revision txn ≡ insert_of new revision txn head
unfolding insert_dependency
insert_found new revision txn {head} found = ground (
  arith,
  update_found head_key new.task_id (λ row. row.graph_revision == revision) head_advanced txn.heads
      {x = head} found,
)

abbrev pub new_edge : ℕ → ℕ → ℕ → ℕ → DependencyCondition → ℕ → NewRunDependency
new_edge dependency_id task source target condition now_ms = record {
  dependency_id = dependency_id;
  task_id = task;
  source_run_id = source;
  target_run_id = target;
  dependency_condition = condition;
  created_at_ms = now_ms;
}

-- The transaction with the edge, the advanced head and the staged event.
abbrev added : NewRunDependency → ℕ → KernelTxn → RunGraphHeadRow → KernelTxn
added new revision txn head =
    (stage (task_stream new.task_id) "DependencyAdded"
      (run_dependency (dependency_row new revision)) (with_edge new revision txn head)).1

-- The conditions under which an edge may be added or replayed.
abbrev pub Accepts :
    ℕ → ℕ → DependencyCondition → ℕ → ℕ → KernelTxn → RunRow → RunRow → RunGraphHeadRow → Type 0
Accepts source target condition revision now txn source_row target_row head =
    (get_run source txn ≡ some source_row)
    × (get_run target txn ≡ some target_row)
    × (source_row.task_id ≡ target_row.task_id)
    × (is_mutable_target target_row now ≡ true)
    × (get_head target_row.task_id txn ≡ some head)
    × (head.graph_revision ≡ revision)
    × (condition ≢ DependencyCondition.unspecified)

-- An error that leaves the transaction as it was.
abbrev pub Fails : KernelTxn → Result (Unit {0}) × KernelTxn → Type 0
Fails txn (ok a, after) = ⊥
Fails txn (err e, after) = after ≡ txn

pub Fails-unchanged :
    (txn : KernelTxn) (r : Result (Unit {0}) × KernelTxn) → Fails txn r → r.1 ≡ txn
Fails-unchanged txn (ok a, after) h = absurd h
Fails-unchanged txn (err e, after) h = h

abbrev Replays : ℕ → ℕ → DependencyCondition → KernelTxn → RunRow → Type 0
Replays source target condition txn target_row =
    (existing : RunDependencyRow) × (find_dependency target_row.task_id source target txn
      ≡ some existing)
    × (existing.dependency_condition ≡ condition)

pub insert_edge_cases :
    (new : NewRunDependency) (revision : ℕ) (txn : KernelTxn) (head : RunGraphHeadRow)
    → get_head new.task_id txn ≡ some head
    → Fails txn (insert_edge new revision txn)
      ⊎ (¬ Route txn.dependencies new.source_run_id new.target_run_id
          × (insert_edge new revision txn ≡ (ok tt, added new revision txn head)))
unfolding insert_edge stage
insert_edge_cases new revision txn head found =
    let e = insert_found new revision txn {head = head} found in
    elim (Bool-cases (is_reachable new.target_run_id new.source_run_id txn)) [
      | inl cycle ↦ inl (ground (arith, e, cycle))
      | inr apart ↦
          let no_route : ¬ Route txn.dependencies new.source_run_id new.target_run_id =
            λ r. cc (apart, (is_reachable_iff new.target_run_id new.source_run_id txn).1 r) in
          elim (Bool-cases (any (collides new) txn.dependencies)) [
            | inl clash ↦ inl (ground (arith, e, clash, apart))
            | inr fresh ↦ elim (Bool-cases (fits revision && head.graph_revision == revision)) [
              | inl fine ↦ inr (no_route, ground (arith, e, fresh, apart, fine))
              | inr bad ↦ inl (ground (arith, e, fresh, apart, bad))
            ]
          ]
    ]

-- What an accepted call comes to: the identical edge is already there and nothing is written, or
-- the edge is new, closes no cycle, and is written with the advanced head and the event.
abbrev pub Outcome :
    ℕ
    → ℕ
    → ℕ
    → DependencyCondition
    → ℕ
    → ℕ
    → KernelTxn
    → RunRow
    → RunGraphHeadRow
    → Result (Unit {0}) × KernelTxn
    → Type 0
Outcome dependency_id source target condition revision now txn target_row head r =
    (Replays source target condition txn target_row × (r ≡ (ok tt, txn)))
    ⊎ ((find_dependency target_row.task_id source target txn ≡ none)
        × ¬ Route txn.dependencies source target
        × (r ≡ (
          ok tt,
          added (new_edge dependency_id target_row.task_id source target condition now) revision txn
              head,
        )))
