-- ===== src/RunGraph/Edges.antt =====
-- What `add_dependency` of crates/run-graph/src/graph.rs does to the graph of a task.
use ai_harness.Base.{
  ℕ, false, some, ◌≡◌, ap, ◌⊎◌, ◌≢◌, inl, inr, ◌==◌, arith, Bool-cases, Option-cases, ==_iff,
}
use ai_harness.Base.Txn.{Result}
use ai_harness.Store.Models.{RunRow, RunGraphHeadRow}
use ai_harness.Store.Kernel.{KernelTxn}
use ai_harness.Store.Graph.{get_head}
use ai_harness.RunGraph.Acyclic.{IsAcyclic, IsAcyclic-append}
use ai_harness.RunGraph.AddDependency.{add_dependency, same_condition}
use ai_harness.RunGraph.Repository.{is_mutable_target, find_dependency}
use ai_harness.Store.Outbox.{stage}
use ai_harness.Store.Runs.{get_run}
use ai_harness.Domain.DependencyCondition.{DependencyCondition, to_wire, to_wire_injective}
use ai_harness.RunGraph.Inserted.{
  new_edge, Accepts, Fails, Fails-unchanged, insert_edge_cases, Outcome,
}

accepted :
    (dependency_id source target : ℕ) (condition : DependencyCondition) (revision now : ℕ)
    (txn : KernelTxn) (source_row target_row : RunRow) (head : RunGraphHeadRow)
    → Accepts source target condition revision now txn source_row target_row head
    → let r = add_dependency dependency_id source target condition revision now txn in
      Fails txn r ⊎ Outcome dependency_id source target condition revision now txn target_row head r
unfolding add_dependency
accepted dependency_id source target condition revision now txn source_row target_row head a =
    let (s, t, same, open_, h, rev, real) = a in
    let named : same_condition condition DependencyCondition.unspecified ≡ false =
      elim (Bool-cases (same_condition condition DependencyCondition.unspecified)) [
        | inl bare ↦ absurd (real (to_wire_injective _ _ ((==_iff _ _).0 bare)))
        | inr f ↦ f
      ] in
    elim (Option-cases (find_dependency target_row.task_id source target txn)) [
      | inl fresh ↦
          elim (insert_edge_cases
            (new_edge dependency_id target_row.task_id source target condition now) revision txn
            head h) [
              | inl bad ↦ inl (ground (arith, s, t, same, open_, h, rev, named, fresh, bad))
              | inr (apart, done) ↦ inr (
                  inr (fresh, apart, ground (arith, s, t, same, open_, h, rev, named, fresh, done)))
            ]
      | inr (existing, found) ↦
          elim (Bool-cases (same_condition existing.dependency_condition condition)) [
            | inl equal ↦ inr (
                inl (
                  (existing, found, to_wire_injective _ _ (ground (arith, equal))),
                  ground (arith, s, t, same, open_, h, rev, named, found, equal),
                ))
            | inr other ↦ inl (ground (arith, s, t, same, open_, h, rev, named, found, other))
          ]
    ]

-- Past the two loads: the remaining checks.
checked :
    (dependency_id source target : ℕ) (condition : DependencyCondition) (revision now : ℕ)
    (txn : KernelTxn) (source_row target_row : RunRow)
    → get_run source txn ≡ some source_row
    → get_run target txn ≡ some target_row
    → condition ≢ DependencyCondition.unspecified
    → same_condition condition DependencyCondition.unspecified ≡ false
    → Fails txn (add_dependency dependency_id source target condition revision now txn)
      ⊎ ((head : RunGraphHeadRow) × Accepts source target condition revision now txn source_row
            target_row head)
unfolding add_dependency
checked dependency_id source target condition revision now txn source_row target_row s t real
      named =
    elim (Bool-cases (source_row.task_id == target_row.task_id)) [
      | inr apart ↦ inl (ground (arith, s, t, named, apart))
      | inl same ↦ elim (Bool-cases (is_mutable_target target_row now)) [
        | inr closed ↦ inl (ground (arith, s, t, named, same, closed))
        | inl mutable ↦ elim (Option-cases (get_head target_row.task_id txn)) [
          | inl missing ↦ inl (ground (arith, s, t, named, same, mutable, missing))
          | inr (head, h) ↦ elim (Bool-cases (head.graph_revision == revision)) [
            | inr stale ↦ inl (ground (arith, s, t, named, same, mutable, h, stale))
            | inl current ↦
                inr (head, (s, t, (==_iff _ _).0 same, mutable, h, (==_iff _ _).0 current, real))
          ]
        ]
      ]
    ]

-- `add_dependency` either fails and leaves the transaction as it was, or the two runs are there in one task, the target may still change, the expected revision is that of the task's graph, the condition is a real one, and then: the same edge was there already and nothing is written, or it is new and no route of persisted edges leads from its target back to its source, and exactly the edge, the advanced graph head and the event are written.
pub add_dependency_cases :
    (dependency_id source target : ℕ) (condition : DependencyCondition) (revision now : ℕ)
    (txn : KernelTxn)
    → let r = add_dependency dependency_id source target condition revision now txn in
      Fails txn r
      ⊎ ((source_row : RunRow) × (target_row : RunRow) × (head : RunGraphHeadRow) × Accepts source
            target condition revision now txn source_row target_row head
          × Outcome dependency_id source target condition revision now txn target_row head r)
unfolding add_dependency
add_dependency_cases dependency_id source target condition revision now txn =
    elim (Bool-cases (same_condition condition DependencyCondition.unspecified)) [
      | inl bare ↦ inl (ground (arith, bare))
      | inr named ↦ elim (Option-cases (get_run source txn)) [
        | inl no_source ↦ inl (ground (arith, named, no_source))
        | inr (source_row, s) ↦ elim (Option-cases (get_run target txn)) [
          | inl no_target ↦ inl (ground (arith, named, s, no_target))
          | inr (target_row, t) ↦
              elim (checked dependency_id source target condition revision now txn source_row
                target_row s t (real named) named) [
                  | inl bad ↦ inl bad
                  | inr (head, a) ↦
                      elim (accepted dependency_id source target condition revision now txn
                        source_row target_row head a) [
                          | inl bad ↦ inl bad
                          | inr o ↦ inr (source_row, target_row, head, a, o)
                        ]
                ]
        ]
      ]
    ]
  where
    real :
        same_condition condition DependencyCondition.unspecified ≡ false
        → condition ≢ DependencyCondition.unspecified
    real named e = cc (named, (==_iff _ _).1 (ap to_wire e))

-- `add_dependency` keeps the dependency graph acyclic, whatever it is called with and however it ends.
pub add_dependency-IsAcyclic :
    (dependency_id source target : ℕ) (condition : DependencyCondition) (revision now : ℕ)
    (txn : KernelTxn)
    → IsAcyclic txn.dependencies
    → IsAcyclic
        (add_dependency dependency_id source target condition revision now txn).1.dependencies
unfolding stage
add_dependency-IsAcyclic dependency_id source target condition revision now txn acyclic =
    elim (add_dependency_cases dependency_id source target condition revision now txn) [
      | inl bad ↦ rw (ap (λ (t : KernelTxn). t.dependencies) (Fails-unchanged txn _ bad)) acyclic
      | inr (source_row, target_row, head, a, inl (replay, e)) ↦
          rw (ap (λ (r : Result (Unit {0}) × KernelTxn). r.1.dependencies) e) acyclic
      | inr (source_row, target_row, head, a, inr (fresh, apart, e)) ↦
          rw (ap (λ (r : Result (Unit {0}) × KernelTxn). r.1.dependencies) e)
            (IsAcyclic-append txn.dependencies _ acyclic apart)
    ]
