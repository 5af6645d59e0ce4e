-- ===== src/Examples/Graphs.antt =====
-- The run graph at concrete inputs.
use ai_harness.Base.{ℕ, true, false, none, some, [], ◌∷◌, ◌≡◌, refl, ◌↔◌, ◌⊎◌, All, filter, ◌==◌}
use ai_harness.Base.Txn.{ok}
use ai_harness.Domain.RunState.{RunState}
use ai_harness.Domain.DependencyCondition.{DependencyCondition}
use ai_harness.Store.Graph.{is_reachable, list_dependencies}
use ai_harness.RunGraph.Reach.{Route, is_reachable_iff}
use ai_harness.RunGraph.Acyclic.{IsAcyclic}
use ai_harness.RunGraph.AddDependency.{add_dependency}
use ai_harness.RunGraph.Edges.{add_dependency-IsAcyclic}
use ai_harness.Examples.Data.{kernel}

kernel-IsAcyclic : IsAcyclic kernel.dependencies
unfolding is_reachable
kernel-IsAcyclic = ((λ r. cc ((is_reachable_iff 2 1 kernel).1 r)), tt)

abbrev success : DependencyCondition
success = DependencyCondition.completed_successfully

is_reachable_iff_example : (is_reachable 1 2 kernel ≡ true) ↔ Route kernel.dependencies 2 1
is_reachable_iff_example = is_reachable_iff 1 2 kernel

-- An edge from run 2 to run 3 is accepted; one from run 3 to itself would close a cycle.
add_2_3 : (add_dependency 51 2 3 success 1 200 kernel).0 ≡ ok tt
unfolding add_dependency ai_harness.Domain.DependencyCondition.to_wire ai_harness.Base.Table.find
    ai_harness.RunGraph.Repository.is_mutable_target ai_harness.Domain.RunState.to_wire
    ai_harness.RunGraph.Repository.find_dependency ai_harness.RunGraph.AddDependency.insert_edge
    ai_harness.Store.Graph.insert_dependency is_reachable ai_harness.Base.Table.update
    ai_harness.Store.Outbox.stage
add_2_3 = refl

add_dependency-IsAcyclic_example :
    IsAcyclic (add_dependency 51 2 3 success 1 200 kernel).1.dependencies
add_dependency-IsAcyclic_example =
    add_dependency-IsAcyclic 51 2 3 success 1 200 kernel kernel-IsAcyclic
