-- ===== src/RunGraph/Readiness.antt =====
-- crates/run-graph/src/readiness.rs: when the edges into a run are satisfied.
use ai_harness.Base.{
  ℕ, Bool, true, false, ◌||◌, List, [], ◌∷◌, ◌==◌, filter, if◌then◌else◌, Option-cases, inl, inr,
  some, All, ◌≡◌, refl, arith,
}
use ai_harness.Base.Txn.{Txn, ok, pure, ◌>>=◌}
use ai_harness.Domain.RunState.{RunState, is_terminal}
use ai_harness.Domain.DependencyCondition.{DependencyCondition}
use ai_harness.Store.Models.{RunRow, RunDependencyRow}
use ai_harness.Store.Kernel.{KernelTxn}
use ai_harness.Store.Runs.{get_run}
use ai_harness.Store.Graph.{list_dependencies}
use ai_harness.RunGraph.Repository.{load_run, same_state}

unfoldable pub condition_met : DependencyCondition → RunState → Bool
condition_met DependencyCondition.completed_successfully s = same_state s RunState.completed
condition_met DependencyCondition.any_terminal s = is_terminal s
condition_met DependencyCondition.completed_or_cancelled s =
    same_state s RunState.completed || same_state s RunState.cancelled
condition_met DependencyCondition.unspecified s = false

-- The loop over the edges into a run: the first source that does not meet its condition decides.
unfoldable pub all_satisfied : List RunDependencyRow → Txn KernelTxn Bool
all_satisfied [] = pure true
all_satisfied (row ∷ rows) = do
  source ← load_run row.source_run_id
  let rest = all_satisfied rows
  if condition_met row.dependency_condition source.state then rest else pure false

unfoldable pub dependencies_satisfied : ℕ → Txn KernelTxn Bool
dependencies_satisfied target = do
  target_row ← load_run target
  λ txn.
      all_satisfied
        (filter (λ row. row.target_run_id == target) (list_dependencies target_row.task_id txn)) txn

-- The source of an edge is there, and its state meets the edge's condition.
abbrev pub IsSatisfied : KernelTxn → RunDependencyRow → Type 0
IsSatisfied txn row =
    (source : RunRow) × (get_run row.source_run_id txn ≡ some source)
    × (condition_met row.dependency_condition source.state ≡ true)

-- Reading the edges changes nothing.
all_satisfied-unchanged :
    (rows : List RunDependencyRow) (txn : KernelTxn) → (all_satisfied rows txn).1 ≡ txn
unfolding all_satisfied
all_satisfied-unchanged [] txn = refl
all_satisfied-unchanged (row ∷ rows) txn = ground (arith, all_satisfied-unchanged rows txn)

pub dependencies_satisfied-unchanged :
    (target : ℕ) (txn : KernelTxn) → (dependencies_satisfied target txn).1 ≡ txn
unfolding dependencies_satisfied
dependencies_satisfied-unchanged target txn = elim (Option-cases (get_run target txn)) [
  | inl missing ↦ ground (arith, missing)
  | inr (row, found) ↦ ground (
    arith,
    found,
    all_satisfied-unchanged
        (filter (λ r. r.target_run_id == target) (list_dependencies row.task_id txn)) txn,
  )
]

-- `true` is answered only if the source of every edge into the run is there, in a state that meets
-- the edge's condition.
all_satisfied_sound :
    (rows : List RunDependencyRow) (txn : KernelTxn)
    → (all_satisfied rows txn).0 ≡ ok true
    → All (IsSatisfied txn) rows
unfolding all_satisfied
all_satisfied_sound [] txn h = tt
all_satisfied_sound (row ∷ rows) txn h = elim (Option-cases (get_run row.source_run_id txn)) [
  | inl missing ↦ ground (arith, missing)
  | inr (source, found) ↦
      ((source, found, ground (arith, found)), all_satisfied_sound rows txn (ground (arith, found)))
]

-- `true` is answered only where every edge into the run, of its own task, is satisfied.
pub dependencies_satisfied_sound :
    (target : ℕ) (txn : KernelTxn) (row : RunRow)
    → get_run target txn ≡ some row
    → (dependencies_satisfied target txn).0 ≡ ok true
    → All
        (IsSatisfied txn)
        (filter (λ r. r.target_run_id == target) (list_dependencies row.task_id txn))
unfolding dependencies_satisfied
dependencies_satisfied_sound target txn row found h =
    all_satisfied_sound _ txn (ground (arith, found))
