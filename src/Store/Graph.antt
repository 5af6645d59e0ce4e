-- ===== src/Store/Graph.antt =====
-- crates/kernel-store-sqlite/src/repos/graph.rs: the dependency edges of the run graph, their
-- reachability and the insertion that keeps them acyclic.
use ai_harness.Base.{
  ℕ, zero, suc, ◌+◌, Bool, false, ◌&&◌, ◌||◌, not, Option, List, [], ◌∷◌, ◌++◌, map, ◌==◌,
  if◌then◌else◌, filter, any, length,
}
use ai_harness.Base.Table.{find, update}
use ai_harness.Base.Txn.{Txn, ok, err, require, or_fail, fault, not_found, conflict, ◌>>=◌, ◌>>◌}
use ai_harness.Store.Models.{RunGraphHeadRow, NewRunDependency, RunDependencyRow}
use ai_harness.Store.Kernel.{KernelTxn, fits, encode}

abbrev pub head_key : RunGraphHeadRow → ℕ
head_key row = row.task_id

abbrev pub get_head : ℕ → KernelTxn → Option RunGraphHeadRow
get_head task txn = find head_key task txn.heads

-- `SELECT … WHERE task_id = ?1 ORDER BY created_graph_revision, dependency_id`: the revision grows
-- with every insertion into a task, so this is the order of insertion.
abbrev pub list_dependencies : ℕ → KernelTxn → List RunDependencyRow
list_dependencies task txn = filter (λ row. row.task_id == task) txn.dependencies

abbrev pub leaves : ℕ → RunDependencyRow → Bool
leaves run row = row.source_run_id == run

abbrev pub targets : List RunDependencyRow → List ℕ
targets = map (λ row. row.target_run_id)

-- The recursive query `reach`: a run leaves the queue, is compared with `to`, and the targets of
-- its edges join the queue. Expanding a run uses its edges up, which is what `UNION` does for a run
-- that comes back. One round for each edge and for each queued run is enough.
unfoldable pub reaches : ℕ → List RunDependencyRow → List ℕ → ℕ → Bool
reaches zero edges queue to = false
reaches (suc fuel) edges [] to = false
reaches (suc fuel) edges (run ∷ queue) to =
    let found = run == to in
    let rest =
      reaches fuel (filter (λ row. not (leaves run row)) edges)
        (queue ++ targets (filter (leaves run) edges)) to in
    found || rest

-- `SELECT EXISTS(SELECT 1 FROM reach WHERE run_id = ?2)`, from the edges of every task.
unfoldable pub is_reachable : ℕ → ℕ → KernelTxn → Bool
unfolding reaches
is_reachable from to txn = reaches (suc (length txn.dependencies)) txn.dependencies (from ∷ []) to

-- `PRIMARY KEY (dependency_id)` and `UNIQUE (source_run_id, target_run_id)`.
abbrev pub collides : NewRunDependency → RunDependencyRow → Bool
collides new row =
    row.dependency_id == new.dependency_id
    || (row.source_run_id == new.source_run_id && row.target_run_id == new.target_run_id)

abbrev pub dependency_row : NewRunDependency → ℕ → RunDependencyRow
dependency_row new revision = record {
  dependency_id = new.dependency_id;
  task_id = new.task_id;
  source_run_id = new.source_run_id;
  target_run_id = new.target_run_id;
  dependency_condition = new.dependency_condition;
  created_graph_revision = revision;
  created_at_ms = new.created_at_ms;
}

-- `INSERT INTO run_dependencies`; a violated constraint is `Conflict`.
abbrev pub insert_row : NewRunDependency → ℕ → Txn KernelTxn (Unit {0})
insert_row new revision txn =
    if any (collides new) txn.dependencies
    then (err (fault conflict "storage constraint conflict"), txn)
    else (ok tt, record txn { dependencies = txn.dependencies ++ dependency_row new revision ∷ [] })

abbrev pub head_advanced : RunGraphHeadRow → RunGraphHeadRow
head_advanced row = record row { graph_revision = row.graph_revision + 1 }

-- `UPDATE run_graph_heads SET graph_revision = graph_revision + 1 WHERE … AND graph_revision = ?2`.
abbrev pub cas_head_revision : ℕ → ℕ → Txn KernelTxn Bool
cas_head_revision task expected = do
  encode (fits expected)
  λ txn.
      let u =
        update head_key task (λ row. row.graph_revision == expected) head_advanced txn.heads in
      (ok u.1, record txn { heads = u.0 })

abbrev pub head_or : ℕ → Txn KernelTxn RunGraphHeadRow
head_or task txn = or_fail (get_head task txn) (fault not_found "graph head missing for task") txn

abbrev pub cycle_check : ℕ → ℕ → Txn KernelTxn (Unit {0})
cycle_check target source txn =
    require (not (is_reachable target source txn))
      (fault conflict "dependency would create a cycle") txn

unfoldable pub insert_dependency : NewRunDependency → ℕ → Txn KernelTxn (Unit {0})
insert_dependency new expected_revision = do
  head ← head_or new.task_id
  require (head.graph_revision == expected_revision) (fault conflict "graph revision conflict")
  cycle_check new.target_run_id new.source_run_id
  encode (fits expected_revision)
  insert_row new expected_revision
  advanced ← cas_head_revision new.task_id expected_revision
  require advanced (fault conflict "graph head changed during dependency insertion")
