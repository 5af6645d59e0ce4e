-- ===== src/Runtime/Moves.antt =====
-- What `transition` of crates/runtime/src/run.rs does on every branch.
use ai_harness.Base.{
  ℕ, ◌≤◌, Option-cases, inl, inr, true, Option, none, some, String, ◌≡◌, ◌==◌, if◌then◌else◌, arith,
}
use ai_harness.Base.Txn.{
  ok_not_err, Result, ok, err, KernelError, FailsWith, fault, not_found, conflict,
}
use ai_harness.Base.Table.{put}
use ai_harness.Domain.RunState.{RunState}
use ai_harness.Store.Models.{RunRow}
use ai_harness.Store.Kernel.{KernelTxn, fits, out_of_range, i64_max}
use ai_harness.Store.Runs.{
  get_run, run_key, run_patched, cas_holds, cas_encodes, cas_update_found, get_run-patched,
}
use ai_harness.Runtime.State.{allows}
use ai_harness.Runtime.Transition.{transition, move_cas, move_patch}

-- The row that a move leaves behind.
abbrev pub moved : RunState → Option String → RunRow → RunRow
moved to reason row = run_patched (move_patch to reason) row

-- The whole function, on every branch.
abbrev pub transition_of :
    ℕ → RunState → Option String → KernelTxn → RunRow → Result RunRow × KernelTxn
transition_of revision to reason txn row =
    if allows row.state to
    then if row.run_revision == revision
      then if fits revision
        then (
          ok (moved to reason row),
          record txn { runs = put run_key (moved to reason row) txn.runs },
        )
        else (err out_of_range, txn)
      else (err (fault conflict "run revision does not match"), txn)
    else (err (fault conflict "run state transition is not permitted"), txn)

transition_found :
    (run_id revision : ℕ) (to : RunState) (reason : Option String) (txn : KernelTxn) {row : RunRow}
    → get_run run_id txn ≡ some row
    → transition run_id revision to reason txn ≡ transition_of revision to reason txn row
unfolding transition cas_holds cas_encodes
transition_found run_id revision to reason txn {row} found = ground (
  arith,
  cas_update_found run_id (move_cas revision row) (move_patch to reason) txn {row = row} found,
  get_run-patched run_id (move_patch to reason) txn {row = row} found,
)

transition_missing :
    (run_id revision : ℕ) (to : RunState) (reason : Option String) (txn : KernelTxn)
    → get_run run_id txn ≡ none
    → transition run_id revision to reason txn ≡ (err (fault not_found "run does not exist"), txn)
unfolding transition
transition_missing run_id revision to reason txn missing = ground (arith, missing)

-- A transition that succeeds found the run at the expected revision in a state that the table lets move to the target; it writes that one row, with the new state, the terminal reason and the next revision, and leaves the rest of the transaction as it was.
pub transition_ok :
    (run_id revision : ℕ) (to : RunState) (reason : Option String) (txn txn' : KernelTxn)
    (row' : RunRow)
    → transition run_id revision to reason txn ≡ (ok row', txn')
    → (row : RunRow) × (get_run run_id txn ≡ some row)
      × (allows row.state to ≡ true)
      × (row.run_revision ≡ revision)
      × (row' ≡ moved to reason row)
      × (txn' ≡ record txn { runs = put run_key row' txn.runs })
transition_ok run_id revision to reason txn txn' row' h = elim (Option-cases (get_run run_id txn)) [
  | inl missing ↦ absurd (ok_not_err h (transition_missing run_id revision to reason txn missing))
  | inr (row, found) ↦
      let e = transition_found run_id revision to reason txn {row = row} found in
      (row, found, ground (arith, e), ground (arith, e), ground (arith, e), ground (arith, e))
]

-- A transition that fails leaves the transaction as it was.
pub transition_error_unchanged :
    (run_id revision : ℕ) (to : RunState) (reason : Option String) (txn : KernelTxn)
    {e : KernelError}
    → (transition run_id revision to reason txn).0 ≡ err e
    → (transition run_id revision to reason txn).1 ≡ txn
transition_error_unchanged run_id revision to reason txn h =
    elim (Option-cases (get_run run_id txn)) [
      | inl missing ↦ cc (transition_missing run_id revision to reason txn missing)
      | inr (row, found) ↦
          ground (arith, transition_found run_id revision to reason txn {row = row} found)
    ]

-- A permitted move at the run's own revision succeeds, where the revision is one that a column holds.
pub transition_succeeds :
    (run_id : ℕ) (to : RunState) (reason : Option String) (txn : KernelTxn) (row : RunRow)
    → get_run run_id txn ≡ some row
    → allows row.state to ≡ true
    → row.run_revision ≤ i64_max
    → (transition run_id row.run_revision to reason txn).0 ≡ ok (moved to reason row)
transition_succeeds run_id to reason txn row found permitted fit =
    ground (arith, transition_found run_id row.run_revision to reason txn {row = row} found)

-- Of two transitions that expect one revision of a run, the second is refused with `Conflict`.
pub transition_serializes :
    (run_id revision : ℕ) (to to' : RunState) (reason reason' : Option String)
    (txn txn' : KernelTxn) (row' : RunRow)
    → transition run_id revision to reason txn ≡ (ok row', txn')
    → FailsWith conflict (transition run_id revision to' reason' txn').0
unfolding run_patched
transition_serializes run_id revision to to' reason reason' txn txn' row' h =
    let (row, found, permitted, rev, after, written) =
      transition_ok run_id revision to reason txn txn' row' h in
    let there = get_run-patched run_id (move_patch to reason) txn {row = row} found in
    let found' : get_run run_id txn' ≡ some row' = rw (written, after) there in
    ground
      (arith, rev, after, transition_found run_id revision to' reason' txn' {row = row'} found')
