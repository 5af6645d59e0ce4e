-- ===== src/Runtime/Ownership.antt =====
-- What `claim_with_ids` of crates/runtime/src/claim.rs guarantees: who may claim, what is written,
-- and that a claimed run is not claimed again.
use ai_harness.Base.{
  ℕ, true, false, none, some, String, ◌≡◌, sym, ap, ◌∙◌, refl, ◌==◌, if◌then◌else◌, arith,
  Option-cases, inl, inr, filter, All,
}
use ai_harness.Base.Txn.{
  Result, ok, err, KernelError, FailsWith, fault, not_found, conflict, failed_precondition,
}
use ai_harness.Base.Table.{put}
use ai_harness.Domain.RunState.{RunState, to_wire, to_wire_injective}
use ai_harness.Domain.RecoveryDisposition as Recovery
use ai_harness.Domain.RecoveryDisposition.{RecoveryDisposition}
use ai_harness.Store.Models.{RunRow}
use ai_harness.Store.Kernel.{KernelTxn, out_of_range}
use ai_harness.Store.Runs.{
  get_run, run_key, run_patched, cas_holds, cas_encodes, cas_update_found, get_run-patched,
}
use ai_harness.RunGraph.Repository.{same_state, has_live_claim}
use ai_harness.RunGraph.Readiness.{
  IsSatisfied, dependencies_satisfied, dependencies_satisfied-unchanged,
  dependencies_satisfied_sound,
}
use ai_harness.Store.Graph.{list_dependencies}
use ai_harness.Store.Outbox.{stage}
use ai_harness.Runtime.Claim.{
  claim, claim_cas, claim_run_patch, expiry, same_recovery, stage_claimed,
}

-- The row that a claim leaves behind.
abbrev pub claimed_row : String → ℕ → ℕ → ℕ → RunRow → RunRow
claimed_row owner expires epoch token row =
    run_patched (claim_run_patch owner token expires epoch) row

-- The part of the function behind the checks.
abbrev pub granted : ℕ → String → ℕ → ℕ → ℕ → KernelTxn → RunRow → Result (Unit {0}) × KernelTxn
granted run_id owner expires epoch token txn row =
    let row' = claimed_row owner expires epoch token row in
    if cas_encodes (claim_cas row) (claim_run_patch owner token expires epoch)
    then stage_claimed run_id row' (record txn { runs = put run_key row' txn.runs })
    else (err out_of_range, txn)

abbrev pub claim_of :
    ℕ → String → ℕ → ℕ → ℕ → ℕ → KernelTxn → RunRow → Result (Unit {0}) × KernelTxn
claim_of run_id owner ttl now epoch token txn row =
    if same_state row.state RunState.ready
    then if same_recovery row.recovery RecoveryDisposition.normal
      then if has_live_claim row now
        then (err (fault conflict "run already carries a live claim"), txn)
        else elim (dependencies_satisfied run_id txn).0 [
          | err e ↦ (err e, txn)
          | ok true ↦ granted run_id owner (expiry now ttl) epoch token txn row
          | ok false ↦ (err (fault failed_precondition "run dependencies are not satisfied"), txn)
        ]
      else (
        err (fault failed_precondition "run recovery disposition does not permit claiming"),
        txn,
      )
    else (err (fault conflict "run is not ready to be claimed"), txn)

claim_found :
    (run_id : ℕ) (owner : String) (ttl now epoch token : ℕ) (txn : KernelTxn) {row : RunRow}
    → get_run run_id txn ≡ some row
    → claim run_id owner ttl now epoch token txn ≡ claim_of run_id owner ttl now epoch token txn row
unfolding claim cas_holds
claim_found run_id owner ttl now epoch token txn {row} found = ground (
  arith,
  dependencies_satisfied-unchanged run_id txn,
  cas_update_found run_id (claim_cas row) (claim_run_patch owner token (expiry now ttl) epoch) txn
      {row = row} found,
  get_run-patched run_id (claim_run_patch owner token (expiry now ttl) epoch) txn {row = row} found,
)

claim_missing :
    (run_id : ℕ) (owner : String) (ttl now epoch token : ℕ) (txn : KernelTxn)
    → get_run run_id txn ≡ none
    → claim run_id owner ttl now epoch token txn ≡ (err (fault not_found "run does not exist"), txn)
unfolding claim
claim_missing run_id owner ttl now epoch token txn missing = ground (arith, missing)

not_ok : {e : KernelError} → ok (tt {0}) ≡ err e → ⊥
not_ok h = cc

-- A claim succeeds only on a run that is `Ready`, with recovery `Normal`, without a claim that is still live, and with every edge into it satisfied; the run then is the claimed row (`Running`, with the new owner, token, expiry and epoch, at the next revision), and the transaction has that row and the two events staged from it, and is otherwise as before.
pub claim_ok :
    (run_id : ℕ) (owner : String) (ttl now epoch token : ℕ) (txn txn' : KernelTxn)
    → claim run_id owner ttl now epoch token txn ≡ (ok tt, txn')
    → (row : RunRow) × (get_run run_id txn ≡ some row)
      × (row.state ≡ RunState.ready)
      × (row.recovery ≡ RecoveryDisposition.normal)
      × (has_live_claim row now ≡ false)
      × All
          (IsSatisfied txn)
          (filter (λ r. r.target_run_id == run_id) (list_dependencies row.task_id txn))
      × (let row' = claimed_row owner (expiry now ttl) epoch token row in
          (get_run run_id txn' ≡ some row')
          × (txn'
              ≡ (stage_claimed run_id row' (record txn { runs = put run_key row' txn.runs })).1))
unfolding stage
claim_ok run_id owner ttl now epoch token txn txn' h = elim (Option-cases (get_run run_id txn)) [
  | inl missing ↦
      absurd (
        not_ok (ap (λ r. r.0) (sym h ∙ claim_missing run_id owner ttl now epoch token txn missing)))
  | inr (row, found) ↦
      let e = claim_found run_id owner ttl now epoch token txn {row = row} found in
      let there =
        get_run-patched run_id (claim_run_patch owner token (expiry now ttl) epoch) txn {row = row}
          found in
      (
        row,
        found,
        to_wire_injective _ _ (ground (arith, e)),
        Recovery.to_wire_injective _ _ (ground (arith, e)),
        ground (arith, e),
        dependencies_satisfied_sound run_id txn row found (ground (arith, e)),
        (ground (arith, e, there), ground (arith, e)),
      )
]

-- A claim that is refused leaves the transaction as it was.
pub claim_error_unchanged :
    (run_id : ℕ) (owner : String) (ttl now epoch token : ℕ) (txn : KernelTxn) {e : KernelError}
    → (claim run_id owner ttl now epoch token txn).0 ≡ err e
    → (claim run_id owner ttl now epoch token txn).1 ≡ txn
unfolding stage
claim_error_unchanged run_id owner ttl now epoch token txn h =
    elim (Option-cases (get_run run_id txn)) [
      | inl missing ↦ cc (claim_missing run_id owner ttl now epoch token txn missing)
      | inr (row, found) ↦
          ground (arith, claim_found run_id owner ttl now epoch token txn {row = row} found)
    ]

claim_running :
    (run_id : ℕ) (owner : String) (ttl now epoch token : ℕ) (txn : KernelTxn) (row : RunRow)
    → get_run run_id txn ≡ some row
    → row.state ≡ RunState.running
    → FailsWith conflict (claim run_id owner ttl now epoch token txn).0
unfolding to_wire
claim_running run_id owner ttl now epoch token txn row found busy =
    let closed : same_state row.state RunState.ready ≡ false = rw busy in
    ground (arith, closed, claim_found run_id owner ttl now epoch token txn {row = row} found)

-- Once a claim has succeeded, and for as long as the row of the run stays as that claim wrote it, whatever happens to the rest of the transaction, every further claim of the run is refused with `Conflict`, whoever makes it and whatever the clock reads, also after the first claim has expired.
pub claim_excludes :
    (run_id : ℕ) (owner : String) (ttl now epoch token : ℕ) (owner' : String)
    (ttl' now' epoch' token' : ℕ) (txn txn' later : KernelTxn)
    → claim run_id owner ttl now epoch token txn ≡ (ok tt, txn')
    → get_run run_id later ≡ get_run run_id txn'
    → FailsWith conflict (claim run_id owner' ttl' now' epoch' token' later).0
unfolding run_patched
claim_excludes run_id owner ttl now epoch token owner' ttl' now' epoch' token' txn txn' later h
      same =
    let (row, _, _, _, _, _, after) = claim_ok run_id owner ttl now epoch token txn txn' h in
    claim_running run_id owner' ttl' now' epoch' token' later
      (claimed_row owner (expiry now ttl) epoch token row) (same ∙ after.0) refl
