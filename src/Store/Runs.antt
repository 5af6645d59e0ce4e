-- ===== src/Store/Runs.antt =====
-- crates/kernel-store-sqlite/src/repos/runs.rs: fetching runs and the compare-and-set on a row.
use ai_harness.Base.{
  ℕ, ◌+◌, Bool, true, false, ◌&&◌, Option, none, some, List, String, ◌==◌, opt_eq, coalesce,
  coalesce?, if◌then◌else◌, filter, ◌≡◌, ◌⊎◌, inl, inr, Bool-cases, arith,
}
use ai_harness.Base.Table.{find, put, update, update_cases, update_found, key-find, find-put}
use ai_harness.Base.Txn.{Result, Txn, ok, err, ◌>>◌}
use ai_harness.Domain.RunState.{RunState, to_wire}
use ai_harness.Store.Models.{RunRow, RunCas, RunPatch, ClaimPatch}
use ai_harness.Store.Kernel.{KernelTxn, fits, fits?, encode, out_of_range}

abbrev pub run_key : RunRow → ℕ
run_key row = row.run_id

-- `SELECT … FROM runs WHERE run_id = ?1`.
abbrev pub get_run : ℕ → KernelTxn → Option RunRow
get_run id txn = find run_key id txn.runs

-- `SELECT … WHERE parent_run_id = ?1 ORDER BY run_id`, the table being in the order of its key.
abbrev pub list_children : ℕ → KernelTxn → List RunRow
list_children parent txn = filter (λ row. opt_eq row.parent_run_id (some parent)) txn.runs

-- `?18 IS NULL OR state = ?18`, on the stored integers.
abbrev pub state_expected : Option RunState → RunState → Bool
state_expected none s = true
state_expected (some e) s = to_wire s == to_wire e

abbrev pub number_expected : Option ℕ → ℕ → Bool
number_expected none n = true
number_expected (some e) n = n == e

-- The `WHERE` clause of `cas_update`, the key apart.
unfoldable pub cas_holds : RunCas → RunRow → Bool
cas_holds expect row =
    row.run_revision == expect.run_revision
    && (state_expected expect.state row.state
        && number_expected expect.cancellation_epoch row.cancellation_epoch)

abbrev pub claim_owner_of : Option ClaimPatch → Option String
claim_owner_of none = none
claim_owner_of (some c) = some c.owner

abbrev pub claim_token_of : Option ClaimPatch → Option ℕ
claim_token_of none = none
claim_token_of (some c) = some c.token

abbrev pub claim_expires_of : Option ClaimPatch → Option ℕ
claim_expires_of none = none
claim_expires_of (some c) = some c.expires_unix_ms

abbrev pub claim_epoch_of : Option ClaimPatch → Option ℕ
claim_epoch_of none = none
claim_epoch_of (some c) = some c.daemon_epoch

abbrev pub bump : Bool → ℕ
bump true = 1
bump false = 0

-- The `SET` clause of `cas_update`.
unfoldable pub run_patched : RunPatch → RunRow → RunRow
run_patched p row = record row {
  state = coalesce p.state row.state;
  recovery = coalesce p.recovery row.recovery;
  run_revision = row.run_revision + bump p.bump_revision;
  loop_epoch = coalesce p.loop_epoch row.loop_epoch;
  step_sequence = coalesce p.step_sequence row.step_sequence;
  input_event_cursor = coalesce p.input_event_cursor row.input_event_cursor;
  cancellation_epoch = coalesce p.cancellation_epoch row.cancellation_epoch;
  resolved_environment_id = coalesce? p.resolved_environment_id row.resolved_environment_id;
  claim_owner = coalesce? (claim_owner_of p.claim) row.claim_owner;
  claim_token = coalesce? (claim_token_of p.claim) row.claim_token;
  claim_expires_ms = coalesce? (claim_expires_of p.claim) row.claim_expires_ms;
  claim_daemon_epoch = coalesce? (claim_epoch_of p.claim) row.claim_daemon_epoch;
  terminal_reason = coalesce? p.terminal_reason row.terminal_reason;
  output_ref = coalesce? p.output_ref row.output_ref;
  current_turn_id = coalesce? p.current_turn_id row.current_turn_id;
}

-- The unsigned values that `cas_update` binds to integer columns.
unfoldable pub cas_encodes : RunCas → RunPatch → Bool
cas_encodes expect p =
    fits? (claim_token_of p.claim)
    && (fits? (claim_epoch_of p.claim)
        && (fits? p.step_sequence
            && (fits? p.loop_epoch
                && (fits? p.cancellation_epoch
                    && (fits expect.run_revision && fits? expect.cancellation_epoch)))))

-- `UPDATE runs SET … WHERE run_id = ?16 AND …`; the result is `rows_affected() == 1`.
unfoldable pub cas_update : ℕ → RunCas → RunPatch → Txn KernelTxn Bool
cas_update id expect patch = do
  encode (cas_encodes expect patch)
  λ txn.
      let u = update run_key id (cas_holds expect) (run_patched patch) txn.runs in
      (ok u.1, record txn { runs = u.0 })

-- The patch that changes nothing, `RunPatch::default()`.
abbrev pub no_patch : RunPatch
no_patch = record {
  state = none;
  recovery = none;
  loop_epoch = none;
  step_sequence = none;
  input_event_cursor = none;
  cancellation_epoch = none;
  resolved_environment_id = none;
  claim = none;
  terminal_reason = none;
  output_ref = none;
  current_turn_id = none;
  bump_revision = false;
}

-- A compare-and-set fails on a value out of range, changes nothing, or writes the one row.
pub cas_update_cases :
    (id : ℕ) (expect : RunCas) (patch : RunPatch) (txn : KernelTxn)
    → (cas_update id expect patch txn ≡ (err out_of_range, txn))
      ⊎ (cas_update id expect patch txn ≡ (ok false, txn))
      ⊎ ((row : RunRow) × (get_run id txn ≡ some row)
          × (cas_holds expect row ≡ true)
          × (cas_update id expect patch txn
              ≡ (ok true, record txn { runs = put run_key (run_patched patch row) txn.runs })))
unfolding cas_update
cas_update_cases id expect patch txn = elim (Bool-cases (cas_encodes expect patch)) [
  | inr wide ↦ inl (rw wide)
  | inl fit ↦ elim (update_cases run_key id (cas_holds expect) (run_patched patch) txn.runs) [
    | inl same ↦ inr (inl (rw (fit, same)))
    | inr (row, found, holds, done) ↦ inr (inr (row, found, holds, rw (fit, done)))
  ]
]

-- The compare-and-set on a row that is there.
abbrev pub cas_of : RunCas → RunPatch → KernelTxn → RunRow → Result Bool × KernelTxn
cas_of expect patch txn row =
    if cas_encodes expect patch
    then if cas_holds expect row
      then (ok true, record txn { runs = put run_key (run_patched patch row) txn.runs })
      else (ok false, txn)
    else (err out_of_range, txn)

pub cas_update_found :
    (id : ℕ) (expect : RunCas) (patch : RunPatch) (txn : KernelTxn) {row : RunRow}
    → get_run id txn ≡ some row
    → cas_update id expect patch txn ≡ cas_of expect patch txn row
unfolding cas_update
cas_update_found id expect patch txn {row} found =
    ground (
      arith,
      update_found run_key id (cas_holds expect) (run_patched patch) txn.runs {x = row} found,
    )

-- The written row is what the table then holds.
pub get_run-patched :
    (id : ℕ) (patch : RunPatch) (txn : KernelTxn) {row : RunRow}
    → get_run id txn ≡ some row
    → find run_key id (put run_key (run_patched patch row) txn.runs) ≡ some (run_patched patch row)
unfolding run_patched
get_run-patched id patch txn {row} found =
    find-put run_key id (run_patched patch row) txn.runs found (key-find run_key id txn.runs found)
