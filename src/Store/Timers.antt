-- ===== src/Store/Timers.antt =====
-- crates/kernel-store-sqlite/src/repos/timers.rs: timers and their versioned compare-and-set.
use ai_harness.Base.{
  ℕ, ◌+◌, Bool, true, false, ◌&&◌, Option, none, some, List, ◌==◌, leb, coalesce, coalesce?,
  if◌then◌else◌, filter, ◌≡◌, ◌⊎◌, inl, inr, Bool-cases, arith, [], ◌∷◌, ◌++◌, ltb, ◌||◌, String,
}
use ai_harness.Base.Table.{find, put, update, update_cases, update_found, find-put, key-find}
use ai_harness.Base.Txn.{Result, Txn, ok, err, ◌>>◌}
use ai_harness.Domain.TimerState.{TimerState, to_wire}
use ai_harness.Store.Models.{TimerRow, TimerPatch}
use ai_harness.Store.Kernel.{KernelTxn, fits, fits?, encode, out_of_range}

abbrev pub timer_key : TimerRow → ℕ
timer_key row = row.timer_id

abbrev pub get_timer : ℕ → KernelTxn → Option TimerRow
get_timer id txn = find timer_key id txn.timers

unfoldable pub timer_holds : TimerState → ℕ → TimerRow → Bool
timer_holds expect_state expect_version row =
    to_wire row.state == to_wire expect_state && row.version == expect_version

unfoldable pub timer_patched : TimerPatch → TimerRow → TimerRow
timer_patched p row = record row {
  state = coalesce p.state row.state;
  claim_owner = coalesce? p.claim_owner row.claim_owner;
  claim_fencing_token = coalesce? p.claim_fencing_token row.claim_fencing_token;
  claim_daemon_epoch = coalesce? p.claim_daemon_epoch row.claim_daemon_epoch;
  due_at_ms = coalesce p.due_at_ms row.due_at_ms;
  version = row.version + 1;
}

-- `UPDATE timers SET … WHERE timer_id = ?6 AND state = ?7 AND version = ?8`.
unfoldable pub cas_timer : ℕ → TimerState → ℕ → TimerPatch → Txn KernelTxn Bool
cas_timer id expect_state expect_version patch = do
  encode
      (fits? patch.claim_fencing_token && (fits? patch.claim_daemon_epoch && fits expect_version))
  λ txn.
      let u =
        update timer_key id (timer_holds expect_state expect_version) (timer_patched patch)
          txn.timers in
      (ok u.1, record txn { timers = u.0 })

abbrev pub no_timer_patch : TimerPatch
no_timer_patch = record {
  state = none;
  claim_owner = none;
  claim_fencing_token = none;
  claim_daemon_epoch = none;
  due_at_ms = none;
}

-- A transition fails on a value out of range, changes nothing, or writes the one row.
pub cas_timer_cases :
    (id : ℕ) (expect_state : TimerState) (expect_version : ℕ) (patch : TimerPatch) (txn : KernelTxn)
    → (cas_timer id expect_state expect_version patch txn ≡ (err out_of_range, txn))
      ⊎ (cas_timer id expect_state expect_version patch txn ≡ (ok false, txn))
      ⊎ ((row : TimerRow) × (get_timer id txn ≡ some row)
          × (timer_holds expect_state expect_version row ≡ true)
          × (cas_timer id expect_state expect_version patch txn ≡ (
            ok true,
            record txn { timers = put timer_key (timer_patched patch row) txn.timers },
          )))
unfolding cas_timer
cas_timer_cases id expect_state expect_version patch txn =
    let in_range =
      fits? patch.claim_fencing_token && (fits? patch.claim_daemon_epoch && fits expect_version) in
    elim (Bool-cases in_range) [
      | inr wide ↦ inl (rw wide)
      | inl fit ↦
          elim (update_cases timer_key id (timer_holds expect_state expect_version)
            (timer_patched patch) txn.timers) [
              | inl same ↦ inr (inl (rw (fit, same)))
              | inr (row, found, holds, done) ↦ inr (inr (row, found, holds, rw (fit, done)))
            ]
    ]

-- The compare-and-set on a row that is there.
abbrev pub timer_cas_of :
    TimerState → ℕ → TimerPatch → KernelTxn → TimerRow → Result Bool × KernelTxn
timer_cas_of expect_state expect_version patch txn row =
    if fits? patch.claim_fencing_token && (fits? patch.claim_daemon_epoch && fits expect_version)
    then if timer_holds expect_state expect_version row
      then (ok true, record txn { timers = put timer_key (timer_patched patch row) txn.timers })
      else (ok false, txn)
    else (err out_of_range, txn)

pub cas_timer_found :
    (id : ℕ) (expect_state : TimerState) (expect_version : ℕ) (patch : TimerPatch) (txn : KernelTxn)
    {row : TimerRow}
    → get_timer id txn ≡ some row
    → cas_timer id expect_state expect_version patch txn
      ≡ timer_cas_of expect_state expect_version patch txn row
unfolding cas_timer
cas_timer_found id expect_state expect_version patch txn {row} found = ground (
  arith,
  update_found timer_key id (timer_holds expect_state expect_version) (timer_patched patch)
      txn.timers {x = row} found,
)

-- The written row is what the table then holds.
pub get_timer-patched :
    (id : ℕ) (patch : TimerPatch) (txn : KernelTxn) {row : TimerRow}
    → get_timer id txn ≡ some row
    → find timer_key id (put timer_key (timer_patched patch row) txn.timers)
      ≡ some (timer_patched patch row)
unfolding timer_patched
get_timer-patched id patch txn {row} found =
    find-put timer_key id (timer_patched patch row) txn.timers found
      (key-find timer_key id txn.timers found)

pub record NewTimer : Type 0 where
  pub timer_id : ℕ
  pub run_id : Option ℕ
  pub timer_kind : String
  pub payload : List ℕ
  pub due_at_ms : ℕ
  pub state : TimerState
  pub version : ℕ
  pub created_at_ms : ℕ

abbrev pub timer_row : NewTimer → TimerRow
timer_row t = record {
  timer_id = t.timer_id;
  run_id = t.run_id;
  timer_kind = t.timer_kind;
  payload = t.payload;
  due_at_ms = t.due_at_ms;
  state = t.state;
  version = t.version;
  claim_owner = none;
  claim_fencing_token = none;
  claim_daemon_epoch = none;
  created_at_ms = t.created_at_ms;
  updated_at_ms = t.created_at_ms;
}

-- `INSERT INTO timers …`, of an identifier that the table does not hold.
unfoldable pub insert_timer : NewTimer → Txn KernelTxn (Unit {0})
insert_timer timer = do
  encode (fits timer.version)
  λ txn. (ok tt, record txn { timers = txn.timers ++ timer_row timer ∷ [] })

-- `ORDER BY due_at_ms, timer_id`.
abbrev pub sorts_before : TimerRow → TimerRow → Bool
sorts_before a b =
    ltb a.due_at_ms b.due_at_ms || (a.due_at_ms == b.due_at_ms && leb a.timer_id b.timer_id)

unfoldable pub insert_sorted : TimerRow → List TimerRow → List TimerRow
insert_sorted row [] = row ∷ []
insert_sorted row (r ∷ rs) =
    let rest = insert_sorted row rs in if sorts_before row r then row ∷ r ∷ rs else r ∷ rest

unfoldable pub order_timers : List TimerRow → List TimerRow
unfolding insert_sorted
order_timers [] = []
order_timers (r ∷ rs) = insert_sorted r (order_timers rs)

unfoldable pub list_due : ℕ → Txn KernelTxn (List TimerRow)
unfolding order_timers
list_due due_before_ms txn =
    (ok (order_timers (filter (λ r. leb r.due_at_ms due_before_ms) txn.timers)), txn)
