-- ===== src/Scheduler/Timers.antt =====
-- crates/scheduler/src/lib.rs: schedule, claim, fire and cancel. The clock's reading and a minted
-- identifier are arguments; `expect`, which would panic, is an `internal` error that never occurs.
use ai_harness.Base.{
  ℕ, ◌+◌, Bool, true, false, ◌&&◌, Option, none, some, String, List, [], ◌∷◌, ◌==◌, leb, coalesce,
  opt_eq, opt_is, opt_str_is, any, if◌then◌else◌,
}
use ai_harness.Base.Txn.{
  Txn, ok, pure, fail, require, or_fail, fault, not_found, conflict, failed_precondition, internal,
  safe, KernelError, ◌>>=◌, ◌>>◌,
}
use ai_harness.Domain.TimerState.{TimerState, to_wire}
use ai_harness.Store.Models.{TimerRow, TimerPatch}
use ai_harness.Store.Kernel.{KernelTxn, StreamKey, run_stream, config_global, schedule_timer}
use ai_harness.Store.Outbox.{stage}
use ai_harness.Store.Timers.{get_timer, cas_timer, no_timer_patch, insert_timer, list_due}

pub record ScheduleRequest : Type 0 where
  pub timer_id : Option ℕ
  pub run_id : Option ℕ
  pub timer_kind : String
  pub due_at_ms : ℕ
  pub payload : List ℕ

abbrev pub timer_stream : Option ℕ → StreamKey
timer_stream none = config_global
timer_stream (some run_id) = run_stream run_id

abbrev pub stage_timer_event : String → TimerRow → Txn KernelTxn (Unit {0})
stage_timer_event event_type row = do
  _ ← stage (timer_stream row.run_id) event_type (schedule_timer row)
  pure tt

abbrev pub in_state : TimerState → TimerRow → Bool
in_state state row = to_wire row.state == to_wire state

unfoldable pub same_payload : List ℕ → List ℕ → Bool
same_payload [] [] = true
same_payload (x ∷ xs) (y ∷ ys) = x == y && same_payload xs ys
same_payload _ _ = false

abbrev pub missing : KernelError
missing = fault not_found "timer does not exist"

abbrev pub visible : ℕ → Txn KernelTxn TimerRow
visible timer_id txn =
    or_fail (get_timer timer_id txn) (fault internal "timer visible in its own transaction") txn

abbrev pub load_timer : ℕ → Txn KernelTxn TimerRow
load_timer timer_id txn = or_fail (get_timer timer_id txn) missing txn

abbrev pub is_replay : TimerRow → ScheduleRequest → Bool
is_replay row request =
    opt_eq row.run_id request.run_id
    && (opt_str_is (some row.timer_kind) request.timer_kind
        && (row.due_at_ms == request.due_at_ms && same_payload row.payload request.payload))

abbrev pub schedule_new : ℕ → ℕ → ScheduleRequest → Txn KernelTxn TimerRow
schedule_new now_ms timer_id request = do
  insert_timer (record {
    timer_id = timer_id;
    run_id = request.run_id;
    timer_kind = request.timer_kind;
    payload = request.payload;
    due_at_ms = request.due_at_ms;
    state = TimerState.scheduled;
    version = 0;
    created_at_ms = now_ms;
  })
  row ← visible timer_id
  stage_timer_event "TimerScheduled" row
  pure row

abbrev pub schedule_on : ℕ → ℕ → ScheduleRequest → Option TimerRow → Txn KernelTxn TimerRow
schedule_on now_ms timer_id request none = schedule_new now_ms timer_id request
schedule_on now_ms timer_id request (some existing) = do
  require (is_replay existing request)
      (fault conflict "timer_id already scheduled with different fields")
  pure existing

unfoldable pub schedule : ℕ → ℕ → ScheduleRequest → Txn KernelTxn TimerRow
schedule now_ms minted request txn =
    let timer_id = coalesce request.timer_id minted in
    schedule_on now_ms timer_id request (get_timer timer_id txn) txn

abbrev pub cancel_patch : TimerPatch
cancel_patch = record no_timer_patch { state = some TimerState.cancelled }

abbrev pub cancel_lost : KernelError
cancel_lost = record { code = conflict; retry = safe; detail = "timer cancel lost a version race" }

abbrev pub cancel_scheduled : ℕ → ℕ → Txn KernelTxn TimerRow
cancel_scheduled timer_id expected_version = do
  won ← cas_timer timer_id TimerState.scheduled expected_version cancel_patch
  require won cancel_lost
  row ← visible timer_id
  stage_timer_event "TimerCancelled" row
  pure row

unfoldable pub cancel : ℕ → ℕ → Txn KernelTxn TimerRow
cancel timer_id expected_version = do
  row ← load_timer timer_id
  let cancelling = cancel_scheduled timer_id expected_version
  if in_state TimerState.cancelled row
      then pure row
      else if in_state TimerState.scheduled row
      then cancelling
      else fail (fault failed_precondition "timer cannot be cancelled in its state")

abbrev pub claim_patch : TimerRow → String → ℕ → TimerPatch
claim_patch row owner daemon_epoch = record no_timer_patch {
  state = some TimerState.claimed;
  claim_owner = some owner;
  claim_fencing_token = some (row.version + 1);
  claim_daemon_epoch = some daemon_epoch;
}

abbrev pub announce_claim : ℕ → Bool → Txn KernelTxn (Option TimerRow)
announce_claim timer_id false = pure none
announce_claim timer_id true = do
  claimed ← visible timer_id
  stage_timer_event "TimerClaimed" claimed
  pure (some claimed)

abbrev pub claim_scheduled : TimerRow → ℕ → String → ℕ → Txn KernelTxn (Option TimerRow)
claim_scheduled row timer_id owner daemon_epoch = do
  won ← cas_timer timer_id TimerState.scheduled row.version (claim_patch row owner daemon_epoch)
  announce_claim timer_id won

unfoldable pub claim : ℕ → String → ℕ → Txn KernelTxn (Option TimerRow)
claim timer_id owner daemon_epoch = do
  row ← load_timer timer_id
  let claiming = claim_scheduled row timer_id owner daemon_epoch
  if in_state TimerState.scheduled row then claiming else pure none

abbrev pub fired_patch : TimerPatch
fired_patch = record no_timer_patch { state = some TimerState.fired }

abbrev pub announce_fired : TimerRow → Bool → Txn KernelTxn Bool
announce_fired claimed false = pure false
announce_fired claimed true = do stage_timer_event "TimerFired" claimed; pure true

unfoldable pub mark_fired : TimerRow → Txn KernelTxn Bool
mark_fired claimed = do
  won ← cas_timer claimed.timer_id TimerState.claimed claimed.version fired_patch
  announce_fired claimed won

-- The claim of a dead epoch passes to this worker.
abbrev pub reclaimed : ℕ → Bool → Txn KernelTxn (Option TimerRow)
reclaimed timer_id false txn = (ok none, txn)
reclaimed timer_id true txn = (ok (get_timer timer_id txn), txn)

abbrev pub reclaim : TimerRow → String → ℕ → Txn KernelTxn (Option TimerRow)
reclaim row owner daemon_epoch = do
  won ← cas_timer row.timer_id TimerState.claimed row.version (claim_patch row owner daemon_epoch)
  reclaimed row.timer_id won

abbrev pub is_ours : TimerRow → String → ℕ → Bool
is_ours row owner daemon_epoch =
    opt_str_is row.claim_owner owner && opt_is row.claim_daemon_epoch daemon_epoch

-- `claim_daemon_epoch.is_some_and(|epoch| epoch >= daemon_epoch)`.
abbrev pub is_live : TimerRow → ℕ → Bool
is_live row daemon_epoch = elim row.claim_daemon_epoch [
  | none ↦ false
  | some epoch ↦ leb daemon_epoch epoch
]

-- One round of the loop: the timer that this worker may fire, or nothing.
abbrev pub consider : TimerRow → String → ℕ → List ℕ → Txn KernelTxn (Option TimerRow)
consider row owner daemon_epoch exclude =
    let reclaiming = reclaim row owner daemon_epoch in
    let claiming = claim row.timer_id owner daemon_epoch in
    if any (λ id. id == row.timer_id) exclude
    then pure none
    else if in_state TimerState.claimed row
    then if is_ours row owner daemon_epoch
      then pure (some row)
      else if is_live row daemon_epoch
      then pure none
      else reclaiming
    else if in_state TimerState.scheduled row
    then claiming
    else pure none

unfoldable pub claim_first : List TimerRow → String → ℕ → List ℕ → Txn KernelTxn (Option TimerRow)
unfolding claim
claim_first [] owner daemon_epoch exclude = pure none
claim_first (row ∷ rows) owner daemon_epoch exclude =
    consider row owner daemon_epoch exclude >>= λ found. elim found [
      | some claimed ↦ pure (some claimed)
      | none ↦ claim_first rows owner daemon_epoch exclude
    ]

unfoldable pub claim_next_due : ℕ → String → ℕ → List ℕ → Txn KernelTxn (Option TimerRow)
unfolding claim_first
claim_next_due now_ms owner daemon_epoch exclude = do
  rows ← list_due now_ms
  claim_first rows owner daemon_epoch exclude
