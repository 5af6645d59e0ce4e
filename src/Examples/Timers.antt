-- ===== src/Examples/Timers.antt =====
-- Timers at concrete inputs.
use ai_harness.Base.{ℕ, true, false, none, some, [], ◌∷◌, ◌≡◌, refl, ◌≢◌, inl, inr}
use ai_harness.Base.Txn.{ok}
use ai_harness.Domain.TimerState.{TimerState}
use ai_harness.Store.Models.{TimerRow}
use ai_harness.Store.Kernel.{KernelTxn}
use ai_harness.Store.Timers.{get_timer, timer_patched}
use ai_harness.Scheduler.Timers.{
  ScheduleRequest, schedule, claim, cancel, mark_fired, claim_next_due, claim_patch, cancel_patch,
  fired_patch, stage_timer_event,
}
use ai_harness.Scheduler.Races.{written}
use ai_harness.Scheduler.History.{nothing, then_step, schedules, works, timer_fires_once}
use ai_harness.Examples.Data.{with_timer, timer_in}

abbrev waiting : TimerRow
waiting = timer_in TimerState.scheduled

abbrev waiting_txn : KernelTxn
waiting_txn = with_timer TimerState.scheduled

abbrev held : TimerRow
held = timer_patched (claim_patch waiting "a" 1) waiting

abbrev held_txn : KernelTxn
held_txn =
    (stage_timer_event "TimerClaimed" held
      (written (claim_patch waiting "a" 1) waiting waiting_txn)).1

claims_3 : claim 3 "a" 1 waiting_txn ≡ (ok (some held), held_txn)
unfolding claim ai_harness.Base.Table.find ai_harness.Domain.TimerState.to_wire
    ai_harness.Store.Timers.cas_timer ai_harness.Base.Table.update
    ai_harness.Store.Timers.timer_holds ai_harness.Base.Table.put timer_patched
    ai_harness.Store.Outbox.stage
claims_3 = refl

-- The worker's pass finds the same timer.
works_3 : claim_next_due 250 "a" 1 [] waiting_txn ≡ (ok (some held), held_txn)
unfolding claim_next_due ai_harness.Store.Timers.list_due ai_harness.Domain.TimerState.to_wire
    ai_harness.Base.Table.find ai_harness.Store.Timers.cas_timer ai_harness.Base.Table.update
    ai_harness.Store.Timers.timer_holds ai_harness.Base.Table.put timer_patched
    ai_harness.Store.Outbox.stage
works_3 = refl

abbrev over : TimerRow
over = timer_patched cancel_patch waiting

abbrev over_txn : KernelTxn
over_txn = (stage_timer_event "TimerCancelled" over (written cancel_patch waiting waiting_txn)).1

cancels_3 : cancel 3 0 waiting_txn ≡ (ok over, over_txn)
unfolding cancel ai_harness.Base.Table.find ai_harness.Domain.TimerState.to_wire
    ai_harness.Store.Timers.cas_timer ai_harness.Base.Table.update
    ai_harness.Store.Timers.timer_holds ai_harness.Base.Table.put timer_patched
    ai_harness.Store.Outbox.stage
cancels_3 = refl

abbrev fired_txn : KernelTxn
fired_txn = (stage_timer_event "TimerFired" held (written fired_patch held held_txn)).1

fires_3 : mark_fired held held_txn ≡ (ok true, fired_txn)
unfolding mark_fired ai_harness.Store.Timers.cas_timer timer_patched ai_harness.Base.Table.update
    ai_harness.Base.Table.find ai_harness.Store.Outbox.stage ai_harness.Base.Table.put
    ai_harness.Store.Timers.timer_holds ai_harness.Domain.TimerState.to_wire
fires_3 = refl

-- A request that names the timer which has fired.
abbrev again_3 : ScheduleRequest
again_3 = record {
  timer_id = some 3;
  run_id = none;
  timer_kind = "wake";
  due_at_ms = 900;
  payload = [];
}

abbrev later_txn : KernelTxn
later_txn = (claim_next_due 900 "b" 2 [] (schedule 800 9 again_3 fired_txn).1).1

timer_fires_once_example :
    ((mark_fired held later_txn).0 ≢ ok true) × ((mark_fired held later_txn).1 ≡ later_txn)
timer_fires_once_example =
    timer_fires_once held held held_txn fired_txn later_txn refl fires_3
      (then_step (then_step nothing (schedules 800 9 again_3)) (works 900 "b" 2 []))
