-- ===== src/Scheduler/History.antt =====
-- Sequences of the operations of crates/scheduler/src/lib.rs, by any worker: a timer that was fired or
-- cancelled is not touched again.
use ai_harness.Base.{ℕ, true, some, String, List, ◌≡◌, refl, ◌≢◌, ◌⊎◌, inl, inr}
use ai_harness.Base.Txn.{ok}
use ai_harness.Domain.TimerState.{TimerState}
use ai_harness.Store.Models.{TimerRow}
use ai_harness.Store.Kernel.{KernelTxn}
use ai_harness.Store.Outbox.{stage}
use ai_harness.Store.Timers.{get_timer, timer_patched, get_timer-patched, list_due}
use ai_harness.Scheduler.Timers.{
  ScheduleRequest, schedule, claim, cancel, mark_fired, fired_patch, stage_timer_event,
  claim_next_due,
}
use ai_harness.Scheduler.Races.{written, mark_fired_cases}
use ai_harness.Scheduler.Settled.{
  Keeps, the_some, clash, claim-Keeps, cancel-Keeps, holds_state, fired-Keeps, claim_first-Keeps,
  schedule-Keeps,
}

-- One operation on timers, whatever it returns.
pub data Step (txn : KernelTxn) : KernelTxn → Type 0 where
  schedules :
      (now minted : ℕ) (request : ScheduleRequest) → Step txn (schedule now minted request txn).1
  claims : (k : ℕ) (owner : String) (epoch : ℕ) → Step txn (claim k owner epoch txn).1
  cancels : (k version : ℕ) → Step txn (cancel k version txn).1
  fires : (c : TimerRow) → Step txn (mark_fired c txn).1
  works :
      (now : ℕ) (owner : String) (epoch : ℕ) (exclude : List ℕ)
      → Step txn (claim_next_due now owner epoch exclude txn).1

pub data History (a : KernelTxn) : KernelTxn → Type 0 where
  nothing : History a a
  then_step : {b c : KernelTxn} → History a b → Step b c → History a c

Step-Keeps : (id : ℕ) {a b : KernelTxn} → Step a b → Keeps id a b
unfolding claim_next_due list_due
Step-Keeps id {a} (schedules now minted request) = schedule-Keeps id now minted request a
Step-Keeps id {a} (claims k owner epoch) = claim-Keeps id k owner epoch a
Step-Keeps id {a} (cancels k version) = cancel-Keeps id k version a
Step-Keeps id {a} (fires c) = fired-Keeps id c a
Step-Keeps id {a} (works now owner epoch exclude) = claim_first-Keeps id _ owner epoch exclude a

History-Keeps : (id : ℕ) {a b : KernelTxn} → History a b → Keeps id a b
History-Keeps id nothing row settled there = there
History-Keeps id (then_step {b = m} h s) row settled there =
    Step-Keeps id s row settled (History-Keeps id h row settled there)

-- A timer that was fired or cancelled stays exactly as it is, whatever schedulings, claims, cancellations, firings and worker passes follow.
pub timer_settled_stays :
    (id : ℕ) (a b : KernelTxn) (row : TimerRow)
    → (row.state ≡ TimerState.fired) ⊎ (row.state ≡ TimerState.cancelled)
    → get_timer id a ≡ some row
    → History a b
    → get_timer id b ≡ some row
timer_settled_stays id a b row settled there h = History-Keeps id h row settled there

fired_there :
    (c : TimerRow) (txn txn1 : KernelTxn)
    → mark_fired c txn ≡ (ok true, txn1)
    → (row : TimerRow) × (row.state ≡ TimerState.fired) × (get_timer c.timer_id txn1 ≡ some row)
unfolding stage timer_patched
fired_there c txn txn1 done = elim (mark_fired_cases c txn) [
  | inl wide ↦ cc
  | inr (inl lost) ↦ cc
  | inr (inr (row, found, holds, fired)) ↦
      let after : txn1 ≡ (stage_timer_event "TimerFired" c (written fired_patch row txn)).1 =
        cc (done, fired) in
      (
        timer_patched fired_patch row,
        refl,
        rw after (get_timer-patched c.timer_id fired_patch txn {row = row} found),
      )
]

no_refire :
    (c : TimerRow) (txn : KernelTxn) (row : TimerRow)
    → row.state ≡ TimerState.fired
    → get_timer c.timer_id txn ≡ some row
    → ((mark_fired c txn).0 ≢ ok true) × ((mark_fired c txn).1 ≡ txn)
no_refire c txn row fired there = elim (mark_fired_cases c txn) [
  | inl wide ↦ (λ e. cc, cc)
  | inr (inl lost) ↦ (λ e. cc, cc)
  | inr (inr (other, found, holds, done)) ↦
      let one : row ≡ other = the_some row other (cc (found, there)) in
      let busy = (holds_state TimerState.claimed c.version other holds).0 in
      absurd (clash row (inl fired) (inr (rw one busy)))
]

-- A timer fires at most once: after a firing that succeeded, and any schedulings, claims, cancellations, firings and worker passes since, no firing of it succeeds, whatever claim it presents, and a firing changes nothing.
pub timer_fires_once :
    (c c' : TimerRow) (txn txn1 txn2 : KernelTxn)
    → c'.timer_id ≡ c.timer_id
    → mark_fired c txn ≡ (ok true, txn1)
    → History txn1 txn2
    → ((mark_fired c' txn2).0 ≢ ok true) × ((mark_fired c' txn2).1 ≡ txn2)
timer_fires_once c c' txn txn1 txn2 same done h =
    let (row, fired, there) = fired_there c txn txn1 done in
    no_refire c' txn2 row fired
      (rw same (timer_settled_stays c.timer_id txn1 txn2 row (inl fired) there h))
