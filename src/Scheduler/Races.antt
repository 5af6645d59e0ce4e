-- ===== src/Scheduler/Races.antt =====
-- Who wins when a timer is claimed, cancelled and fired (crates/scheduler/src/lib.rs).
use ai_harness.Base.{
  ℕ, ◌+◌, true, false, ◌&&◌, none, some, String, ◌≡◌, refl, ◌⊎◌, inl, inr, arith, Option-cases,
  Bool-cases, ◌==◌,
}
use ai_harness.Base.Txn.{ok_not_err, ok, err, KernelError, fault, failed_precondition, FailsWith}
use ai_harness.Base.Table.{put}
use ai_harness.Domain.TimerState.{TimerState, to_wire, to_wire_injective}
use ai_harness.Store.Models.{TimerRow, TimerPatch}
use ai_harness.Store.Kernel.{KernelTxn, fits, out_of_range}
use ai_harness.Store.Outbox.{stage}
use ai_harness.Store.Timers.{
  get_timer, timer_key, timer_holds, timer_patched, cas_timer_cases, cas_timer_found,
  get_timer-patched,
}
use ai_harness.Scheduler.Timers.{
  claim, cancel, mark_fired, claim_patch, cancel_patch, fired_patch, cancel_lost, missing, in_state,
  stage_timer_event,
}

-- The row and the transaction that a versioned write leaves behind.
abbrev pub written : TimerPatch → TimerRow → KernelTxn → KernelTxn
written patch row txn = record txn { timers = put timer_key (timer_patched patch row) txn.timers }

-- A claim reports why it failed, does nothing, or takes a scheduled timer.
pub claim_cases :
    (id : ℕ) (owner : String) (epoch : ℕ) (txn : KernelTxn)
    → ((e : KernelError) × (claim id owner epoch txn ≡ (err e, txn)))
      ⊎ (claim id owner epoch txn ≡ (ok none, txn))
      ⊎ ((row : TimerRow) × (get_timer id txn ≡ some row)
          × (row.state ≡ TimerState.scheduled)
          × (let row' = timer_patched (claim_patch row owner epoch) row in
              claim id owner epoch txn ≡ (
                ok (some row'),
                (stage_timer_event "TimerClaimed" row'
                    (written (claim_patch row owner epoch) row txn)).1,
              )))
unfolding claim stage timer_holds
claim_cases id owner epoch txn = elim (Option-cases (get_timer id txn)) [
  | inl absent ↦ inl (missing, ground (arith, absent))
  | inr (row, found) ↦ elim (Bool-cases (in_state TimerState.scheduled row)) [
    | inr other ↦ inr (inl (ground (arith, found, other)))
    | inl waiting ↦
        let e =
          cas_timer_found id TimerState.scheduled row.version (claim_patch row owner epoch) txn
            {row = row} found in
        let there = get_timer-patched id (claim_patch row owner epoch) txn {row = row} found in
        elim (Bool-cases (fits (row.version + 1) && (fits epoch && fits row.version))) [
          | inr wide ↦ inl (out_of_range, ground (arith, found, waiting, e, wide))
          | inl fit ↦ inr (
              inr (
                row,
                found,
                to_wire_injective row.state TimerState.scheduled (ground (arith, waiting)),
                ground (arith, found, waiting, e, fit, there),
              ))
        ]
  ]
]

-- A cancellation reports why it failed, repeats an earlier one, or takes a scheduled timer.
pub cancel_cases :
    (id version : ℕ) (txn : KernelTxn)
    → ((e : KernelError) × (cancel id version txn ≡ (err e, txn)))
      ⊎ ((row : TimerRow) × (get_timer id txn ≡ some row)
          × (row.state ≡ TimerState.cancelled)
          × (cancel id version txn ≡ (ok row, txn)))
      ⊎ ((row : TimerRow) × (get_timer id txn ≡ some row)
          × (row.state ≡ TimerState.scheduled)
          × (let row' = timer_patched cancel_patch row in
              cancel id version txn ≡ (
                ok row',
                (stage_timer_event "TimerCancelled" row' (written cancel_patch row txn)).1,
              )))
unfolding cancel stage timer_holds
cancel_cases id version txn = elim (Option-cases (get_timer id txn)) [
  | inl absent ↦ inl (missing, ground (arith, absent))
  | inr (row, found) ↦ elim (Bool-cases (in_state TimerState.cancelled row)) [
    | inl already ↦ inr (
        inl (
          row,
          found,
          to_wire_injective row.state TimerState.cancelled (ground (arith, already)),
          ground (arith, found, already),
        ))
    | inr live ↦ elim (Bool-cases (in_state TimerState.scheduled row)) [
      | inr other ↦ inl (
        fault failed_precondition "timer cannot be cancelled in its state",
        ground (arith, found, live, other),
      )
      | inl waiting ↦
          let e =
            cas_timer_found id TimerState.scheduled version cancel_patch txn {row = row} found in
          let there = get_timer-patched id cancel_patch txn {row = row} found in
          elim (Bool-cases (fits version)) [
            | inr wide ↦ inl (out_of_range, ground (arith, found, live, waiting, e, wide))
            | inl fit ↦ elim (Bool-cases (row.version == version)) [
              | inr raced ↦ inl (cancel_lost, ground (arith, found, live, waiting, e, fit, raced))
              | inl same ↦ inr (
                  inr (
                    row,
                    found,
                    to_wire_injective row.state TimerState.scheduled (ground (arith, waiting)),
                    ground (arith, found, live, waiting, e, fit, same, there),
                  ))
            ]
          ]
    ]
  ]
]

-- Firing reports a version out of range, loses, or takes a claimed timer at the claim's version.
pub mark_fired_cases :
    (c : TimerRow) (txn : KernelTxn)
    → (mark_fired c txn ≡ (err out_of_range, txn))
      ⊎ (mark_fired c txn ≡ (ok false, txn))
      ⊎ ((row : TimerRow) × (get_timer c.timer_id txn ≡ some row)
          × (timer_holds TimerState.claimed c.version row ≡ true)
          × (mark_fired c txn
              ≡ (ok true, (stage_timer_event "TimerFired" c (written fired_patch row txn)).1)))
unfolding mark_fired stage
mark_fired_cases c txn =
    elim (cas_timer_cases c.timer_id TimerState.claimed c.version fired_patch txn) [
      | inl wide ↦ inl (ground (arith, wide))
      | inr (inl lost) ↦ inr (inl (ground (arith, lost)))
      | inr (inr (row, found, holds, done)) ↦ inr (inr (row, found, holds, ground (arith, done)))
    ]

claimed_there :
    (id : ℕ) (owner : String) (epoch : ℕ) (txn txn' : KernelTxn) (row' : TimerRow)
    → claim id owner epoch txn ≡ (ok (some row'), txn')
    → (row'.state ≡ TimerState.claimed) × (get_timer id txn' ≡ some row')
unfolding stage timer_patched
claimed_there id owner epoch txn txn' row' h = elim (claim_cases id owner epoch txn) [
  | inl (e, refused) ↦ absurd (ok_not_err h refused)
  | inr (inl lost) ↦ cc
  | inr (inr (row, found, state, done)) ↦
      let p = claim_patch row owner epoch in
      let is : row' ≡ timer_patched p row = cc (h, done) in
      let after : txn'
          ≡ (stage_timer_event "TimerClaimed" (timer_patched p row) (written p row txn)).1 =
        cc (h, done) in
      (rw is refl, rw (after, is) (get_timer-patched id p txn {row = row} found))
]

taken_refuses :
    (id version : ℕ) (owner : String) (epoch : ℕ) (txn : KernelTxn) (row : TimerRow)
    → row.state ≡ TimerState.claimed
    → get_timer id txn ≡ some row
    → FailsWith failed_precondition (cancel id version txn).0
      × ((cancel id version txn).1 ≡ txn)
      × (claim id owner epoch txn ≡ (ok none, txn))
unfolding cancel claim to_wire
taken_refuses id version owner epoch txn row state found =
    let not_waiting : in_state TimerState.scheduled row ≡ false = rw state refl in
    let not_over : in_state TimerState.cancelled row ≡ false = rw state refl in
    (
      ground (arith, found, not_waiting, not_over),
      ground (arith, found, not_waiting, not_over),
      ground (arith, found, not_waiting),
    )

cancelled_there :
    (id version : ℕ) (txn txn' : KernelTxn) (row' : TimerRow)
    → cancel id version txn ≡ (ok row', txn')
    → (row'.state ≡ TimerState.cancelled) × (get_timer id txn' ≡ some row')
unfolding stage timer_patched
cancelled_there id version txn txn' row' h = elim (cancel_cases id version txn) [
  | inl (e, refused) ↦ absurd (ok_not_err h refused)
  | inr (inl (row, found, state, again)) ↦
      let is : row' ≡ row = cc (h, again) in
      let after : txn' ≡ txn = cc (h, again) in (rw is state, rw (after, is) found)
  | inr (inr (row, found, state, done)) ↦
      let is : row' ≡ timer_patched cancel_patch row = cc (h, done) in
      let after : txn'
          ≡ (stage_timer_event "TimerCancelled" (timer_patched cancel_patch row)
              (written cancel_patch row txn)).1 =
        cc (h, done) in
      (rw is refl, rw (after, is) (get_timer-patched id cancel_patch txn {row = row} found))
]

cancelled_refuses :
    (id version : ℕ) (owner : String) (epoch : ℕ) (txn : KernelTxn) (row : TimerRow)
    → row.state ≡ TimerState.cancelled
    → get_timer id txn ≡ some row
    → (claim id owner epoch txn ≡ (ok none, txn)) × (cancel id version txn ≡ (ok row, txn))
unfolding cancel claim to_wire
cancelled_refuses id version owner epoch txn row state found =
    let not_waiting : in_state TimerState.scheduled row ≡ false = rw state refl in
    let over : in_state TimerState.cancelled row ≡ true = rw state refl in
    (ground (arith, found, not_waiting), ground (arith, found, over))

-- A claim and a cancellation have one winner: once a claim has taken a timer, cancelling it is refused with `FailedPrecondition` and a second claim yields nothing, and neither changes anything.
pub claim_beats_cancel :
    (id version : ℕ) (owner owner' : String) (epoch epoch' : ℕ) (txn txn' : KernelTxn)
    (row' : TimerRow)
    → claim id owner epoch txn ≡ (ok (some row'), txn')
    → FailsWith failed_precondition (cancel id version txn').0
      × ((cancel id version txn').1 ≡ txn')
      × (claim id owner' epoch' txn' ≡ (ok none, txn'))
claim_beats_cancel id version owner owner' epoch epoch' txn txn' row' h =
    let (state, there) = claimed_there id owner epoch txn txn' row' h in
    taken_refuses id version owner' epoch' txn' row' state there

-- Once a cancellation has taken a timer, claiming it yields nothing and changes nothing, and cancelling it again, at any version, returns the stored row.
pub cancel_beats_claim :
    (id version version' : ℕ) (owner : String) (epoch : ℕ) (txn txn' : KernelTxn) (row' : TimerRow)
    → cancel id version txn ≡ (ok row', txn')
    → (claim id owner epoch txn' ≡ (ok none, txn')) × (cancel id version' txn' ≡ (ok row', txn'))
cancel_beats_claim id version version' owner epoch txn txn' row' h =
    let (state, there) = cancelled_there id version txn txn' row' h in
    cancelled_refuses id version' owner epoch txn' row' state there
