-- ===== src/Examples/Reservations.antt =====
-- Resource reservations at concrete inputs.
use ai_harness.Base.{
  if◌then◌else◌, ℕ, ◌≤◌, none, some, String, [], ◌∷◌, ◌≡◌, refl, sym, arith, ◌↔◌, Bool-cases, ◌==◌,
  inl, inr,
}
use ai_harness.Base.Int.{pos}
use ai_harness.Base.Txn.{ok, err, FailsWith, failed_precondition, resource_exhausted}
use ai_harness.Domain.ReservationState.{ReservationState}
use ai_harness.Store.Models.{ReservationRow}
use ai_harness.Store.Kernel.{KernelTxn}
use ai_harness.Store.Reservations.{get_reservation, reservation_patched}
use ai_harness.Resources.Kinds.{ResourceUnit, as_str, from_str, unit_round_trip}
use ai_harness.Resources.Reservations.{
  ReserveRequest, reserve, allocate, release, recover_unknown, to_state, recovered, reused,
  stage_resource_event,
}
use ai_harness.Resources.Delegated.{delegated, IsWithinBudget, IsRooted}
use ai_harness.Resources.History.{nothing, then_step, reserves, allocates, budget_holds}
use ai_harness.Resources.Owners.{stale_owner_refused, reserve_repeats}
use ai_harness.Examples.Data.{kernel}

abbrev tokens_in : ReservationState → ReservationRow
tokens_in state = record {
  reservation_id = 1;
  run_id = 2;
  resource_type = "model_tokens";
  state = state;
  amount = 10;
  unit = "model_tokens";
  fencing_token = 3;
  parent_reservation_id = none;
  created_at_ms = 100;
  updated_at_ms = 100;
}

abbrev with_tokens : ReservationState → KernelTxn
with_tokens state = record kernel { reservations = tokens_in state ∷ [] }

-- Run 3 asks for some of run 2's tokens.
abbrev child_request : ℕ → ReserveRequest
child_request amount = record {
  reservation_id = some 4;
  run_id = 3;
  unit = ResourceUnit.model_tokens;
  amount = pos amount;
  parent = some 1;
  fencing_token = 0;
}

abbrev child_row : ReservationRow
child_row = record {
  reservation_id = 4;
  run_id = 3;
  resource_type = "model_tokens";
  state = ReservationState.reserved;
  amount = 6;
  unit = "model_tokens";
  fencing_token = 0;
  parent_reservation_id = some 1;
  created_at_ms = 200;
  updated_at_ms = 200;
}

abbrev shared : KernelTxn
shared =
    (stage_resource_event "ResourceReserved" child_row
      (record kernel { reservations = tokens_in ReservationState.allocated ∷ child_row ∷ [] })).1

reserves_6 :
    reserve 200 9 (child_request 6) (with_tokens ReservationState.allocated)
    ≡ (ok child_row, shared)
unfolding reserve ai_harness.Base.Table.find ai_harness.Resources.Reservations.check_parent_budget
    ai_harness.Resources.Reservations.is_active ai_harness.Domain.ReservationState.to_wire as_str
    ai_harness.Resources.Reservations.checked_sum ai_harness.Store.Reservations.insert_reservation
    ai_harness.Resources.Reservations.stage_and_fetch stage_resource_event
    ai_harness.Store.Outbox.stage
reserves_6 = refl

-- Of the ten tokens six are taken.
refuses_5 :
    FailsWith resource_exhausted
      (reserve 300 9 (record (child_request 5) { reservation_id = some 5 }) shared).0
unfolding reserve ai_harness.Base.Table.find stage_resource_event ai_harness.Store.Outbox.stage
    ai_harness.Resources.Reservations.check_parent_budget
    ai_harness.Resources.Reservations.is_active ai_harness.Domain.ReservationState.to_wire as_str
    ai_harness.Resources.Reservations.checked_sum
refuses_5 = refl

one_within : IsWithinBudget (with_tokens ReservationState.allocated)
unfolding ai_harness.Base.Table.find delegated ai_harness.Resources.Delegated.counted
one_within id row h = ground (arith, h)

one-IsRooted : IsRooted (with_tokens ReservationState.allocated)
unfolding delegated ai_harness.Resources.Delegated.counted
one-IsRooted id unit h = refl

budget_holds_example : delegated 1 "model_tokens" shared.reservations ≤ 10
unfolding reserve stage_resource_event ai_harness.Base.Table.find ai_harness.Store.Outbox.stage
    ai_harness.Resources.Reservations.check_parent_budget
    ai_harness.Resources.Reservations.is_active ai_harness.Domain.ReservationState.to_wire as_str
    ai_harness.Resources.Reservations.checked_sum ai_harness.Store.Reservations.insert_reservation
    ai_harness.Resources.Reservations.stage_and_fetch
budget_holds_example =
    budget_holds (with_tokens ReservationState.allocated) shared 1
      (tokens_in ReservationState.allocated) one_within one-IsRooted
      (then_step nothing (reserves 200 9 (child_request 6))) refl

abbrev recovered_row : ReservationRow
recovered_row = reservation_patched (recovered 5) (tokens_in ReservationState.unknown)

abbrev recovered_txn : KernelTxn
recovered_txn =
    (stage_resource_event "ResourceAllocated" recovered_row
      (record kernel { reservations = recovered_row ∷ [] })).1

recovers_1 :
    recover_unknown 1 5 (with_tokens ReservationState.unknown) ≡ (ok recovered_row, recovered_txn)
unfolding recover_unknown ai_harness.Base.Table.find ai_harness.Resources.Reservations.advance
    ai_harness.Store.Reservations.cas_reservation ai_harness.Base.Table.update
    ai_harness.Domain.ReservationState.to_wire ai_harness.Resources.Reservations.stage_and_fetch
    ai_harness.Base.Table.put reservation_patched stage_resource_event ai_harness.Store.Outbox.stage
recovers_1 = refl

stale_owner_refused_example :
    FailsWith failed_precondition (allocate 1 3 recovered_txn).0
    × FailsWith failed_precondition (release 1 3 recovered_txn).0
stale_owner_refused_example =
    stale_owner_refused 1 5 (with_tokens ReservationState.unknown) recovered_txn recovered_txn
      recovered_row 3 recovers_1 nothing (omega arith)

-- The reservation was allocated before the request came again.
reserve_repeats_example :
    let again = (allocate 4 (child_request 6).fencing_token shared).1 in
    (get_reservation 4 shared ≡ some child_row)
    × (child_row.fencing_token ≡ (child_request 6).fencing_token)
    × (last : ReservationRow) × (get_reservation 4 again ≡ some last)
    × (child_row.fencing_token ≤ last.fencing_token)
    × (reserve 400 8 (child_request 6) again ≡ (
      if last.fencing_token == (child_request 6).fencing_token then ok last else err reused,
      again,
    ))
reserve_repeats_example =
    reserve_repeats 200 9 400 8 4 (child_request 6) (with_tokens ReservationState.allocated) shared
      _ child_row refl reserves_6 (then_step nothing (allocates 4 (child_request 6).fencing_token))

unit_round_trip_example :
    (from_str "disk_bytes" ≡ ok ResourceUnit.disk_bytes)
    ↔ ("disk_bytes" ≡ as_str ResourceUnit.disk_bytes)
unit_round_trip_example = unit_round_trip "disk_bytes" ResourceUnit.disk_bytes
