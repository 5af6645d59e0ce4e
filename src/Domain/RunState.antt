-- ===== src/Domain/RunState.antt =====
-- crates/domain/src/run.rs: the lifecycle states of a run.
use ai_harness.Base.{ℕ, ◌≡◌, arith, Bool, true, false, Option, none, some, if◌then◌else◌}
use ai_harness.Base.Int.{ℤ, is_lit}
use ai_harness.Domain.Wire.{Decoded, known, unknown}

pub data RunState : Type 0 where
  unspecified created ready running waiting_tool waiting_child waiting_human suspended cancelling
        completed failed cancelled :
      RunState

-- The wire integer of a variant, which is also what the store's column holds.
unfoldable pub to_wire : RunState → ℕ
to_wire RunState.unspecified = 0
to_wire RunState.created = 1
to_wire RunState.ready = 2
to_wire RunState.running = 3
to_wire RunState.waiting_tool = 4
to_wire RunState.waiting_child = 5
to_wire RunState.waiting_human = 6
to_wire RunState.suspended = 7
to_wire RunState.cancelling = 8
to_wire RunState.completed = 9
to_wire RunState.failed = 10
to_wire RunState.cancelled = 11

-- A value with no variant is an error, never a default.
unfoldable pub from_wire : ℤ → Decoded RunState
from_wire value =
    if is_lit value 0
    then known RunState.unspecified
    else if is_lit value 1
    then known RunState.created
    else if is_lit value 2
    then known RunState.ready
    else if is_lit value 3
    then known RunState.running
    else if is_lit value 4
    then known RunState.waiting_tool
    else if is_lit value 5
    then known RunState.waiting_child
    else if is_lit value 6
    then known RunState.waiting_human
    else if is_lit value 7
    then known RunState.suspended
    else if is_lit value 8
    then known RunState.cancelling
    else if is_lit value 9
    then known RunState.completed
    else if is_lit value 10
    then known RunState.failed
    else if is_lit value 11
    then known RunState.cancelled
    else unknown (record { value = value; enum_name = "RunState" })

pub to_wire_injective : (a b : RunState) → to_wire a ≡ to_wire b → a ≡ b
unfolding to_wire
to_wire_injective a b h = ground arith

-- `Completed`, `Failed` and `Cancelled` absorb.
unfoldable pub is_terminal : RunState → Bool
is_terminal completed = true
is_terminal failed = true
is_terminal cancelled = true
is_terminal _ = false

-- Where a cancellation request moves a run.
unfoldable pub cancellation_target : RunState → Option RunState
cancellation_target created = some cancelled
cancellation_target ready = some cancelled
cancellation_target running = some cancelling
cancellation_target waiting_tool = some cancelling
cancellation_target waiting_child = some cancelling
cancellation_target waiting_human = some cancelling
cancellation_target suspended = some cancelling
cancellation_target unspecified = none
cancellation_target cancelling = none
cancellation_target completed = none
cancellation_target failed = none
cancellation_target cancelled = none
