-- ===== src/Domain/TimerState.antt =====
-- crates/domain/src/resource.rs: the lifecycle of a timer.
use ai_harness.Base.{ℕ, ◌≡◌, arith}

pub data TimerState : Type 0 where
  scheduled claimed fired cancelled : TimerState

-- The wire integer of a variant. The store's column holds a text for each, so comparing the integers
-- is comparing the columns.
unfoldable pub to_wire : TimerState → ℕ
to_wire TimerState.scheduled = 1
to_wire TimerState.claimed = 2
to_wire TimerState.fired = 3
to_wire TimerState.cancelled = 4

pub to_wire_injective : (a b : TimerState) → to_wire a ≡ to_wire b → a ≡ b
unfolding to_wire
to_wire_injective a b h = ground arith
