-- ===== src/Domain/ReservationState.antt =====
-- crates/domain/src/resource.rs: the lifecycle of a resource reservation.
use ai_harness.Base.{ℕ, ◌≡◌, arith}

pub data ReservationState : Type 0 where
  reserved allocated released expired unknown : ReservationState

-- The wire integer of a variant. The store's column holds a text for each, so comparing the integers
-- is comparing the columns.
unfoldable pub to_wire : ReservationState → ℕ
to_wire ReservationState.reserved = 1
to_wire ReservationState.allocated = 2
to_wire ReservationState.released = 3
to_wire ReservationState.expired = 4
to_wire ReservationState.unknown = 5

pub to_wire_injective : (a b : ReservationState) → to_wire a ≡ to_wire b → a ≡ b
unfolding to_wire
to_wire_injective a b h = ground arith
