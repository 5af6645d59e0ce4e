-- ===== src/Domain/LeaseEnforcementState.antt =====
-- crates/domain/src/resource.rs: whether a lease still holds.
use ai_harness.Base.{ℕ, ◌≡◌, arith}

pub data LeaseEnforcementState : Type 0 where
  active revoked : LeaseEnforcementState

-- The wire integer of a variant. The store's column holds a text for each, so comparing the integers
-- is comparing the columns.
unfoldable pub to_wire : LeaseEnforcementState → ℕ
to_wire LeaseEnforcementState.active = 1
to_wire LeaseEnforcementState.revoked = 2

pub to_wire_injective : (a b : LeaseEnforcementState) → to_wire a ≡ to_wire b → a ≡ b
unfolding to_wire
to_wire_injective a b h = ground arith
