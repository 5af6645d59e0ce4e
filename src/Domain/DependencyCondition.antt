-- ===== src/Domain/DependencyCondition.antt =====
-- crates/domain/src/resource.rs: when a run dependency is satisfied.
use ai_harness.Base.{ℕ, ◌≡◌, arith}

pub data DependencyCondition : Type 0 where
  unspecified completed_successfully any_terminal completed_or_cancelled : DependencyCondition

-- The wire integer of a variant. The store's column holds a text for each, so comparing the integers
-- is comparing the columns.
unfoldable pub to_wire : DependencyCondition → ℕ
to_wire DependencyCondition.unspecified = 0
to_wire DependencyCondition.completed_successfully = 1
to_wire DependencyCondition.any_terminal = 2
to_wire DependencyCondition.completed_or_cancelled = 3

pub to_wire_injective : (a b : DependencyCondition) → to_wire a ≡ to_wire b → a ≡ b
unfolding to_wire
to_wire_injective a b h = ground arith
