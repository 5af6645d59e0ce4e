-- ===== src/Domain/WorkspaceAccessMode.antt =====
-- crates/domain/src/resource.rs: how a lease may use a workspace.
use ai_harness.Base.{ℕ, ◌≡◌, arith}

pub data WorkspaceAccessMode : Type 0 where
  unspecified read_only exclusive_write isolated_fork shared_coordinated_write : WorkspaceAccessMode

-- The wire integer of a variant, which is also what the store's column holds.
unfoldable pub to_wire : WorkspaceAccessMode → ℕ
to_wire WorkspaceAccessMode.unspecified = 0
to_wire WorkspaceAccessMode.read_only = 1
to_wire WorkspaceAccessMode.exclusive_write = 2
to_wire WorkspaceAccessMode.isolated_fork = 3
to_wire WorkspaceAccessMode.shared_coordinated_write = 4

pub to_wire_injective : (a b : WorkspaceAccessMode) → to_wire a ≡ to_wire b → a ≡ b
unfolding to_wire
to_wire_injective a b h = ground arith
