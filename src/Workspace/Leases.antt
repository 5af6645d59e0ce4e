-- ===== src/Workspace/Leases.antt =====
-- The lease half of crates/workspace/src/coordinator.rs: write authority over a workspace is a row
-- that is handed on and revoked through its epoch.
use ai_harness.Base.{
  ℕ, saturating_add, Bool, ◌&&◌, not, none, some, String, List, [], ◌∷◌, ◌==◌, any, all,
}
use text.Mathlib.Text.{◌==◌ as str_eq}
use ai_harness.Base.Txn.{
  Txn, KernelError, fault, pure, require, or_fail, invalid_argument, not_found, conflict,
  failed_precondition, internal, ◌>>=◌, ◌>>◌,
}
use ai_harness.Domain.WorkspaceAccessMode as Mode
use ai_harness.Domain.WorkspaceAccessMode.{WorkspaceAccessMode}
use ai_harness.Domain.LeaseEnforcementState.{LeaseEnforcementState}
use ai_harness.Store.Models.{WorkspaceLeaseRow, NewWorkspaceLease, LeasePatch}
use ai_harness.Store.Kernel.{KernelTxn}
use ai_harness.Store.Leases.{get_lease, has_mode, is_active, insert_lease, lease_row, cas_lease}

-- `shared_write_caps`.
abbrev pub shared_write_caps : List String
shared_write_caps =
    "workspace.locking" ∷ "workspace.versioned_write" ∷ "workspace.conflict_report" ∷ []

abbrev pub supports_shared_write : List String → Bool
supports_shared_write adapter_capabilities =
    all (λ cap. any (λ c. str_eq c cap) adapter_capabilities) shared_write_caps

abbrev pub is_mode : WorkspaceAccessMode → WorkspaceAccessMode → Bool
is_mode a b = Mode.to_wire a == Mode.to_wire b

-- The conditions under which a lease of a mode may be acquired.
abbrev pub is_mediated : WorkspaceAccessMode → List String → Bool
is_mediated mode adapter_capabilities = not (
    is_mode mode WorkspaceAccessMode.shared_coordinated_write
    && not (supports_shared_write adapter_capabilities))

abbrev pub is_specified : WorkspaceAccessMode → Bool
is_specified mode = not (is_mode mode WorkspaceAccessMode.unspecified)

abbrev pub not_mediated : KernelError
not_mediated =
    fault failed_precondition
      "SHARED_COORDINATED_WRITE requires an adapter with locking, versioned-write, and conflict-report capabilities"

abbrev pub mode_unspecified : KernelError
mode_unspecified = fault invalid_argument "workspace access mode unspecified"

abbrev pub new_lease : ℕ → ℕ → ℕ → WorkspaceAccessMode → List ℕ → ℕ → NewWorkspaceLease
new_lease lease_id workspace_id owner mode delegated_from now_ms = record {
  lease_id = lease_id;
  workspace_id = workspace_id;
  owner_run_id = owner;
  mode = mode;
  lease_epoch = 1;
  enforcement_state = LeaseEnforcementState.active;
  delegated_from = delegated_from;
  created_at_ms = now_ms;
}

-- The lease's identifier is the one that the provider mints.
unfoldable pub acquire_lease :
    ℕ → ℕ → ℕ → WorkspaceAccessMode → List String → List ℕ → ℕ → Txn KernelTxn WorkspaceLeaseRow
acquire_lease lease_id workspace_id owner mode adapter_capabilities delegated_from now_ms = do
  require (is_mediated mode adapter_capabilities) not_mediated
  require (is_specified mode) mode_unspecified
  insert_lease (new_lease lease_id workspace_id owner mode delegated_from now_ms)
  pure (lease_row (new_lease lease_id workspace_id owner mode delegated_from now_ms))

abbrev pub load_lease : ℕ → KernelError → Txn KernelTxn WorkspaceLeaseRow
load_lease lease_id missing txn = or_fail (get_lease lease_id txn) missing txn

abbrev pub no_lease : KernelError
no_lease = fault not_found "lease not found"

abbrev pub may_transfer : ℕ → ℕ → WorkspaceLeaseRow → Bool
may_transfer from expected_epoch lease =
    has_mode WorkspaceAccessMode.exclusive_write lease
    && (is_active lease && (lease.owner_run_id == from && lease.lease_epoch == expected_epoch))

abbrev pub transfer_patch : ℕ → ℕ → List ℕ → LeasePatch
transfer_patch to expected_epoch delegation_proof = record {
  enforcement_state = none;
  owner_run_id = some to;
  mode = none;
  delegated_from = some delegation_proof;
  lease_epoch = some (saturating_add expected_epoch 1);
}

abbrev pub cannot_transfer : KernelError
cannot_transfer =
    fault failed_precondition
      "lease is not an active exclusive lease owned by the transferring run at the expected epoch"

abbrev pub vanished : KernelError
vanished = fault internal "lease vanished mid-transfer"

unfoldable pub transfer_exclusive : ℕ → ℕ → ℕ → ℕ → List ℕ → Txn KernelTxn WorkspaceLeaseRow
transfer_exclusive lease_id from to expected_epoch delegation_proof = do
  lease ← load_lease lease_id no_lease
  require (may_transfer from expected_epoch lease) cannot_transfer
  moved ← cas_lease lease_id expected_epoch (transfer_patch to expected_epoch delegation_proof)
  require moved (fault conflict "lease epoch moved during transfer")
  load_lease lease_id vanished

abbrev pub revoke_patch : ℕ → LeasePatch
revoke_patch expected_epoch = record {
  enforcement_state = some LeaseEnforcementState.revoked;
  owner_run_id = none;
  mode = none;
  delegated_from = none;
  lease_epoch = some (saturating_add expected_epoch 1);
}

unfoldable pub revoke_lease : ℕ → ℕ → Txn KernelTxn (Unit {0})
revoke_lease lease_id expected_epoch = do
  moved ← cas_lease lease_id expected_epoch (revoke_patch expected_epoch)
  require moved (fault failed_precondition "lease epoch moved during revoke")

abbrev pub is_authority : ℕ → ℕ → ℕ → WorkspaceLeaseRow → Bool
is_authority workspace_id owner epoch lease =
    lease.workspace_id == workspace_id
    && (lease.owner_run_id == owner
        && (lease.lease_epoch == epoch
            && (is_active lease && has_mode WorkspaceAccessMode.exclusive_write lease)))

unfoldable pub verify_write_authority : ℕ → ℕ → ℕ → ℕ → Txn KernelTxn (Unit {0})
verify_write_authority lease_id workspace_id owner epoch = do
  lease ← load_lease lease_id no_lease
  require (is_authority workspace_id owner epoch lease)
      (fault failed_precondition "stale or non-exclusive lease token")
