-- ===== src/Examples/Leases.antt =====
-- Workspace leases at concrete inputs.
use ai_harness.Base.{◌↔◌, ℕ, some, [], ◌∷◌, ◌≡◌, refl, arith}
use ai_harness.Base.Txn.{ok, FailsWith, failed_precondition}
use ai_harness.Domain.WorkspaceAccessMode.{WorkspaceAccessMode}
use ai_harness.Store.Models.{WorkspaceLeaseRow}
use ai_harness.Store.Kernel.{KernelTxn}
use ai_harness.Store.Leases.{lease_row, lease_patched}
use ai_harness.Workspace.Leases.{
  acquire_lease, transfer_exclusive, revoke_lease, verify_write_authority, new_lease,
  transfer_patch, revoke_patch,
}
use ai_harness.Workspace.Exclusive.{HasOneWriter}
use ai_harness.Workspace.Lock.{LockStep, lock}
use ai_harness.Workspace.Refinement.{leases_refine_lock, gate_reads_lock}
use ai_harness.Workspace.History.{
  nothing, then_step, transfers, acquires, one_writer, stale_token_refused, revoked_for_good,
}
use ai_harness.Examples.Data.{kernel}

-- Run 2 holds workspace 9 by lease 1.
abbrev held_lease : WorkspaceLeaseRow
held_lease = lease_row (new_lease 1 9 2 WorkspaceAccessMode.exclusive_write [] 100)

abbrev held : KernelTxn
held = record kernel { leases = held_lease ∷ [] }

-- Lease 1 in the hands of run 3, and revoked.
abbrev handed_lease : WorkspaceLeaseRow
handed_lease = lease_patched (transfer_patch 3 1 (8 ∷ [])) held_lease

abbrev handed : KernelTxn
handed = record kernel { leases = handed_lease ∷ [] }

abbrev revoked_txn : KernelTxn
revoked_txn = record kernel { leases = lease_patched (revoke_patch 1) held_lease ∷ [] }

acquires_9 :
    acquire_lease 1 9 2 WorkspaceAccessMode.exclusive_write [] [] 100 kernel ≡ (ok held_lease, held)
unfolding acquire_lease ai_harness.Domain.WorkspaceAccessMode.to_wire
    ai_harness.Store.Leases.insert_lease
acquires_9 = refl

holds_9 : verify_write_authority 1 9 2 1 held ≡ (ok tt, held)
unfolding verify_write_authority ai_harness.Base.Table.find
    ai_harness.Domain.LeaseEnforcementState.to_wire ai_harness.Domain.WorkspaceAccessMode.to_wire
holds_9 = refl

hands_on : transfer_exclusive 1 2 3 1 (8 ∷ []) held ≡ (ok handed_lease, handed)
unfolding transfer_exclusive ai_harness.Base.Table.find
    ai_harness.Domain.WorkspaceAccessMode.to_wire ai_harness.Domain.LeaseEnforcementState.to_wire
    ai_harness.Store.Leases.cas_lease lease_patched ai_harness.Base.Table.put
hands_on = refl

revokes_1 : revoke_lease 1 1 held ≡ (ok tt, revoked_txn)
unfolding revoke_lease ai_harness.Store.Leases.cas_lease ai_harness.Base.Table.find lease_patched
    ai_harness.Base.Table.put
revokes_1 = refl

one_writer_example :
    HasOneWriter
      (acquire_lease 4 9 5 WorkspaceAccessMode.exclusive_write [] [] 200
        (transfer_exclusive 1 2 3 1 (8 ∷ []) held).1).1
one_writer_example =
    one_writer held _ (tt, tt)
      (then_step (then_step nothing (transfers 1 2 3 1 (8 ∷ [])))
        (acquires 4 9 5 WorkspaceAccessMode.exclusive_write [] [] 200))

stale_token_refused_example :
    FailsWith failed_precondition
      (verify_write_authority 1 9 2 1 (transfer_exclusive 1 3 2 2 [] handed).1).0
stale_token_refused_example =
    stale_token_refused 1 2 3 1 (8 ∷ []) held handed _ handed_lease 9 2 1 hands_on
      (then_step nothing (transfers 1 3 2 2 [])) (omega arith)

revoked_for_good_example :
    FailsWith failed_precondition
      (verify_write_authority 1 9 2 2
        (acquire_lease 4 9 5 WorkspaceAccessMode.exclusive_write [] [] 200 revoked_txn).1).0
revoked_for_good_example =
    revoked_for_good 1 1 held revoked_txn _ 9 2 2 revokes_1
      (then_step nothing (acquires 4 9 5 WorkspaceAccessMode.exclusive_write [] [] 200))

leases_refine_lock_example :
    LockStep (lock 9 held.leases) (lock 9 (transfer_exclusive 1 2 3 1 (8 ∷ []) held).1.leases)
leases_refine_lock_example = leases_refine_lock 9 held _ (tt, tt) (transfers 1 2 3 1 (8 ∷ []))

gate_reads_lock_example :
    (verify_write_authority 1 9 2 1 held ≡ (ok tt, held))
    ↔ (lock 9 held.leases ≡ some record { lease = 1; owner = 2; epoch = 1 })
gate_reads_lock_example = gate_reads_lock 1 9 2 1 held (tt, tt)
