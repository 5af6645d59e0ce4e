-- ===== src/Workspace/Moves.antt =====
-- What each lease operation of crates/workspace/src/coordinator.rs does on its branches.
use ai_harness.Base.{
  ℕ, saturating_add, true, false, some, String, List, [], ◌∷◌, ◌++◌, ◌≡◌, sym, ◌∙◌, ◌⊎◌, inl, inr,
  arith, Bool-cases, Option-cases,
}
use ai_harness.Base.Table.{put}
use ai_harness.Base.Txn.{ok, err, KernelError, fault, conflict, failed_precondition}
use ai_harness.Domain.WorkspaceAccessMode.{WorkspaceAccessMode}
use ai_harness.Store.Models.{WorkspaceLeaseRow}
use ai_harness.Store.Kernel.{KernelTxn, fits}
use ai_harness.Store.Leases.{
  lease_key, get_lease, lease_row, lease_patched, cas_lease, cas_lease_cases, insert_lease_cases,
  get_lease-patched, is_taken,
}
use ai_harness.Workspace.Leases.{
  acquire_lease, transfer_exclusive, revoke_lease, verify_write_authority, is_authority,
  may_transfer, transfer_patch, revoke_patch, new_lease, is_mediated, is_specified, not_mediated,
  mode_unspecified, no_lease, cannot_transfer,
}

the_some : (a b : WorkspaceLeaseRow) → some a ≡ some b → a ≡ b
the_some a b h = cc

pub acquire_cases :
    (lease_id workspace_id owner : ℕ) (mode : WorkspaceAccessMode) (caps : List String)
    (from : List ℕ) (now : ℕ) (txn : KernelTxn)
    → let new = new_lease lease_id workspace_id owner mode from now in
      ((e : KernelError) × (acquire_lease lease_id workspace_id owner mode caps from now txn
          ≡ (err e, txn)))
      ⊎ ((is_taken (lease_row new) txn ≡ false)
          × (acquire_lease lease_id workspace_id owner mode caps from now txn
              ≡ (ok (lease_row new), record txn { leases = txn.leases ++ lease_row new ∷ [] })))
unfolding acquire_lease
acquire_cases lease_id workspace_id owner mode caps from now txn =
    elim (Bool-cases (is_mediated mode caps)) [
      | inr refused ↦ inl (not_mediated, ground (arith, refused))
      | inl mediated ↦ elim (Bool-cases (is_specified mode)) [
        | inr refused ↦ inl (mode_unspecified, ground (arith, mediated, refused))
        | inl specified ↦
            elim (insert_lease_cases (new_lease lease_id workspace_id owner mode from now) txn) [
              | inl (e, refused) ↦ inl (e, ground (arith, mediated, specified, refused))
              | inr (free, done) ↦ inr (free, ground (arith, mediated, specified, done))
            ]
      ]
    ]

pub transfer_cases :
    (lease_id from to expected_epoch : ℕ) (proof : List ℕ) (txn : KernelTxn)
    → let patch = transfer_patch to expected_epoch proof in
      ((e : KernelError) × (transfer_exclusive lease_id from to expected_epoch proof txn
          ≡ (err e, txn)))
      ⊎ ((row : WorkspaceLeaseRow) × (get_lease lease_id txn ≡ some row)
          × (may_transfer from expected_epoch row ≡ true)
          × (fits (saturating_add expected_epoch 1) ≡ true)
          × (transfer_exclusive lease_id from to expected_epoch proof txn
              ≡ (ok (lease_patched patch row), (cas_lease lease_id expected_epoch patch txn).1))
          × ((cas_lease lease_id expected_epoch patch txn).1
              ≡ record txn { leases = put lease_key (lease_patched patch row) txn.leases }))
unfolding transfer_exclusive
transfer_cases lease_id from to expected_epoch proof txn =
    elim (Option-cases (get_lease lease_id txn)) [
      | inl missing ↦ inl (no_lease, ground (arith, missing))
      | inr (lease, there) ↦ elim (Bool-cases (may_transfer from expected_epoch lease)) [
        | inr refused ↦ inl (cannot_transfer, ground (arith, there, refused))
        | inl may ↦
            elim (cas_lease_cases lease_id expected_epoch (transfer_patch to expected_epoch proof)
              txn) [
                | inl (e, refused) ↦ inl (e, ground (arith, there, may, refused))
                | inr (inl lost) ↦ inl (
                  fault conflict "lease epoch moved during transfer",
                  ground (arith, there, may, lost),
                )
                | inr (inr (row, found, at_epoch, fit, free, done)) ↦
                    let same : row ≡ lease = the_some row lease (sym found ∙ there) in
                    let after =
                      get_lease-patched lease_id (transfer_patch to expected_epoch proof) txn
                        {row = row} found in
                    inr (
                      row,
                      found,
                      rw same may,
                      ground (arith, fit),
                      ground (arith, there, may, done, after),
                      ground (arith, done),
                    )
              ]
      ]
    ]

pub revoke_cases :
    (lease_id expected_epoch : ℕ) (txn : KernelTxn)
    → let patch = revoke_patch expected_epoch in
      ((e : KernelError) × (revoke_lease lease_id expected_epoch txn ≡ (err e, txn)))
      ⊎ ((row : WorkspaceLeaseRow) × (get_lease lease_id txn ≡ some row)
          × (row.lease_epoch ≡ expected_epoch)
          × (fits (saturating_add expected_epoch 1) ≡ true)
          × (revoke_lease lease_id expected_epoch txn
              ≡ (ok tt, (cas_lease lease_id expected_epoch patch txn).1))
          × ((cas_lease lease_id expected_epoch patch txn).1
              ≡ record txn { leases = put lease_key (lease_patched patch row) txn.leases }))
unfolding revoke_lease
revoke_cases lease_id expected_epoch txn =
    elim (cas_lease_cases lease_id expected_epoch (revoke_patch expected_epoch) txn) [
      | inl (e, refused) ↦ inl (e, ground (arith, refused))
      | inr (inl lost) ↦
          inl (fault failed_precondition "lease epoch moved during revoke", ground (arith, lost))
      | inr (inr (row, found, at_epoch, fit, free, done)) ↦
          inr
            (row, found, at_epoch, ground (arith, fit), ground (arith, done), ground (arith, done))
    ]

pub verify_found :
    (lease_id workspace_id owner epoch : ℕ) (txn : KernelTxn)
    → verify_write_authority lease_id workspace_id owner epoch txn ≡ (ok tt, txn)
    → (row : WorkspaceLeaseRow) × (get_lease lease_id txn ≡ some row)
      × (is_authority workspace_id owner epoch row ≡ true)
unfolding verify_write_authority
verify_found lease_id workspace_id owner epoch txn h =
    elim (Option-cases (get_lease lease_id txn)) [
      | inl missing ↦ ground (arith, h, missing)
      | inr (row, found) ↦ elim (Bool-cases (is_authority workspace_id owner epoch row)) [
        | inl passes ↦ (row, found, passes)
        | inr refused ↦ ground (arith, h, found, refused)
      ]
    ]
