-- ===== src/Workspace/History.antt =====
-- Sequences of the lease operations of crates/workspace/src/coordinator.rs, and the tokens that they make
-- stale.
use ai_harness.Base.{
  ℕ, ◌+◌, ◌≤◌, true, false, some, String, List, ◌≡◌, refl, sym, ap, ◌∙◌, subst, inl, inr, arith,
}
use ai_harness.Base.Table.{put, key-find}
use ai_harness.Base.Evolves.{Evolves, Evolves-refl, Evolves-append, Evolves-put, Evolves-trans}
use ai_harness.Base.Txn.{ok, FailsWith, failed_precondition, ok_not_err}
use ai_harness.Domain.WorkspaceAccessMode.{WorkspaceAccessMode}
use ai_harness.Domain.LeaseEnforcementState.{LeaseEnforcementState}
use ai_harness.Store.Models.{WorkspaceLeaseRow, LeasePatch}
use ai_harness.Store.Kernel.{KernelTxn}
use ai_harness.Store.Leases.{lease_key, get_lease, lease_row, lease_patched, get_lease-patched}
use ai_harness.Workspace.Leases.{
  acquire_lease, transfer_exclusive, revoke_lease, verify_write_authority, is_authority,
  transfer_patch, revoke_patch, new_lease,
}
use ai_harness.Workspace.Moves.{acquire_cases, transfer_cases, revoke_cases}
use ai_harness.Workspace.Exclusive.{
  HasOneWriter, acquire-HasOneWriter, transfer-HasOneWriter, revoke-HasOneWriter,
}

-- One operation on leases, whatever it returns.
pub data Step (txn : KernelTxn) : KernelTxn → Type 0 where
  acquires :
      (lease_id workspace_id owner : ℕ) (mode : WorkspaceAccessMode) (caps : List String)
      (from : List ℕ) (now : ℕ)
      → Step txn (acquire_lease lease_id workspace_id owner mode caps from now txn).1
  transfers :
      (lease_id from to expected_epoch : ℕ) (proof : List ℕ)
      → Step txn (transfer_exclusive lease_id from to expected_epoch proof txn).1
  revokes : (lease_id expected_epoch : ℕ) → Step txn (revoke_lease lease_id expected_epoch txn).1

pub data History (a : KernelTxn) : KernelTxn → Type 0 where
  nothing : History a a
  then_step : {b c : KernelTxn} → History a b → Step b c → History a c

-- A row that came of another by operations.
abbrev Succeeds : WorkspaceLeaseRow → WorkspaceLeaseRow → Type 0
Succeeds row row' =
    (row.lease_epoch ≤ row'.lease_epoch)
    × (row.enforcement_state ≡ LeaseEnforcementState.revoked
        → row'.enforcement_state ≡ LeaseEnforcementState.revoked)

abbrev Advances : KernelTxn → KernelTxn → Type 0
Advances a b = Evolves lease_key Succeeds a.leases b.leases

Succeeds-refl : (row : WorkspaceLeaseRow) → Succeeds row row
Succeeds-refl row = (omega arith, λ h. h)

Succeeds-trans : (a b c : WorkspaceLeaseRow) → Succeeds a b → Succeeds b c → Succeeds a c
Succeeds-trans a b c f g = (omega (arith, f.0, g.0), λ h. g.1 (f.1 h))

written-Advances :
    (k : ℕ) (patch : LeasePatch) (row : WorkspaceLeaseRow) (txn : KernelTxn)
    → get_lease k txn ≡ some row
    → Succeeds row (lease_patched patch row)
    → Advances txn (record txn { leases = put lease_key (lease_patched patch row) txn.leases })
unfolding lease_patched
written-Advances k patch row txn found next =
    Evolves-put lease_key Succeeds Succeeds-refl k (lease_patched patch row) txn.leases {x = row}
      found (key-find lease_key k txn.leases {x = row} found) next

Step-Advances : {a b : KernelTxn} → Step a b → Advances a b
unfolding lease_patched
Step-Advances {a} (acquires lease_id workspace_id owner mode caps from now) =
    elim (acquire_cases lease_id workspace_id owner mode caps from now a) [
      | inl (e, refused) ↦
          subst (λ r. Advances a r.1) (sym refused)
            (Evolves-refl lease_key Succeeds Succeeds-refl a.leases)
      | inr (free, done) ↦
          subst (λ r. Advances a r.1) (sym done)
            (Evolves-append lease_key Succeeds Succeeds-refl a.leases
              (lease_row (new_lease lease_id workspace_id owner mode from now)))
    ]
Step-Advances {a} (transfers lease_id from to expected_epoch proof) =
    elim (transfer_cases lease_id from to expected_epoch proof a) [
      | inl (e, refused) ↦
          subst (λ r. Advances a r.1) (sym refused)
            (Evolves-refl lease_key Succeeds Succeeds-refl a.leases)
      | inr (row, found, may, fit, done, after) ↦
          let patch = transfer_patch to expected_epoch proof in
          subst (λ r. Advances a r.1) (sym done)
            (subst (Advances a) (sym after)
              (written-Advances lease_id patch row a found (ground (arith, may, fit), λ h. h)))
    ]
Step-Advances {a} (revokes lease_id expected_epoch) =
    elim (revoke_cases lease_id expected_epoch a) [
      | inl (e, refused) ↦
          subst (λ r. Advances a r.1) (sym refused)
            (Evolves-refl lease_key Succeeds Succeeds-refl a.leases)
      | inr (row, found, at_epoch, fit, done, after) ↦
          let patch = revoke_patch expected_epoch in
          subst (λ r. Advances a r.1) (sym done)
            (subst (Advances a) (sym after) (
              written-Advances lease_id patch row a found
                (ground (arith, at_epoch, fit), λ h. refl)))
    ]

History-Advances : {a b : KernelTxn} → History a b → Advances a b
History-Advances {a} nothing = Evolves-refl lease_key Succeeds Succeeds-refl a.leases
History-Advances {a} {b = c} (then_step {b = b} h s) =
    Evolves-trans lease_key Succeeds a.leases b.leases c.leases Succeeds-trans (History-Advances h)
      (Step-Advances s)

-- No operation on leases breaks the keys of the table: from a table that has at most one active exclusive lease of each workspace, every sequence of acquisitions, transfers and revocations leads to one that has.
pub one_writer : (a b : KernelTxn) → HasOneWriter a → History a b → HasOneWriter b
one_writer a b keys nothing = keys
one_writer a c keys (then_step {b} h (acquires lease_id workspace_id owner mode caps from now)) =
    acquire-HasOneWriter lease_id workspace_id owner mode caps from now b (one_writer a b keys h)
one_writer a c keys (then_step {b} h (transfers lease_id from to expected_epoch proof)) =
    transfer-HasOneWriter lease_id from to expected_epoch proof b (one_writer a b keys h)
one_writer a c keys (then_step {b} h (revokes lease_id expected_epoch)) =
    revoke-HasOneWriter lease_id expected_epoch b (one_writer a b keys h)

-- What refuses a token.
refused :
    (lease_id workspace_id owner epoch : ℕ) (txn : KernelTxn) (row : WorkspaceLeaseRow)
    → get_lease lease_id txn ≡ some row
    → is_authority workspace_id owner epoch row ≡ false
    → FailsWith failed_precondition (verify_write_authority lease_id workspace_id owner epoch txn).0
unfolding verify_write_authority
refused lease_id workspace_id owner epoch txn row found no_match = ground (arith, found, no_match)

-- What a transfer leaves behind.
transferred :
    (lease_id from to expected_epoch : ℕ) (proof : List ℕ) (txn txn1 : KernelTxn)
    (row : WorkspaceLeaseRow)
    → transfer_exclusive lease_id from to expected_epoch proof txn ≡ (ok row, txn1)
    → (get_lease lease_id txn1 ≡ some row)
      × (row.lease_epoch ≡ expected_epoch + 1)
      × (is_authority row.workspace_id to (expected_epoch + 1) row ≡ true)
unfolding lease_patched
transferred lease_id from to expected_epoch proof txn txn1 row h =
    elim (transfer_cases lease_id from to expected_epoch proof txn) [
      | inl (e, failed) ↦ absurd (ok_not_err h failed)
      | inr (old, found, may, fit, done, after) ↦
          let patch = transfer_patch to expected_epoch proof in
          let there = get_lease-patched lease_id patch txn {row = old} found in
          let written : lease_patched patch old ≡ row = ground (arith, h, done) in
          let state : txn1
              ≡ record txn { leases = put lease_key (lease_patched patch old) txn.leases } =
            ap (λ r. r.1) (sym h ∙ done) ∙ after in
          (
            rw state (there ∙ ap some written),
            sym (ap (λ r. r.lease_epoch) written) ∙ ground (arith, fit),
            subst (λ r. is_authority r.workspace_id to (expected_epoch + 1) r ≡ true) written
                (ground (arith, may, fit)),
          )
    ]

-- Once a transfer of a lease has succeeded, the new owner holds the write authority of its workspace, at the epoch after the expected one.
pub transfer_hands_over :
    (lease_id from to expected_epoch : ℕ) (proof : List ℕ) (txn txn1 : KernelTxn)
    (row : WorkspaceLeaseRow)
    → transfer_exclusive lease_id from to expected_epoch proof txn ≡ (ok row, txn1)
    → verify_write_authority lease_id row.workspace_id to (expected_epoch + 1) txn1 ≡ (ok tt, txn1)
unfolding verify_write_authority
transfer_hands_over lease_id from to expected_epoch proof txn txn1 row h =
    let (there, epoch, passes) = transferred lease_id from to expected_epoch proof txn txn1 row h in
    ground (arith, there, passes)

-- Once a transfer of a lease has succeeded, and after any operations since, every token of the lease from the expected epoch or before is refused with `FailedPrecondition`, whoever presents it.
pub stale_token_refused :
    (lease_id from to expected_epoch : ℕ) (proof : List ℕ) (txn txn1 txn2 : KernelTxn)
    (row : WorkspaceLeaseRow) (workspace_id owner epoch : ℕ)
    → transfer_exclusive lease_id from to expected_epoch proof txn ≡ (ok row, txn1)
    → History txn1 txn2
    → epoch ≤ expected_epoch
    → FailsWith failed_precondition
        (verify_write_authority lease_id workspace_id owner epoch txn2).0
stale_token_refused lease_id from to expected_epoch proof txn txn1 txn2 row workspace_id owner epoch
      h later old =
    let (there, at, passes) = transferred lease_id from to expected_epoch proof txn txn1 row h in
    let (row2, there2, (above, keeps)) = History-Advances later lease_id row there in
    refused lease_id workspace_id owner epoch txn2 row2 there2 (ground (arith, at, above, old))

no_authority :
    (workspace_id owner epoch : ℕ) (row : WorkspaceLeaseRow)
    → row.enforcement_state ≡ LeaseEnforcementState.revoked
    → is_authority workspace_id owner epoch row ≡ false
unfolding ai_harness.Domain.LeaseEnforcementState.to_wire
no_authority workspace_id owner epoch row off = ground (arith, off)

-- Once a lease was revoked, and after any operations since, no token of it passes: whatever its epoch and owner, it is refused with `FailedPrecondition`.
pub revoked_for_good :
    (lease_id expected_epoch : ℕ) (txn txn1 txn2 : KernelTxn) (workspace_id owner epoch : ℕ)
    → revoke_lease lease_id expected_epoch txn ≡ (ok tt, txn1)
    → History txn1 txn2
    → FailsWith failed_precondition
        (verify_write_authority lease_id workspace_id owner epoch txn2).0
unfolding lease_patched
revoked_for_good lease_id expected_epoch txn txn1 txn2 workspace_id owner epoch h later =
    elim (revoke_cases lease_id expected_epoch txn) [
      | inl (e, failed) ↦ absurd (ok_not_err h failed)
      | inr (old, found, at_epoch, fit, done, after) ↦
          let patch = revoke_patch expected_epoch in
          let there = get_lease-patched lease_id patch txn {row = old} found in
          let state : txn1
              ≡ record txn { leases = put lease_key (lease_patched patch old) txn.leases } =
            ap (λ r. r.1) (sym h ∙ done) ∙ after in
          let (row2, there2, (above, keeps)) =
            History-Advances later lease_id (lease_patched patch old) (rw state there) in
          let off = keeps refl in
          refused lease_id workspace_id owner epoch txn2 row2 there2
            (no_authority workspace_id owner epoch row2 off)
    ]
