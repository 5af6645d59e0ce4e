-- ===== src/Store/Leases.antt =====
-- crates/kernel-store-sqlite/src/repos/workspace_leases.rs, with the keys of the table in
-- schema/kernel_store.sql: workspace leases and their compare-and-set on the epoch.
use ai_harness.Base.{
  ℕ, Bool, true, false, ◌&&◌, ◌||◌, not, Option, none, some, [], ◌∷◌, ◌++◌, ◌==◌, coalesce,
  if◌then◌else◌, any, ◌≡◌, ◌⊎◌, inl, inr, Bool-cases, Option-cases, arith,
}
use ai_harness.Base.Table.{find, put, find-put, key-find}
use ai_harness.Base.Txn.{
  Result, Txn, ok, err, KernelError, fault, conflict, failed_precondition, require, ◌>>◌,
}
use ai_harness.Domain.WorkspaceAccessMode as Mode
use ai_harness.Domain.WorkspaceAccessMode.{WorkspaceAccessMode}
use ai_harness.Domain.LeaseEnforcementState as Enforcement
use ai_harness.Domain.LeaseEnforcementState.{LeaseEnforcementState}
use ai_harness.Store.Models.{WorkspaceLeaseRow, NewWorkspaceLease, LeasePatch}
use ai_harness.Store.Kernel.{KernelTxn, fits, fits?, encode, out_of_range}

abbrev pub lease_key : WorkspaceLeaseRow → ℕ
lease_key row = row.lease_id

abbrev pub get_lease : ℕ → KernelTxn → Option WorkspaceLeaseRow
get_lease id txn = find lease_key id txn.leases

abbrev pub has_mode : WorkspaceAccessMode → WorkspaceLeaseRow → Bool
has_mode mode row = Mode.to_wire row.mode == Mode.to_wire mode

abbrev pub is_active : WorkspaceLeaseRow → Bool
is_active row =
    Enforcement.to_wire row.enforcement_state == Enforcement.to_wire LeaseEnforcementState.active

-- The rows of the partial unique index: `mode = 2 AND enforcement_state = 'active'`.
unfoldable pub is_exclusive : WorkspaceLeaseRow → Bool
is_exclusive row = has_mode WorkspaceAccessMode.exclusive_write row && is_active row

-- Two rows that `uq_workspace_exclusive_lease` does not let stand together.
unfoldable pub clashes : WorkspaceLeaseRow → WorkspaceLeaseRow → Bool
clashes a b = is_exclusive a && (is_exclusive b && a.workspace_id == b.workspace_id)

abbrev pub lease_row : NewWorkspaceLease → WorkspaceLeaseRow
lease_row new = record {
  lease_id = new.lease_id;
  workspace_id = new.workspace_id;
  owner_run_id = new.owner_run_id;
  mode = new.mode;
  lease_epoch = new.lease_epoch;
  enforcement_state = new.enforcement_state;
  delegated_from = new.delegated_from;
  created_at_ms = new.created_at_ms;
  updated_at_ms = new.created_at_ms;
}

abbrev pub constraint_conflict : KernelError
constraint_conflict = fault conflict "storage constraint conflict"

-- `CHECK (mode BETWEEN 1 AND 4)`.
abbrev pub mode_check : WorkspaceAccessMode → Txn KernelTxn (Unit {0})
mode_check mode =
    require (not (Mode.to_wire mode == Mode.to_wire WorkspaceAccessMode.unspecified))
      (fault failed_precondition "storage constraint rejected the write")

-- A row whose identifier or index entry is taken.
abbrev pub is_taken : WorkspaceLeaseRow → KernelTxn → Bool
is_taken row txn = any (λ r. r.lease_id == row.lease_id || clashes row r) txn.leases

unfoldable pub insert_lease : NewWorkspaceLease → Txn KernelTxn (Unit {0})
insert_lease lease = do
  encode (fits lease.lease_epoch)
  mode_check lease.mode
  λ txn.
      if is_taken (lease_row lease) txn
      then (err constraint_conflict, txn)
      else (ok tt, record txn { leases = txn.leases ++ lease_row lease ∷ [] })

unfoldable pub lease_patched : LeasePatch → WorkspaceLeaseRow → WorkspaceLeaseRow
lease_patched p row = record row {
  enforcement_state = coalesce p.enforcement_state row.enforcement_state;
  owner_run_id = coalesce p.owner_run_id row.owner_run_id;
  mode = coalesce p.mode row.mode;
  delegated_from = coalesce p.delegated_from row.delegated_from;
  lease_epoch = coalesce p.lease_epoch row.lease_epoch;
}

-- The index entry of a row that is to be written is that of another row.
abbrev pub index_refuses : WorkspaceLeaseRow → KernelTxn → Bool
index_refuses row txn = any (λ r. not (r.lease_id == row.lease_id) && clashes row r) txn.leases

-- The statement on the row of this identifier, where there is one.
abbrev pub update_lease :
    ℕ → LeasePatch → KernelTxn → Option WorkspaceLeaseRow → Result Bool × KernelTxn
update_lease expect_epoch patch txn none = (ok false, txn)
update_lease expect_epoch patch txn (some row) =
    if row.lease_epoch == expect_epoch
    then if index_refuses (lease_patched patch row) txn
      then (err constraint_conflict, txn)
      else (ok true, record txn { leases = put lease_key (lease_patched patch row) txn.leases })
    else (ok false, txn)

-- `UPDATE workspace_leases SET … WHERE lease_id = ?6 AND lease_epoch = ?7`, of a patch that sets no
-- mode the table refuses.
unfoldable pub cas_lease : ℕ → ℕ → LeasePatch → Txn KernelTxn Bool
cas_lease id expect_epoch patch = do
  encode (fits? patch.lease_epoch && fits expect_epoch)
  λ txn. update_lease expect_epoch patch txn (get_lease id txn)

-- A compare-and-set fails and writes nothing, changes nothing, or writes the one row that stands at
-- the expected epoch, where no other row holds its index entry.
pub cas_lease_cases :
    (id expect_epoch : ℕ) (patch : LeasePatch) (txn : KernelTxn)
    → ((e : KernelError) × (cas_lease id expect_epoch patch txn ≡ (err e, txn)))
      ⊎ (cas_lease id expect_epoch patch txn ≡ (ok false, txn))
      ⊎ ((row : WorkspaceLeaseRow) × (get_lease id txn ≡ some row)
          × (row.lease_epoch ≡ expect_epoch)
          × ((fits? patch.lease_epoch && fits expect_epoch) ≡ true)
          × (index_refuses (lease_patched patch row) txn ≡ false)
          × (cas_lease id expect_epoch patch txn ≡ (
            ok true,
            record txn { leases = put lease_key (lease_patched patch row) txn.leases },
          )))
unfolding cas_lease
cas_lease_cases id expect_epoch patch txn =
    elim (Bool-cases (fits? patch.lease_epoch && fits expect_epoch)) [
      | inr wide ↦ inl (out_of_range, rw wide)
      | inl fit ↦ elim (Option-cases (get_lease id txn)) [
        | inl missing ↦ inr (inl (rw (fit, missing)))
        | inr (row, found) ↦ elim (Bool-cases (row.lease_epoch == expect_epoch)) [
          | inr stale ↦ inr (inl (rw (fit, found, stale)))
          | inl at_epoch ↦ elim (Bool-cases (index_refuses (lease_patched patch row) txn)) [
            | inl taken ↦ inl (constraint_conflict, rw (fit, found, at_epoch, taken))
            | inr free ↦ inr (
                inr (
                  row,
                  found,
                  ground (arith, at_epoch),
                  fit,
                  free,
                  rw (fit, found, at_epoch, free),
                ))
          ]
        ]
      ]
    ]

-- An insertion fails and writes nothing, or adds the row, where its identifier and its index entry
-- are free.
pub insert_lease_cases :
    (lease : NewWorkspaceLease) (txn : KernelTxn)
    → ((e : KernelError) × (insert_lease lease txn ≡ (err e, txn)))
      ⊎ ((is_taken (lease_row lease) txn ≡ false)
          × (insert_lease lease txn
              ≡ (ok tt, record txn { leases = txn.leases ++ lease_row lease ∷ [] })))
unfolding insert_lease
insert_lease_cases lease txn = elim (Bool-cases (fits lease.lease_epoch)) [
  | inr wide ↦ inl (out_of_range, rw wide)
  | inl fit ↦
      elim (Bool-cases
        (not (Mode.to_wire lease.mode == Mode.to_wire WorkspaceAccessMode.unspecified))) [
          | inr refused ↦
              inl (
                fault failed_precondition "storage constraint rejected the write",
                rw (fit, refused),
              )
          | inl valid ↦ elim (Bool-cases (is_taken (lease_row lease) txn)) [
            | inl taken ↦ inl (constraint_conflict, rw (fit, valid, taken))
            | inr free ↦ inr (free, rw (fit, valid, free))
          ]
        ]
]

pub get_lease-patched :
    (id : ℕ) (patch : LeasePatch) (txn : KernelTxn) {row : WorkspaceLeaseRow}
    → get_lease id txn ≡ some row
    → find lease_key id (put lease_key (lease_patched patch row) txn.leases)
      ≡ some (lease_patched patch row)
unfolding lease_patched
get_lease-patched id patch txn {row} found =
    find-put lease_key id (lease_patched patch row) txn.leases found
      (key-find lease_key id txn.leases found)
