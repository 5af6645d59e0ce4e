-- ===== src/Store/Reservations.antt =====
-- crates/kernel-store-sqlite/src/repos/resources.rs: reservations and their compare-and-set on the
-- state.
use ai_harness.Base.{
  ℕ, Bool, true, false, Option, some, List, [], ◌∷◌, ◌++◌, ◌==◌, coalesce, opt_is, if◌then◌else◌,
  filter, any, ◌≡◌, ◌⊎◌, inl, inr, Bool-cases,
}
use ai_harness.Base.Table.{find, put, update, update_cases, find-put, key-find}
use ai_harness.Base.Txn.{Txn, ok, err, fault, conflict, ◌>>◌}
use ai_harness.Domain.ReservationState.{ReservationState, to_wire}
use ai_harness.Store.Models.{ReservationRow, NewReservation, ReservationPatch}
use ai_harness.Store.Kernel.{KernelTxn, fits, fits?, encode, out_of_range}

abbrev pub reservation_key : ReservationRow → ℕ
reservation_key row = row.reservation_id

abbrev pub get_reservation : ℕ → KernelTxn → Option ReservationRow
get_reservation id txn = find reservation_key id txn.reservations

-- `SELECT … WHERE parent_reservation_id = ?1`, in the order of insertion: the one caller adds the
-- amounts up, so the order of the rows does not matter.
abbrev pub list_children : ℕ → KernelTxn → List ReservationRow
list_children parent txn = filter (λ r. opt_is r.parent_reservation_id parent) txn.reservations

abbrev pub reservation_row : NewReservation → ReservationRow
reservation_row new = record {
  reservation_id = new.reservation_id;
  run_id = new.run_id;
  resource_type = new.resource_type;
  state = new.state;
  amount = new.amount;
  unit = new.unit;
  fencing_token = new.fencing_token;
  parent_reservation_id = new.parent_reservation_id;
  created_at_ms = new.created_at_ms;
  updated_at_ms = new.created_at_ms;
}

-- `INSERT INTO resource_reservations …` under its primary key.
unfoldable pub insert_reservation : NewReservation → Txn KernelTxn (Unit {0})
insert_reservation new = do
  encode (fits new.fencing_token)
  λ txn.
      if any (λ r. r.reservation_id == new.reservation_id) txn.reservations
      then (err (fault conflict "storage constraint conflict"), txn)
      else (ok tt, record txn { reservations = txn.reservations ++ reservation_row new ∷ [] })

abbrev pub in_state : ReservationState → ReservationRow → Bool
in_state state row = to_wire row.state == to_wire state

unfoldable pub reservation_patched : ReservationPatch → ReservationRow → ReservationRow
reservation_patched p row = record row {
  state = coalesce p.state row.state;
  fencing_token = coalesce p.fencing_token row.fencing_token;
}

-- `UPDATE resource_reservations SET … WHERE reservation_id = ?3 AND state = ?4`.
unfoldable pub cas_reservation : ℕ → ReservationState → ReservationPatch → Txn KernelTxn Bool
cas_reservation id expect_state patch = do
  encode (fits? patch.fencing_token)
  λ txn.
      let u =
        update reservation_key id (in_state expect_state) (reservation_patched patch)
          txn.reservations in
      (ok u.1, record txn { reservations = u.0 })

-- A transition fails on a value out of range, changes nothing, or writes the one row.
pub cas_reservation_cases :
    (id : ℕ) (expect_state : ReservationState) (patch : ReservationPatch) (txn : KernelTxn)
    → (cas_reservation id expect_state patch txn ≡ (err out_of_range, txn))
      ⊎ (cas_reservation id expect_state patch txn ≡ (ok false, txn))
      ⊎ ((row : ReservationRow) × (get_reservation id txn ≡ some row)
          × (in_state expect_state row ≡ true)
          × (cas_reservation id expect_state patch txn ≡ (
            ok true,
            record txn {
              reservations = put reservation_key (reservation_patched patch row) txn.reservations;
            },
          )))
unfolding cas_reservation
cas_reservation_cases id expect_state patch txn = elim (Bool-cases (fits? patch.fencing_token)) [
  | inr wide ↦ inl (rw wide)
  | inl fit ↦
      elim (update_cases reservation_key id (in_state expect_state) (reservation_patched patch)
        txn.reservations) [
          | inl same ↦ inr (inl (rw (fit, same)))
          | inr (row, found, holds, done) ↦ inr (inr (row, found, holds, rw (fit, done)))
        ]
]

pub get_reservation-patched :
    (id : ℕ) (patch : ReservationPatch) (txn : KernelTxn) {row : ReservationRow}
    → get_reservation id txn ≡ some row
    → find reservation_key id (put reservation_key (reservation_patched patch row) txn.reservations)
      ≡ some (reservation_patched patch row)
unfolding reservation_patched
get_reservation-patched id patch txn {row} found =
    find-put reservation_key id (reservation_patched patch row) txn.reservations found
      (key-find reservation_key id txn.reservations found)
