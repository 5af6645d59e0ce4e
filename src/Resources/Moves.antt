-- ===== src/Resources/Moves.antt =====
-- What `reserve` of crates/resources/src/lib.rs answers, and what it leaves in the tables.
use ai_harness.Base.{
  ℕ, true, Option, none, some, [], ◌∷◌, ◌++◌, ◌==◌, coalesce, any, ◌≡◌, refl, ◌∙◌, ◌⊎◌, inl, inr,
  arith, Bool-cases, Option-cases,
}
use ai_harness.Base.Table.{find-append_new}
use ai_harness.Base.Txn.{ok, err, KernelError, fault, conflict, invalid_argument, Result-cases}
use ai_harness.Store.Models.{NewReservation, ReservationRow}
use ai_harness.Store.Kernel.{KernelTxn, fits, out_of_range}
use ai_harness.Store.Reservations.{
  reservation_row, insert_reservation, reservation_key, get_reservation,
}
use ai_harness.Resources.Kinds.{ResourceUnit}
use ai_harness.Resources.Reservations.{
  ReserveRequest, reserve, reserve_new, positive, new_reservation, check_parent,
  check_parent_budget, is_identical,
}
use ai_harness.Resources.Outcomes.{fetched}

check_parent_budget-unchanged :
    (parent_id : ℕ) (unit : ResourceUnit) (amount : ℕ) (txn : KernelTxn)
    → (check_parent_budget parent_id unit amount txn).1 ≡ txn
unfolding check_parent_budget
check_parent_budget-unchanged parent_id unit amount txn = ground arith

check_parent-unchanged :
    (parent : Option ℕ) (unit : ResourceUnit) (amount : ℕ) (txn : KernelTxn)
    → (check_parent parent unit amount txn).1 ≡ txn
check_parent-unchanged none unit amount txn = refl
check_parent-unchanged (some parent_id) unit amount txn =
    check_parent_budget-unchanged parent_id unit amount txn

inserted_cases :
    (new : NewReservation) (txn : KernelTxn)
    → ((e : KernelError) × (insert_reservation new txn ≡ (err e, txn)))
      ⊎ (insert_reservation new txn
          ≡ (ok tt, record txn { reservations = txn.reservations ++ reservation_row new ∷ [] }))
unfolding insert_reservation
inserted_cases new txn = elim (Bool-cases (fits new.fencing_token)) [
  | inr wide ↦ inl (out_of_range, ground (arith, wide))
  | inl fit ↦
      elim (Bool-cases (any (λ r. r.reservation_id == new.reservation_id) txn.reservations)) [
        | inl taken ↦ inl (fault conflict "storage constraint conflict", ground (arith, fit, taken))
        | inr free ↦ inr (ground (arith, fit, free))
      ]
]

reserve_new_cases :
    (now id : ℕ) (request : ReserveRequest) (amount : ℕ) (txn : KernelTxn)
    → get_reservation id txn ≡ none
    → ((e : KernelError) × (reserve_new now id request amount txn ≡ (err e, txn)))
      ⊎ (let row = reservation_row (new_reservation now id request amount) in
          (check_parent request.parent request.unit amount txn ≡ (ok tt, txn))
          × ((reserve_new now id request amount txn).0 ≡ ok row)
          × ((reserve_new now id request amount txn).1.reservations ≡ txn.reservations ++ row ∷ []))
reserve_new_cases now id request amount txn fresh =
    let same = check_parent-unchanged request.parent request.unit amount txn in
    elim (Result-cases (check_parent request.parent request.unit amount txn).0) [
      | inr (e, refused) ↦ inl (e, ground (arith, same, refused))
      | inl (u, passed) ↦
          let checked : check_parent request.parent request.unit amount txn ≡ (ok tt, txn) =
            cc (same, passed) in
          elim (inserted_cases (new_reservation now id request amount) txn) [
            | inl (e, refused) ↦ inl (e, ground (arith, checked, refused))
            | inr done ↦
                let row = reservation_row (new_reservation now id request amount) in
                let after : KernelTxn = record txn {
                  reservations = txn.reservations ++ row ∷ [];
                } in
                let there : get_reservation id after ≡ some row =
                  find-append_new reservation_key id txn.reservations row ∙ ground (arith, fresh) in
                let (result, kept) = fetched id "ResourceReserved" after there in
                inr (
                  checked,
                  ground (arith, checked, done, result),
                  ground (arith, checked, done, kept),
                )
          ]
    ]

-- A request fails and changes nothing, is answered by the row of its identifier, or makes a row, where
-- its parent's budget was checked.
pub reserve_cases :
    (now minted : ℕ) (request : ReserveRequest) (txn : KernelTxn)
    → ((e : KernelError) × (reserve now minted request txn ≡ (err e, txn)))
      ⊎ ((amount : ℕ) × (existing : ReservationRow) × (positive request.amount ≡ some amount)
          × (get_reservation (coalesce request.reservation_id minted) txn ≡ some existing)
          × (is_identical request amount existing ≡ true)
          × (reserve now minted request txn ≡ (ok existing, txn)))
      ⊎ ((amount : ℕ) × (positive request.amount ≡ some amount)
          × (let id = coalesce request.reservation_id minted in
              let row = reservation_row (new_reservation now id request amount) in
              (get_reservation id txn ≡ none)
              × (check_parent request.parent request.unit amount txn ≡ (ok tt, txn))
              × ((reserve now minted request txn).0 ≡ ok row)
              × ((reserve now minted request txn).1.reservations ≡ txn.reservations ++ row ∷ [])))
unfolding reserve
reserve_cases now minted request txn = elim (Option-cases (positive request.amount)) [
  | inl refused ↦
      inl (fault invalid_argument "reservation amount must be positive", ground (arith, refused))
  | inr (amount, given) ↦
      let id = coalesce request.reservation_id minted in
      elim (Option-cases (get_reservation id txn)) [
        | inr (existing, there) ↦ elim (Bool-cases (is_identical request amount existing)) [
          | inl same ↦
              inr (inl (amount, existing, given, there, same, ground (arith, given, there, same)))
          | inr differs ↦ inl (
            fault conflict "reservation_id reused with different fields",
            ground (arith, given, there, differs),
          )
        ]
        | inl fresh ↦ elim (reserve_new_cases now id request amount txn fresh) [
          | inl (e, failed) ↦ inl (e, ground (arith, given, fresh, failed))
          | inr (checked, done, after) ↦ inr (
              inr (
                amount,
                given,
                (
                  fresh,
                  checked,
                  ground (arith, given, fresh, done),
                  ground (arith, given, fresh, after),
                ),
              ))
        ]
      ]
]
