-- ===== src/Resources/Owners.antt =====
-- Who may act on a reservation of crates/resources/src/lib.rs, and what a repeated request gets.
use ai_harness.Base.{
  ℕ, ◌≤◌, if◌then◌else◌, Bool-cases, ◌<◌, true, false, Option, none, some, [], ◌∷◌, ◌++◌, ◌==◌,
  opt_eq, ◌≡◌, refl, sym, ap, ◌∙◌, subst, inl, inr, arith, coalesce,
}
use ai_harness.Base.Table.{find, find-append_new}
use text.Mathlib.Text.{◌==◌ as str_eq}
use text.Mathlib.TextEquality.{eq_iff}
use ai_harness.Base.Txn.{ok, err, FailsWith, failed_precondition, ok_not_err}
use ai_harness.Domain.ReservationState.{ReservationState}
use ai_harness.Store.Models.{ReservationRow}
use ai_harness.Store.Kernel.{KernelTxn}
use ai_harness.Store.Reservations.{
  reservation_key, get_reservation, reservation_row, reservation_patched, get_reservation-patched,
}
use ai_harness.Resources.Kinds.{as_str}
use ai_harness.Resources.Reservations.{
  ReserveRequest, reserve, allocate, release, recover_unknown, to_state, recovered, new_reservation,
  is_identical, positive, reused,
}
use ai_harness.Resources.Outcomes.{release_cases, recover_unknown_cases}
use ai_harness.Resources.Moves.{reserve_cases}
use ai_harness.Resources.History.{History, Reserves, History-Advances}

stale_token :
    (id token : ℕ) (txn : KernelTxn) (row : ReservationRow)
    → get_reservation id txn ≡ some row
    → token < row.fencing_token
    → FailsWith failed_precondition (allocate id token txn).0
      × FailsWith failed_precondition (release id token txn).0
unfolding allocate release
stale_token id token txn row there old =
    let stale : (row.fencing_token == token) ≡ false = ground (arith, old) in
    (ground (arith, there, stale), ground (arith, there, stale))

-- Once an uncertain reservation was recovered for the token of a new owner, and after any calls since, a token below it neither allocates nor releases the reservation: both are refused with `FailedPrecondition`.
pub stale_owner_refused :
    (id token : ℕ) (txn txn1 txn2 : KernelTxn) (row : ReservationRow) (old : ℕ)
    → recover_unknown id token txn ≡ (ok row, txn1)
    → History txn1 txn2
    → old < token
    → FailsWith failed_precondition (allocate id old txn2).0
      × FailsWith failed_precondition (release id old txn2).0
unfolding reservation_patched
stale_owner_refused id token txn txn1 txn2 row old h later below =
    elim (recover_unknown_cases id token txn) [
      | inl (e, failed) ↦ absurd (ok_not_err h failed)
      | inr (was, found, guard, done, after) ↦
          let there : get_reservation id txn1 ≡ some (reservation_patched (recovered token) was) =
            subst
              (λ q.
                find reservation_key id q.1.reservations
                ≡ some (reservation_patched (recovered token) was))
              h
              (subst
                (λ rows.
                  find reservation_key id rows ≡ some (reservation_patched (recovered token) was))
                (sym after) (get_reservation-patched id (recovered token) txn {row = was} found)) in
          let (now, there2, (above, _, _)) = History-Advances later id _ there in
          stale_token id old txn2 now there2 (omega (arith, above, below))
    ]

-- Once a reservation was released, and after any calls since, it is still there and still released.
pub released_stays :
    (id token : ℕ) (txn txn1 txn2 : KernelTxn) (row : ReservationRow)
    → release id token txn ≡ (ok row, txn1)
    → History txn1 txn2
    → (last : ReservationRow) × (get_reservation id txn2 ≡ some last)
      × (last.state ≡ ReservationState.released)
unfolding reservation_patched
released_stays id token txn txn1 txn2 row h later = elim (release_cases id token txn) [
  | inl (e, failed) ↦ absurd (ok_not_err h failed)
  | inr (was, found, guard, done, after) ↦
      let patch = to_state ReservationState.released in
      let there : get_reservation id txn1 ≡ some (reservation_patched patch was) =
        subst (λ q. find reservation_key id q.1.reservations ≡ some (reservation_patched patch was))
          h
          (subst (λ rows. find reservation_key id rows ≡ some (reservation_patched patch was))
            (sym after) (get_reservation-patched id patch txn {row = was} found)) in
      let (last, there2, (above, keeps, _)) = History-Advances later id _ there in
      (last, there2, keeps refl)
]

opt_eq_refl : (o : Option ℕ) → opt_eq o o ≡ true
opt_eq_refl none = refl
opt_eq_refl (some a) = ground arith

the_result : {a b : ReservationRow} → ok a ≡ ok b → a ≡ b
the_result h = cc

-- A reservation that was made answers its own request.
made_identical :
    (now id : ℕ) (request : ReserveRequest) (amount : ℕ)
    → is_identical request amount (reservation_row (new_reservation now id request amount)) ≡ true
made_identical now id request amount =
    let text = (eq_iff (as_str request.unit) (as_str request.unit)).1 refl in
    ground (arith, text, opt_eq_refl request.parent)

-- What a granted request leaves under its identifier.
granted :
    (now minted : ℕ) (request : ReserveRequest) (txn txn1 : KernelTxn) (row : ReservationRow)
    → reserve now minted request txn ≡ (ok row, txn1)
    → (amount : ℕ) × (positive request.amount ≡ some amount)
      × (get_reservation (coalesce request.reservation_id minted) txn1 ≡ some row)
      × (is_identical request amount row ≡ true)
granted now minted request txn txn1 row h = elim (reserve_cases now minted request txn) [
  | inl (e, failed) ↦ absurd (ok_not_err h failed)
  | inr (inl (amount, existing, given, there, same, answered)) ↦
      let id = coalesce request.reservation_id minted in
      let row_is = the_result (ap (λ q. q.0) (sym answered ∙ h)) in
      let still = ap (λ q. q.1) (sym answered ∙ h) in
      (
        amount,
        given,
        subst (λ t. get_reservation id t ≡ some row) still (there ∙ ap some row_is),
        subst (λ q. is_identical request amount q ≡ true) row_is same,
      )
  | inr (inr (amount, given, (fresh, checked, done, after))) ↦
      let id = coalesce request.reservation_id minted in
      let new = reservation_row (new_reservation now id request amount) in
      let row_is = the_result (sym done ∙ ap (λ q. q.0) h) in
      let table : txn1.reservations ≡ txn.reservations ++ new ∷ [] =
        sym (ap (λ q. q.1.reservations) h) ∙ after in
      let there : get_reservation id txn1 ≡ some new =
        rw table
          (find-append_new reservation_key id txn.reservations new ∙ ground (arith, fresh)) in
      (
        amount,
        given,
        there ∙ ap some row_is,
        subst (λ q. is_identical request amount q ≡ true) row_is
            (made_identical now id request amount),
      )
]

-- A row that came of a granted one still matches the request, but for its token.
still_identical :
    (request : ReserveRequest) (amount : ℕ) (row last : ReservationRow)
    → Reserves row last
    → is_identical request amount row ≡ true
    → is_identical request amount last ≡ (last.fencing_token == request.fencing_token)
still_identical request amount row last (run, unit, size, parent) same =
    let own : (last.run_id == request.run_id) ≡ true = ground (arith, same, run) in
    let text : str_eq last.unit (as_str request.unit) ≡ true =
      subst (λ u. str_eq u (as_str request.unit) ≡ true) unit (ground (arith, same)) in
    let much : (last.amount == amount) ≡ true = ground (arith, same, size) in
    let under : opt_eq last.parent_reservation_id request.parent ≡ true =
      subst (λ p. opt_eq p request.parent ≡ true) parent (ground (arith, same)) in
    rw (own, text, much, under) refl

answers :
    (now minted : ℕ) (request : ReserveRequest) (txn : KernelTxn) (amount : ℕ)
    (row : ReservationRow)
    → positive request.amount ≡ some amount
    → get_reservation (coalesce request.reservation_id minted) txn ≡ some row
    → reserve now minted request txn
      ≡ (if is_identical request amount row then ok row else err reused, txn)
unfolding reserve
answers now minted request txn amount row given there =
    elim (Bool-cases (is_identical request amount row)) [
      | inl same ↦ ground (arith, given, there, same)
      | inr differs ↦ ground (arith, given, there, differs)
    ]

-- A request that carries its identifier and was granted left its row there, with the token of the request. After any calls of the service since, the identifier still has a row, with no lower token, and a repetition of the request changes nothing: it gets that row as it then is, unless the token is no longer the one of the request, when it is refused with `Conflict`.
pub reserve_repeats :
    (now minted now' minted' id : ℕ) (request : ReserveRequest) (txn txn1 txn2 : KernelTxn)
    (row : ReservationRow)
    → request.reservation_id ≡ some id
    → reserve now minted request txn ≡ (ok row, txn1)
    → History txn1 txn2
    → (get_reservation id txn1 ≡ some row)
      × (row.fencing_token ≡ request.fencing_token)
      × (last : ReservationRow) × (get_reservation id txn2 ≡ some last)
      × (row.fencing_token ≤ last.fencing_token)
      × (reserve now' minted' request txn2
          ≡ (if last.fencing_token == request.fencing_token then ok last else err reused, txn2))
reserve_repeats now minted now' minted' id request txn txn1 txn2 row named h later =
    let key : coalesce request.reservation_id minted ≡ id = rw named refl in
    let key' : id ≡ coalesce request.reservation_id minted' = rw named refl in
    let (amount, given, left, same) = granted now minted request txn txn1 row h in
    let there : get_reservation id txn1 ≡ some row =
      subst (λ k. get_reservation k txn1 ≡ some row) key left in
    let (last, there2, (above, _, kept)) = History-Advances later id row there in
    (
      there,
      ground (arith, same),
      last,
      there2,
      above,
      answers now' minted' request txn2 amount last given
            (subst (λ k. get_reservation k txn2 ≡ some last) key' there2)
          ∙ ap (λ b. (if b then ok last else err reused, txn2))
              (still_identical request amount row last kept same),
    )
