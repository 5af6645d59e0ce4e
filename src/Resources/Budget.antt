-- ===== src/Resources/Budget.antt =====
-- The budget of a reservation of crates/resources/src/lib.rs: what its active children hold of its unit.
use ai_harness.Base.{
  ℕ, ◌+◌, ◌≤◌, true, none, some, String, [], ◌∷◌, ◌++◌, ◌==◌, opt_is, ◌≡◌, ◌≢◌, sym, subst, ap, ◌∙◌,
  inl, inr, arith, Bool-cases, Option-cases,
}
use ai_harness.Base.Table.{put, key-find, find-put_ne}
use ai_harness.Base.Evolves.{find-append_old}
use ai_harness.Base.Txn.{ok}
use ai_harness.Store.Models.{ReservationRow, ReservationPatch}
use ai_harness.Store.Kernel.{KernelTxn}
use ai_harness.Store.Reservations.{
  reservation_key, get_reservation, reservation_row, reservation_patched, get_reservation-patched,
}
use ai_harness.Resources.Outcomes.{written}
use ai_harness.Resources.Kinds.{as_str}
use ai_harness.Resources.Reservations.{
  ReserveRequest, check_parent_budget, check_parent, new_reservation,
}
use ai_harness.Resources.Delegated.{
  counted, delegated, IsWithinBudget, IsRooted, delegated-append, delegated-put, within_parent,
  counted_below, counted_elsewhere, the_some,
}

module _ (now id : ℕ) (request : ReserveRequest) (amount : ℕ) (txn : KernelTxn)
    (checked : check_parent request.parent request.unit amount txn ≡ (ok tt, txn)) where
  abbrev new_row : ReservationRow
  new_row = reservation_row (new_reservation now id request amount)

  -- The reservation that the new one names as its parent is there, and covers it.
  parent_covers :
      (k : ℕ)
      → opt_is request.parent k ≡ true
      → (parent : ReservationRow) × (get_reservation k txn ≡ some parent)
        × (parent.unit ≡ as_str request.unit)
        × (delegated k (as_str request.unit) txn.reservations + amount ≤ parent.amount)
  parent_covers k is = elim (Option-cases request.parent) [
    | inl no_parent ↦ absurd (ground (arith, is, no_parent))
    | inr (p, named) ↦
        let one : p ≡ k = ground (arith, is, named) in
        let passed : check_parent_budget p request.unit amount txn ≡ (ok tt, txn) =
          rw named at checked in
        subst
          (λ i.
            (parent : ReservationRow) × (get_reservation i txn ≡ some parent)
            × (parent.unit ≡ as_str request.unit)
            × (delegated i (as_str request.unit) txn.reservations + amount ≤ parent.amount))
          one (within_parent p request.unit amount txn passed)
  ]

  -- No reservation that is not there is its parent.
  absent_uncounted :
      (k : ℕ) (unit : String) → get_reservation k txn ≡ none → counted k unit new_row ≡ 0
  absent_uncounted k unit absent = elim (Bool-cases (opt_is request.parent k)) [
    | inr other ↦ counted_elsewhere k unit new_row other
    | inl is ↦ let (parent, there, _, _) = parent_covers k is in cc (there, absent)
  ]

  present_covers :
      (k : ℕ) (old : ReservationRow)
      → IsWithinBudget txn
      → get_reservation k txn ≡ some old
      → delegated k old.unit txn.reservations + counted k old.unit new_row ≤ old.amount
  present_covers k old within there = elim (Bool-cases (opt_is request.parent k)) [
    | inr other ↦ omega (arith, counted_elsewhere k old.unit new_row other, within k old there)
    | inl is ↦
        let (parent, found, unit, room) = parent_covers k is in
        let same = the_some parent old (sym found ∙ there) in
        let unit' : as_str request.unit ≡ old.unit = sym unit ∙ ap (λ r. r.unit) same in
        let room' : delegated k old.unit txn.reservations + amount ≤ old.amount =
          subst (λ u. delegated k u txn.reservations + amount ≤ old.amount) unit'
            (subst (λ r. delegated k (as_str request.unit) txn.reservations + amount ≤ r.amount)
              same room) in
        omega (arith, room', counted_below k old.unit new_row)
  ]

  -- The new row takes its place in the budget.
  pub appended-IsWithinBudget :
      IsWithinBudget txn
      → IsRooted txn
      → get_reservation id txn ≡ none
      → IsWithinBudget (record txn {
        reservations =
            txn.reservations ++ reservation_row (new_reservation now id request amount) ∷ [];
      })
        × IsRooted (record txn {
          reservations =
              txn.reservations ++ reservation_row (new_reservation now id request amount) ∷ [];
        })
  appended-IsWithinBudget within rooted fresh = (
    λ k row h. elim (Option-cases (get_reservation k txn)) [
      | inr (old, there) ↦
          let same : old ≡ row = the_some old row (
            sym (find-append_old reservation_key k txn.reservations new_row {x = old} there) ∙ h) in
          subst (λ r. delegated k r.unit (txn.reservations ++ new_row ∷ []) ≤ r.amount) same
            (omega (
              arith,
              delegated-append k old.unit txn.reservations new_row,
              present_covers k old within there,
            ))
      | inl absent ↦ omega (
        arith,
        delegated-append k row.unit txn.reservations new_row,
        rooted k row.unit absent,
        absent_uncounted k row.unit absent,
      )
    ],
    λ k unit h. elim (Option-cases (get_reservation k txn)) [
      | inr (old, there) ↦
          absurd
            (cc (h, find-append_old reservation_key k txn.reservations new_row {x = old} there))
      | inl absent ↦ omega (
        arith,
        delegated-append k unit txn.reservations new_row,
        rooted k unit absent,
        absent_uncounted k unit absent,
      )
    ],
  )

-- Writing a row that holds no more than before keeps the budget.
pub put-IsWithinBudget :
    (id : ℕ) (patch : ReservationPatch) (row : ReservationRow) (txn : KernelTxn)
    → IsWithinBudget txn
    → IsRooted txn
    → get_reservation id txn ≡ some row
    → ((parent : ℕ) (unit : String)
        → counted parent unit (reservation_patched patch row) ≤ counted parent unit row)
    → IsWithinBudget (written patch row txn) × IsRooted (written patch row txn)
unfolding reservation_patched
put-IsWithinBudget id patch row txn within rooted found less =
    let next = reservation_patched patch row in
    let key : row.reservation_id ≡ id =
      key-find reservation_key id txn.reservations {x = row} found in
    let own : get_reservation next.reservation_id txn ≡ some row =
      subst (λ i. get_reservation i txn ≡ some row) (sym key) found in
    let below = λ (k : ℕ) (unit : String).
      delegated-put k unit next txn.reservations {x = row} own (less k unit) in
    (
      λ k r h. elim (Bool-cases (id == k)) [
        | inl same ↦
            let one : id ≡ k = ground (arith, same) in
            let there : get_reservation k (written patch row txn) ≡ some next =
              subst (λ i. get_reservation i (written patch row txn) ≡ some next) one
                (get_reservation-patched id patch txn {row = row} found) in
            let is = the_some next r (sym there ∙ h) in
            let before = within k row (subst (λ i. get_reservation i txn ≡ some row) one found) in
            subst (λ q. delegated k q.unit (put reservation_key next txn.reservations) ≤ q.amount)
              is (omega (arith, below k row.unit, before))
        | inr differs ↦
            let ne : next.reservation_id ≢ k = λ e. ground (arith, e, key, differs) in
            let before = sym (find-put_ne reservation_key k next txn.reservations ne) ∙ h in
            omega (arith, below k r.unit, within k r before)
      ],
      λ k unit h. elim (Bool-cases (id == k)) [
        | inl same ↦
            let one : id ≡ k = ground (arith, same) in
            let there : get_reservation k (written patch row txn) ≡ some next =
              subst (λ i. get_reservation i (written patch row txn) ≡ some next) one
                (get_reservation-patched id patch txn {row = row} found) in
            absurd (cc (h, there))
        | inr differs ↦
            let ne : next.reservation_id ≢ k = λ e. ground (arith, e, key, differs) in
            let before = sym (find-put_ne reservation_key k next txn.reservations ne) ∙ h in
            omega (arith, below k unit, rooted k unit before)
      ],
    )
