-- ===== src/Resources/Delegated.antt =====
-- What the active children of a reservation of crates/resources/src/lib.rs hold of its unit.
use ai_harness.Base.{
  ℕ, ◌+◌, ◌≤◌, false, ◌&&◌, none, some, String, List, [], ◌∷◌, ◌++◌, ◌==◌, opt_is, if◌then◌else◌,
  filter, leb, ◌≡◌, inl, inr, arith, Bool-cases, Option-cases,
}
use ai_harness.Base.Table.{find, put}
use ai_harness.Base.Txn.{ok}
use text.Mathlib.TextEquality.{eq_iff}
use ai_harness.Store.Models.{ReservationRow}
use ai_harness.Store.Kernel.{KernelTxn, i64_max}
use ai_harness.Store.Reservations.{reservation_key, get_reservation, list_children}
use ai_harness.Resources.Kinds.{ResourceUnit, as_str}
use ai_harness.Resources.Reservations.{counts, checked_add, checked_sum, check_parent_budget}

-- What a row takes of the budget of the reservation `parent`, in a unit.
unfoldable pub counted : ℕ → String → ReservationRow → ℕ
counted parent unit row =
    if opt_is row.parent_reservation_id parent && counts unit row then row.amount else 0

-- What is delegated of the reservation `parent`, in a unit.
unfoldable pub delegated : ℕ → String → List ReservationRow → ℕ
unfolding counted
delegated parent unit [] = 0
delegated parent unit (row ∷ rows) = counted parent unit row + delegated parent unit rows

-- Every reservation covers what is delegated of it.
abbrev pub IsWithinBudget : KernelTxn → Type 0
IsWithinBudget txn =
    (id : ℕ) (row : ReservationRow)
    → get_reservation id txn ≡ some row
    → delegated id row.unit txn.reservations ≤ row.amount

-- Nothing is delegated of what is not there.
abbrev pub IsRooted : KernelTxn → Type 0
IsRooted txn =
    (id : ℕ) (unit : String)
    → get_reservation id txn ≡ none
    → delegated id unit txn.reservations ≡ 0

checked_sum-delegated :
    (parent : ℕ) (unit : String) (rows : List ReservationRow) (acc total : ℕ)
    → checked_sum acc
        (filter (counts unit) (filter (λ r. opt_is r.parent_reservation_id parent) rows))
      ≡ some total
    → total ≡ acc + delegated parent unit rows
unfolding checked_sum checked_add delegated counted
checked_sum-delegated parent unit [] acc total h = ground (arith, h)
checked_sum-delegated parent unit (r ∷ rs) acc total h =
    elim (Bool-cases (opt_is r.parent_reservation_id parent)) [
      | inr other ↦
          ground (arith, other, checked_sum-delegated parent unit rs acc total (rw other at h))
      | inl child ↦ elim (Bool-cases (counts unit r)) [
        | inr idle ↦
            let rest : checked_sum acc
                  (filter (counts unit) (filter (λ r. opt_is r.parent_reservation_id parent) rs))
                ≡ some total =
              ground (arith, h, child, idle) in
            ground (arith, child, idle, checked_sum-delegated parent unit rs acc total rest)
        | inl active ↦ elim (Bool-cases (leb (acc + r.amount) i64_max)) [
          | inr wide ↦ absurd (ground (arith, h, child, active, wide))
          | inl fit ↦
              let rest : checked_sum (acc + r.amount)
                    (filter (counts unit) (filter (λ r. opt_is r.parent_reservation_id parent) rs))
                  ≡ some total =
                ground (arith, h, child, active, fit) in
              let is = checked_sum-delegated parent unit rs (acc + r.amount) total rest in
              ground (arith, child, active, is)
        ]
      ]
    ]

pub delegated-append :
    (parent : ℕ) (unit : String) (rows : List ReservationRow) (row : ReservationRow)
    → delegated parent unit (rows ++ row ∷ [])
      ≡ delegated parent unit rows + counted parent unit row
unfolding delegated
delegated-append parent unit [] row = omega arith
delegated-append parent unit (r ∷ rs) row = ground (arith, delegated-append parent unit rs row)

pub delegated-put :
    (parent : ℕ) (unit : String) (y : ReservationRow) (rows : List ReservationRow)
    {x : ReservationRow}
    → find reservation_key y.reservation_id rows ≡ some x
    → counted parent unit y ≤ counted parent unit x
    → delegated parent unit (put reservation_key y rows) ≤ delegated parent unit rows
unfolding delegated find put
delegated-put parent unit y [] h less = cc
delegated-put parent unit y (r ∷ rs) {x} h less =
    elim (Bool-cases (r.reservation_id == y.reservation_id)) [
      | inl same ↦
          let first : r ≡ x = ground (arith, h, same) in
          let less' : counted parent unit y ≤ counted parent unit r = rw first less in
          rw same (omega (arith, less'))
      | inr differs ↦ ground (arith, differs, delegated-put parent unit y rs {x = x})
    ]

-- What a passed check says of the parent.
pub within_parent :
    (parent_id : ℕ) (unit : ResourceUnit) (amount : ℕ) (txn : KernelTxn)
    → check_parent_budget parent_id unit amount txn ≡ (ok tt, txn)
    → (parent : ReservationRow) × (get_reservation parent_id txn ≡ some parent)
      × (parent.unit ≡ as_str unit)
      × (delegated parent_id (as_str unit) txn.reservations + amount ≤ parent.amount)
unfolding check_parent_budget checked_add
within_parent parent_id unit amount txn h = elim (Option-cases (get_reservation parent_id txn)) [
  | inl none_there ↦ absurd (ground (arith, h, none_there))
  | inr (parent, there) ↦
      let rows = filter (counts (as_str unit)) (list_children parent_id txn) in
      elim (Option-cases (checked_sum 0 rows)) [
        | inl wide ↦ absurd (ground (arith, h, there, wide))
        | inr (total, sum) ↦
            let is = checked_sum-delegated parent_id (as_str unit) txn.reservations 0 total sum in
            (
              parent,
              there,
              (eq_iff parent.unit (as_str unit)).0 (ground (arith, h, there, sum)),
              ground (arith, h, there, sum, is),
            )
      ]
]

pub counted_below :
    (parent : ℕ) (unit : String) (row : ReservationRow) → counted parent unit row ≤ row.amount
unfolding counted
counted_below parent unit row = ground arith

pub counted_elsewhere :
    (parent : ℕ) (unit : String) (row : ReservationRow)
    → opt_is row.parent_reservation_id parent ≡ false
    → counted parent unit row ≡ 0
unfolding counted
counted_elsewhere parent unit row h = ground (arith, h)

pub the_some : (a b : ReservationRow) → some a ≡ some b → a ≡ b
the_some a b h = cc
