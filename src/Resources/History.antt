-- ===== src/Resources/History.antt =====
-- Sequences of the functions of crates/resources/src/lib.rs: budgets, fencing tokens and released
-- reservations along them.
use ai_harness.Base.{
  ℕ, ◌≤◌, true, some, String, ltb, ◌≡◌, refl, sym, ◌∙◌, subst, inl, inr, arith, coalesce,
}
use ai_harness.Base.Table.{key-find}
use ai_harness.Base.Evolves.{Evolves, Evolves-refl, Evolves-append, Evolves-put, Evolves-trans}
use ai_harness.Base.Txn.{Result}
use ai_harness.Domain.ReservationState.{ReservationState, to_wire}
use ai_harness.Store.Models.{ReservationRow, ReservationPatch}
use ai_harness.Store.Kernel.{KernelTxn}
use ai_harness.Store.Reservations.{
  reservation_key, get_reservation, in_state, reservation_row, reservation_patched,
}
use ai_harness.Resources.Reservations.{
  ReserveRequest, reserve, allocate, release, mark_unknown, recover_unknown, to_state, recovered,
  new_reservation, is_active,
}
use ai_harness.Resources.Outcomes.{
  Outcome, owns, may_be_lost, allocate_cases, release_cases, mark_unknown_cases,
  recover_unknown_cases,
}
use ai_harness.Resources.Moves.{reserve_cases}
use ai_harness.Resources.Delegated.{counted, delegated, IsWithinBudget, IsRooted}
use ai_harness.Resources.Budget.{appended-IsWithinBudget, put-IsWithinBudget}

-- One call of the service, whatever it returns.
pub data Step (txn : KernelTxn) : KernelTxn → Type 0 where
  reserves :
      (now minted : ℕ) (request : ReserveRequest) → Step txn (reserve now minted request txn).1
  allocates : (id token : ℕ) → Step txn (allocate id token txn).1
  releases : (id token : ℕ) → Step txn (release id token txn).1
  loses : (id : ℕ) → Step txn (mark_unknown id txn).1
  recovers : (id token : ℕ) → Step txn (recover_unknown id token txn).1

pub data History (a : KernelTxn) : KernelTxn → Type 0 where
  nothing : History a a
  then_step : {b c : KernelTxn} → History a b → Step b c → History a c

abbrev HasBudget : KernelTxn → Type 0
HasBudget txn = IsWithinBudget txn × IsRooted txn

-- What a row was requested with stays as it is.
abbrev pub Reserves : ReservationRow → ReservationRow → Type 0
Reserves row row' =
    (row.run_id ≡ row'.run_id)
    × (row.unit ≡ row'.unit)
    × (row.amount ≡ row'.amount)
    × (row.parent_reservation_id ≡ row'.parent_reservation_id)

-- A row that came of another: its token is no older, once released it stays so, and it is for the same.
abbrev Succeeds : ReservationRow → ReservationRow → Type 0
Succeeds row row' =
    (row.fencing_token ≤ row'.fencing_token)
    × (row.state ≡ ReservationState.released → row'.state ≡ ReservationState.released)
    × Reserves row row'

Succeeds-refl : (row : ReservationRow) → Succeeds row row
Succeeds-refl row = (omega arith, λ h. h, (refl, refl, refl, refl))

Succeeds-trans : (a b c : ReservationRow) → Succeeds a b → Succeeds b c → Succeeds a c
Succeeds-trans a b c f g = (
  omega (arith, f.0, g.0),
  λ h. g.1 (f.1 h),
  (f.2.0 ∙ g.2.0, f.2.1 ∙ g.2.1, f.2.2 ∙ g.2.2, f.2.3 ∙ g.2.3),
)

abbrev Advances : KernelTxn → KernelTxn → Type 0
Advances a b = Evolves reservation_key Succeeds a.reservations b.reservations

-- A patch that the guard admits neither takes more of any budget nor turns a row back.
abbrev IsSound : (ReservationRow → Type 0) → ReservationPatch → Type 0
IsSound Guard patch =
    (row : ReservationRow)
    → Guard row
    → ((parent : ℕ) (unit : String)
        → counted parent unit (reservation_patched patch row) ≤ counted parent unit row)
      × Succeeds row (reservation_patched patch row)

module _ (id : ℕ) (Guard : ReservationRow → Type 0) (patch : ReservationPatch) (txn : KernelTxn)
    (r : Result ReservationRow × KernelTxn) (sound : IsSound Guard patch)
    (outcome : Outcome id Guard patch txn r) where
  outcome-HasBudget : HasBudget txn → HasBudget r.1
  outcome-HasBudget h = elim outcome [
    | inl (e, failed) ↦ subst (λ q. HasBudget q.1) (sym failed) h
    | inr (row, found, guard, done, after) ↦
        subst (λ rows. HasBudget (record txn { reservations = rows })) (sym after)
          (put-IsWithinBudget id patch row txn h.0 h.1 found (sound row guard).0)
  ]

  outcome-Advances : Advances txn r.1
  unfolding reservation_patched
  outcome-Advances = elim outcome [
    | inl (e, failed) ↦
        subst (λ q. Advances txn q.1) (sym failed)
          (Evolves-refl reservation_key Succeeds Succeeds-refl txn.reservations)
    | inr (row, found, guard, done, after) ↦
        subst (λ rows. Evolves reservation_key Succeeds txn.reservations rows) (sym after)
          (Evolves-put reservation_key Succeeds Succeeds-refl id (reservation_patched patch row)
            txn.reservations {x = row} found
            (key-find reservation_key id txn.reservations {x = row} found) (sound row guard).1)
  ]

allocate-IsSound :
    (token : ℕ)
    → IsSound
        (λ row. (owns token row ≡ true) × (in_state ReservationState.reserved row ≡ true))
        (to_state ReservationState.allocated)
unfolding counted reservation_patched is_active to_wire
allocate-IsSound token row guard = (
  λ parent unit. ground (arith, guard.1),
  (ground arith, λ h. ground (arith, h, guard.1), (refl, refl, refl, refl)),
)

release-IsSound :
    (token : ℕ)
    → IsSound
        (λ row. (owns token row ≡ true) × (in_state ReservationState.allocated row ≡ true))
        (to_state ReservationState.released)
unfolding counted reservation_patched is_active to_wire
release-IsSound token row guard =
    (λ parent unit. ground (arith, guard.1), (ground arith, λ h. refl, (refl, refl, refl, refl)))

mark_unknown-IsSound :
    IsSound
      (λ row. (may_be_lost row ≡ true) × (in_state row.state row ≡ true))
      (to_state ReservationState.unknown)
unfolding counted reservation_patched is_active to_wire
mark_unknown-IsSound row guard = (
  λ parent unit. ground (arith, guard.0),
  (ground arith, λ h. ground (arith, h, guard.0), (refl, refl, refl, refl)),
)

recover_unknown-IsSound :
    (token : ℕ)
    → IsSound
        (λ row.
          (ltb row.fencing_token token ≡ true) × (in_state ReservationState.unknown row ≡ true))
        (recovered token)
unfolding counted reservation_patched is_active to_wire
recover_unknown-IsSound token row guard = (
  λ parent unit. ground (arith, guard.1),
  (ground (arith, guard.0), λ h. ground (arith, h, guard.1), (refl, refl, refl, refl)),
)

reserve-HasBudget :
    (now minted : ℕ) (request : ReserveRequest) (txn : KernelTxn)
    → HasBudget txn
    → HasBudget (reserve now minted request txn).1
reserve-HasBudget now minted request txn h = elim (reserve_cases now minted request txn) [
  | inl (e, failed) ↦ subst (λ q. HasBudget q.1) (sym failed) h
  | inr (inl (_, _, _, _, _, answered)) ↦ subst (λ q. HasBudget q.1) (sym answered) h
  | inr (inr (amount, given, (fresh, checked, done, after))) ↦
      let id = coalesce request.reservation_id minted in
      subst (λ rows. HasBudget (record txn { reservations = rows })) (sym after)
        (appended-IsWithinBudget now id request amount txn checked h.0 h.1 fresh)
]

reserve-Advances :
    (now minted : ℕ) (request : ReserveRequest) (txn : KernelTxn)
    → Advances txn (reserve now minted request txn).1
reserve-Advances now minted request txn = elim (reserve_cases now minted request txn) [
  | inl (e, failed) ↦
      subst (λ q. Advances txn q.1) (sym failed)
        (Evolves-refl reservation_key Succeeds Succeeds-refl txn.reservations)
  | inr (inl (_, _, _, _, _, answered)) ↦
      subst (λ q. Advances txn q.1) (sym answered)
        (Evolves-refl reservation_key Succeeds Succeeds-refl txn.reservations)
  | inr (inr (amount, given, (fresh, checked, done, after))) ↦
      let id = coalesce request.reservation_id minted in
      subst (λ rows. Evolves reservation_key Succeeds txn.reservations rows) (sym after)
        (Evolves-append reservation_key Succeeds Succeeds-refl txn.reservations
          (reservation_row (new_reservation now id request amount)))
]

Step-HasBudget : {a b : KernelTxn} → Step a b → HasBudget a → HasBudget b
Step-HasBudget {a} (reserves now minted request) = reserve-HasBudget now minted request a
Step-HasBudget {a} (allocates id token) =
    outcome-HasBudget id _ _ a _ (allocate-IsSound token) (allocate_cases id token a)
Step-HasBudget {a} (releases id token) =
    outcome-HasBudget id _ _ a _ (release-IsSound token) (release_cases id token a)
Step-HasBudget {a} (loses id) =
    outcome-HasBudget id _ _ a _ mark_unknown-IsSound (mark_unknown_cases id a)
Step-HasBudget {a} (recovers id token) =
    outcome-HasBudget id _ _ a _ (recover_unknown-IsSound token) (recover_unknown_cases id token a)

Step-Advances : {a b : KernelTxn} → Step a b → Advances a b
Step-Advances {a} (reserves now minted request) = reserve-Advances now minted request a
Step-Advances {a} (allocates id token) =
    outcome-Advances id _ _ a _ (allocate-IsSound token) (allocate_cases id token a)
Step-Advances {a} (releases id token) =
    outcome-Advances id _ _ a _ (release-IsSound token) (release_cases id token a)
Step-Advances {a} (loses id) =
    outcome-Advances id _ _ a _ mark_unknown-IsSound (mark_unknown_cases id a)
Step-Advances {a} (recovers id token) =
    outcome-Advances id _ _ a _ (recover_unknown-IsSound token) (recover_unknown_cases id token a)

History-HasBudget : {a b : KernelTxn} → History a b → HasBudget a → HasBudget b
History-HasBudget nothing h = h
History-HasBudget (then_step past s) h = Step-HasBudget s (History-HasBudget past h)

pub History-Advances : {a b : KernelTxn} → History a b → Advances a b
History-Advances {a} nothing = Evolves-refl reservation_key Succeeds Succeeds-refl a.reservations
History-Advances {a} {b = c} (then_step {b = b} h s) =
    Evolves-trans reservation_key Succeeds a.reservations b.reservations c.reservations
      Succeeds-trans (History-Advances h) (Step-Advances s)

-- From a table in which every reservation covers its active children of its unit, and nothing is delegated of a reservation that is not there, every sequence of reservations, allocations, releases, losses and recoveries leads to one in which every reservation still covers them.
pub budget_holds :
    (a b : KernelTxn) (id : ℕ) (row : ReservationRow)
    → IsWithinBudget a
    → IsRooted a
    → History a b
    → get_reservation id b ≡ some row
    → delegated id row.unit b.reservations ≤ row.amount
budget_holds a b id row within rooted h there =
    (History-HasBudget h (within, rooted)).0 id row there
