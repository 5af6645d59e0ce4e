-- ===== src/Resources/Outcomes.antt =====
-- What the operations of crates/resources/src/lib.rs on an existing reservation answer.
use ai_harness.Base.{
  ℕ, Bool, true, ◌||◌, some, String, ◌==◌, ltb, ◌≡◌, sym, subst, ◌∙◌, ◌⊎◌, inl, inr, arith,
  Bool-cases, Option-cases,
}
use ai_harness.Base.Table.{put}
use ai_harness.Base.Txn.{Result, ok, err, KernelError, require, ◌>>=◌, ◌>>◌}
use ai_harness.Domain.ReservationState.{ReservationState}
use ai_harness.Store.Models.{ReservationRow, ReservationPatch}
use ai_harness.Store.Kernel.{KernelTxn, out_of_range}
use ai_harness.Store.Outbox.{stage}
use ai_harness.Store.Reservations.{
  reservation_key, get_reservation, in_state, reservation_patched, cas_reservation_cases,
  get_reservation-patched,
}
use ai_harness.Resources.Reservations.{
  load, token_refused, not_forward, advance, allocate, release, mark_unknown, recover_unknown,
  stage_resource_event, stage_and_fetch, state_conflict, missing, to_state, recovered,
}

-- A call fails and leaves the transaction as it was, or it found the row in a state that it moves, and
-- writes that one row.
abbrev pub Outcome :
    ℕ
    → (ReservationRow → Type 0)
    → ReservationPatch
    → KernelTxn
    → Result ReservationRow × KernelTxn
    → Type 0
Outcome id Guard patch txn r =
    ((e : KernelError) × (r ≡ (err e, txn)))
    ⊎ ((row : ReservationRow) × (get_reservation id txn ≡ some row)
        × Guard row
        × (r.0 ≡ ok (reservation_patched patch row))
        × (r.1.reservations ≡ put reservation_key (reservation_patched patch row) txn.reservations))

abbrev pub written : ReservationPatch → ReservationRow → KernelTxn → KernelTxn
written patch row txn = record txn {
  reservations = put reservation_key (reservation_patched patch row) txn.reservations;
}

pub fetched :
    (id : ℕ) (event_type : String) (txn : KernelTxn) {row : ReservationRow}
    → get_reservation id txn ≡ some row
    → ((stage_and_fetch id event_type txn).0 ≡ ok row)
      × ((stage_and_fetch id event_type txn).1.reservations ≡ txn.reservations)
unfolding stage_and_fetch stage_resource_event stage
fetched id event_type txn {row} found = (ground (arith, found), ground (arith, found))

advance_cases :
    (id : ℕ) (expect_state : ReservationState) (patch : ReservationPatch) (event_type : String)
    (txn : KernelTxn)
    → Outcome id
        (λ row. in_state expect_state row ≡ true)
        patch
        txn
        (advance id expect_state patch event_type txn)
unfolding advance
advance_cases id expect_state patch event_type txn =
    elim (cas_reservation_cases id expect_state patch txn) [
      | inl wide ↦ inl (out_of_range, ground (arith, wide))
      | inr (inl lost) ↦ inl (state_conflict, ground (arith, lost))
      | inr (inr (row, found, holds, done)) ↦
          let there = get_reservation-patched id patch txn {row = row} found in
          let (result, kept) = fetched id event_type (written patch row txn) there in
          inr (row, found, holds, ground (arith, done, result), ground (arith, done, kept))
    ]

the_some : (a b : ReservationRow) → some a ≡ some b → a ≡ b
the_some a b h = cc

-- The functions on one reservation: load it, ask a guard, advance it.
guarded :
    (id : ℕ) (guard : ReservationRow → Bool) (e : KernelError)
    (expect_state : ReservationRow → ReservationState) (patch : ReservationPatch)
    (event_type : String) (txn : KernelTxn)
    → Outcome id
        (λ row. (guard row ≡ true) × (in_state (expect_state row) row ≡ true))
        patch
        txn
        ((load id missing >>= λ row.
            require (guard row) e >> advance id (expect_state row) patch event_type)
          txn)
guarded id guard e expect_state patch event_type txn =
    elim (Option-cases (get_reservation id txn)) [
      | inl none_there ↦ inl (missing, ground (arith, none_there))
      | inr (old, there) ↦ elim (Bool-cases (guard old)) [
        | inr refused ↦ inl (e, ground (arith, there, refused))
        | inl passes ↦ elim (advance_cases id (expect_state old) patch event_type txn) [
          | inl (e', failed) ↦ inl (e', ground (arith, there, passes, failed))
          | inr (row, found, holds, done, after) ↦
              let same = the_some old row (sym there ∙ found) in
              inr (
                row,
                found,
                (
                  rw (sym same) passes,
                  subst (λ r. in_state (expect_state r) row ≡ true) same holds,
                ),
                ground (arith, there, passes, done),
                ground (arith, there, passes, after),
              )
        ]
      ]
    ]

abbrev pub owns : ℕ → ReservationRow → Bool
owns token row = row.fencing_token == token

pub allocate_cases :
    (id token : ℕ) (txn : KernelTxn)
    → Outcome id
        (λ row. (owns token row ≡ true) × (in_state ReservationState.reserved row ≡ true))
        (to_state ReservationState.allocated)
        txn
        (allocate id token txn)
unfolding allocate
allocate_cases id token txn =
    guarded id (owns token) token_refused (λ row. ReservationState.reserved)
      (to_state ReservationState.allocated) "ResourceAllocated" txn

pub release_cases :
    (id token : ℕ) (txn : KernelTxn)
    → Outcome id
        (λ row. (owns token row ≡ true) × (in_state ReservationState.allocated row ≡ true))
        (to_state ReservationState.released)
        txn
        (release id token txn)
unfolding release
release_cases id token txn =
    guarded id (owns token) token_refused (λ row. ReservationState.allocated)
      (to_state ReservationState.released) "ResourceReleased" txn

abbrev pub may_be_lost : ReservationRow → Bool
may_be_lost row = in_state ReservationState.allocated row || in_state ReservationState.reserved row

pub mark_unknown_cases :
    (id : ℕ) (txn : KernelTxn)
    → Outcome id
        (λ row. (may_be_lost row ≡ true) × (in_state row.state row ≡ true))
        (to_state ReservationState.unknown)
        txn
        (mark_unknown id txn)
unfolding mark_unknown
mark_unknown_cases id txn =
    guarded id may_be_lost state_conflict (λ row. row.state) (to_state ReservationState.unknown)
      "ResourceUnknown" txn

pub recover_unknown_cases :
    (id token : ℕ) (txn : KernelTxn)
    → Outcome id
        (λ row.
          (ltb row.fencing_token token ≡ true) × (in_state ReservationState.unknown row ≡ true))
        (recovered token)
        txn
        (recover_unknown id token txn)
unfolding recover_unknown
recover_unknown_cases id token txn =
    guarded id (λ row. ltb row.fencing_token token) not_forward (λ row. ReservationState.unknown)
      (recovered token) "ResourceAllocated" txn
