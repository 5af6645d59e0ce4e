-- ===== src/Effects/Claims.antt =====
-- What `claim` of crates/effects/src/executor.rs does on every branch.
use ai_harness.Base.{
  ℕ, ◌+◌, true, none, some, String, ◌≡◌, sym, ap, if◌then◌else◌, arith, Option-cases, Bool-cases,
  inl, inr, ◌⊎◌, ◌∙◌,
}
use ai_harness.Base.Txn.{Result, ok, err, KernelError, fault, not_found}
use ai_harness.Base.Table.{put, update}
use ai_harness.Domain.EffectState.{EffectState, to_wire}
use ai_harness.Store.Models.{EffectRow}
use ai_harness.Store.Kernel.{KernelTxn, fits, out_of_range}
use ai_harness.Store.Outbox.{stage}
use ai_harness.Store.Effects.{
  get_effect, effect_key, token_of, claimable, effect_claimed, claim_effect, claim_effect_found,
  get_effect-claimed, lease_over,
}
use ai_harness.Effects.Record.{can_transition}
use ai_harness.Effects.Executor.{
  ClaimOutcome, claimed, busy, claim, effect_lease_ms, stage_effect_event,
}

-- The row that a claim leaves behind.
abbrev pub taken : ℕ → String → ℕ → EffectRow → EffectRow
taken now executor epoch row = effect_claimed executor epoch (now + effect_lease_ms) now row

-- The transaction that a claim leaves behind.
abbrev pub taken_txn : ℕ → ℕ → String → EffectRow → KernelTxn → KernelTxn
taken_txn now effect_id executor row txn =
    let row' = taken now executor txn.daemon_epoch row in
    (stage_effect_event "EffectClaimed" effect_id row'
      (record txn { effects = put effect_key row' txn.effects })).1

abbrev pub claim_of : ℕ → ℕ → String → KernelTxn → EffectRow → Result ClaimOutcome × KernelTxn
claim_of now effect_id executor txn row =
    if fits txn.daemon_epoch
    then if claimable now row
      then (
        ok (claimed (token_of row + 1) (taken now executor txn.daemon_epoch row)),
        taken_txn now effect_id executor row txn,
      )
      else (ok (busy row), txn)
    else (err out_of_range, txn)

claim_found :
    (now effect_id : ℕ) (executor : String) (txn : KernelTxn) {row : EffectRow}
    → get_effect effect_id txn ≡ some row
    → claim now effect_id executor txn ≡ claim_of now effect_id executor txn row
unfolding claim stage
claim_found now effect_id executor txn {row} found = ground (
  arith,
  found,
  claim_effect_found effect_id executor txn.daemon_epoch (now + effect_lease_ms) now txn {row = row}
      found,
  get_effect-claimed effect_id executor txn.daemon_epoch (now + effect_lease_ms) now txn {row = row}
      found,
)

claim_missing :
    (now effect_id : ℕ) (executor : String) (txn : KernelTxn)
    → get_effect effect_id txn ≡ none
    → (e : KernelError) × (claim now effect_id executor txn ≡ (err e, txn))
unfolding claim claim_effect update
claim_missing now effect_id executor txn missing = elim (Bool-cases (fits txn.daemon_epoch)) [
  | inl fit ↦ (fault not_found "effect does not exist", ground (arith, missing, fit))
  | inr wide ↦ (out_of_range, ground (arith, missing, wide))
]

-- A claim changes nothing, or hands the effect over.
pub claim_cases :
    (now effect_id : ℕ) (executor : String) (txn : KernelTxn)
    → ((e : KernelError) × (claim now effect_id executor txn ≡ (err e, txn)))
      ⊎ ((row : EffectRow) × (get_effect effect_id txn ≡ some row)
          × (claim now effect_id executor txn ≡ (ok (busy row), txn)))
      ⊎ ((row : EffectRow) × (get_effect effect_id txn ≡ some row)
          × (claimable now row ≡ true)
          × (claim now effect_id executor txn ≡ (
            ok (claimed (token_of row + 1) (taken now executor txn.daemon_epoch row)),
            taken_txn now effect_id executor row txn,
          )))
claim_cases now effect_id executor txn = elim (Option-cases (get_effect effect_id txn)) [
  | inl missing ↦ inl (claim_missing now effect_id executor txn missing)
  | inr (row, found) ↦
      let e = claim_found now effect_id executor txn {row = row} found in
      elim (Bool-cases (fits txn.daemon_epoch)) [
        | inr wide ↦ inl (out_of_range, e ∙ ground (arith, wide))
        | inl fit ↦ elim (Bool-cases (claimable now row)) [
          | inl may ↦ inr (inr (row, found, may, e ∙ ground (arith, fit, may)))
          | inr held ↦ inr (inl (row, found, e ∙ ground (arith, fit, held)))
        ]
      ]
]

-- The states from which the claiming statement takes a row are the states from which `Claimed` may be reached.
pub claimable_legal :
    (now : ℕ) (row : EffectRow)
    → claimable now row ≡ true
    → can_transition row.state EffectState.claimed ≡ true
unfolding claimable can_transition to_wire
claimable_legal now row h = ground arith

-- What the claiming statement's condition says of a row.
abbrev pub IsFree : ℕ → EffectRow → Type 0
IsFree now row =
    (row.state ≡ EffectState.prepared)
    ⊎ ((row.state ≡ EffectState.claimed) × (lease_over row.lease_expires_ms now ≡ true))

claimable-IsFree : (now : ℕ) (row : EffectRow) → claimable now row ≡ true → IsFree now row
unfolding claimable to_wire
claimable-IsFree now row h = ground arith

abbrev given_token : Result ClaimOutcome → ℕ
given_token (ok (claimed token row)) = token
given_token _ = 0

abbrev given_row : EffectRow → Result ClaimOutcome → EffectRow
given_row default (ok (claimed token row)) = row
given_row default _ = default

not_given : {token : ℕ} (row : EffectRow) {e : KernelError} → ok (claimed token row) ≡ err e → ⊥
not_given row h = cc

not_busy : {token : ℕ} {row row' : EffectRow} → ok (claimed token row) ≡ ok (busy row') → ⊥
not_busy h = cc

-- A claim that hands an effect over found it `Prepared`, or `Claimed` with a lease that had run out; the new token is one more than the one on the row (0 where it had none), the row then has the claimant, that token, the daemon's epoch and a lease of thirty seconds, and apart from that row and one staged event the transaction is as before.
pub claim_hands_over :
    (now effect_id : ℕ) (executor : String) (txn txn' : KernelTxn) (token : ℕ) (row' : EffectRow)
    → claim now effect_id executor txn ≡ (ok (claimed token row'), txn')
    → (row : EffectRow) × (get_effect effect_id txn ≡ some row)
      × IsFree now row
      × (token ≡ token_of row + 1)
      × (row' ≡ taken now executor txn.daemon_epoch row)
      × (txn' ≡ taken_txn now effect_id executor row txn)
claim_hands_over now effect_id executor txn txn' token row' h =
    elim (claim_cases now effect_id executor txn) [
      | inl (e, refused) ↦ absurd (not_given row' (ap (λ r. r.0) (sym h ∙ refused)))
      | inr (inl (row, found, held)) ↦ absurd (not_busy (ap (λ r. r.0) (sym h ∙ held)))
      | inr (inr (row, found, may, done)) ↦
          let same = sym h ∙ done in
          (
            row,
            found,
            claimable-IsFree now row may,
            ap (λ r. given_token r.0) same,
            ap (λ r. given_row row' r.0) same,
            ap (λ r. r.1) same,
          )
    ]
