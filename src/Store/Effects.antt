-- ===== src/Store/Effects.antt =====
-- crates/kernel-store-sqlite/src/repos/effects.rs and effect_claims.rs: the compare-and-set
-- transition of an effect and the atomic claim.
use ai_harness.Base.{
  ℕ, ◌+◌, Bool, true, false, ◌&&◌, ◌||◌, Option, none, some, String, ◌==◌, leb, ◌≡◌, ◌⊎◌, inl, inr,
  Bool-cases, arith, coalesce, coalesce?, if◌then◌else◌,
}
use ai_harness.Base.Table.{find, put, update, update_cases, update_found, find-put, key-find}
use ai_harness.Base.Txn.{Result, Txn, ok, err, ◌>>◌}
use ai_harness.Domain.EffectState.{EffectState, to_wire}
use ai_harness.Store.Models.{EffectRow, EffectPatch}
use ai_harness.Store.Kernel.{KernelTxn, fits, fits?, encode, out_of_range}

abbrev pub effect_key : EffectRow → ℕ
effect_key row = row.effect_id

abbrev pub get_effect : ℕ → KernelTxn → Option EffectRow
get_effect id txn = find effect_key id txn.effects

-- `?11 IS NULL OR executor_fencing_token = ?11`; a null column equals nothing.
abbrev pub token_expected : Option ℕ → Option ℕ → Bool
token_expected none t = true
token_expected (some e) none = false
token_expected (some e) (some t) = t == e

unfoldable pub transition_holds : EffectState → Option ℕ → EffectRow → Bool
transition_holds expect_state expect_token row =
    to_wire row.state == to_wire expect_state
    && token_expected expect_token row.executor_fencing_token

unfoldable pub effect_patched : EffectPatch → EffectRow → EffectRow
effect_patched p row = record row {
  state = coalesce p.state row.state;
  executor_id = coalesce? p.executor_id row.executor_id;
  executor_fencing_token = coalesce? p.executor_fencing_token row.executor_fencing_token;
  daemon_fencing_epoch = coalesce? p.daemon_fencing_epoch row.daemon_fencing_epoch;
  lease_expires_ms = coalesce? p.lease_expires_ms row.lease_expires_ms;
  provider_operation_ref = coalesce? p.provider_operation_ref row.provider_operation_ref;
  result_ref = coalesce? p.result_ref row.result_ref;
  error_code = coalesce? p.error_code row.error_code;
}

-- `UPDATE effects SET … WHERE effect_id = ?9 AND state = ?10 AND …`.
unfoldable pub cas_transition : ℕ → EffectState → Option ℕ → EffectPatch → Txn KernelTxn Bool
cas_transition id expect_state expect_token patch = do
  encode (
      fits? expect_token
      && (fits? patch.executor_fencing_token && fits? patch.daemon_fencing_epoch))
  λ txn.
      let u =
        update effect_key id (transition_holds expect_state expect_token) (effect_patched patch)
          txn.effects in
      (ok u.1, record txn { effects = u.0 })

-- `lease_expires_ms <= ?5`; a null lease compares as false.
abbrev pub lease_over : Option ℕ → ℕ → Bool
lease_over none now_ms = false
lease_over (some e) now_ms = leb e now_ms

-- `state = Prepared OR (state = Claimed AND lease_expires_ms <= now)`.
unfoldable pub claimable : ℕ → EffectRow → Bool
claimable now_ms row =
    to_wire row.state == to_wire EffectState.prepared
    || (to_wire row.state == to_wire EffectState.claimed && lease_over row.lease_expires_ms now_ms)

-- `COALESCE(executor_fencing_token, 0)`.
abbrev pub token_of : EffectRow → ℕ
token_of row = coalesce row.executor_fencing_token 0

unfoldable pub effect_claimed : String → ℕ → ℕ → ℕ → EffectRow → EffectRow
effect_claimed executor daemon_epoch lease_expires_ms now_ms row = record row {
  state = EffectState.claimed;
  executor_id = some executor;
  executor_fencing_token = some (token_of row + 1);
  daemon_fencing_epoch = some daemon_epoch;
  lease_expires_ms = some lease_expires_ms;
  updated_at_ms = now_ms;
}

-- What `RETURNING executor_fencing_token` yields for the row that was updated.
abbrev pub returning : Bool → Option EffectRow → Option ℕ
returning true (some row) = some (token_of row + 1)
returning _ _ = none

-- The single statement that hands an effect to an executor.
unfoldable pub claim_effect : ℕ → String → ℕ → ℕ → ℕ → Txn KernelTxn (Option ℕ)
claim_effect id executor daemon_epoch lease_expires_ms now_ms = do
  encode (fits daemon_epoch)
  λ txn.
      let u =
        update effect_key id (claimable now_ms)
          (effect_claimed executor daemon_epoch lease_expires_ms now_ms) txn.effects in
      (ok (returning u.1 (get_effect id txn)), record txn { effects = u.0 })

abbrev pub no_effect_patch : EffectPatch
no_effect_patch = record {
  state = none;
  executor_id = none;
  executor_fencing_token = none;
  daemon_fencing_epoch = none;
  lease_expires_ms = none;
  provider_operation_ref = none;
  result_ref = none;
  error_code = none;
}

-- A transition fails on a value out of range, changes nothing, or writes the one row.
pub cas_transition_cases :
    (id : ℕ) (expect_state : EffectState) (expect_token : Option ℕ) (patch : EffectPatch)
    (txn : KernelTxn)
    → (cas_transition id expect_state expect_token patch txn ≡ (err out_of_range, txn))
      ⊎ (cas_transition id expect_state expect_token patch txn ≡ (ok false, txn))
      ⊎ ((row : EffectRow) × (get_effect id txn ≡ some row)
          × (transition_holds expect_state expect_token row ≡ true)
          × (cas_transition id expect_state expect_token patch txn ≡ (
            ok true,
            record txn { effects = put effect_key (effect_patched patch row) txn.effects },
          )))
unfolding cas_transition
cas_transition_cases id expect_state expect_token patch txn =
    let in_range =
      fits? expect_token
      && (fits? patch.executor_fencing_token && fits? patch.daemon_fencing_epoch) in
    elim (Bool-cases in_range) [
      | inr wide ↦ inl (rw wide)
      | inl fit ↦
          elim (update_cases effect_key id (transition_holds expect_state expect_token)
            (effect_patched patch) txn.effects) [
              | inl same ↦ inr (inl (rw (fit, same)))
              | inr (row, found, holds, done) ↦ inr (inr (row, found, holds, rw (fit, done)))
            ]
    ]

-- A claim fails on an epoch out of range, changes nothing, or hands the row over.
pub claim_effect_cases :
    (id : ℕ) (executor : String) (epoch lease now : ℕ) (txn : KernelTxn)
    → (claim_effect id executor epoch lease now txn ≡ (err out_of_range, txn))
      ⊎ (claim_effect id executor epoch lease now txn ≡ (ok none, txn))
      ⊎ ((row : EffectRow) × (get_effect id txn ≡ some row)
          × (claimable now row ≡ true)
          × (claim_effect id executor epoch lease now txn ≡ (
            ok (some (token_of row + 1)),
            record txn {
              effects = put effect_key (effect_claimed executor epoch lease now row) txn.effects;
            },
          )))
unfolding claim_effect
claim_effect_cases id executor epoch lease now txn = elim (Bool-cases (fits epoch)) [
  | inr wide ↦ inl (rw wide)
  | inl fit ↦
      elim (update_cases effect_key id (claimable now) (effect_claimed executor epoch lease now)
        txn.effects) [
          | inl same ↦ inr (inl (rw (fit, same)))
          | inr (row, found, holds, done) ↦ inr (inr (row, found, holds, rw (fit, done, found)))
        ]
]

-- The compare-and-set on a row that is there.
abbrev pub transition_cas_of :
    EffectState → Option ℕ → EffectPatch → KernelTxn → EffectRow → Result Bool × KernelTxn
transition_cas_of expect_state expect_token patch txn row =
    if fits? expect_token
      && (fits? patch.executor_fencing_token && fits? patch.daemon_fencing_epoch)
    then if transition_holds expect_state expect_token row
      then (ok true, record txn { effects = put effect_key (effect_patched patch row) txn.effects })
      else (ok false, txn)
    else (err out_of_range, txn)

pub cas_transition_found :
    (id : ℕ) (expect_state : EffectState) (expect_token : Option ℕ) (patch : EffectPatch)
    (txn : KernelTxn) {row : EffectRow}
    → get_effect id txn ≡ some row
    → cas_transition id expect_state expect_token patch txn
      ≡ transition_cas_of expect_state expect_token patch txn row
unfolding cas_transition
cas_transition_found id expect_state expect_token patch txn {row} found = ground (
  arith,
  update_found effect_key id (transition_holds expect_state expect_token) (effect_patched patch)
      txn.effects {x = row} found,
)

-- The written row is what the table then holds.
pub get_effect-patched :
    (id : ℕ) (patch : EffectPatch) (txn : KernelTxn) {row : EffectRow}
    → get_effect id txn ≡ some row
    → find effect_key id (put effect_key (effect_patched patch row) txn.effects)
      ≡ some (effect_patched patch row)
unfolding effect_patched
get_effect-patched id patch txn {row} found =
    find-put effect_key id (effect_patched patch row) txn.effects found
      (key-find effect_key id txn.effects found)

-- The claiming statement on a row that is there.
abbrev pub claim_cas_of : String → ℕ → ℕ → ℕ → KernelTxn → EffectRow → Result (Option ℕ) × KernelTxn
claim_cas_of executor epoch lease now txn row =
    if fits epoch
    then if claimable now row
      then (
        ok (some (token_of row + 1)),
        record txn {
          effects = put effect_key (effect_claimed executor epoch lease now row) txn.effects;
        },
      )
      else (ok none, txn)
    else (err out_of_range, txn)

pub claim_effect_found :
    (id : ℕ) (executor : String) (epoch lease now : ℕ) (txn : KernelTxn) {row : EffectRow}
    → get_effect id txn ≡ some row
    → claim_effect id executor epoch lease now txn ≡ claim_cas_of executor epoch lease now txn row
unfolding claim_effect
claim_effect_found id executor epoch lease now txn {row} found = ground (
  arith,
  found,
  update_found effect_key id (claimable now) (effect_claimed executor epoch lease now) txn.effects
      {x = row} found,
)

pub claim_effect_missing :
    (id : ℕ) (executor : String) (epoch lease now : ℕ) (txn : KernelTxn)
    → get_effect id txn ≡ none
    → (claim_effect id executor epoch lease now txn).1 ≡ txn
unfolding claim_effect update
claim_effect_missing id executor epoch lease now txn missing = ground (arith, missing)

-- The claimed row is what the table then holds.
pub get_effect-claimed :
    (id : ℕ) (executor : String) (epoch lease now : ℕ) (txn : KernelTxn) {row : EffectRow}
    → get_effect id txn ≡ some row
    → find effect_key id (put effect_key (effect_claimed executor epoch lease now row) txn.effects)
      ≡ some (effect_claimed executor epoch lease now row)
unfolding effect_claimed
get_effect-claimed id executor epoch lease now txn {row} found =
    find-put effect_key id (effect_claimed executor epoch lease now row) txn.effects found
      (key-find effect_key id txn.effects found)
