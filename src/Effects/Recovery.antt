-- ===== src/Effects/Recovery.antt =====
-- What reconciliation (crates/effects/src/reconcile.rs) makes of an effect whose response was lost.
use ai_harness.Base.{
  ℕ, true, Option, none, some, String, ◌≡◌, refl, ◌≢◌, inl, inr, arith, ◌∙◌, ◌==◌, if◌then◌else◌,
  Bool-cases,
}
use ai_harness.Base.Txn.{ok}
use ai_harness.Domain.EffectState.{EffectState, to_wire, to_wire_injective}
use ai_harness.Store.Models.{EffectRow}
use ai_harness.Store.Kernel.{KernelTxn, fits, fits?}
use ai_harness.Store.Outbox.{stage}
use ai_harness.Store.Effects.{get_effect, effect_patched, get_effect-patched}
use ai_harness.Effects.Record.{can_transition}
use ai_harness.Effects.Contract.{is_safely_redispatchable}
use ai_harness.Effects.Executor.{
  ExecutorRef, Transition, transition, commit, to_committed, to_acknowledged, to_failed, to_unknown,
}
use ai_harness.Effects.Moves.{transition_found, changed, changed_txn, Holds}
use ai_harness.Effects.Reconcile.{
  ObservedOutcome, succeeded, failed, not_found, unknown, ReconcilePlan, settle, redispatch, park,
  persisted_contract, reconcile_plan, apply_plan, apply_observed, to_prepared,
}
use ai_harness.Effects.Progress.{IsPlain}

-- The state in which an observation leaves a dispatched effect.
abbrev pub settled_state : EffectRow → ObservedOutcome → EffectState
settled_state row (succeeded result_ref) = EffectState.committed
settled_state row (failed error_code) = EffectState.failed
settled_state row not_found =
    if is_safely_redispatchable (persisted_contract row)
    then EffectState.prepared
    else EffectState.unknown
settled_state row unknown = EffectState.unknown

-- An unowned transition along a legal edge goes through.
unowned_moves :
    (now id : ℕ) (t : Transition) (txn : KernelTxn) {row : EffectRow}
    → get_effect id txn ≡ some row
    → fits? row.executor_fencing_token ≡ true
    → can_transition row.state t.to ≡ true
    → IsPlain t
    → fits? t.patch.daemon_fencing_epoch ≡ true
    → transition now id none t txn ≡ (ok (changed t row), changed_txn id t row txn)
unowned_moves now id t txn {row} found fit legal (state, token) epoch =
    transition_found now id none t txn {row = row} found ∙ ground (arith, fit, legal, token, epoch)

changed_there :
    (id : ℕ) (t : Transition) (txn : KernelTxn) {row : EffectRow}
    → get_effect id txn ≡ some row
    → get_effect id (changed_txn id t row txn) ≡ some (changed t row)
unfolding stage
changed_there id t txn {row} found = get_effect-patched id t.patch txn {row = row} found

-- A dispatched effect whose provider reports success is acknowledged, then committed.
success_commits :
    (now id : ℕ) (ref : String) (txn : KernelTxn) {row : EffectRow}
    → get_effect id txn ≡ some row
    → fits? row.executor_fencing_token ≡ true
    → row.state ≡ EffectState.dispatched
    → (row' : EffectRow) × ((apply_plan now id (settle (succeeded ref)) txn).0 ≡ ok row')
      × (row'.state ≡ EffectState.committed)
unfolding effect_patched can_transition stage
success_commits now id ref txn {row} found fit state =
    let a = to_acknowledged (some ref) in
    let one = unowned_moves now id a txn {row = row} found fit (rw state refl) (refl, refl) refl in
    let two =
      unowned_moves now id (to_committed none) (changed_txn id a row txn) {row = changed a row}
        (changed_there id a txn {row = row} found) fit refl (refl, refl) refl in
    (changed (to_committed none) (changed a row), ground (arith, one, two), refl)

-- The end of a plan that is one transition.
one_move :
    (now id : ℕ) (t : Transition) (plan : ReconcilePlan) (txn : KernelTxn) {row : EffectRow}
    → ((apply_plan now id plan txn).0 ≡ (transition now id none t txn).0)
    → get_effect id txn ≡ some row
    → fits? row.executor_fencing_token ≡ true
    → can_transition row.state t.to ≡ true
    → IsPlain t
    → fits? t.patch.daemon_fencing_epoch ≡ true
    → (row' : EffectRow) × ((apply_plan now id plan txn).0 ≡ ok row') × (row'.state ≡ t.to)
unfolding effect_patched
one_move now id t plan txn {row} same found fit legal (state, token) epoch =
    let one = unowned_moves now id t txn {row = row} found fit legal (state, token) epoch in
    (changed t row, cc (same, one), rw state refl)

failure_fails :
    (now id : ℕ) (code : String) (txn : KernelTxn) {row : EffectRow}
    → get_effect id txn ≡ some row
    → fits? row.executor_fencing_token ≡ true
    → row.state ≡ EffectState.dispatched
    → (row' : EffectRow) × ((apply_plan now id (settle (failed code)) txn).0 ≡ ok row')
      × (row'.state ≡ EffectState.failed)
unfolding effect_patched can_transition stage
failure_fails now id code txn {row} found fit state =
    let one =
      unowned_moves now id (to_failed code) txn {row = row} found fit (rw state refl) (refl, refl)
        refl in
    (changed (to_failed code) row, ground (arith, one), refl)

planned :
    (now id : ℕ) (observed : ObservedOutcome) (txn : KernelTxn) {row : EffectRow}
    → get_effect id txn ≡ some row
    → fits? row.executor_fencing_token ≡ true
    → row.state ≡ EffectState.dispatched
    → (row' : EffectRow) × ((apply_plan now id (reconcile_plan row observed) txn).0 ≡ ok row')
      × (row'.state ≡ settled_state row observed)
unfolding reconcile_plan to_wire can_transition
planned now id (succeeded ref) txn {row} found fit state =
    rw state (success_commits now id ref txn {row = row} found fit state)
planned now id (failed code) txn {row} found fit state =
    rw state (failure_fails now id code txn {row = row} found fit state)
planned now id unknown txn {row} found fit state = rw state (
    one_move now id to_unknown park txn {row = row} refl found fit (rw state refl) (refl, refl)
      refl)
planned now id not_found txn {row} found fit state =
    elim (Bool-cases (is_safely_redispatchable (persisted_contract row))) [
      | inl safe ↦
          rw (state, safe)
            (one_move now id to_prepared redispatch txn {row = row} refl found fit (rw state refl)
              (refl, refl) refl)
      | inr unsafe ↦
          rw (state, unsafe)
            (one_move now id to_unknown park txn {row = row} refl found fit (rw state refl)
              (refl, refl) refl)
    ]

observed_dispatched :
    (now id : ℕ) (plan : ReconcilePlan) (txn : KernelTxn) {row : EffectRow}
    → get_effect id txn ≡ some row
    → row.state ≡ EffectState.dispatched
    → apply_observed now id plan txn ≡ apply_plan now id plan txn
unfolding apply_observed
observed_dispatched now id plan txn {row} found state =
    let same : (to_wire row.state == to_wire EffectState.dispatched) ≡ true =
      ground (arith, state) in
    ground (arith, found, same)

-- Reconciling a dispatched effect always goes through, where its token is one that a column holds, and the observation decides the state it ends in: success commits it, failure fails it, and an effect that the provider has no record of is prepared again only if its persisted contract lets the operation be sent twice; every inconclusive case parks it as unknown.
pub reconcile_settles :
    (now id : ℕ) (observed : ObservedOutcome) (txn : KernelTxn) (row : EffectRow)
    → get_effect id txn ≡ some row
    → fits? row.executor_fencing_token ≡ true
    → row.state ≡ EffectState.dispatched
    → (row' : EffectRow) × ((apply_observed now id (reconcile_plan row observed) txn).0 ≡ ok row')
      × (row'.state ≡ settled_state row observed)
reconcile_settles now id observed txn row found fit state =
    let (row', done, last) = planned now id observed txn {row = row} found fit state in
    let same =
      observed_dispatched now id (reconcile_plan row observed) txn {row = row} found state in
    (row', cc (same, done), last)

-- Reconciliation leaves an effect that is not dispatched as it is, and the transaction with it: whatever the plan says, a settled effect stays settled and an unknown one stays unknown.
pub reconcile_leaves_others :
    (now id : ℕ) (plan : ReconcilePlan) (txn : KernelTxn) (row : EffectRow)
    → get_effect id txn ≡ some row
    → row.state ≢ EffectState.dispatched
    → apply_observed now id plan txn ≡ (ok row, txn)
unfolding apply_observed
reconcile_leaves_others now id plan txn row found other =
    elim (Bool-cases (to_wire row.state == to_wire EffectState.dispatched)) [
      | inl same ↦
          absurd (other (to_wire_injective row.state EffectState.dispatched (ground (arith, same))))
      | inr differs ↦ ground (arith, found, differs)
    ]

-- An executor that holds an effect whose outcome is unknown can still commit it, where the token is one that a column holds: the operator's resolution is not the only way out of that state.
pub unknown_commits :
    (now id : ℕ) (e : ExecutorRef) (ref : Option String) (txn : KernelTxn) (row : EffectRow)
    → get_effect id txn ≡ some row
    → row.state ≡ EffectState.unknown
    → Holds row (some e) now txn.daemon_epoch
    → fits e.fencing_token ≡ true
    → (commit now id e ref txn).0 ≡ ok (changed (to_committed ref) row)
unfolding commit can_transition
unknown_commits now id e ref txn row found state (who, token, epoch, live) fit =
    let legal : can_transition row.state EffectState.committed ≡ true = rw state refl in
    ground (
      arith,
      transition_found now id (some e) (to_committed ref) txn {row = row} found,
      legal,
      who,
      token,
      epoch,
      live,
      fit,
    )
