-- ===== src/Examples/Effects.antt =====
-- Effects at concrete inputs.
use ai_harness.Base.{
  ℕ, ◌+◌, ◌≤◌, ◌<◌, true, false, Option, none, some, [], ◌∷◌, ◌≡◌, refl, ◌≢◌, ◌⊎◌, inl, inr, All,
  arith,
}
use ai_harness.Base.Txn.{ok, err, KernelError, fault, failed_precondition}
use ai_harness.Domain.Effect.{IdempotencySemantics}
use ai_harness.Domain.EffectState.{EffectState}
use ai_harness.Domain.Security.{untrusted, passed}
use ai_harness.Store.Models.{EffectRow}
use ai_harness.Store.Kernel.{KernelTxn, effect_stream, effect_record}
use ai_harness.Store.Outbox.{stage, last_sequence}
use ai_harness.Store.Positions.{IsContiguous, stage-IsContiguous}
use ai_harness.Store.Effects.{get_effect, token_of}
use ai_harness.Effects.Record.{can_transition}
use ai_harness.Effects.Contract.{is_safely_redispatchable}
use ai_harness.Effects.Executor.{
  ExecutorRef, transition, claim, claimed, commit, to_dispatched, to_committed, acknowledge,
}
use ai_harness.Effects.Moves.{
  Holds, changed, changed_txn, transition_fenced, transition_refused_unchanged,
}
use ai_harness.Effects.Claims.{IsFree, taken, taken_txn, claim_hands_over}
use ai_harness.Effects.Progress.{Leads}
use ai_harness.Effects.History.{nothing, then_step, restarts}
use ai_harness.Effects.Fencing.{effect_only_advances, settled_stays, claim_fences}
use ai_harness.Effects.Reconcile.{not_found, reconcile_plan, apply_observed}
use ai_harness.Effects.Recovery.{settled_state, reconcile_settles, unknown_commits}
use ai_harness.Effects.Policy.{
  DeclaredSemantics, ResolveInputs, resolve, no_declaration, kernel_declared, sources_of,
}
use ai_harness.Effects.Axes.{Contributes}
use ai_harness.Effects.Evidence.{IsSafe, redispatch_needs_evidence}
use ai_harness.Examples.Data.{kernel, with_effect, effect_in}

abbrev worker : ExecutorRef
worker = record { executor_id = "worker"; fencing_token = 2 }

abbrev held : EffectRow
held = effect_in EffectState.claimed

abbrev claimed_txn : KernelTxn
claimed_txn = with_effect EffectState.claimed

dispatches_5 :
    transition 400 5 (some worker) (to_dispatched none) claimed_txn
    ≡ (ok (changed (to_dispatched none) held), changed_txn 5 (to_dispatched none) held claimed_txn)
unfolding transition ai_harness.Base.Table.find can_transition
    ai_harness.Effects.Executor.verify_executor ai_harness.Store.Effects.cas_transition
    ai_harness.Base.Table.update ai_harness.Store.Effects.transition_holds
    ai_harness.Domain.EffectState.to_wire ai_harness.Base.Table.put
    ai_harness.Store.Effects.effect_patched stage
dispatches_5 = refl

transition_fenced_example :
    (row : EffectRow) × (get_effect 5 claimed_txn ≡ some row)
    × (can_transition row.state EffectState.dispatched ≡ true)
    × Holds row (some worker) 400 1
    × (changed (to_dispatched none) held ≡ changed (to_dispatched none) row)
    × (changed_txn 5 (to_dispatched none) held claimed_txn
        ≡ changed_txn 5 (to_dispatched none) row claimed_txn)
transition_fenced_example =
    transition_fenced 400 5 (some worker) (to_dispatched none) claimed_txn
      (changed_txn 5 (to_dispatched none) held claimed_txn) (changed (to_dispatched none) held)
      dispatches_5

illegal_5 :
    (transition 400 5 (some worker) (to_committed none) claimed_txn).0
    ≡ err (fault failed_precondition "illegal effect transition")
unfolding transition ai_harness.Base.Table.find can_transition
illegal_5 = refl

transition_refused_unchanged_example :
    (transition 400 5 (some worker) (to_committed none) claimed_txn).1 ≡ claimed_txn
transition_refused_unchanged_example =
    transition_refused_unchanged 400 5 (some worker) (to_committed none) claimed_txn illegal_5

-- The lease of the worker has run out at 600; another executor takes the effect over, twice.
abbrev first_row : EffectRow
first_row = taken 600 "b" 1 held

abbrev first_txn : KernelTxn
first_txn = taken_txn 600 5 "b" held claimed_txn

claims_5 : claim 600 5 "b" claimed_txn ≡ (ok (claimed 3 first_row), first_txn)
unfolding claim ai_harness.Store.Effects.claim_effect ai_harness.Base.Table.find
    ai_harness.Base.Table.update ai_harness.Store.Effects.claimable
    ai_harness.Domain.EffectState.to_wire ai_harness.Base.Table.put
    ai_harness.Store.Effects.effect_claimed stage
claims_5 = refl

claim_hands_over_example :
    (row : EffectRow) × (get_effect 5 claimed_txn ≡ some row)
    × IsFree 600 row
    × (3 ≡ token_of row + 1)
    × (first_row ≡ taken 600 "b" 1 row)
    × (first_txn ≡ taken_txn 600 5 "b" row claimed_txn)
claim_hands_over_example = claim_hands_over 600 5 "b" claimed_txn first_txn 3 first_row claims_5

abbrev second_row : EffectRow
second_row = taken 99000 "c" 1 first_row

abbrev second_txn : KernelTxn
second_txn = taken_txn 99000 5 "c" first_row first_txn

claims_again : claim 99000 5 "c" first_txn ≡ (ok (claimed 4 second_row), second_txn)
unfolding claim ai_harness.Store.Effects.claim_effect stage ai_harness.Base.Table.find
    ai_harness.Base.Table.update ai_harness.Base.Table.put ai_harness.Store.Effects.effect_claimed
    ai_harness.Store.Effects.claimable ai_harness.Domain.EffectState.to_wire
claims_again = refl

claim_fences_example :
    (3 < 4)
    × ((why : KernelError) × (transition 99001 5
            (some (record { executor_id = "b"; fencing_token = 3 }))
            (to_dispatched none)
            second_txn
          ≡ (err why, second_txn)))
claim_fences_example =
    claim_fences 5 600 99000 99001 "b" "c" (to_dispatched none) 3 4 first_row second_row claimed_txn
      first_txn first_txn second_txn second_txn claims_5 nothing claims_again nothing

abbrev restarted : KernelTxn
restarted = record claimed_txn { daemon_epoch = 2 }

effect_only_advances_example :
    (row' : EffectRow) × (get_effect 5 restarted ≡ some row')
    × Leads EffectState.claimed row'.state
    × (2 ≤ token_of row')
unfolding ai_harness.Base.Table.find
effect_only_advances_example =
    effect_only_advances 5 claimed_txn restarted held refl (then_step nothing (restarts 2))

abbrev done_txn : KernelTxn
done_txn = with_effect EffectState.committed

settled_stays_example :
    (row' : EffectRow) × (get_effect 5 (record done_txn { daemon_epoch = 2 }) ≡ some row')
    × (row'.state ≡ EffectState.committed)
unfolding ai_harness.Base.Table.find ai_harness.Effects.Record.is_terminal
settled_stays_example =
    settled_stays 5 done_txn (record done_txn { daemon_epoch = 2 })
      (effect_in EffectState.committed) refl refl (then_step nothing (restarts 2))

abbrev sent : EffectRow
sent = effect_in EffectState.dispatched

-- The operation carries an idempotency key, so an effect that the provider never saw is prepared again.
reconcile_settles_example :
    (row' : EffectRow) × ((apply_observed 400 5
        (reconcile_plan sent not_found)
        (with_effect EffectState.dispatched)).0
      ≡ ok row')
    × (row'.state ≡ settled_state sent not_found)
unfolding ai_harness.Base.Table.find
reconcile_settles_example =
    reconcile_settles 400 5 not_found (with_effect EffectState.dispatched) sent refl refl refl

unknown_commits_example :
    (commit 400 5 worker none (with_effect EffectState.unknown)).0
    ≡ ok (changed (to_committed none) (effect_in EffectState.unknown))
unfolding ai_harness.Base.Table.find
unknown_commits_example =
    unknown_commits 400 5 worker none (with_effect EffectState.unknown)
      (effect_in EffectState.unknown) refl refl (refl, refl, refl, refl) refl

abbrev fixture : DeclaredSemantics
fixture = kernel_declared "fixture.increment_counter"

-- A claim of full idempotency by an adapter that nobody trusts.
abbrev boast : DeclaredSemantics
boast = record no_declaration { idempotency = some IdempotencySemantics.naturally_idempotent }

abbrev inputs : ResolveInputs
inputs = record {
  kernel = some fixture;
  claim = some boast;
  trust = untrusted;
  conformance = passed;
  policy = none;
}

redispatch_needs_evidence_example :
    ((s : DeclaredSemantics) × Contributes inputs s × IsSafe s.idempotency)
    × All (λ s. (s.idempotency ≡ none) ⊎ IsSafe s.idempotency) (sources_of inputs)
unfolding resolve is_safely_redispatchable ai_harness.Base.Select.max_by_key
    ai_harness.Base.Select.filter_map kernel_declared ai_harness.Base.Select.max_from
redispatch_needs_evidence_example = redispatch_needs_evidence inputs refl

stage-IsContiguous_example :
    ((stage (effect_stream 5) "EffectClaimed" (effect_record held) kernel).0 ≡ ok 1)
    × IsContiguous
        (effect_stream 5)
        (stage (effect_stream 5) "EffectClaimed" (effect_record held) kernel).1
unfolding last_sequence ai_harness.Store.Positions.up_to ai_harness.Store.Positions.positions
stage-IsContiguous_example =
    stage-IsContiguous (effect_stream 5) (effect_stream 5) "EffectClaimed" (effect_record held)
      kernel refl
