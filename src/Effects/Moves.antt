-- ===== src/Effects/Moves.antt =====
-- What `transition` and `verify_executor` of crates/effects/src/executor.rs do on every branch.
use ai_harness.Base.{
  ℕ, true, false, ◌&&◌, Option, none, some, ◌≡◌, if◌then◌else◌, arith, Option-cases, Bool-cases,
  inl, inr, opt_str_is, opt_is, ◌⊎◌, ◌∙◌,
}
use ai_harness.Base.Txn.{
  ok_not_err, Result, ok, err, Result-cases, KernelError, fault, not_found, conflict,
  failed_precondition,
}
use ai_harness.Base.Table.{put}
use ai_harness.Store.Models.{EffectRow}
use ai_harness.Store.Kernel.{KernelTxn, fits?, out_of_range}
use ai_harness.Store.Outbox.{stage}
use ai_harness.Store.Effects.{
  get_effect, effect_key, effect_patched, transition_holds, lease_over, cas_transition_found,
  get_effect-patched,
}
use ai_harness.Effects.Record.{can_transition}
use ai_harness.Effects.Executor.{
  ExecutorRef, Transition, transition, verify_executor, expected_token, stale_executor,
  stage_effect_event,
}

-- The executor named by a caller is the one that holds the row, in this epoch and in time.
abbrev pub Holds : EffectRow → Option ExecutorRef → ℕ → ℕ → Type 0
Holds row none now epoch = Unit {0}
Holds row (some e) now epoch =
    (opt_str_is row.executor_id e.executor_id ≡ true)
    × (row.executor_fencing_token ≡ some e.fencing_token)
    × (row.daemon_fencing_epoch ≡ some epoch)
    × (lease_over row.lease_expires_ms now ≡ false)

abbrev expected_of : EffectRow → Option ExecutorRef → ℕ → ℕ → Result (Option ℕ)
expected_of row none now epoch = ok row.executor_fencing_token
expected_of row (some e) now epoch =
    if opt_str_is row.executor_id e.executor_id
    then if opt_is row.executor_fencing_token e.fencing_token
      then if opt_is row.daemon_fencing_epoch epoch
        then if lease_over row.lease_expires_ms now
          then err (fault conflict "executor lease has expired")
          else ok (some e.fencing_token)
        else err (fault conflict "executor daemon fencing epoch is stale")
      else err stale_executor
    else err stale_executor

expected_token-pure :
    (row : EffectRow) (executor : Option ExecutorRef) (now : ℕ) (txn : KernelTxn)
    → expected_token row executor now txn ≡ (expected_of row executor now txn.daemon_epoch, txn)
unfolding verify_executor
expected_token-pure row executor now txn = ground arith

-- The row that a transition leaves behind.
abbrev pub changed : Transition → EffectRow → EffectRow
changed t row = effect_patched t.patch row

-- The transaction that a transition leaves behind.
abbrev pub changed_txn : ℕ → Transition → EffectRow → KernelTxn → KernelTxn
changed_txn effect_id t row txn =
    (stage_effect_event t.event_type effect_id (changed t row)
      (record txn { effects = put effect_key (changed t row) txn.effects })).1

-- The part of the function behind the checks.
abbrev pub written_of :
    ℕ → Transition → KernelTxn → EffectRow → Option ℕ → Result EffectRow × KernelTxn
written_of effect_id t txn row token =
    if fits? token && (fits? t.patch.executor_fencing_token && fits? t.patch.daemon_fencing_epoch)
    then (ok (changed t row), changed_txn effect_id t row txn)
    else (err out_of_range, txn)

abbrev pub transition_of :
    ℕ → ℕ → Option ExecutorRef → Transition → KernelTxn → EffectRow → Result EffectRow × KernelTxn
transition_of now effect_id executor t txn row =
    if can_transition row.state t.to
    then elim (expected_of row executor now txn.daemon_epoch) [
      | err e ↦ (err e, txn)
      | ok token ↦ written_of effect_id t txn row token
    ]
    else (err (fault failed_precondition "illegal effect transition"), txn)

same_token :
    (row : EffectRow) (executor : Option ExecutorRef) (now epoch : ℕ) (token : Option ℕ)
    → expected_of row executor now epoch ≡ ok token
    → transition_holds row.state token row ≡ true
unfolding transition_holds
same_token row executor now epoch token h = ground arith

pub transition_found :
    (now effect_id : ℕ) (executor : Option ExecutorRef) (t : Transition) (txn : KernelTxn)
    {row : EffectRow}
    → get_effect effect_id txn ≡ some row
    → transition now effect_id executor t txn ≡ transition_of now effect_id executor t txn row
unfolding transition stage
transition_found now effect_id executor t txn {row} found =
    let pass = expected_token-pure row executor now txn in
    elim (Result-cases (expected_of row executor now txn.daemon_epoch)) [
      | inl (token, passed) ↦
          let holds = same_token row executor now txn.daemon_epoch token passed in
          ground (
            arith,
            found,
            pass,
            passed,
            holds,
            cas_transition_found effect_id row.state token t.patch txn {row = row} found,
            get_effect-patched effect_id t.patch txn {row = row} found,
          )
      | inr (e, refused) ↦ ground (arith, found, pass, refused)
    ]

transition_missing :
    (now effect_id : ℕ) (executor : Option ExecutorRef) (t : Transition) (txn : KernelTxn)
    → get_effect effect_id txn ≡ none
    → transition now effect_id executor t txn ≡ (err (fault not_found "effect does not exist"), txn)
unfolding transition
transition_missing now effect_id executor t txn missing = ground (arith, missing)

Holds-expected :
    (row : EffectRow) (executor : Option ExecutorRef) (now epoch : ℕ) (token : Option ℕ)
    → expected_of row executor now epoch ≡ ok token
    → Holds row executor now epoch
Holds-expected row none now epoch token h = tt
Holds-expected row (some e) now epoch token h =
    (ground arith, ground arith, ground arith, ground arith)

-- A transition changes nothing and reports why, or does the whole of its work.
pub transition_cases :
    (now effect_id : ℕ) (executor : Option ExecutorRef) (t : Transition) (txn : KernelTxn)
    → ((e : KernelError) × (transition now effect_id executor t txn ≡ (err e, txn)))
      ⊎ ((row : EffectRow) × (get_effect effect_id txn ≡ some row)
          × (can_transition row.state t.to ≡ true)
          × Holds row executor now txn.daemon_epoch
          × (transition now effect_id executor t txn
              ≡ (ok (changed t row), changed_txn effect_id t row txn)))
transition_cases now effect_id executor t txn = elim (Option-cases (get_effect effect_id txn)) [
  | inl missing ↦ inl (
    fault not_found "effect does not exist",
    transition_missing now effect_id executor t txn missing,
  )
  | inr (row, found) ↦
      let e = transition_found now effect_id executor t txn {row = row} found in
      elim (Bool-cases (can_transition row.state t.to)) [
        | inr illegal ↦
            inl (fault failed_precondition "illegal effect transition", e ∙ ground (arith, illegal))
        | inl legal ↦ elim (Result-cases (expected_of row executor now txn.daemon_epoch)) [
          | inr (why, refused) ↦ inl (why, e ∙ ground (arith, legal, refused))
          | inl (token, passed) ↦
              elim (Bool-cases (
                fits? token
                && (fits? t.patch.executor_fencing_token && fits? t.patch.daemon_fencing_epoch))) [
                  | inr wide ↦ inl (out_of_range, e ∙ ground (arith, legal, passed, wide))
                  | inl fit ↦ inr (
                    row,
                    found,
                    legal,
                    Holds-expected row executor now txn.daemon_epoch token passed,
                    e ∙ ground (arith, legal, passed, fit),
                  )
                ]
        ]
      ]
]

-- A transition that succeeds found the effect in a state from which the new one may be reached, and, where it is made in an executor's name, found that executor's identity, its token, this daemon's epoch and an unexpired lease on the row; it writes the patch to that one row and stages one event of it, and leaves the rest of the transaction as it was.
pub transition_fenced :
    (now effect_id : ℕ) (executor : Option ExecutorRef) (t : Transition) (txn txn' : KernelTxn)
    (row' : EffectRow)
    → transition now effect_id executor t txn ≡ (ok row', txn')
    → (row : EffectRow) × (get_effect effect_id txn ≡ some row)
      × (can_transition row.state t.to ≡ true)
      × Holds row executor now txn.daemon_epoch
      × (row' ≡ changed t row)
      × (txn' ≡ changed_txn effect_id t row txn)
transition_fenced now effect_id executor t txn txn' row' h =
    elim (transition_cases now effect_id executor t txn) [
      | inl (e, refused) ↦ absurd (ok_not_err h refused)
      | inr (row, found, legal, holds, done) ↦ (row, found, legal, holds, cc, cc)
    ]

-- A transition that is refused leaves the transaction as it was.
pub transition_refused_unchanged :
    (now effect_id : ℕ) (executor : Option ExecutorRef) (t : Transition) (txn : KernelTxn)
    {e : KernelError}
    → (transition now effect_id executor t txn).0 ≡ err e
    → (transition now effect_id executor t txn).1 ≡ txn
transition_refused_unchanged now effect_id executor t txn h =
    elim (transition_cases now effect_id executor t txn) [
      | inl (e, refused) ↦ cc
      | inr (row, found, legal, holds, done) ↦ cc
    ]
