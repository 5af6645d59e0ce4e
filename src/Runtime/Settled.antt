-- ===== src/Runtime/Settled.antt =====
-- The runs that `cancel` of crates/runtime/src/cancel.rs has settled, and its move of one run.
use ai_harness.Base.{
  ℕ, Option, none, some, String, List, [], ◌∷◌, ◌≡◌, refl, sym, ap, ◌∙◌, ◌⊎◌, inl, inr, arith,
  Option-cases,
}
use ai_harness.Base.Table.{put}
use ai_harness.Base.Evolves.{Evolves}
use ai_harness.Base.Txn.{ok, KernelError, bind_ok, pure, ◌>>◌}
use ai_harness.Domain.RunState.{RunState, cancellation_target}
use ai_harness.Store.Models.{RunRow}
use ai_harness.Store.Kernel.{KernelTxn}
use ai_harness.Store.Runs.{get_run, run_key}
use ai_harness.Store.Outbox.{stage}
use ai_harness.Runtime.Transition.{transition}
use ai_harness.Runtime.Moves.{moved, transition_ok}
use ai_harness.Runtime.Cancel.{cancel_on, moves_to, stage_run_event, get_or}

-- A run that no cancellation moves any more.
abbrev IsSettled : RunRow → Type 0
IsSettled row = cancellation_target row.state ≡ none

-- The run of this identifier is there, and settled.
abbrev pub HasSettled : KernelTxn → ℕ → Type 0
HasSettled txn id = (row : RunRow) × (get_run id txn ≡ some row) × IsSettled row

-- No operation of a cancellation unsettles a run.
abbrev pub Stays : RunRow → RunRow → Type 0
Stays row row' = IsSettled row → IsSettled row'

abbrev pub Settles : KernelTxn → KernelTxn → Type 0
Settles a b = Evolves run_key Stays a.runs b.runs

abbrev pub stays_refl : (row : RunRow) → Stays row row
stays_refl row h = h

-- A pass of the loop that succeeds: its run was settled and nothing changes, or it is written with the
-- target as its state.
unfoldable pub OnePass : ℕ → KernelTxn → KernelTxn → Type 0
OnePass id txn txn' =
    (row : RunRow) × (get_run id txn ≡ some row)
    × ((IsSettled row × (txn' ≡ txn))
        ⊎ ((t : RunState) × (reason : Option String) × (cancellation_target row.state ≡ some t)
            × (txn'.runs ≡ put run_key (moved t reason row) txn.runs)))

the_some : (a b : RunRow) → some a ≡ some b → a ≡ b
the_some a b h = cc

moves_to_ok :
    (id : ℕ) (row : RunRow) (t : RunState) (reason : Option String) (event_type : String)
    (txn txn' : KernelTxn) (out : List ℕ)
    → get_run id txn ≡ some row
    → moves_to id row t reason event_type txn ≡ (ok out, txn')
    → txn'.runs ≡ put run_key (moved t reason row) txn.runs
unfolding stage_run_event stage
moves_to_ok id row t reason event_type txn txn' out found h =
    let (row', txn1, done, rest) =
      bind_ok (transition id row.run_revision t reason txn)
        (λ r. stage_run_event r event_type >> pure (id ∷ [])) out txn' h in
    let (old, there, permitted, rev, is, after) =
      transition_ok id row.run_revision t reason txn txn1 row' done in
    let same : old ≡ row = the_some old row (sym there ∙ found) in
    let kept : txn'.runs ≡ txn1.runs = ground (arith, rest) in
    kept ∙ ap (λ x. x.runs) after ∙ rw (is, same) refl

pub target_is :
    (s t : RunState)
    → cancellation_target s ≡ some t
    → (t ≡ RunState.cancelled) ⊎ (t ≡ RunState.cancelling)
unfolding cancellation_target
target_is s t h = ground arith

pub or_fail_ok :
    (id : ℕ) (e : KernelError) (txn txn1 : KernelTxn) (row : RunRow)
    → get_or id e txn ≡ (ok row, txn1)
    → (get_run id txn ≡ some row) × (txn1 ≡ txn)
or_fail_ok id e txn txn1 row h = elim (Option-cases (get_run id txn)) [
  | inl absent ↦ ground (arith, h, absent)
  | inr (r, there) ↦ (ground (arith, h, there), ground (arith, h, there))
]

pub moved_on :
    (id : ℕ) (reason : Option String) (row : RunRow) (t : RunState) (txn txn' : KernelTxn)
    (out : List ℕ)
    → get_run id txn ≡ some row
    → (t ≡ RunState.cancelled) ⊎ (t ≡ RunState.cancelling)
    → cancel_on id reason row (some t) txn ≡ (ok out, txn')
    → (used : Option String) × (txn'.runs ≡ put run_key (moved t used row) txn.runs)
unfolding cancel_on
moved_on id reason row t txn txn' out found (inl is) h =
    (reason, moves_to_ok id row t reason "RunCancelled" txn txn' out found (rw is (rw is at h)))
moved_on id reason row t txn txn' out found (inr is) h = (
  some "cancellation_requested",
  moves_to_ok id row t (some "cancellation_requested") "RunStateChanged" txn txn' out found
      (rw is (rw is at h)),
)

pub idle :
    (id : ℕ) (reason : Option String) (row : RunRow) (txn txn' : KernelTxn) (out : List ℕ)
    → cancel_on id reason row none txn ≡ (ok out, txn')
    → txn' ≡ txn
unfolding cancel_on
idle id reason row txn txn' out h = ap (λ r. r.1) (sym h)
