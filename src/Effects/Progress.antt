-- ===== src/Effects/Progress.antt =====
-- How far the operations of crates/effects/src/executor.rs and reconcile.rs can take an effect: the
-- order in which its states and its fencing token advance.
use ai_harness.Base.{
  ℕ, ◌≤◌, true, Option, none, some, String, ◌≡◌, refl, ◌==◌, arith, Bool-cases, inl, inr, ◌≢◌, ◌∙◌,
}
use ai_harness.Base.Table.{put, find-put, find-put_ne, key-find}
use ai_harness.Domain.EffectState.{EffectState}
use ai_harness.Store.Models.{EffectRow}
use ai_harness.Store.Kernel.{KernelTxn}
use ai_harness.Store.Outbox.{stage}
use ai_harness.Store.Effects.{get_effect, effect_key, effect_patched, token_of, effect_claimed}
use ai_harness.Effects.Record.{can_transition}
use ai_harness.Effects.Executor.{ExecutorRef, Transition, transition, claim}
use ai_harness.Effects.Claims.{claim_cases, claimable_legal, taken, taken_txn}
use ai_harness.Effects.Moves.{transition_cases, changed, changed_txn}

-- A path of legal transitions.
pub data Leads (s : EffectState) : EffectState → Type 0 where
  here : Leads s s
  step : {t u : EffectState} → Leads s t → can_transition t u ≡ true → Leads s u

pub Leads-trans : {s t u : EffectState} → Leads s t → Leads t u → Leads s u
Leads-trans p here = p
Leads-trans p (step q e) = step (Leads-trans p q) e

-- A row has moved on: along legal transitions, and to a token no smaller.
abbrev pub Later : EffectRow → EffectRow → Type 0
Later row row' = Leads row.state row'.state × (token_of row ≤ token_of row')

-- What became of an effect between two states of the transaction.
abbrev pub Advances : ℕ → KernelTxn → KernelTxn → Type 0
Advances id txn txn' =
    (row : EffectRow)
    → get_effect id txn ≡ some row
    → (row' : EffectRow) × (get_effect id txn' ≡ some row') × Later row row'

pub Advances-refl : (id : ℕ) (txn : KernelTxn) → Advances id txn txn
Advances-refl id txn row found = (row, found, (here, ground arith))

pub Advances-trans :
    (id : ℕ) (a b c : KernelTxn) → Advances id a b → Advances id b c → Advances id a c
Advances-trans id a b c p q row found =
    let (mid, there, (path, up)) = p row found in
    let (last, found', (path', up')) = q mid there in
    (last, found', (Leads-trans path path', ground arith))

-- The patch of a transition writes the state it names and no token.
abbrev pub IsPlain : Transition → Type 0
IsPlain t = (t.patch.state ≡ some t.to) × (t.patch.executor_fencing_token ≡ none)

some_injective : {a b : EffectRow} → some a ≡ some b → a ≡ b
some_injective h = cc

-- Writing one row that has moved on takes every effect on.
put-Advances :
    (id k : ℕ) (row row' : EffectRow) (txn txn' : KernelTxn)
    → get_effect k txn ≡ some row
    → row'.effect_id ≡ row.effect_id
    → can_transition row.state row'.state ≡ true
    → token_of row ≤ token_of row'
    → txn'.effects ≡ put effect_key row' txn.effects
    → Advances id txn txn'
put-Advances id k row row' txn txn' found key legal up written old there =
    let of_k = key-find effect_key k txn.effects found in
    elim (Bool-cases (k == id)) [
      | inl same ↦
          let same' : k ≡ id = ground arith in
          let one : old ≡ row = some_injective (cc (found, there, same')) in
          let now : get_effect id txn' ≡ some row' =
            rw written (find-put effect_key id row' txn.effects there (key ∙ of_k ∙ same')) in
          (row', now, (step here (rw one legal), ground (arith, one, up)))
      | inr differs ↦
          let other : row'.effect_id ≢ id = λ e. ground (arith, e, key, of_k, differs) in
          let now : get_effect id txn' ≡ some old =
            rw written (find-put_ne effect_key id row' txn.effects other ∙ there) in
          (old, now, (here, ground arith))
    ]

pub transition-Advances :
    (id now k : ℕ) (executor : Option ExecutorRef) (t : Transition) (txn : KernelTxn)
    → IsPlain t
    → Advances id txn (transition now k executor t txn).1
unfolding stage effect_patched
transition-Advances id now k executor t txn (state, token) =
    elim (transition_cases now k executor t txn) [
      | inl (e, refused) ↦ rw refused (Advances-refl id txn)
      | inr (row, found, legal, holds, done) ↦ rw done (
          put-Advances id k row (changed t row) txn (changed_txn k t row txn) found refl
            (rw state legal) (rw token (ground arith)) refl)
    ]

pub claim-Advances :
    (id now k : ℕ) (executor : String) (txn : KernelTxn)
    → Advances id txn (claim now k executor txn).1
unfolding stage effect_claimed
claim-Advances id now k executor txn = elim (claim_cases now k executor txn) [
  | inl (e, refused) ↦ rw refused (Advances-refl id txn)
  | inr (inl (row, found, held)) ↦ rw held (Advances-refl id txn)
  | inr (inr (row, found, may, done)) ↦ rw done (
      put-Advances id k row (taken now executor txn.daemon_epoch row) txn
        (taken_txn now k executor row txn) found refl (claimable_legal now row may) (ground arith)
        refl)
]
