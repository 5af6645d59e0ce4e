-- ===== src/Effects/Fencing.antt =====
-- The fencing of effects (crates/effects/src/executor.rs): what an executor that lost its claim can
-- still do, and what can happen to a settled effect.
use ai_harness.Base.{ℕ, ◌+◌, ◌≤◌, ◌<◌, true, some, String, ◌≡◌, sym, ap, ◌∙◌, refl, arith, inl, inr}
use ai_harness.Base.Txn.{ok, err, KernelError}
use ai_harness.Domain.EffectState.{EffectState}
use ai_harness.Store.Models.{EffectRow}
use ai_harness.Store.Kernel.{KernelTxn}
use ai_harness.Store.Outbox.{stage}
use ai_harness.Store.Effects.{get_effect, token_of, effect_claimed, get_effect-claimed}
use ai_harness.Effects.Record.{can_transition, is_terminal}
use ai_harness.Effects.Executor.{
  ExecutorRef, Transition, transition, claimed, claim, effect_lease_ms,
}
use ai_harness.Effects.Moves.{transition_cases}
use ai_harness.Effects.Claims.{claim_hands_over}
use ai_harness.Effects.Progress.{Leads, here, step}
use ai_harness.Effects.History.{History, History-Advances}

-- Along any history of operations and restarts an effect stays in the table, its state moves along legal transitions only, and its fencing token never decreases.
pub effect_only_advances :
    (id : ℕ) (txn txn' : KernelTxn) (row : EffectRow)
    → get_effect id txn ≡ some row
    → History txn txn'
    → (row' : EffectRow) × (get_effect id txn' ≡ some row')
      × Leads row.state row'.state
      × (token_of row ≤ token_of row')
effect_only_advances id txn txn' row found h =
    let (row', found', (path, up)) = History-Advances id h row found in (row', found', path, up)

settled-Leads : (s t : EffectState) → is_terminal s ≡ true → Leads s t → t ≡ s
unfolding is_terminal can_transition
settled-Leads s t h here = refl
settled-Leads s t h (step {t = m} p e) =
    let same = settled-Leads s m h p in ground (arith, same, e, h)

-- An effect that is committed, failed or cancelled keeps that state along any history of operations and restarts.
pub settled_stays :
    (id : ℕ) (txn txn' : KernelTxn) (row : EffectRow)
    → get_effect id txn ≡ some row
    → is_terminal row.state ≡ true
    → History txn txn'
    → (row' : EffectRow) × (get_effect id txn' ≡ some row') × (row'.state ≡ row.state)
settled_stays id txn txn' row found settled h =
    let (row', found', (path, up)) = History-Advances id h row found in
    (row', found', settled-Leads row.state row'.state settled path)

stale_refused :
    (id now : ℕ) (e : ExecutorRef) (t : Transition) (txn : KernelTxn) (row : EffectRow)
    → get_effect id txn ≡ some row
    → e.fencing_token < token_of row
    → (why : KernelError) × (transition now id (some e) t txn ≡ (err why, txn))
stale_refused id now e t txn row found below = elim (transition_cases now id (some e) t txn) [
  | inl refused ↦ refused
  | inr (other, there, legal, (who, token, epoch, live), done) ↦
      let same : token_of row ≡ token_of other = cc (found, there) in
      let exact : token_of other ≡ e.fencing_token = ground (arith, token) in
      absurd (ground (arith, same, exact, below))
]

claimed_there :
    (id now : ℕ) (who : String) (token : ℕ) (row' : EffectRow) (txn txn' : KernelTxn)
    → claim now id who txn ≡ (ok (claimed token row'), txn')
    → (get_effect id txn' ≡ some row')
      × (token_of row' ≡ token)
      × ((row : EffectRow) × (get_effect id txn ≡ some row) × (token ≡ token_of row + 1))
unfolding stage effect_claimed
claimed_there id now who token row' txn txn' h =
    let (row, found, free, next, after, written) =
      claim_hands_over now id who txn txn' token row' h in
    (
      ap (λ t. get_effect id t) written
          ∙ get_effect-claimed id who txn.daemon_epoch (now + effect_lease_ms) now txn {row = row}
              found
          ∙ ap some (sym after),
      ground (arith, after, next),
      (row, found, next),
    )

-- Once an effect has been claimed anew, the holder of an earlier claim can do nothing to it: whatever operations and restarts come between the two claims and after the second, the second token is larger than the first, and every transition that is made in the name of the first token is refused and leaves the transaction as it was.
pub claim_fences :
    (id now1 now2 now : ℕ) (a b : String) (t : Transition) (token1 token2 : ℕ)
    (row1 row2 : EffectRow) (txn0 txn1 txn2 txn3 txn4 : KernelTxn)
    → claim now1 id a txn0 ≡ (ok (claimed token1 row1), txn1)
    → History txn1 txn2
    → claim now2 id b txn2 ≡ (ok (claimed token2 row2), txn3)
    → History txn3 txn4
    → (token1 < token2)
      × ((why : KernelError) × (transition now id
              (some (record { executor_id = a; fencing_token = token1 }))
              t
              txn4
            ≡ (err why, txn4)))
claim_fences id now1 now2 now a b t token1 token2 row1 row2 txn0 txn1 txn2 txn3 txn4 first h second
      k =
    let (there1, holds1, _) = claimed_there id now1 a token1 row1 txn0 txn1 first in
    let (row', found', (path', up')) = History-Advances id h row1 there1 in
    let (there2, holds2, (old, found2, next2)) =
      claimed_there id now2 b token2 row2 txn2 txn3 second in
    let (row4, found4, (path4, up4)) = History-Advances id k row2 there2 in
    let grows : token1 < token2 =
      let same : token_of old ≡ token_of row' = cc (found2, found') in
      ground (arith, same, holds1, up', next2) in
    (
      grows,
      stale_refused id now (record { executor_id = a; fencing_token = token1 }) t txn4 row4 found4
          (ground (arith, grows, holds2, up4)),
    )
