-- ===== src/Runtime/Lifecycle.antt =====
-- The transition table of crates/runtime/src/state.rs read as a graph, with the cancellation targets
-- of crates/domain/src/run.rs beside it.
use ai_harness.Base.{true, false, none, some, ◌≡◌, refl, ◌≢◌, ◌⊎◌, arith}
use ai_harness.Domain.RunState.{
  RunState, unspecified, created, ready, running, waiting_tool, waiting_child, waiting_human,
  suspended, cancelling, completed, failed, cancelled, is_terminal, cancellation_target,
}
use ai_harness.Runtime.State.{allows}

-- A path of permitted moves.
pub data Leads (s : RunState) : RunState → Type 0 where
  here : Leads s s
  step : {t u : RunState} → Leads s t → allows t u ≡ true → Leads s u

-- A terminal state has no way out.
pub terminal_absorbs : (s t : RunState) → is_terminal s ≡ true → allows s t ≡ false
unfolding is_terminal allows
terminal_absorbs s t h = ground arith

-- A path out of a terminal state goes nowhere.
pub terminal_final : (s t : RunState) → is_terminal s ≡ true → Leads s t → t ≡ s
terminal_final s t h here = refl
terminal_final s t h (step {t = m} p e) = cc (terminal_final s m h p, terminal_absorbs s t h)

-- From every state but `unspecified` a path of permitted moves leads to a terminal state.
pub ends : (s : RunState) → s ≢ unspecified → (t : RunState) × Leads s t × (is_terminal t ≡ true)
unfolding allows is_terminal
ends unspecified h = absurd (h refl)
ends created h = (cancelled, step here refl, refl)
ends ready h = (cancelled, step here refl, refl)
ends running h = (failed, step here refl, refl)
ends waiting_tool h = (failed, step here refl, refl)
ends waiting_child h = (failed, step here refl, refl)
ends waiting_human h = (failed, step here refl, refl)
ends suspended h = (failed, step here refl, refl)
ends cancelling h = (failed, step here refl, refl)
ends completed h = (completed, here, refl)
ends failed h = (failed, here, refl)
ends cancelled h = (cancelled, here, refl)

-- The target of a cancellation is always a permitted move, lies where no second request applies, and is `cancelled` or one permitted move from it.
pub cancellation_target_allowed :
    (s t : RunState)
    → cancellation_target s ≡ some t
    → (allows s t ≡ true)
      × (cancellation_target t ≡ none)
      × ((t ≡ cancelled) ⊎ (allows t cancelled ≡ true))
unfolding cancellation_target allows
cancellation_target_allowed s t h = ground arith
