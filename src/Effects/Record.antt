-- ===== src/Effects/Record.antt =====
-- crates/effects/src/record.rs: the legal transitions of an effect.
use ai_harness.Base.{Bool, true, false, not, ◌&&◌, ◌==◌}
use ai_harness.Domain.EffectState.{
  EffectState, unspecified, prepared, claimed, dispatched, acknowledged, committed, failed,
  cancelled, unknown, to_wire,
}

unfoldable pub can_transition : EffectState → EffectState → Bool
can_transition prepared claimed = true
can_transition prepared cancelled = true
can_transition claimed claimed = true
can_transition claimed dispatched = true
can_transition claimed cancelled = true
can_transition dispatched prepared = true
can_transition dispatched acknowledged = true
can_transition dispatched failed = true
can_transition dispatched cancelled = true
can_transition dispatched unknown = true
can_transition acknowledged committed = true
can_transition acknowledged failed = true
can_transition unknown committed = true
can_transition unknown failed = true
can_transition unknown prepared = true
can_transition _ _ = false

unfoldable pub is_terminal : EffectState → Bool
is_terminal committed = true
is_terminal failed = true
is_terminal cancelled = true
is_terminal _ = false

-- The state still admits executor work or reconciliation.
unfoldable pub is_in_flight : EffectState → Bool
unfolding is_terminal
is_in_flight state = not (is_terminal state) && not (to_wire state == to_wire unspecified)
