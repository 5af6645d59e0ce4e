-- ===== src/Domain/EffectState.antt =====
-- crates/domain/src/effect.rs: the execution states of an effect.
use ai_harness.Base.{ℕ, ◌≡◌, arith, if◌then◌else◌}
use ai_harness.Base.Int.{ℤ, is_lit}
use ai_harness.Domain.Wire.{Decoded, known, unknown as unknown_value}

pub data EffectState : Type 0 where
  unspecified prepared claimed dispatched acknowledged committed failed cancelled unknown :
      EffectState

-- The wire integer of a variant, which is also what the store's column holds.
unfoldable pub to_wire : EffectState → ℕ
to_wire EffectState.unspecified = 0
to_wire EffectState.prepared = 1
to_wire EffectState.claimed = 2
to_wire EffectState.dispatched = 3
to_wire EffectState.acknowledged = 4
to_wire EffectState.committed = 5
to_wire EffectState.failed = 6
to_wire EffectState.cancelled = 7
to_wire EffectState.unknown = 8

-- A value with no variant is an error, never a default.
unfoldable pub from_wire : ℤ → Decoded EffectState
from_wire value =
    if is_lit value 0
    then known EffectState.unspecified
    else if is_lit value 1
    then known EffectState.prepared
    else if is_lit value 2
    then known EffectState.claimed
    else if is_lit value 3
    then known EffectState.dispatched
    else if is_lit value 4
    then known EffectState.acknowledged
    else if is_lit value 5
    then known EffectState.committed
    else if is_lit value 6
    then known EffectState.failed
    else if is_lit value 7
    then known EffectState.cancelled
    else if is_lit value 8
    then known EffectState.unknown
    else unknown_value (record { value = value; enum_name = "EffectState" })

pub to_wire_injective : (a b : EffectState) → to_wire a ≡ to_wire b → a ≡ b
unfolding to_wire
to_wire_injective a b h = ground arith
