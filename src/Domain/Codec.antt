-- ===== src/Domain/Codec.antt =====
-- The wire codec of run and effect states (crates/domain/src/run.rs, effect.rs).
use ai_harness.Base.{◌≡◌, ◌↔◌, arith}
use ai_harness.Base.Int.{ℤ, pos}
use ai_harness.Domain.Wire.{known}
use ai_harness.Domain.RunState.{RunState, to_wire, from_wire}
use ai_harness.Domain.EffectState as Effect
use ai_harness.Domain.EffectState.{EffectState}

from_wire-to_wire : (v : ℤ) (s : RunState) → v ≡ pos (to_wire s) → from_wire v ≡ known s
unfolding from_wire to_wire
from_wire-to_wire v s h = ground arith

to_wire-from_wire : (v : ℤ) (s : RunState) → from_wire v ≡ known s → v ≡ pos (to_wire s)
unfolding from_wire to_wire
to_wire-from_wire v s h = ground arith

-- A wire integer is read as a run state exactly when it is that state's own wire integer, so encoding and decoding are inverse and no other value is mapped to a default.
pub run_state_codec : (v : ℤ) (s : RunState) → (from_wire v ≡ known s) ↔ (v ≡ pos (to_wire s))
run_state_codec v s = (to_wire-from_wire v s, from_wire-to_wire v s)

effect_to_wire :
    (v : ℤ) (s : EffectState) → Effect.from_wire v ≡ known s → v ≡ pos (Effect.to_wire s)
unfolding Effect.from_wire Effect.to_wire
effect_to_wire v s h = ground arith

effect_from_wire :
    (v : ℤ) (s : EffectState) → v ≡ pos (Effect.to_wire s) → Effect.from_wire v ≡ known s
unfolding Effect.from_wire Effect.to_wire
effect_from_wire v s h = ground arith

-- A wire integer is read as an effect state exactly when it is that state's own wire integer.
pub effect_state_codec :
    (v : ℤ) (s : EffectState) → (Effect.from_wire v ≡ known s) ↔ (v ≡ pos (Effect.to_wire s))
effect_state_codec v s = (effect_to_wire v s, effect_from_wire v s)
