-- ===== src/Domain/RecoveryDisposition.antt =====
-- crates/domain/src/run.rs: whether a run may go on after a restart.
use ai_harness.Base.{ℕ, ◌≡◌, arith, if◌then◌else◌}
use ai_harness.Base.Int.{ℤ, is_lit}
use ai_harness.Domain.Wire.{Decoded, known, unknown}

pub data RecoveryDisposition : Type 0 where
  unspecified normal needs_reconciliation recovering blocked_unknown_effect blocked_missing_resource
        requires_human_decision :
      RecoveryDisposition

-- The wire integer of a variant, which is also what the store's column holds.
unfoldable pub to_wire : RecoveryDisposition → ℕ
to_wire RecoveryDisposition.unspecified = 0
to_wire RecoveryDisposition.normal = 1
to_wire RecoveryDisposition.needs_reconciliation = 2
to_wire RecoveryDisposition.recovering = 3
to_wire RecoveryDisposition.blocked_unknown_effect = 4
to_wire RecoveryDisposition.blocked_missing_resource = 5
to_wire RecoveryDisposition.requires_human_decision = 6

-- A value with no variant is an error, never a default.
unfoldable pub from_wire : ℤ → Decoded RecoveryDisposition
from_wire value =
    if is_lit value 0
    then known RecoveryDisposition.unspecified
    else if is_lit value 1
    then known RecoveryDisposition.normal
    else if is_lit value 2
    then known RecoveryDisposition.needs_reconciliation
    else if is_lit value 3
    then known RecoveryDisposition.recovering
    else if is_lit value 4
    then known RecoveryDisposition.blocked_unknown_effect
    else if is_lit value 5
    then known RecoveryDisposition.blocked_missing_resource
    else if is_lit value 6
    then known RecoveryDisposition.requires_human_decision
    else unknown (record { value = value; enum_name = "RecoveryDisposition" })

pub to_wire_injective : (a b : RecoveryDisposition) → to_wire a ≡ to_wire b → a ≡ b
unfolding to_wire
to_wire_injective a b h = ground arith
