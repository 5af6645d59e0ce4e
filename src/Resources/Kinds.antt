-- ===== src/Resources/Kinds.antt =====
-- `ResourceUnit` of crates/resources/src/lib.rs and its text.
use ai_harness.Base.{String, ◌≡◌, refl, sym, ap, ◌∙◌, ◌↔◌, if◌then◌else◌, inl, inr, Bool-cases}
use ai_harness.Base.Txn.{Result, ok, err, fault, invalid_argument}
use text.Mathlib.Text.{◌==◌ as str_eq}
use text.Mathlib.TextEquality.{eq_iff}

pub data ResourceUnit : Type 0 where
  child_run_slots sandbox_slots model_tokens model_cost_microunits wall_clock_ms disk_bytes :
      ResourceUnit

unfoldable pub as_str : ResourceUnit → String
as_str child_run_slots = "child_run_slots"
as_str sandbox_slots = "sandbox_slots"
as_str model_tokens = "model_tokens"
as_str model_cost_microunits = "model_cost_microunits"
as_str wall_clock_ms = "wall_clock_ms"
as_str disk_bytes = "disk_bytes"

unfoldable pub from_str : String → Result ResourceUnit
from_str value =
    if str_eq value "child_run_slots"
    then ok child_run_slots
    else if str_eq value "sandbox_slots"
    then ok sandbox_slots
    else if str_eq value "model_tokens"
    then ok model_tokens
    else if str_eq value "model_cost_microunits"
    then ok model_cost_microunits
    else if str_eq value "wall_clock_ms"
    then ok wall_clock_ms
    else if str_eq value "disk_bytes"
    then ok disk_bytes
    else err (fault invalid_argument "unknown resource unit")

-- The text of a unit is read back as that unit.
unit_printed : (unit : ResourceUnit) → from_str (as_str unit) ≡ ok unit
unfolding from_str as_str
unit_printed child_run_slots = refl
unit_printed sandbox_slots = refl
unit_printed model_tokens = refl
unit_printed model_cost_microunits = refl
unit_printed wall_clock_ms = refl
unit_printed disk_bytes = refl

the_unit : {a b : ResourceUnit} → ok a ≡ ok b → a ≡ b
the_unit h = cc

-- One comparison of the match.
read_arm :
    (value text : String) (u unit : ResourceUnit) (rest : Result ResourceUnit)
    → as_str u ≡ text
    → (rest ≡ ok unit → as_str unit ≡ value)
    → (if str_eq value text then ok u else rest) ≡ ok unit
    → as_str unit ≡ value
read_arm value text u unit rest own others h = elim (Bool-cases (str_eq value text)) [
  | inl same ↦
      let one = the_unit {a = u} {b = unit} (rw same at h) in
      sym (ap as_str one) ∙ own ∙ sym ((eq_iff value text).0 same)
  | inr differs ↦ others (rw differs at h)
]

unit_read : (value : String) (unit : ResourceUnit) → from_str value ≡ ok unit → as_str unit ≡ value
unfolding from_str as_str
unit_read value unit = read_arm value _ child_run_slots unit _ refl (
    read_arm value _ sandbox_slots unit _ refl (
      read_arm value _ model_tokens unit _ refl (
        read_arm value _ model_cost_microunits unit _ refl (
          read_arm value _ wall_clock_ms unit _ refl
            (read_arm value _ disk_bytes unit _ refl (λ h. cc))))))

-- A text is read as a unit exactly where it is the unit's own text.
pub unit_round_trip :
    (value : String) (unit : ResourceUnit) → (from_str value ≡ ok unit) ↔ (value ≡ as_str unit)
unit_round_trip value unit =
    (λ h. sym (unit_read value unit h), λ e. ap from_str e ∙ unit_printed unit)
