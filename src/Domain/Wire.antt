-- ===== src/Domain/Wire.antt =====
-- crates/domain/src/run.rs: what `mirror_enum!` gives every enum, the integer mapping and its error.
use ai_harness.Base.{String}
use ai_harness.Base.Int.{ℤ}

pub record UnknownEnumValue : Type 0 where
  pub value : ℤ
  pub enum_name : String

-- `Result<Self, UnknownEnumValue>`.
pub data Decoded (A : Type 0) : Type 0 where
  known : A → Decoded A
  unknown : UnknownEnumValue → Decoded A
