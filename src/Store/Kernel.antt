-- ===== src/Store/Kernel.antt =====
-- The state of one kernel transaction: the tables that the modelled services write, the outbox, and
-- the daemon epoch of its context (crates/kernel-store/src/txn.rs).
use ai_harness.Base.{ℕ, String, Bool, true, Option, none, some, List, leb}
use ai_harness.Base.Txn.{KernelError, Txn, require, fault, invalid_argument}
use ai_harness.Store.Models.{
  RunRow, RunGraphHeadRow, RunDependencyRow, EffectRow, TimerRow, WorkspaceLeaseRow, ReservationRow,
}

-- The canonical stream keys that the modelled services stage to: `run/<id>`, `task/<id>`,
-- `effect/<id>` and `config/global`.
pub data StreamKey : Type 0 where
  run_stream task_stream effect_stream : ℕ → StreamKey
  config_global : StreamKey

-- The contract message in an event, before it is encoded.
pub data Payload : Type 0 where
  agent_run : RunRow → Payload
  run_dependency : RunDependencyRow → Payload
  effect_record : EffectRow → Payload
  schedule_timer : TimerRow → Payload
  resource_reservation : ReservationRow → Payload

pub record OutboxEvent : Type 0 where
  pub stream_key : StreamKey
  pub event_type : String
  pub sequence : ℕ
  pub payload : Payload

pub record StreamHead : Type 0 where
  pub stream_key : StreamKey
  pub last_sequence : ℕ

pub record KernelTxn : Type 0 where
  pub daemon_epoch : ℕ
  pub runs : List RunRow
  pub heads : List RunGraphHeadRow
  pub dependencies : List RunDependencyRow
  pub effects : List EffectRow
  pub timers : List TimerRow
  pub leases : List WorkspaceLeaseRow
  pub reservations : List ReservationRow
  pub stream_heads : List StreamHead
  pub outbox : List OutboxEvent

-- The largest `i64`, which is the largest integer that a SQLite column holds.
abbrev pub i64_max : ℕ
i64_max = 9223372036854775807

-- `mapping::encode_u64`: a value that does not fit a column fails the whole statement.
abbrev pub fits : ℕ → Bool
fits v = leb v i64_max

abbrev pub fits? : Option ℕ → Bool
fits? none = true
fits? (some v) = fits v

abbrev pub out_of_range : KernelError
out_of_range = fault invalid_argument "value exceeds the SQLite integer range"

abbrev pub encode : Bool → Txn KernelTxn (Unit {0})
encode in_range = require in_range out_of_range
