-- ===== src/Runtime/State.antt =====
-- crates/runtime/src/state.rs: the normative transition table of runs.
use ai_harness.Base.{Bool, true, false}
use ai_harness.Domain.RunState.{
  RunState, created, ready, running, waiting_tool, waiting_child, waiting_human, suspended,
  cancelling, completed, failed, cancelled,
}

unfoldable pub allows : RunState → RunState → Bool
allows created ready = true
allows created cancelled = true
allows ready running = true
allows ready cancelled = true
allows running waiting_tool = true
allows running waiting_child = true
allows running waiting_human = true
allows running suspended = true
allows running cancelling = true
allows running completed = true
allows running failed = true
allows waiting_tool running = true
allows waiting_tool cancelling = true
allows waiting_tool failed = true
allows waiting_child running = true
allows waiting_child cancelling = true
allows waiting_child failed = true
allows waiting_human running = true
allows waiting_human cancelling = true
allows waiting_human failed = true
allows suspended running = true
allows suspended cancelling = true
allows suspended failed = true
allows cancelling cancelled = true
allows cancelling failed = true
allows _ _ = false
