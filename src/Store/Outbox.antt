-- ===== src/Store/Outbox.antt =====
-- crates/events/src/outbox.rs and crates/kernel-store-sqlite/src/repos/streams.rs: an event is staged
-- by the transaction that causes it, at the next position of its stream. Event identifiers, times,
-- correlation and the catalog's classification are left out: every type that is staged here stands
-- in proto/events/catalog.yaml, so its lookup succeeds.
use ai_harness.Base.{ℕ, ◌+◌, Bool, true, false, List, [], ◌∷◌, ◌++◌, String, ◌==◌, if◌then◌else◌}
use ai_harness.Base.Txn.{Txn, ok}
use ai_harness.Store.Kernel.{
  StreamKey, run_stream, task_stream, effect_stream, config_global, Payload, OutboxEvent,
  StreamHead, KernelTxn,
}

unfoldable pub same_stream : StreamKey → StreamKey → Bool
same_stream (run_stream a) (run_stream b) = a == b
same_stream (task_stream a) (task_stream b) = a == b
same_stream (effect_stream a) (effect_stream b) = a == b
same_stream config_global config_global = true
same_stream _ _ = false

-- `INSERT … VALUES (?1, 1) ON CONFLICT DO UPDATE SET last_sequence = last_sequence + 1`.
unfoldable pub allocate : StreamKey → List StreamHead → ℕ × List StreamHead
unfolding same_stream
allocate key [] = (1, record { stream_key = key; last_sequence = 1 } ∷ [])
allocate key (h ∷ hs) =
    let rest = allocate key hs in
    if same_stream h.stream_key key
    then (h.last_sequence + 1, record h { last_sequence = h.last_sequence + 1 } ∷ hs)
    else (rest.0, h ∷ rest.1)

-- `stage`: the event joins the outbox and its stream's head advances, both in the transaction.
unfoldable pub stage : StreamKey → String → Payload → Txn KernelTxn ℕ
unfolding allocate
stage key event_type payload txn =
    let a = allocate key txn.stream_heads in
    let event : OutboxEvent = record {
      stream_key = key;
      event_type = event_type;
      sequence = a.0;
      payload = payload;
    } in
    (ok a.0, record txn { stream_heads = a.1; outbox = txn.outbox ++ event ∷ [] })

-- The last position of a stream; 0 before its first event.
unfoldable pub last_sequence : StreamKey → List StreamHead → ℕ
unfolding same_stream
last_sequence key [] = 0
last_sequence key (h ∷ hs) =
    if same_stream h.stream_key key then h.last_sequence else last_sequence key hs
