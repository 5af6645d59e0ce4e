-- ===== src/Store/Positions.antt =====
-- The positions of staged events (crates/events/src/outbox.rs, kernel-store-sqlite's streams.rs).
use ai_harness.Base.{
  ℕ, ◌+◌, zero, suc, true, false, List, [], ◌∷◌, ◌++◌, String, ◌≡◌, refl, sym, ap, subst, ◌∙◌, inl,
  inr, arith, if◌then◌else◌, filter, map, Bool-cases,
}
use ai_harness.Base.Txn.{ok}
use ai_harness.Store.Kernel.{
  StreamKey, run_stream, task_stream, effect_stream, config_global, Payload, OutboxEvent,
  StreamHead, KernelTxn,
}
use ai_harness.Store.Outbox.{same_stream, allocate, stage, last_sequence}

same_stream_refl : (a : StreamKey) → same_stream a a ≡ true
unfolding same_stream
same_stream_refl (run_stream n) = ground arith
same_stream_refl (task_stream n) = ground arith
same_stream_refl (effect_stream n) = ground arith
same_stream_refl config_global = refl

same_stream-eq : (a b : StreamKey) → same_stream a b ≡ true → a ≡ b
unfolding same_stream
same_stream-eq a b h = ground arith

-- The positions of a stream's events, in the order in which they were staged.
unfoldable pub positions : StreamKey → List OutboxEvent → List ℕ
positions key events = map (λ e. e.sequence) (filter (λ e. same_stream e.stream_key key) events)

-- 1, 2, …, n.
unfoldable pub up_to : ℕ → List ℕ
up_to zero = []
up_to (suc n) = up_to n ++ suc n ∷ []

-- The events of a stream stand at 1, 2, … up to its head, in this order.
abbrev pub IsContiguous : StreamKey → KernelTxn → Type 0
IsContiguous key txn = positions key txn.outbox ≡ up_to (last_sequence key txn.stream_heads)

allocate_next :
    (key : StreamKey) (hs : List StreamHead)
    → ((allocate key hs).0 ≡ last_sequence key hs + 1)
      × (last_sequence key (allocate key hs).1 ≡ last_sequence key hs + 1)
unfolding allocate last_sequence
allocate_next key [] = let same = same_stream_refl key in (refl, ground (arith, same))
allocate_next key (h ∷ hs) =
    let (a, b) = allocate_next key hs in (ground (arith, a), ground (arith, b))

allocate_other :
    (key other : StreamKey) (hs : List StreamHead)
    → same_stream key other ≡ false
    → last_sequence other (allocate key hs).1 ≡ last_sequence other hs
unfolding allocate last_sequence
allocate_other key other [] differs = ground (arith, differs)
allocate_other key other (h ∷ hs) differs = elim (Bool-cases (same_stream h.stream_key key)) [
  | inl same ↦
      let is = same_stream-eq h.stream_key key same in
      let apart : same_stream h.stream_key other ≡ false = rw is differs in
      ground (arith, same, apart)
  | inr no_match ↦ ground (arith, no_match, allocate_other key other hs differs)
]

positions-append :
    (key : StreamKey) (xs : List OutboxEvent) (e : OutboxEvent)
    → positions key (xs ++ e ∷ []) ≡ (
        if same_stream e.stream_key key
        then positions key xs ++ e.sequence ∷ []
        else positions key xs)
unfolding positions
positions-append key [] e = ground arith
positions-append key (x ∷ xs) e = ground (arith, positions-append key xs e)

up_to_next : (n : ℕ) → up_to (n + 1) ≡ up_to n ++ (n + 1) ∷ []
unfolding up_to
up_to_next n = let e : n + 1 ≡ suc n = omega arith in rw e refl

-- Staging an event gives it the position after the last one of its stream, and keeps the events of every stream contiguous from 1.
pub stage-IsContiguous :
    (key other : StreamKey) (event_type : String) (payload : Payload) (txn : KernelTxn)
    → IsContiguous other txn
    → ((stage key event_type payload txn).0 ≡ ok (last_sequence key txn.stream_heads + 1))
      × IsContiguous other (stage key event_type payload txn).1
unfolding stage up_to
stage-IsContiguous key other event_type payload txn h =
    let (next, head) = allocate_next key txn.stream_heads in
    (
      ap ok next,
      elim (Bool-cases (same_stream key other)) [
        | inl same ↦
            let is = sym (same_stream-eq key other same) in
            let end = positions-append other txn.outbox (record {
              stream_key = key;
              event_type = event_type;
              sequence = (allocate key txn.stream_heads).0;
              payload = payload;
            }) in
            let before : positions key txn.outbox ≡ up_to (last_sequence key txn.stream_heads) =
              subst (λ k. positions k txn.outbox ≡ up_to (last_sequence k txn.stream_heads)) is h in
            let own = same_stream_refl key in
            rw is (
              rw is at end
              ∙ rw (own, next, head, before)
                  (sym (up_to_next (last_sequence key txn.stream_heads))))
        | inr differs ↦
            let kept = allocate_other key other txn.stream_heads differs in
            positions-append other txn.outbox (record {
              stream_key = key;
              event_type = event_type;
              sequence = (allocate key txn.stream_heads).0;
              payload = payload;
            })
            ∙ rw (differs, kept) h
      ],
    )
