-- ===== src/Queue/History.antt =====
-- Sequences of the operations of crates/message-queue/src/in_memory.rs: capacity, and messages on their way.
use ai_harness.Base.{
  max, ℕ, ◌≤◌, none, List, ◌≡◌, ◌≢◌, refl, subst, ◌⊎◌, inl, inr, arith, In, Bool-cases,
  Option-cases,
}
use ai_harness.Base.Pairs.{Pairwise}
use ai_harness.Queue.State.{
  occupied, publish, consume, ack, nack, empty, same_payload, Key, InFlight, QueueState, get,
}
use ai_harness.Queue.Sound.{Differs, Apart}
use ai_harness.Queue.Bounds.{
  IsBounded, publish-IsBounded, consume_up_to-IsBounded, ack-IsBounded, nack-IsBounded,
}

-- One operation, whatever it returns.
pub data Step (capacity : ℕ) (s : QueueState) : QueueState → Type 0 where
  publishes : (k : Key) (payload : List ℕ) → Step capacity s (publish capacity k payload s).1
  consumes : (requested channel : ℕ) → Step capacity s (consume requested channel s).1
  acks : (id : ℕ) → Step capacity s (ack id s).1
  nacks : (id : ℕ) → Step capacity s (nack id s).1

pub data History (capacity : ℕ) : QueueState → Type 0 where
  created : History capacity empty
  then_step : {a b : QueueState} → History capacity a → Step capacity a b → History capacity b

Step-IsBounded :
    (capacity : ℕ) {a b : QueueState}
    → Step capacity a b
    → IsBounded capacity a
    → IsBounded capacity b
unfolding consume
Step-IsBounded capacity {a} (publishes k payload) b = publish-IsBounded capacity k payload a b
Step-IsBounded capacity {a} (consumes requested channel) b =
    consume_up_to-IsBounded capacity (max requested 1) channel a b
Step-IsBounded capacity {a} (acks id) b = ack-IsBounded capacity id a b
Step-IsBounded capacity {a} (nacks id) b = nack-IsBounded capacity id a b

History-IsBounded : (capacity : ℕ) {s : QueueState} → History capacity s → IsBounded capacity s
unfolding occupied
History-IsBounded capacity created = (
  record {
    own_channel = λ c k m. absurd m;
    once = λ c. tt;
    counted = λ c k m. absurd m;
    grounded = λ c k f m mf. absurd m;
    flies_once = tt;
    live_pending = λ c k m. absurd m;
    live_flight = λ f m. absurd m;
    home = λ f m. absurd m;
  },
  omega arith,
)
History-IsBounded capacity (then_step h step) =
    Step-IsBounded capacity step (History-IsBounded capacity h)

-- A queue that was created with a capacity never holds more messages than it, waiting and in flight together, whatever is published, consumed, acknowledged and returned.
pub capacity_holds : (capacity : ℕ) (s : QueueState) → History capacity s → occupied s ≤ capacity
capacity_holds capacity s h = (History-IsBounded capacity h).1

-- In every state of the queue a message that is on its way stands in one place: a waiting key stands in the channel of its own stream and nowhere else, and once there; a key is in flight once; and no key both waits and is in flight.
pub on_its_way_once :
    (capacity : ℕ) (s : QueueState)
    → History capacity s
    → ((c : ℕ) (k : Key) → In k (s.pending c) → k.stream ≡ c)
      × ((c : ℕ) → Pairwise Differs (s.pending c))
      × Pairwise Apart s.in_flight
      × ((c : ℕ) (k : Key) (f : InFlight) → In k (s.pending c) → In f s.in_flight → f.key ≢ k)
on_its_way_once capacity s h =
    let w = (History-IsBounded capacity h).0 in (w.own_channel, w.once, w.flies_once, w.grounded)

-- A message that waits or is in flight is not enqueued again: publishing its key changes nothing, whatever payload it carries.
pub publish_is_idempotent :
    (capacity : ℕ) (s : QueueState) (k : Key) (c : ℕ) (payload : List ℕ)
    → History capacity s
    → In k (s.pending c) ⊎ ((f : InFlight) × In f s.in_flight × (f.key ≡ k))
    → (publish capacity k payload s).1 ≡ s
unfolding publish
publish_is_idempotent capacity s k c payload h on_way =
    let w = (History-IsBounded capacity h).0 in
    let live : get k s.live_ids ≢ none = elim on_way [
      | inl m ↦ w.live_pending c k m
      | inr (f, m, is) ↦ subst (λ x. get x s.live_ids ≢ none) is (w.live_flight f m)
    ] in
    elim (Option-cases (get k s.live_ids)) [
      | inl absent ↦ absurd (live absent)
      | inr (existing, there) ↦ elim (Bool-cases (same_payload existing payload)) [
        | inl same ↦ rw (there, same) refl
        | inr differs ↦ rw (there, differs) refl
      ]
    ]
