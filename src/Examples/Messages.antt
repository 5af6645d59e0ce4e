-- ===== src/Examples/Messages.antt =====
-- The message queue at concrete inputs.
use ai_harness.Base.{ℕ, ◌≤◌, [], ◌∷◌, ◌≡◌, ◌≢◌, refl, inl, inr, In}
use ai_harness.Base.Txn.{FailsWith, resource_exhausted}
use ai_harness.Base.Pairs.{Pairwise}
use ai_harness.Queue.Sound.{Differs, Apart}
use ai_harness.Queue.State.{
  Key, InFlight, QueueState, QueueDelivery, empty, publish, consume, ack, nack, occupied,
}
use ai_harness.Queue.History.{
  History, created, then_step, publishes, consumes, nacks, capacity_holds, on_its_way_once,
  publish_is_idempotent,
}

abbrev first_key : Key
first_key = record { stream = 7; message = 1 }

abbrev second_key : Key
second_key = record { stream = 7; message = 2 }

-- Two messages in a queue of two, the first of them handed out.
abbrev two_in : QueueState
two_in = (publish 2 second_key [] (publish 2 first_key [] empty).1).1

abbrev one_out : QueueState
one_out = (consume 1 7 two_in).1

one_out-History : History 2 one_out
one_out-History =
    then_step (then_step (then_step created (publishes first_key [])) (publishes second_key []))
      (consumes 1 7)

abbrev flying_first : InFlight
flying_first = record { delivery = 1; channel = 7; key = first_key; payload = [] }

hands_out : (consume 1 7 two_in).0 ≡ record { delivery_id = 1; message_id = 1; payload = [] } ∷ []
unfolding consume publish ai_harness.Queue.State.get occupied
    ai_harness.Queue.State.evict_tombstones
hands_out = refl

flies : In flying_first one_out.in_flight
unfolding consume publish ai_harness.Queue.State.get occupied
    ai_harness.Queue.State.evict_tombstones
flies = inl refl

-- A third message finds no room.
refuses_third :
    FailsWith resource_exhausted (publish 2 (record { stream = 8; message = 1 }) [] one_out).0
unfolding publish ai_harness.Queue.State.get consume occupied
    ai_harness.Queue.State.evict_tombstones
refuses_third = refl

capacity_holds_example : occupied (nack 1 one_out).1 ≤ 2
capacity_holds_example = capacity_holds 2 _ (then_step one_out-History (nacks 1))

on_its_way_once_example :
    ((c : ℕ) (k : Key) → In k (one_out.pending c) → k.stream ≡ c)
    × ((c : ℕ) → Pairwise Differs (one_out.pending c))
    × Pairwise Apart one_out.in_flight
    × ((c : ℕ) (k : Key) (f : InFlight)
        → In k (one_out.pending c)
        → In f one_out.in_flight
        → f.key ≢ k)
on_its_way_once_example = on_its_way_once 2 one_out one_out-History

publish_is_idempotent_example : (publish 2 first_key (9 ∷ []) one_out).1 ≡ one_out
publish_is_idempotent_example =
    publish_is_idempotent 2 one_out first_key 7 (9 ∷ []) one_out-History
      (inr (flying_first, flies, refl))
