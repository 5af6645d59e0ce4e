-- ===== src/Queue/State.antt =====
-- The in-memory queue of crates/message-queue/src/in_memory.rs. Names of streams and messages are only
-- compared, so they are numbers, and a delivery's identifier `d-<n>` is its number. A hash map is a
-- list of its entries; the channels, where an absent queue and an empty one behave alike, are a
-- function.
use ai_harness.Base.{
  ℕ, zero, suc, ◌+◌, Bool, true, false, ◌&&◌, ◌||◌, not, Option, none, some, List, [], ◌∷◌, ◌++◌,
  ◌==◌, ltb, leb, max, if◌then◌else◌, length, any, filter,
}
use ai_harness.Base.Txn.{
  Result, ok, err, KernelError, fault, safe, conflict, not_found, resource_exhausted,
}

-- `(stream, message_id)`.
pub record Key : Type 0 where
  pub stream : ℕ
  pub message : ℕ

pub record Stored : Type 0 where
  pub key : Key
  pub payload : List ℕ

pub record InFlight : Type 0 where
  pub delivery : ℕ
  pub channel : ℕ
  pub key : Key
  pub payload : List ℕ

pub record QueueDelivery : Type 0 where
  pub delivery_id : ℕ
  pub message_id : ℕ
  pub payload : List ℕ

pub record QueueState : Type 0 where
  pub live_ids : List Stored
  pub live_order : List Key
  pub pending : ℕ → List Key
  pub queued : List Key
  pub messages : List Stored
  pub in_flight : List InFlight
  pub next_delivery : ℕ

abbrev pub same_key : Key → Key → Bool
same_key a b = a.stream == b.stream && a.message == b.message

unfoldable pub same_payload : List ℕ → List ℕ → Bool
same_payload [] [] = true
same_payload (x ∷ xs) (y ∷ ys) = x == y && same_payload xs ys
same_payload _ _ = false

-- `HashMap::get`, and `remove` and `insert` on maps and sets.
unfoldable pub get : Key → List Stored → Option (List ℕ)
get k [] = none
get k (s ∷ rest) = let found = get k rest in if same_key s.key k then some s.payload else found

abbrev pub without : Key → List Stored → List Stored
without k = filter (λ s. not (same_key s.key k))

abbrev pub remove_key : Key → List Key → List Key
remove_key k = filter (λ x. not (same_key x k))

abbrev pub insert_key : Key → List Key → List Key
insert_key k ks = if any (λ x. same_key x k) ks then ks else k ∷ ks

abbrev pub land : Key → List ℕ → List Stored → List Stored
land k payload stored = record { key = k; payload = payload } ∷ without k stored

abbrev pub at_channel : ℕ → List Key → (ℕ → List Key) → ℕ → List Key
at_channel channel queue pending c = if c == channel then queue else pending c

abbrev pub tombstone_cap : ℕ
tombstone_cap = 4096

unfoldable pub occupied : QueueState → ℕ
occupied state = length state.queued + length state.in_flight

unfoldable pub is_active : Key → QueueState → Bool
is_active k state =
    any (λ x. same_key x k) state.queued || any (λ f. same_key f.key k) state.in_flight

-- One round of the loop on a front key.
abbrev pub evicted : Key → List Key → QueueState → QueueState
evicted k rest state =
    if is_active k state
    then record state { live_order = rest ++ k ∷ [] }
    else record state { live_order = rest; live_ids = without k state.live_ids }

abbrev pub next_round : List Key → QueueState → (QueueState → QueueState) → QueueState
next_round [] state again = state
next_round (k ∷ rest) state again = again (evicted k rest state)

-- The loop of `evict_tombstones`. The order never grows, so as many rounds as it has keys are enough.
unfoldable pub evict : ℕ → ℕ → QueueState → QueueState
evict zero scanned state = state
evict (suc rounds) scanned state =
    if ltb tombstone_cap (length state.live_ids) && ltb scanned (length state.live_order)
    then next_round state.live_order state (evict rounds (scanned + 1))
    else state

unfoldable pub evict_tombstones : QueueState → QueueState
unfolding evict
evict_tombstones state = evict (length state.live_order) 0 state

-- `new`.
abbrev pub empty : QueueState
empty = record {
  live_ids = [];
  live_order = [];
  pending = λ c. [];
  queued = [];
  messages = [];
  in_flight = [];
  next_delivery = 1;
}

abbrev pub published : Key → List ℕ → QueueState → QueueState
published k payload state = record state {
  live_ids = land k payload state.live_ids;
  live_order = state.live_order ++ k ∷ [];
  pending = at_channel k.stream (state.pending k.stream ++ k ∷ []) state.pending;
  queued = insert_key k state.queued;
  messages = land k payload state.messages;
}

abbrev pub divergent : KernelError
divergent = fault conflict "message_id already published with different payload"

abbrev pub full : KernelError
full = record { code = resource_exhausted; retry = safe; detail = "queue capacity reached" }

abbrev pub publish_on :
    ℕ → Key → List ℕ → Option (List ℕ) → QueueState → Result (Unit {0}) × QueueState
publish_on capacity k payload (some existing) state =
    if same_payload existing payload then (ok tt, state) else (err divergent, state)
publish_on capacity k payload none state =
    if leb capacity (occupied state)
    then (err full, state)
    else (ok tt, evict_tombstones (published k payload state))

unfoldable pub publish : ℕ → Key → List ℕ → QueueState → Result (Unit {0}) × QueueState
publish capacity k payload state = publish_on capacity k payload (get k state.live_ids) state

-- A key leaves the front of its channel.
abbrev pub popped : ℕ → Key → List Key → QueueState → QueueState
popped channel k rest state = record state {
  pending = at_channel channel rest state.pending;
  queued = remove_key k state.queued;
}

abbrev pub flying : ℕ → Key → List ℕ → QueueState → InFlight
flying channel k payload state = record {
  delivery = state.next_delivery;
  channel = channel;
  key = k;
  payload = payload;
}

abbrev pub delivered : ℕ → Key → List ℕ → QueueState → QueueState
delivered channel k payload state = record state {
  messages = without k state.messages;
  in_flight =
      flying channel k payload state
      ∷ filter (λ f. not (f.delivery == state.next_delivery)) state.in_flight;
  next_delivery = state.next_delivery + 1;
}

abbrev pub delivery_of : Key → List ℕ → QueueState → QueueDelivery
delivery_of k payload state = record {
  delivery_id = state.next_delivery;
  message_id = k.message;
  payload = payload;
}

-- The body of the loop of `consume` on a popped key.
abbrev pub hand_out :
    ℕ
    → Key
    → Option (List ℕ)
    → QueueState
    → (QueueState → List QueueDelivery × QueueState)
    → List QueueDelivery × QueueState
hand_out channel k none state again = again state
hand_out channel k (some payload) state again =
    let r = again (delivered channel k payload state) in (delivery_of k payload state ∷ r.0, r.1)

abbrev pub take_front :
    ℕ
    → List Key
    → QueueState
    → (QueueState → List QueueDelivery × QueueState)
    → List QueueDelivery × QueueState
take_front channel [] state again = ([], state)
take_front channel (k ∷ rest) state again =
    hand_out channel k (get k state.messages) (popped channel k rest state) again

unfoldable pub consume_up_to : ℕ → ℕ → QueueState → List QueueDelivery × QueueState
consume_up_to zero channel state = ([], state)
consume_up_to (suc n) channel state =
    take_front channel (state.pending channel) state (consume_up_to n channel)

-- `requested` is the number that the options name.
unfoldable pub consume : ℕ → ℕ → QueueState → List QueueDelivery × QueueState
unfolding consume_up_to
consume requested channel state = consume_up_to (max requested 1) channel state

unfoldable pub flight : ℕ → List InFlight → Option InFlight
flight id [] = none
flight id (f ∷ rest) = let found = flight id rest in if f.delivery == id then some f else found

abbrev pub landed : ℕ → QueueState → QueueState
landed id state = record state { in_flight = filter (λ f. not (f.delivery == id)) state.in_flight }

abbrev pub unknown_delivery : KernelError
unknown_delivery = fault not_found "unknown delivery_id"

abbrev pub ack_on : ℕ → Option InFlight → QueueState → Result (Unit {0}) × QueueState
ack_on id none state = (err unknown_delivery, state)
ack_on id (some f) state = (ok tt, evict_tombstones (landed id state))

unfoldable pub ack : ℕ → QueueState → Result (Unit {0}) × QueueState
ack id state = ack_on id (flight id state.in_flight) state

-- A delivery returns to the front of its channel.
abbrev pub returned : ℕ → InFlight → QueueState → QueueState
returned id f state = record (landed id state) {
  pending = at_channel f.channel (f.key ∷ state.pending f.channel) state.pending;
  queued = insert_key f.key state.queued;
  messages = land f.key f.payload state.messages;
}

abbrev pub nack_on : ℕ → Option InFlight → QueueState → Result (Unit {0}) × QueueState
nack_on id none state = (err unknown_delivery, state)
nack_on id (some f) state = (ok tt, returned id f state)

unfoldable pub nack : ℕ → QueueState → Result (Unit {0}) × QueueState
nack id state = nack_on id (flight id state.in_flight) state
