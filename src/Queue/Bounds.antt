-- ===== src/Queue/Bounds.antt =====
-- The operations of crates/message-queue/src/in_memory.rs and the queue's capacity.
use ai_harness.Base.{
  leb, ℕ, zero, suc, ◌+◌, ◌≤◌, not, some, List, [], ◌∷◌, ◌≡◌, refl, sym, ap, subst, inl, inr, arith,
  In, Bool-cases, Option-cases, ◌==◌, length,
}
use ai_harness.Queue.State.{
  take_front, occupied, publish, consume_up_to, ack, nack, flight, QueueDelivery, same_payload, Key,
  InFlight, QueueState, same_key, get, published, popped, delivered, landed, evict_tombstones,
}
use ai_harness.Queue.Keys.{length-filter, length-filter_less, length-insert_key, same_key_refl}
use ai_harness.Queue.Sound.{IsSound, published-IsSound}
use ai_harness.Queue.Moves.{
  popped-IsSound, popped_gone, delivered-IsSound, landed-IsSound, returned-IsSound,
}
use ai_harness.Queue.Eviction.{evict_tombstones_keeps}

-- The collections agree and hold at most `capacity` messages.
abbrev pub IsBounded : ℕ → QueueState → Type 0
IsBounded capacity s = IsSound s × (occupied s ≤ capacity)

evicted-IsBounded :
    (capacity : ℕ) (s : QueueState) → IsBounded capacity s → IsBounded capacity (evict_tombstones s)
unfolding occupied
evicted-IsBounded capacity s (w, h) =
    let (w', same) = evict_tombstones_keeps s w in (w', rw (same.0, same.1) h)

pub publish-IsBounded :
    (capacity : ℕ) (k : Key) (payload : List ℕ) (s : QueueState)
    → IsBounded capacity s
    → IsBounded capacity (publish capacity k payload s).1
unfolding publish occupied
publish-IsBounded capacity k payload s (w, h) = elim (Option-cases (get k s.live_ids)) [
  | inr (existing, there) ↦ elim (Bool-cases (same_payload existing payload)) [
    | inl same ↦ rw (there, same) (w, h)
    | inr differs ↦ rw (there, differs) (w, h)
  ]
  | inl fresh ↦ elim (Bool-cases (leb capacity (length s.queued + length s.in_flight))) [
    | inl no_room ↦ rw (fresh, no_room) (w, h)
    | inr room ↦
        rw (fresh, room)
          (evicted-IsBounded capacity (published k payload s) (
            published-IsSound k payload s w fresh,
            ground (arith, room, length-insert_key k s.queued),
          ))
  ]
]

-- A popped key with its message.
taken-IsBounded :
    (capacity c : ℕ) (k : Key) (rest : List Key) (s : QueueState)
    → IsBounded capacity s
    → s.pending c ≡ k ∷ rest
    → IsBounded capacity (popped c k rest s)
      × ((payload : List ℕ) → IsBounded capacity (delivered c k payload (popped c k rest s)))
unfolding occupied
taken-IsBounded capacity c k rest s (w, h) is =
    let first : In k (s.pending c) = subst (In k) (sym is) (inl refl) in
    let w1 = popped-IsSound c k rest s w is in
    let less =
      length-filter_less (λ x. not (same_key x k)) k s.queued (w.counted c k first)
        (ap not (same_key_refl k)) in
    (
      (w1, omega (arith, h, less)),
      λ payload. (
        subst (λ d. IsSound (delivered d k payload (popped c k rest s))) (w.own_channel c k first)
            (delivered-IsSound k payload (popped c k rest s) w1 (popped_gone c k rest s w is)
              (λ f m. w.grounded c k f first m) (w.live_pending c k first)),
        omega
            (arith, h, less, length-filter (λ f. not (f.delivery == s.next_delivery)) s.in_flight),
      ),
    )

front-IsBounded :
    (capacity c : ℕ) (s : QueueState) (again : QueueState → List QueueDelivery × QueueState)
    (queue : List Key)
    → s.pending c ≡ queue
    → IsBounded capacity s
    → ((t : QueueState) → IsBounded capacity t → IsBounded capacity (again t).1)
    → IsBounded capacity (take_front c queue s again).1
front-IsBounded capacity c s again [] is b rest = b
front-IsBounded capacity c s again (k ∷ ks) is b rest =
    let (skipped, taken) = taken-IsBounded capacity c k ks s b is in
    elim (Option-cases (get k s.messages)) [
      | inl absent ↦ rw absent (rest (popped c k ks s) skipped)
      | inr (payload, there) ↦
          rw there (rest (delivered c k payload (popped c k ks s)) (taken payload))
    ]

pub consume_up_to-IsBounded :
    (capacity n c : ℕ) (s : QueueState)
    → IsBounded capacity s
    → IsBounded capacity (consume_up_to n c s).1
unfolding consume_up_to
consume_up_to-IsBounded capacity zero c s b = b
consume_up_to-IsBounded capacity (suc n) c s b =
    front-IsBounded capacity c s (consume_up_to n c) (s.pending c) refl b
      (λ t bt. consume_up_to-IsBounded capacity n c t bt)

pub ack-IsBounded :
    (capacity id : ℕ) (s : QueueState) → IsBounded capacity s → IsBounded capacity (ack id s).1
unfolding ack occupied
ack-IsBounded capacity id s (w, h) = elim (Option-cases (flight id s.in_flight)) [
  | inl absent ↦ rw absent (w, h)
  | inr (f, there) ↦ rw there (
      evicted-IsBounded capacity (landed id s) (
        landed-IsSound id s w,
        omega (arith, h, length-filter (λ f. not (f.delivery == id)) s.in_flight),
      ))
]

flight-In :
    (id : ℕ) (fs : List InFlight) (f : InFlight)
    → flight id fs ≡ some f
    → In f fs × (f.delivery ≡ id)
unfolding flight
flight-In id [] f h = cc
flight-In id (g ∷ gs) f h = elim (Bool-cases (g.delivery == id)) [
  | inl same ↦ (inl (ground (arith, h, same)), ground (arith, h, same))
  | inr differs ↦ let (m, own) = flight-In id gs f (ground (arith, h, differs)) in (inr m, own)
]

pub nack-IsBounded :
    (capacity id : ℕ) (s : QueueState) → IsBounded capacity s → IsBounded capacity (nack id s).1
unfolding nack occupied
nack-IsBounded capacity id s (w, h) = elim (Option-cases (flight id s.in_flight)) [
  | inl absent ↦ rw absent (w, h)
  | inr (f, there) ↦
      let (flew, own) = flight-In id s.in_flight f there in
      rw there (
        returned-IsSound id f s w flew own,
        omega (
          arith,
          h,
          length-filter_less (λ g. not (g.delivery == id)) f s.in_flight flew (ground (arith, own)),
          length-insert_key f.key s.queued,
        ),
      )
]
