-- ===== src/Queue/Moves.antt =====
-- The steps of the operations of crates/message-queue/src/in_memory.rs under the agreement of its
-- collections.
use ai_harness.Base.{
  ℕ, true, not, none, List, ◌∷◌, ◌≡◌, ◌≢◌, refl, sym, ap, ◌∙◌, subst, inl, inr, arith, In,
  In-of_filter, In_All, All-of_In, filter, ◌==◌,
}
use ai_harness.Base.Pairs.{Pairwise, Pairwise-related}
use ai_harness.Queue.State.{
  Key, InFlight, QueueState, get, remove_key, insert_key, popped, delivered, flying, landed,
  returned,
}
use ai_harness.Queue.Keys.{Pairwise-filter, In-remove_key, In-insert_key, In-insert_key_old}
use ai_harness.Queue.Sound.{Differs, Apart, IsSound, by_channel}

-- A key leaves the front of its channel; it then waits nowhere.
pub popped-IsSound :
    (c : ℕ) (k : Key) (rest : List Key) (s : QueueState)
    → IsSound s
    → s.pending c ≡ k ∷ rest
    → IsSound (popped c k rest s)
popped-IsSound c k rest s w is =
    let was = λ (x : Key) (m : In x rest). subst (In x) (sym is) (inr m) in
    let first : In k (s.pending c) = subst (In k) (sym is) (inl refl) in
    let distinct = subst (Pairwise Differs) is (w.once c) in
    record {
      own_channel =
          by_channel (λ d q. (x : Key) → In x q → x.stream ≡ d) c rest s.pending
            (λ x m. w.own_channel c x (was x m)) (λ d ne. w.own_channel d);
      once = by_channel (λ d q. Pairwise Differs q) c rest s.pending distinct.1 (λ d ne. w.once d);
      counted =
          by_channel (λ d q. (x : Key) → In x q → In x (remove_key k s.queued)) c rest s.pending
            (λ x m.
              In-remove_key x k s.queued (w.counted c x (was x m))
                (λ e. In_All (Differs k) rest distinct.0 x m (sym e)))
            (λ d ne x m. In-remove_key x k s.queued (w.counted d x m) (λ e.
              ne (sym (w.own_channel d x m) ∙ ap (λ y. y.stream) e ∙ w.own_channel c k first)));
      grounded =
          by_channel (λ d q. (x : Key) (f : InFlight) → In x q → In f s.in_flight → f.key ≢ x) c
            rest s.pending (λ x f m mf. w.grounded c x f (was x m) mf) (λ d ne. w.grounded d);
      flies_once = w.flies_once;
      live_pending =
          by_channel (λ d q. (x : Key) → In x q → get x s.live_ids ≢ none) c rest s.pending
            (λ x m. w.live_pending c x (was x m)) (λ d ne. w.live_pending d);
      live_flight = w.live_flight;
      home = w.home;
    }

-- The popped key waits nowhere any more.
pub popped_gone :
    (c : ℕ) (k : Key) (rest : List Key) (s : QueueState)
    → IsSound s
    → s.pending c ≡ k ∷ rest
    → (d : ℕ) (x : Key) → In x ((popped c k rest s).pending d)
    → k ≢ x
popped_gone c k rest s w is =
    let first : In k (s.pending c) = subst (In k) (sym is) (inl refl) in
    let distinct = subst (Pairwise Differs) is (w.once c) in
    by_channel (λ d q. (x : Key) → In x q → k ≢ x) c rest s.pending
      (λ x m. In_All (Differs k) rest distinct.0 x m)
      (λ d ne x m e.
        ne (sym (w.own_channel d x m) ∙ ap (λ y. y.stream) (sym e) ∙ w.own_channel c k first))

-- A key that waits nowhere and is not in flight takes off.
pub delivered-IsSound :
    (k : Key) (payload : List ℕ) (s : QueueState)
    → IsSound s
    → ((d : ℕ) (x : Key) → In x (s.pending d) → k ≢ x)
    → ((f : InFlight) → In f s.in_flight → f.key ≢ k)
    → get k s.live_ids ≢ none
    → IsSound (delivered k.stream k payload s)
delivered-IsSound k payload s w waits flies live =
    let keep = λ (f : InFlight). not (f.delivery == s.next_delivery) in
    let new = flying k.stream k payload s in
    record {
      own_channel = w.own_channel;
      once = w.once;
      counted = w.counted;
      grounded = λ d x f m mf. elim mf [
        | inl is ↦ λ e. waits d x m (ap (λ g. g.key) is ∙ e)
        | inr old ↦ w.grounded d x f m (In-of_filter keep f s.in_flight old).0
      ];
      flies_once = (
        All-of_In (Apart new) (filter keep s.in_flight)
            (λ f m e. flies f (In-of_filter keep f s.in_flight m).0 (sym e)),
        Pairwise-filter Apart keep s.in_flight w.flies_once,
      );
      live_pending = w.live_pending;
      live_flight = λ f m. elim m [
        | inl is ↦ subst (λ g. get g.key s.live_ids ≢ none) is live
        | inr old ↦ w.live_flight f (In-of_filter keep f s.in_flight old).0
      ];
      home = λ f m. elim m [
        | inl is ↦ subst (λ g. g.channel ≡ g.key.stream) is refl
        | inr old ↦ w.home f (In-of_filter keep f s.in_flight old).0
      ];
    }

-- A delivery that is over leaves the ones in flight.
pub landed-IsSound : (id : ℕ) (s : QueueState) → IsSound s → IsSound (landed id s)
landed-IsSound id s w =
    let keep = λ (f : InFlight). not (f.delivery == id) in
    record {
      own_channel = w.own_channel;
      once = w.once;
      counted = w.counted;
      grounded = λ d x f m mf. w.grounded d x f m (In-of_filter keep f s.in_flight mf).0;
      flies_once = Pairwise-filter Apart keep s.in_flight w.flies_once;
      live_pending = w.live_pending;
      live_flight = λ f m. w.live_flight f (In-of_filter keep f s.in_flight m).0;
      home = λ f m. w.home f (In-of_filter keep f s.in_flight m).0;
    }

-- No other delivery in flight has its key.
gone :
    (id : ℕ) (f g : InFlight) (s : QueueState)
    → IsSound s
    → In f s.in_flight
    → f.delivery ≡ id
    → In g s.in_flight
    → not (g.delivery == id) ≡ true
    → g.key ≢ f.key
gone id f g s w mf own mg other = elim (Pairwise-related Apart s.in_flight g f w.flies_once mg mf) [
  | inl same ↦ absurd (ground (arith, other, own, ap (λ h. h.delivery) same))
  | inr (inl apart) ↦ apart
  | inr (inr apart) ↦ λ e. apart (sym e)
]

-- A delivery that was in flight returns to the front of its channel.
pub returned-IsSound :
    (id : ℕ) (f : InFlight) (s : QueueState)
    → IsSound s
    → In f s.in_flight
    → f.delivery ≡ id
    → IsSound (returned id f s)
returned-IsSound id f s w flew own =
    let keep = λ (g : InFlight). not (g.delivery == id) in
    let c = f.channel in
    let queue = f.key ∷ s.pending c in
    let old =
      λ (g : InFlight) (m : In g (filter keep s.in_flight)). In-of_filter keep g s.in_flight m in
    let apart = λ (g : InFlight) (m : In g (filter keep s.in_flight)).
      gone id f g s w flew own (old g m).0 (old g m).1 in
    record {
      own_channel =
          by_channel (λ d q. (x : Key) → In x q → x.stream ≡ d) c queue s.pending
            (λ x m. elim m [
              | inl is ↦ ap (λ y. y.stream) (sym is) ∙ sym (w.home f flew)
              | inr m' ↦ w.own_channel c x m'
            ])
            (λ d ne. w.own_channel d);
      once =
          by_channel (λ d q. Pairwise Differs q) c queue s.pending
            (All-of_In (Differs f.key) (s.pending c) (λ x m. w.grounded c x f m flew), w.once c)
            (λ d ne. w.once d);
      counted =
          by_channel (λ d q. (x : Key) → In x q → In x (insert_key f.key s.queued)) c queue
            s.pending
            (λ x m. elim m [
              | inl is ↦
                  subst (λ y. In y (insert_key f.key s.queued)) is (In-insert_key f.key s.queued)
              | inr m' ↦ In-insert_key_old x f.key s.queued (w.counted c x m')
            ])
            (λ d ne x m. In-insert_key_old x f.key s.queued (w.counted d x m));
      grounded =
          by_channel
            (λ d q. (x : Key) (g : InFlight) → In x q → In g (filter keep s.in_flight) → g.key ≢ x)
            c queue s.pending
            (λ x g m mg. elim m [
              | inl is ↦ λ e. apart g mg (e ∙ sym is)
              | inr m' ↦ w.grounded c x g m' (old g mg).0
            ])
            (λ d ne x g m mg. w.grounded d x g m (old g mg).0);
      flies_once = Pairwise-filter Apart keep s.in_flight w.flies_once;
      live_pending =
          by_channel (λ d q. (x : Key) → In x q → get x s.live_ids ≢ none) c queue s.pending
            (λ x m. elim m [
              | inl is ↦ subst (λ y. get y s.live_ids ≢ none) is (w.live_flight f flew)
              | inr m' ↦ w.live_pending c x m'
            ])
            (λ d ne. w.live_pending d);
      live_flight = λ g m. w.live_flight g (old g m).0;
      home = λ g m. w.home g (old g m).0;
    }
