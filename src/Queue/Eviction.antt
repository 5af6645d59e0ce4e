-- ===== src/Queue/Eviction.antt =====
-- `evict_tombstones` of crates/message-queue/src/in_memory.rs and the keys that still count.
use ai_harness.Base.{
  ltb, ◌&&◌, ℕ, zero, suc, ◌+◌, true, false, none, List, [], ◌∷◌, ◌++◌, ◌≡◌, ◌≢◌, refl, sym, ap,
  ◌∙◌, inl, inr, arith, In, Bool-cases, any, length,
}
use ai_harness.Queue.State.{
  next_round, tombstone_cap, Key, Stored, InFlight, QueueState, same_key, get, without, evicted,
  is_active, evict, evict_tombstones,
}
use ai_harness.Queue.Keys.{same_key_refl, any-key, get-without}
use ai_harness.Queue.Sound.{IsSound}

-- Two states with the same messages on their way.
abbrev pub SameLoad : QueueState → QueueState → Type 0
SameLoad a b = (a.queued ≡ b.queued) × (a.in_flight ≡ b.in_flight) × (a.pending ≡ b.pending)

any_flight :
    (f : InFlight) (fs : List InFlight) → In f fs → any (λ g. same_key g.key f.key) fs ≡ true
any_flight f [] m = absurd m
any_flight f (g ∷ gs) (inl e) =
    let same : same_key g.key f.key ≡ true = rw e (same_key_refl f.key) in ground (arith, same)
any_flight f (g ∷ gs) (inr m) = ground (arith, any_flight f gs m)

true_not_false : true ≡ false → ⊥
true_not_false h = cc

relive :
    (s : QueueState) (ids : List Stored) (order : List Key)
    → IsSound s
    → ((x : Key) → is_active x s ≡ true → get x s.live_ids ≢ none → get x ids ≢ none)
    → IsSound (record s { live_ids = ids; live_order = order })
unfolding is_active
relive s ids order w kept = record {
  own_channel = w.own_channel;
  once = w.once;
  counted = w.counted;
  grounded = w.grounded;
  flies_once = w.flies_once;
  live_pending =
      λ c x m. kept x (ground (arith, any-key x s.queued (w.counted c x m))) (w.live_pending c x m);
  live_flight = λ f m. kept f.key (ground (arith, any_flight f s.in_flight m)) (w.live_flight f m);
  home = w.home;
}

evicted_keeps :
    (k : Key) (rest : List Key) (s : QueueState)
    → IsSound s
    → IsSound (evicted k rest s) × SameLoad (evicted k rest s) s
evicted_keeps k rest s w = elim (Bool-cases (is_active k s)) [
  | inl active ↦
      rw active (relive s s.live_ids (rest ++ k ∷ []) w (λ x a live. live), (refl, refl, refl))
  | inr idle ↦ rw idle (
    relive s (without k s.live_ids) rest w (λ x active live e.
        let ne : x ≢ k = λ is. true_not_false (sym active ∙ ap (λ y. is_active y s) is ∙ idle) in
        live (sym (get-without x k s.live_ids ne) ∙ e)),
    (refl, refl, refl),
  )
]

round_keeps :
    (s : QueueState) (again : QueueState → QueueState) (order : List Key)
    → IsSound s
    → ((t : QueueState) → IsSound t → IsSound (again t) × SameLoad (again t) t)
    → IsSound (next_round order s again) × SameLoad (next_round order s again) s
round_keeps s again [] w rest = (w, (refl, refl, refl))
round_keeps s again (k ∷ ks) w rest =
    let (w1, same1) = evicted_keeps k ks s w in
    let (w2, same2) = rest (evicted k ks s) w1 in
    (w2, (same2.0 ∙ same1.0, same2.1 ∙ same1.1, same2.2 ∙ same1.2))

evict_keeps :
    (rounds scanned : ℕ) (s : QueueState)
    → IsSound s
    → IsSound (evict rounds scanned s) × SameLoad (evict rounds scanned s) s
unfolding evict
evict_keeps zero scanned s w = (w, (refl, refl, refl))
evict_keeps (suc rounds) scanned s w =
    elim (Bool-cases (ltb tombstone_cap (length s.live_ids) && ltb scanned (length s.live_order))) [
      | inr over ↦ rw over (w, (refl, refl, refl))
      | inl going ↦ rw going (
          round_keeps s (evict rounds (scanned + 1)) s.live_order w
            (λ t w'. evict_keeps rounds (scanned + 1) t w'))
    ]

pub evict_tombstones_keeps :
    (s : QueueState) → IsSound s → IsSound (evict_tombstones s) × SameLoad (evict_tombstones s) s
unfolding evict_tombstones
evict_tombstones_keeps s w = evict_keeps (length s.live_order) 0 s w
