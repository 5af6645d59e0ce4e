-- ===== src/Queue/Sound.antt =====
-- How the collections of crates/message-queue/src/in_memory.rs agree.
use ai_harness.Base.{
  ℕ, none, List, [], ◌∷◌, ◌++◌, ◌≡◌, ◌≢◌, sym, ap, ◌∙◌, subst, inl, inr, arith, In,
  Any-append_cases, Bool-cases, ◌==◌,
}
use ai_harness.Base.Pairs.{Pairwise, Pairwise-append_one}
use ai_harness.Queue.State.{Key, InFlight, QueueState, get, insert_key, land, at_channel, published}
use ai_harness.Queue.Keys.{In-insert_key, In-insert_key_old, get-land, get-land_old}

abbrev pub Differs : Key → Key → Type 0
Differs a b = a ≢ b

abbrev pub Apart : InFlight → InFlight → Type 0
Apart f g = f.key ≢ g.key

-- A key waits in one place of the channel of its stream, is counted among the queued ones and is not
-- in flight; a key is in flight once, under its own channel; and both are remembered.
pub record IsSound (s : QueueState) : Type 0 where
  pub own_channel : (c : ℕ) (k : Key) → In k (s.pending c) → k.stream ≡ c
  pub once : (c : ℕ) → Pairwise Differs (s.pending c)
  pub counted : (c : ℕ) (k : Key) → In k (s.pending c) → In k s.queued
  pub grounded :
      (c : ℕ) (k : Key) (f : InFlight) → In k (s.pending c) → In f s.in_flight → f.key ≢ k
  pub flies_once : Pairwise Apart s.in_flight
  pub live_pending : (c : ℕ) (k : Key) → In k (s.pending c) → get k s.live_ids ≢ none
  pub live_flight : (f : InFlight) → In f s.in_flight → get f.key s.live_ids ≢ none
  pub home : (f : InFlight) → In f s.in_flight → f.channel ≡ f.key.stream

-- What stands in a channel after one of them was replaced.
at_own : (c : ℕ) (queue : List Key) (pending : ℕ → List Key) → at_channel c queue pending c ≡ queue
at_own c queue pending = ground arith

at_other :
    (c d : ℕ) (queue : List Key) (pending : ℕ → List Key)
    → d ≢ c
    → at_channel c queue pending d ≡ pending d
at_other c d queue pending ne = ground (arith, ne)

-- What holds of the new queue and of all others holds everywhere.
pub by_channel :
    (P : ℕ → List Key → Type 0) (c : ℕ) (queue : List Key) (pending : ℕ → List Key)
    → P c queue
    → ((d : ℕ) → d ≢ c → P d (pending d))
    → (d : ℕ) → P d (at_channel c queue pending d)
by_channel P c queue pending own others d = elim (Bool-cases (d == c)) [
  | inl same ↦
      let is : d ≡ c = ground (arith, same) in
      subst (λ e. P e (at_channel c queue pending e)) (sym is)
        (subst (P c) (sym (at_own c queue pending)) own)
  | inr differs ↦
      let ne : d ≢ c = λ e. ground (arith, differs, e) in
      subst (P d) (sym (at_other c d queue pending ne)) (others d ne)
]

pub published-IsSound :
    (k : Key) (payload : List ℕ) (s : QueueState)
    → IsSound s
    → get k s.live_ids ≡ none
    → IsSound (published k payload s)
published-IsSound k payload s w fresh =
    let c = k.stream in
    let queue = s.pending c ++ k ∷ [] in
    let front =
      λ (x : Key) (m : In x queue). Any-append_cases (λ y. y ≡ x) (s.pending c) (k ∷ []) m in
    record {
      own_channel =
          by_channel (λ d q. (x : Key) → In x q → x.stream ≡ d) c queue s.pending
            (λ x m. elim (front x m) [
              | inl old ↦ w.own_channel c x old
              | inr (inl is) ↦ ap (λ y. y.stream) (sym is)
              | inr (inr nowhere) ↦ absurd nowhere
            ])
            (λ d ne. w.own_channel d);
      once =
          by_channel (λ d q. Pairwise Differs q) c queue s.pending
            (Pairwise-append_one Differs (s.pending c) k (w.once c)
              (λ x m e. w.live_pending c x m (ap (λ y. get y s.live_ids) e ∙ fresh)))
            (λ d ne. w.once d);
      counted =
          by_channel (λ d q. (x : Key) → In x q → In x (insert_key k s.queued)) c queue s.pending
            (λ x m. elim (front x m) [
              | inl old ↦ In-insert_key_old x k s.queued (w.counted c x old)
              | inr (inl is) ↦
                  subst (λ y. In y (insert_key k s.queued)) is (In-insert_key k s.queued)
              | inr (inr nowhere) ↦ absurd nowhere
            ])
            (λ d ne x m. In-insert_key_old x k s.queued (w.counted d x m));
      grounded =
          by_channel (λ d q. (x : Key) (f : InFlight) → In x q → In f s.in_flight → f.key ≢ x) c
            queue s.pending
            (λ x f m mf. elim (front x m) [
              | inl old ↦ w.grounded c x f old mf
              | inr (inl is) ↦
                  λ e. w.live_flight f mf (ap (λ y. get y s.live_ids) (e ∙ sym is) ∙ fresh)
              | inr (inr nowhere) ↦ absurd nowhere
            ])
            (λ d ne. w.grounded d);
      flies_once = w.flies_once;
      live_pending =
          by_channel (λ d q. (x : Key) → In x q → get x (land k payload s.live_ids) ≢ none) c queue
            s.pending
            (λ x m. elim (front x m) [
              | inl old ↦ get-land_old x k payload s.live_ids (w.live_pending c x old)
              | inr (inl is) ↦
                  subst (λ y. get y (land k payload s.live_ids) ≢ none) is
                    (λ e. let landed = get-land k payload s.live_ids in cc (e, landed))
              | inr (inr nowhere) ↦ absurd nowhere
            ])
            (λ d ne x m. get-land_old x k payload s.live_ids (w.live_pending d x m));
      live_flight = λ f m. get-land_old f.key k payload s.live_ids (w.live_flight f m);
      home = w.home;
    }
