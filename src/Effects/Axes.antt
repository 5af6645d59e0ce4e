-- ===== src/Effects/Axes.antt =====
-- How the sources of evidence of crates/effects/src/policy.rs bear on each axis of a contract.
use ai_harness.Base.{
  String, [], ◌∷◌, all, Bool-cases, ℕ, ◌≤◌, true, Option, none, some, List, ◌≡◌, refl, subst, ◌⊎◌,
  inl, inr, ◌≢◌, arith, In, Any-In, In-Any, coalesce, Option-cases,
}
use text.Mathlib.TextEquality.{eq_iff}
use ai_harness.Base.Select.{
  filter_map, In-filter_map, In-of_filter_map, max_by_key-In, max_by_key-above,
}
use ai_harness.Domain.Effect.{EffectClass, IdempotencySemantics, ReconciliationSemantics}
use ai_harness.Domain.Security.{
  TrustState, trusted, untrusted, ConformanceState, untested, passed, failed,
}
use ai_harness.Effects.Contract.{CancellationSemantics, unsupported}
use ai_harness.Effects.Policy.{
  DeclaredSemantics, ResolveInputs, class_rank, idempotency_rank, reconciliation_rank,
  cancellation_rank, weakest, admitted, sources_of, class_stored, idempotency_stored,
  reconciliation_stored, map_or, permitted, is_none_or,
}

-- The evidence that a resolution must take into account.
pub data Contributes (inputs : ResolveInputs) (s : DeclaredSemantics) : Type 0 where
  by_kernel : inputs.kernel ≡ some s → Contributes inputs s
  by_claim :
      inputs.trust ≡ trusted
      → inputs.conformance ≡ passed
      → inputs.claim ≡ some s
      → Contributes inputs s
  by_policy : inputs.policy ≡ some s → Contributes inputs s

admitted_claim :
    (t : TrustState) (c : ConformanceState) (claim : Option DeclaredSemantics)
    (s : DeclaredSemantics)
    → admitted t c claim ≡ some s
    → (t ≡ trusted) × (c ≡ passed) × (claim ≡ some s)
unfolding admitted
admitted_claim trusted passed claim s h = (refl, refl, h)
admitted_claim trusted untested claim s h = cc
admitted_claim trusted failed claim s h = cc
admitted_claim untrusted c claim s h = cc

pub counted :
    (inputs : ResolveInputs) (s : DeclaredSemantics)
    → Contributes inputs s
    → In s (sources_of inputs)
unfolding sources_of admitted
counted inputs s (by_kernel e) = In-filter_map (λ o. o) s _ (inl e)
counted inputs s (by_claim t c e) = In-filter_map (λ o. o) s _ (inr (inl (rw (t, c) e)))
counted inputs s (by_policy e) = In-filter_map (λ o. o) s _ (inr (inr (inl e)))

pub only_counted :
    (inputs : ResolveInputs) (s : DeclaredSemantics)
    → In s (sources_of inputs)
    → Contributes inputs s
unfolding sources_of
only_counted inputs s m = elim (In-of_filter_map (λ o. o) s _ m) [
  | inl e ↦ by_kernel e
  | inr (inl e) ↦
      let (t, c, claim) = admitted_claim inputs.trust inputs.conformance inputs.claim s e in
      by_claim t c claim
  | inr (inr (inl e)) ↦ by_policy e
  | inr (inr (inr e)) ↦ absurd e
]

pub weakest_above :
    {T : Type 0} (sources : List DeclaredSemantics) (field : DeclaredSemantics → Option T)
    (rank : T → ℕ) (s : DeclaredSemantics) (x : T)
    → In s sources
    → field s ≡ some x
    → (m : T) × (weakest sources field rank ≡ some m) × (rank x ≤ rank m)
unfolding weakest
weakest_above sources field rank s x m e =
    max_by_key-above rank (filter_map field sources) x
      (In-filter_map field x sources (In-Any (λ y. field y ≡ some x) s sources m e))

pub weakest_from :
    {T : Type 0} (sources : List DeclaredSemantics) (field : DeclaredSemantics → Option T)
    (rank : T → ℕ) (x : T)
    → weakest sources field rank ≡ some x
    → (s : DeclaredSemantics) × In s sources × (field s ≡ some x)
unfolding weakest
weakest_from sources field rank x h =
    Any-In (λ y. field y ≡ some x) sources
      (In-of_filter_map field x sources (max_by_key-In rank (filter_map field sources) x h))

-- A declared value, where there is one, is ranked no higher than the resolved one.
abbrev pub Covered : {T : Type 0} → (T → ℕ) → (T → T) → Option T → T → Type 0
Covered rank stored none r = Unit {0}
Covered rank stored (some x) r = rank (stored x) ≤ rank r

pub weakest-Covered :
    {T : Type 0} (sources : List DeclaredSemantics) (field : DeclaredSemantics → Option T)
    (rank : T → ℕ) (stored : T → T) (d : T) (s : DeclaredSemantics)
    → ((a b : T) → rank a ≤ rank b → rank (stored a) ≤ rank (stored b))
    → In s sources
    → Covered rank stored (field s) (map_or stored d (weakest sources field rank))
weakest-Covered sources field rank stored d s mono m = elim (Option-cases (field s)) [
  | inl nothing ↦ rw nothing tt
  | inr (x, e) ↦
      let (top, found, above) = weakest_above sources field rank s x m e in
      rw (e, found) (mono x top above)
]

pub class_mono :
    (a b : EffectClass)
    → class_rank a ≤ class_rank b
    → class_rank (class_stored a) ≤ class_rank (class_stored b)
unfolding class_rank
class_mono a b h = ground arith

pub idempotency_mono :
    (a b : IdempotencySemantics)
    → idempotency_rank a ≤ idempotency_rank b
    → idempotency_rank (idempotency_stored a) ≤ idempotency_rank (idempotency_stored b)
unfolding idempotency_rank
idempotency_mono a b h = ground arith

pub reconciliation_mono :
    (a b : ReconciliationSemantics)
    → reconciliation_rank a ≤ reconciliation_rank b
    → reconciliation_rank (reconciliation_stored a) ≤ reconciliation_rank (reconciliation_stored b)
unfolding reconciliation_rank
reconciliation_mono a b h = ground arith

pub coalesced :
    (w c : Option CancellationSemantics)
    → Covered cancellation_rank (λ x. x) c (map_or (λ x. x) unsupported w)
    → Covered cancellation_rank (λ x. x) c (coalesce w unsupported)
coalesced none c h = h
coalesced (some x) c h = h

pub not_admitted :
    (t : TrustState) (c : ConformanceState) (claim : Option DeclaredSemantics)
    → (t ≢ trusted) ⊎ (c ≢ passed)
    → admitted t c claim ≡ none
unfolding admitted
not_admitted trusted passed claim (inl e) = absurd (e refl)
not_admitted trusted passed claim (inr e) = absurd (e refl)
not_admitted trusted untested claim h = refl
not_admitted trusted failed claim h = refl
not_admitted untrusted c claim h = refl

-- A compensation that was resolved is the one that a source declares, where it declares any.
abbrev pub Agrees : Option String → Option String → Type 0
Agrees declared none = Unit {0}
Agrees none (some resolved) = Unit {0}
Agrees (some declared) (some resolved) = declared ≡ resolved

all_allow :
    (sources : List DeclaredSemantics) (s : DeclaredSemantics) (resolved : String)
    → all (λ x. is_none_or x.compensation_capability resolved) sources ≡ true
    → In s sources
    → is_none_or s.compensation_capability resolved ≡ true
all_allow [] s resolved h m = absurd m
all_allow (x ∷ xs) s resolved h (inl e) =
    subst (λ y. is_none_or y.compensation_capability resolved ≡ true) e (ground (arith, h))
all_allow (x ∷ xs) s resolved h (inr m) = all_allow xs s resolved (ground (arith, h)) m

allowed-Agrees :
    (declared : Option String) (resolved : String)
    → is_none_or declared resolved ≡ true
    → Agrees declared (some resolved)
unfolding is_none_or
allowed-Agrees none resolved h = tt
allowed-Agrees (some declared) resolved h = (eq_iff declared resolved).0 h

pub permitted-Agrees :
    (sources : List DeclaredSemantics) (s : DeclaredSemantics) (found : Option String)
    → In s sources
    → Agrees s.compensation_capability (permitted sources found)
permitted-Agrees sources s none m = tt
permitted-Agrees sources s (some c) m =
    elim (Bool-cases (all (λ x. is_none_or x.compensation_capability c) sources)) [
      | inr vetoed ↦ rw vetoed tt
      | inl unanimous ↦
          rw unanimous
            (allowed-Agrees s.compensation_capability c (all_allow sources s c unanimous m))
    ]
