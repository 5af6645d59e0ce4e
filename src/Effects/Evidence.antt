-- ===== src/Effects/Evidence.antt =====
-- What the policy resolver of crates/effects/src/policy.rs can be relied on for: absent or untrusted
-- evidence never makes a contract safer.
use ai_harness.Base.{
  ◌≤◌, true, Option, none, some, ◌≡◌, refl, sym, subst, ◌∙◌, ◌⊎◌, inl, inr, ◌≢◌, arith, In, All,
  All-of_In, Option-cases,
}
use ai_harness.Domain.Effect.{IdempotencySemantics}
use ai_harness.Domain.Security.{trusted, passed}
use ai_harness.Effects.Contract.{EffectContract, is_safely_redispatchable}
use ai_harness.Effects.Policy.{
  DeclaredSemantics, ResolveInputs, idempotency_rank, weakest, admitted, sources_of,
  idempotency_stored, map_or, resolve,
}
use ai_harness.Effects.Axes.{Contributes, only_counted, weakest_above, weakest_from, not_admitted}

-- The claim of an adapter that is not trusted, or whose conformance has not passed, has no influence on the contract.
pub resolve_claim_ignored :
    (inputs : ResolveInputs)
    → (inputs.trust ≢ trusted) ⊎ (inputs.conformance ≢ passed)
    → resolve inputs ≡ resolve (record inputs { claim = none })
unfolding resolve sources_of
resolve_claim_ignored inputs h =
    let ignored = not_admitted inputs.trust inputs.conformance inputs.claim h in
    let same : admitted inputs.trust inputs.conformance inputs.claim
        ≡ admitted inputs.trust inputs.conformance none =
      ignored ∙ sym (not_admitted inputs.trust inputs.conformance none h) in
    rw same refl

-- An idempotency that lets an operation be sent twice.
abbrev pub IsSafe : Option IdempotencySemantics → Type 0
IsSafe o =
    (o ≡ some IdempotencySemantics.naturally_idempotent)
    ⊎ (o ≡ some IdempotencySemantics.idempotency_key_supported)

IsSafe-axis :
    (w : Option IdempotencySemantics) (c : EffectContract)
    → c.idempotency ≡ map_or idempotency_stored IdempotencySemantics.unknown_idempotency w
    → is_safely_redispatchable c ≡ true
    → IsSafe w
unfolding is_safely_redispatchable
IsSafe-axis w c e h = ground (arith, e)

IsSafe-below :
    (a b : IdempotencySemantics)
    → idempotency_rank a ≤ idempotency_rank b
    → IsSafe (some b)
    → IsSafe (some a)
unfolding idempotency_rank
IsSafe-below a b up h = ground arith

the_some : {A : Type 0} (a b : A) → some a ≡ some b → a ≡ b
the_some a b h = cc

IsSafe-source :
    (inputs : ResolveInputs) (s : DeclaredSemantics) (top : IdempotencySemantics)
    → weakest (sources_of inputs) (λ x. x.idempotency) idempotency_rank ≡ some top
    → IsSafe (some top)
    → In s (sources_of inputs)
    → (s.idempotency ≡ none) ⊎ IsSafe s.idempotency
IsSafe-source inputs s top found safe m = elim (Option-cases s.idempotency) [
  | inl nothing ↦ inl nothing
  | inr (x, e) ↦
      let (t, is, above) =
        weakest_above (sources_of inputs) (λ y. y.idempotency) idempotency_rank s x m e in
      let same : top ≡ t = the_some top t (cc (found, is)) in
      inr (rw e (IsSafe-below x top (rw same above) safe))
]

-- A contract that permits a redispatch rests on evidence: some contributing source declares the operation safe to send twice, and every source that is counted either is silent on it or declares the same.
pub redispatch_needs_evidence :
    (inputs : ResolveInputs)
    → is_safely_redispatchable (resolve inputs) ≡ true
    → ((s : DeclaredSemantics) × Contributes inputs s × IsSafe s.idempotency)
      × All (λ s. (s.idempotency ≡ none) ⊎ IsSafe s.idempotency) (sources_of inputs)
unfolding resolve
redispatch_needs_evidence inputs h =
    let axis = weakest (sources_of inputs) (λ s. s.idempotency) idempotency_rank in
    let safe = IsSafe-axis axis (resolve inputs) refl h in
    elim (Option-cases axis) [
      | inl nothing ↦ elim safe [ inl e ↦ cc | inr e ↦ cc ]
      | inr (top, found) ↦
          let (s, m, declared) =
            weakest_from (sources_of inputs) (λ x. x.idempotency) idempotency_rank top found in
          let safe_top : IsSafe (some top) = subst IsSafe found safe in
          (
            (s, only_counted inputs s m, rw declared safe_top),
            All-of_In _ (sources_of inputs)
                (λ x there. IsSafe-source inputs x top found safe_top there),
          )
    ]
