-- ===== src/Identity/Narrowing.antt =====
-- Authority along a delegation chain.
use ai_harness.Base.{
  ℕ, suc, ◌+◌, ◌≤◌, ◌≡◌, sym, ap, ◌∙◌, subst, inl, inr, Option, none, some, List, [], ◌∷◌, ◌++◌,
  length, arith, In, Any,
}
use ai_harness.Base.OrderedSet.{to_set-In, In-to_set, is_subset-In}
use ai_harness.Base.Txn.{ok}
use ai_harness.Identity.Capabilities.{Capability, rank}
use ai_harness.Identity.Order.{rank_injective}
use ai_harness.Identity.Chains.{
  Hop, DelegationChain, last, capability_set, validate_from, validate_chain,
}
use ai_harness.Identity.Validation.{validate_from_ok}

the_tip : {a b : Hop} → some a ≡ some b → a ≡ b
the_tip h = cc

no_tip : {a : Hop} → none ≡ some a → ⊥
no_tip h = cc

-- Some hop of the list holds the capability.
abbrev pub Holds : Capability → List Hop → Type 0
Holds capability = Any (λ hop. In capability hop.capabilities)

held_below :
    (position : ℕ) (parent : List Capability) (capability : Capability) (hops : List Hop)
    → validate_from position (some parent) hops ≡ ok tt
    → Holds capability hops
    → In capability parent
held_below position parent capability [] v h = absurd h
held_below position parent capability (hop ∷ rest) v h =
    let passed = validate_from_ok position (some parent) hop rest v in
    let within : (x : Capability) → In x (capability_set hop) → In x parent =
      is_subset-In rank rank_injective (capability_set hop) parent passed.0.2 in
    elim h [
      | inl own ↦ within capability (In-to_set rank rank_injective capability hop.capabilities own)
      | inr below ↦
          within capability
            (held_below (suc position) (capability_set hop) capability rest passed.1 below)
    ]

-- The validation goes on at a hop with the position that it has in the chain.
reached :
    (position : ℕ) (previous : Option (List Capability)) (above below : List Hop)
    → validate_from position previous (above ++ below) ≡ ok tt
    → (parent : Option (List Capability)) × (validate_from (position + length above) parent below
        ≡ ok tt)
reached position previous [] below v =
    (previous, ap (λ n. validate_from n previous below) (omega arith) ∙ v)
reached position previous (hop ∷ above) below v =
    let passed = validate_from_ok position previous hop (above ++ below) v in
    let r = reached (suc position) (some (capability_set hop)) above below passed.1 in
    (r.0, ap (λ n. validate_from n r.0 below) (omega arith) ∙ r.1)

-- In a chain that `validate_chain` passes, a hop carries its position, lists no more capabilities than
-- it has grants, and holds every capability that a later hop holds.
pub authority_narrows :
    (chain : DelegationChain) (above below : List Hop) (hop : Hop)
    → validate_chain chain ≡ ok tt
    → chain.hops ≡ above ++ hop ∷ below
    → (hop.hop_index ≡ length above)
      × (length hop.capabilities ≤ length hop.grant_ids)
      × ((capability : Capability) → Holds capability below → In capability hop.capabilities)
unfolding validate_chain
authority_narrows chain above below hop valid place =
    let v : validate_from 0 none (above ++ hop ∷ below) ≡ ok tt =
      sym (ap (validate_from 0 none) place) ∙ valid in
    let r = reached 0 none above (hop ∷ below) v in
    let here : validate_from (length above) r.0 (hop ∷ below) ≡ ok tt =
      ap (λ n. validate_from n r.0 (hop ∷ below)) (omega arith) ∙ r.1 in
    let passed = validate_from_ok (length above) r.0 hop below here in
    (
      passed.0.0,
      passed.0.1,
      λ capability h.
          to_set-In rank capability hop.capabilities
            (held_below (suc (length above)) (capability_set hop) capability below passed.1 h),
    )

last-Holds :
    (hops : List Hop) (tip : Hop) (capability : Capability)
    → last hops ≡ some tip
    → In capability tip.capabilities
    → Holds capability hops
last-Holds [] tip capability e m = absurd (no_tip e)
last-Holds (hop ∷ []) tip capability e m =
    inl (subst (λ h. In capability h.capabilities) (sym (the_tip e)) m)
last-Holds (hop ∷ next ∷ rest) tip capability e m =
    inr (last-Holds (next ∷ rest) tip capability e m)

-- What the tip of a chain that passes holds, every hop holds.
pub tip_held :
    (position : ℕ) (previous : Option (List Capability)) (hops : List Hop) (tip hop : Hop)
    (capability : Capability)
    → validate_from position previous hops ≡ ok tt
    → last hops ≡ some tip
    → In hop hops
    → In capability tip.capabilities
    → In capability hop.capabilities
tip_held position previous [] tip hop capability v e m held = absurd m
tip_held position previous (one ∷ []) tip hop capability v e (inr m) held = absurd m
tip_held position previous (one ∷ []) tip hop capability v e (inl m) held =
    subst (λ h. In capability h.capabilities) (sym (the_tip e) ∙ m) held
tip_held position previous (one ∷ next ∷ rest) tip hop capability v e (inl m) held =
    let passed = validate_from_ok position previous one (next ∷ rest) v in
    let own : In capability one.capabilities = to_set-In rank capability one.capabilities (
      held_below (suc position) (capability_set one) capability (next ∷ rest) passed.1
        (last-Holds (next ∷ rest) tip capability e held)) in
    subst (λ h. In capability h.capabilities) m own
tip_held position previous (one ∷ next ∷ rest) tip hop capability v e (inr m) held =
    let passed = validate_from_ok position previous one (next ∷ rest) v in
    tip_held (suc position) (some (capability_set one)) (next ∷ rest) tip hop capability passed.1 e
      m held
