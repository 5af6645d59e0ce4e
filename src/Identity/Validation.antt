-- ===== src/Identity/Validation.antt =====
-- What a hop that `validate_chain` passes is known to satisfy.
use ai_harness.Base.{
  ℕ, suc, ◌≤◌, true, Bool-cases, ◌≡◌, refl, sym, ap, ◌∙◌, inl, inr, Option, some, List, ◌∷◌, length,
  arith,
}
use ai_harness.Base.Txn.{ok, err, KernelError, Result-cases}
use ai_harness.Identity.Capabilities.{Capability}
use ai_harness.Identity.Chains.{
  Hop, hop_capabilities, capability_set, validate_from, stays_within, is_next, repeats_grant,
  repeats_capability, claims_ungranted, claims_more,
}

pub not_ok {ℓ} : {A : Type ℓ} {a : A} {e : KernelError} → err e ≡ ok a → ⊥
not_ok h = cc

pub the_ok {ℓ} : {A : Type ℓ} {a b : A} → ok a ≡ ok b → a ≡ b
the_ok h = cc

-- The capabilities of a hop that passes are those it lists, and its grants are at least as many.
pub hop_capabilities_ok :
    (hop : Hop) (found : List Capability)
    → hop_capabilities hop ≡ ok found
    → (found ≡ capability_set hop) × (length hop.capabilities ≤ length hop.grant_ids)
unfolding hop_capabilities
hop_capabilities_ok hop found h = elim (Bool-cases (repeats_grant hop)) [
  | inl bad ↦ absurd (not_ok (rw bad at h))
  | inr a ↦ elim (Bool-cases (repeats_capability hop)) [
    | inl bad ↦ absurd (not_ok (rw bad at (rw a at h)))
    | inr b ↦ elim (Bool-cases (claims_ungranted hop)) [
      | inl bad ↦ absurd (not_ok (rw bad at (rw b at (rw a at h))))
      | inr c ↦ elim (Bool-cases (claims_more hop)) [
        | inl bad ↦ absurd (not_ok (rw bad at (rw c at (rw b at (rw a at h)))))
        | inr d ↦ (sym (the_ok (rw d at (rw c at (rw b at (rw a at h))))), ground (arith, a, b, d))
      ]
    ]
  ]
]

-- What `validate_from` has found of a hop when it passes it.
abbrev pub Passed : ℕ → Option (List Capability) → Hop → Type 0
Passed position previous hop =
    (hop.hop_index ≡ position)
    × (length hop.capabilities ≤ length hop.grant_ids)
    × (stays_within previous (capability_set hop) ≡ true)
    × (is_next position hop.hop_index ≡ true)
    × (hop_capabilities hop ≡ ok (capability_set hop))

pub validate_from_ok :
    (position : ℕ) (previous : Option (List Capability)) (hop : Hop) (rest : List Hop)
    → validate_from position previous (hop ∷ rest) ≡ ok tt
    → Passed position previous hop
      × (validate_from (suc position) (some (capability_set hop)) rest ≡ ok tt)
unfolding validate_from
validate_from_ok position previous hop rest h = elim (Bool-cases (is_next position hop.hop_index)) [
  | inr other ↦ absurd (not_ok (rw other at h))
  | inl next ↦ elim (Result-cases (hop_capabilities hop)) [
    | inr e ↦ absurd (not_ok (rw e.1 at (rw next at h)))
    | inl found ↦
        let known = hop_capabilities_ok hop found.0 found.1 in
        let same : hop_capabilities hop ≡ ok (capability_set hop) = found.1 ∙ ap ok known.0 in
        elim (Bool-cases (stays_within previous (capability_set hop))) [
          | inr wider ↦ absurd (not_ok (rw wider at (rw same at (rw next at h))))
          | inl within ↦ (
            (ground (arith, next), known.1, within, next, same),
            rw within at (rw same at (rw next at h)),
          )
        ]
  ]
]

-- A hop with these properties is passed.
pub validate_from_next :
    (position : ℕ) (previous : Option (List Capability)) (hop : Hop) (rest : List Hop)
    → is_next position hop.hop_index ≡ true
    → hop_capabilities hop ≡ ok (capability_set hop)
    → stays_within previous (capability_set hop) ≡ true
    → validate_from position previous (hop ∷ rest)
      ≡ validate_from (suc position) (some (capability_set hop)) rest
unfolding validate_from
validate_from_next position previous hop rest next capable within =
    rw next (rw capable (rw within refl))
