-- ===== src/Identity/Delegation.antt =====
-- The capabilities that `derive_child_chain` gives to a child.
use ai_harness.Base.{
  not, ◌&&◌, ℕ, suc, ◌+◌, ◌≤◌, ◌<◌, true, false, Bool-cases, Option-cases, ◌≡◌, refl, sym, ap, ◌∙◌,
  subst, ◌⊎◌, inl, inr, ◌↔◌, Option, none, some, List, [], ◌∷◌, ◌++◌, length, arith, In,
}
use ai_harness.Base.OrderedSet.{
  insert, contains, IsAscending, insert-IsAscending, In-insert, insert-In, to_set-In, to_set_id,
  contains-In, In-is_subset,
}
use ai_harness.Base.Txn.{ok, Result-cases}
use ai_harness.Identity.Capabilities.{Capability, rank}
use ai_harness.Identity.Order.{rank_injective}
use ai_harness.Identity.Chains.{
  Hop, DelegationChain, capability_set, grant_set, hop_capabilities, validate_from, validate_chain,
  is_next, u32_bound, is_nonempty, stays_within, last, tip_capabilities, derive_from,
  derive_child_chain, repeats_grant, repeats_capability, claims_more,
}
use ai_harness.Identity.Validation.{validate_from_ok, validate_from_next, not_ok, the_ok}
use ai_harness.Identity.Narrowing.{tip_held}

-- What a derivation adds to what it has: the requested capabilities, all of them held by the parent.
derive_from_ok :
    (parent derived requested answer : List Capability)
    → IsAscending rank derived
    → derive_from parent derived requested ≡ ok answer
    → IsAscending rank answer
      × ((c : Capability) → In c answer ↔ (In c derived ⊎ In c requested))
      × ((c : Capability) → In c requested → In c parent)
unfolding derive_from
derive_from_ok parent derived [] answer sorted h =
    let same = the_ok h in
    (
      subst (IsAscending rank) same sorted,
      λ c. (
        λ m. inl (subst (In c) (sym same) m),
        λ m. elim m [ inl n ↦ subst (In c) same n | inr n ↦ absurd n ],
      ),
      λ c m. absurd m,
    )
derive_from_ok parent derived (x ∷ rest) answer sorted h =
    elim (Bool-cases (contains rank parent x)) [
      | inr missing ↦ absurd (not_ok (rw missing at h))
      | inl held ↦
          let r =
            derive_from_ok parent (insert rank x derived) rest answer
              (insert-IsAscending rank x derived sorted) (rw held at h) in
          (
            r.0,
            λ c. (
              λ m. elim ((r.1 c).0 m) [
                | inl n ↦ elim (insert-In rank c x derived n) [
                  | inl e ↦ inr (inl e)
                  | inr k ↦ inl k
                ]
                | inr n ↦ inr (inr n)
              ],
              λ m. (r.1 c).1 (elim m [
                | inl n ↦ inl (In-insert rank rank_injective c x derived (inr n))
                | inr (inl e) ↦ inl (In-insert rank rank_injective c x derived (inl e))
                | inr (inr n) ↦ inr n
              ]),
            ),
            λ c m. elim m [
              | inl e ↦ subst (λ z. In z parent) e (contains-In rank rank_injective x parent held)
              | inr n ↦ r.2 c n
            ],
          )
    ]

-- The result of a derivation from a chain that passes.
abbrev pub Derived : DelegationChain → List Capability → List Capability → Type 0
Derived parent requested answer =
    IsAscending rank answer
    × ((c : Capability) → In c answer ↔ In c requested)
    × ((c : Capability) → In c requested → In c (tip_capabilities (last parent.hops)))

Derived-of_ok :
    (parent : DelegationChain) (requested answer : List Capability)
    → derive_child_chain parent requested ≡ ok answer
    → (validate_chain parent ≡ ok tt) × Derived parent requested answer
unfolding derive_child_chain
Derived-of_ok parent requested answer h = elim (Result-cases (validate_chain parent)) [
  | inr e ↦ absurd (not_ok (rw (e.1, derive_child_chain) at h))
  | inl v ↦
      let r =
        derive_from_ok (tip_capabilities (last parent.hops)) [] requested answer tt
          (rw (v.1, derive_child_chain) at h) in
      (
        v.1,
        (
          r.0,
          λ c. (λ m. elim ((r.1 c).0 m) [ inl n ↦ absurd n | inr n ↦ n ], λ m. (r.1 c).1 (inr m)),
          r.2,
        ),
      )
]

-- What `derive_child_chain` answers for a parent chain: the requested capabilities, once each and in
-- their order, all of which every hop of that chain holds.
pub derived_within_chain :
    (parent : DelegationChain) (requested answer : List Capability)
    → derive_child_chain parent requested ≡ ok answer
    → IsAscending rank answer
      × ((c : Capability) → In c answer ↔ In c requested)
      × ((hop : Hop) (c : Capability) → In hop parent.hops → In c answer → In c hop.capabilities)
unfolding validate_chain
derived_within_chain parent requested answer h =
    let d = Derived-of_ok parent requested answer h in
    (
      d.1.0,
      d.1.1,
      λ hop c m held. elim (Option-cases (last parent.hops)) [
        | inl nobody ↦
            absurd (subst (λ t. In c (tip_capabilities t)) nobody (d.1.2 c ((d.1.1 c).0 held)))
        | inr tip ↦
            let own = subst (λ t. In c (tip_capabilities t)) tip.1 (d.1.2 c ((d.1.1 c).0 held)) in
            tip_held 0 none parent.hops tip.0 hop c d.0 tip.1 m
              (to_set-In rank c tip.0.capabilities own)
      ],
    )

-- The capabilities that a hop appended to these hops has to stay within.
abbrev bound_of : Option (List Capability) → List Hop → Option (List Capability)
bound_of previous [] = previous
bound_of previous (hop ∷ rest) = bound_of (some (capability_set hop)) rest

extended :
    (position : ℕ) (previous : Option (List Capability)) (hops : List Hop) (child : Hop)
    → validate_from position previous hops ≡ ok tt
    → is_next (position + length hops) child.hop_index ≡ true
    → hop_capabilities child ≡ ok (capability_set child)
    → stays_within (bound_of previous hops) (capability_set child) ≡ true
    → validate_from position previous (hops ++ child ∷ []) ≡ ok tt
unfolding validate_from
extended position previous [] child v next capable within =
    let here : is_next position child.hop_index ≡ true =
      ap (λ n. is_next n child.hop_index) (omega arith) ∙ next in
    validate_from_next position previous child [] here capable within
extended position previous (hop ∷ rest) child v next capable within =
    let passed = validate_from_ok position previous hop rest v in
    let here : is_next (suc position + length rest) child.hop_index ≡ true =
      ap (λ n. is_next n child.hop_index) (omega arith) ∙ next in
    validate_from_next position previous hop (rest ++ child ∷ []) passed.0.3 passed.0.4 passed.0.2
    ∙ extended (suc position) (some (capability_set hop)) rest child passed.1 here capable within

bounded_below :
    (previous : Option (List Capability)) (hop : Hop) (rest : List Hop) (held : List Capability)
    → ((c : Capability) → In c held → In c (tip_capabilities (last (hop ∷ rest))))
    → stays_within (bound_of previous (hop ∷ rest)) held ≡ true
bounded_below previous hop [] held within = In-is_subset rank held (capability_set hop) within
bounded_below previous hop (next ∷ rest) held within =
    bounded_below (some (capability_set hop)) next rest held within

bounded :
    (hops : List Hop) (held : List Capability)
    → ((c : Capability) → In c held → In c (tip_capabilities (last hops)))
    → stays_within (bound_of none hops) held ≡ true
bounded [] held within = refl
bounded (hop ∷ rest) held within = bounded_below none hop rest held within

granted :
    {A B : Type 0} (xs : List A) (ys : List B)
    → length xs ≤ length ys
    → (is_nonempty xs && not (is_nonempty ys)) ≡ false
granted [] ys l = refl
granted (x ∷ xs) [] l = absurd (omega (arith, l))
granted (x ∷ xs) (y ∷ ys) l = refl

capable :
    (hop : Hop)
    → length (grant_set hop) ≡ length hop.grant_ids
    → length (capability_set hop) ≡ length hop.capabilities
    → length hop.capabilities ≤ length hop.grant_ids
    → hop_capabilities hop ≡ ok (capability_set hop)
unfolding hop_capabilities
capable hop g c l =
    let a : repeats_grant hop ≡ false = ground (arith, g) in
    let b : repeats_capability hop ≡ false = ground (arith, c) in
    let enough : length (capability_set hop) ≤ length (grant_set hop) = omega (arith, g, c, l) in
    let d : claims_more hop ≡ false = ground (arith, enough) in
    rw a (rw b (rw (granted (capability_set hop) (grant_set hop) enough) (rw d refl)))

-- A chain stays valid when a hop with capabilities from `derive_child_chain` is appended, if the hop
-- carries the next position, that position fits in 32 bits, its grants are distinct, and they are at
-- least as many as the capabilities.
pub child_chain_valid :
    (parent : DelegationChain) (requested : List Capability) (child : Hop)
    → derive_child_chain parent requested ≡ ok child.capabilities
    → child.hop_index ≡ length parent.hops
    → length parent.hops < u32_bound
    → length (grant_set child) ≡ length child.grant_ids
    → length child.capabilities ≤ length child.grant_ids
    → validate_chain (record { chain_id = parent.chain_id; hops = parent.hops ++ child ∷ [] })
      ≡ ok tt
unfolding validate_chain
child_chain_valid parent requested child h index fits distinct enough =
    let d = Derived-of_ok parent requested child.capabilities h in
    let same : capability_set child ≡ child.capabilities =
      to_set_id rank child.capabilities d.1.0 in
    let next : is_next (0 + length parent.hops) child.hop_index ≡ true =
      ground (arith, index, fits) in
    let within : (c : Capability)
        → In c (capability_set child)
        → In c (tip_capabilities (last parent.hops)) =
      λ c m. d.1.2 c ((d.1.1 c).0 (subst (In c) same m)) in
    extended 0 none parent.hops child d.0 next (capable child distinct (ap length same) enough)
      (bounded parent.hops (capability_set child) within)
