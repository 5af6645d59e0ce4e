-- ===== src/Identity/Chains.antt =====
-- agent-os/crates/identity/src/delegation.rs: the hops of a delegation chain, its validation and the
-- capabilities of a child. An identifier is a number.
use ai_harness.Base.{
  ℕ, suc, ◌==◌, ltb, if◌then◌else◌, Bool, true, false, not, ◌&&◌, Option, none, some, List, [], ◌∷◌,
  length,
}
use ai_harness.Base.OrderedSet.{insert, to_set, contains, is_subset}
use ai_harness.Base.Txn.{Result, ok, err, KernelError, fault, invalid_argument, failed_precondition}
use ai_harness.Identity.Capabilities.{Capability, rank}
use Prim.Native.String.{String}

pub record Hop : Type 0 where
  pub hop_index : ℕ
  pub actor_id : ℕ
  pub run_id : Option ℕ
  pub grant_ids : List ℕ
  pub capabilities : List Capability

pub record DelegationChain : Type 0 where
  pub chain_id : ℕ
  pub hops : List Hop

abbrev pub integrity : String → KernelError
integrity message = fault failed_precondition message

abbrev pub invalid : String → KernelError
invalid message = fault invalid_argument message

-- `BTreeSet::len` compared with the length of the list the set was collected from.
abbrev pub grant_set : Hop → List ℕ
grant_set hop = to_set (λ grant. grant) hop.grant_ids

abbrev pub capability_set : Hop → List Capability
capability_set hop = to_set rank hop.capabilities

abbrev pub is_nonempty {ℓ} : {A : Type ℓ} → List A → Bool
is_nonempty [] = false
is_nonempty (x ∷ xs) = true

-- The four tests of `hop_capabilities`.
abbrev pub repeats_grant : Hop → Bool
repeats_grant hop = not (length (grant_set hop) == length hop.grant_ids)

abbrev pub repeats_capability : Hop → Bool
repeats_capability hop = not (length (capability_set hop) == length hop.capabilities)

abbrev pub claims_ungranted : Hop → Bool
claims_ungranted hop = is_nonempty (capability_set hop) && not (is_nonempty (grant_set hop))

abbrev pub claims_more : Hop → Bool
claims_more hop = ltb (length (grant_set hop)) (length (capability_set hop))

unfoldable pub hop_capabilities : Hop → Result (List Capability)
hop_capabilities hop =
    if repeats_grant hop
    then err (integrity "delegation hop repeats a grant identifier")
    else if repeats_capability hop
    then err (integrity "delegation hop repeats a capability")
    else if claims_ungranted hop
    then err (integrity "delegation hop claims capabilities without grant identifiers")
    else if claims_more hop
    then err (integrity "delegation hop claims more capabilities than its grants")
    else ok (capability_set hop)

-- `u32::try_from(position).ok() == Some(hop_index)`.
abbrev pub u32_bound : ℕ
u32_bound = 4294967296

abbrev pub is_next : ℕ → ℕ → Bool
is_next position hop_index = ltb position u32_bound && position == hop_index

-- Whether a hop stays within the capabilities of the hop before it, if there is one.
abbrev pub stays_within : Option (List Capability) → List Capability → Bool
stays_within none capabilities = true
stays_within (some parent) capabilities = is_subset rank capabilities parent

-- The loop of `validate_chain` from a position on, with the capabilities of the previous hop.
unfoldable pub validate_from : ℕ → Option (List Capability) → List Hop → Result (Unit {0})
validate_from position previous [] = ok tt
validate_from position previous (hop ∷ rest) =
    if is_next position hop.hop_index
    then elim (hop_capabilities hop) [
      | err e ↦ err e
      | ok capabilities ↦
          if stays_within previous capabilities
          then validate_from (suc position) (some capabilities) rest
          else err (integrity "delegation hop capabilities are not a subset of its parent")
    ]
    else err (integrity "delegation hop index is not the next contiguous position")

unfoldable pub validate_chain : DelegationChain → Result (Unit {0})
validate_chain chain = validate_from 0 none chain.hops

-- `hops.last()`, and the set of its capabilities.
abbrev pub last : List Hop → Option Hop
last [] = none
last (hop ∷ []) = some hop
last (hop ∷ next ∷ rest) = last (next ∷ rest)

abbrev pub tip_capabilities : Option Hop → List Capability
tip_capabilities none = []
tip_capabilities (some hop) = capability_set hop

-- The loop of `derive_child_chain`, with what it has derived.
unfoldable pub derive_from :
    List Capability → List Capability → List Capability → Result (List Capability)
derive_from parent derived [] = ok derived
derive_from parent derived (capability ∷ rest) =
    let next = derive_from parent (insert rank capability derived) rest in
    if contains rank parent capability
    then next
    else err (invalid "requested capability is not held by the parent chain")

unfoldable pub derive_child_chain : DelegationChain → List Capability → Result (List Capability)
derive_child_chain parent requested = elim (validate_chain parent) [
  | err e ↦ err e
  | ok _ ↦ derive_from (tip_capabilities (last parent.hops)) [] requested
]
