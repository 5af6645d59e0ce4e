-- ===== src/Examples/Delegation.antt =====
-- Delegation chains and the catalogue of capabilities at concrete inputs.
use ai_harness.Base.{◌≤◌, ◌≡◌, refl, ◌↔◌, none, [], ◌∷◌, length, In, arith}
use ai_harness.Base.OrderedSet.{insert, to_set, contains, is_subset, IsAscending}
use ai_harness.Base.Txn.{ok}
use ai_harness.Identity.Capabilities.{Capability, workspace, is_supported, read, write, fork, rank}
use ai_harness.Identity.Chains.{
  Hop, DelegationChain, hop_capabilities, validate_from, validate_chain, derive_from,
  derive_child_chain,
}
use ai_harness.Identity.Narrowing.{Holds, authority_narrows}
use ai_harness.Permissions.Catalogue.{supports}
use ai_harness.Permissions.Agreement.{supports_agrees}
use ai_harness.Identity.Delegation.{derived_within_chain, child_chain_valid}

abbrev reading : Capability
reading = record { family = workspace; action = read }

abbrev writing : Capability
writing = record { family = workspace; action = write }

abbrev forking : Capability
forking = record { family = workspace; action = fork }

abbrev root_hop : Hop
root_hop = record {
  hop_index = 0;
  actor_id = 1;
  run_id = none;
  grant_ids = 30 ∷ 10 ∷ 20 ∷ [];
  capabilities = forking ∷ reading ∷ writing ∷ [];
}

abbrev second_hop : Hop
second_hop = record {
  hop_index = 1;
  actor_id = 2;
  run_id = none;
  grant_ids = 40 ∷ 50 ∷ [];
  capabilities = writing ∷ reading ∷ [];
}

abbrev chain_of_two : DelegationChain
chain_of_two = record { chain_id = 9; hops = root_hop ∷ second_hop ∷ [] }

abbrev third_hop : Hop
third_hop = record {
  hop_index = 2;
  actor_id = 3;
  run_id = none;
  grant_ids = 60 ∷ 70 ∷ [];
  capabilities = reading ∷ writing ∷ [];
}

two-IsValid : validate_chain chain_of_two ≡ ok tt
unfolding validate_chain validate_from hop_capabilities to_set insert contains is_subset rank
two-IsValid = refl

three_derived :
    derive_child_chain chain_of_two (writing ∷ reading ∷ writing ∷ []) ≡ ok (reading ∷ writing ∷ [])
unfolding derive_child_chain derive_from validate_chain validate_from hop_capabilities to_set insert
    contains is_subset rank
three_derived = refl

authority_narrows_example :
    (root_hop.hop_index ≡ 0)
    × (length root_hop.capabilities ≤ length root_hop.grant_ids)
    × ((capability : Capability)
        → Holds capability (second_hop ∷ [])
        → In capability root_hop.capabilities)
authority_narrows_example =
    authority_narrows chain_of_two [] (second_hop ∷ []) root_hop two-IsValid refl

derived_within_chain_example :
    IsAscending rank (reading ∷ writing ∷ [])
    × ((c : Capability) → In c (reading ∷ writing ∷ []) ↔ In c (writing ∷ reading ∷ writing ∷ []))
    × ((hop : Hop) (c : Capability)
        → In hop (root_hop ∷ second_hop ∷ [])
        → In c (reading ∷ writing ∷ [])
        → In c hop.capabilities)
derived_within_chain_example =
    derived_within_chain chain_of_two (writing ∷ reading ∷ writing ∷ []) (reading ∷ writing ∷ [])
      three_derived

two_grants : length (to_set (λ n. n) (60 ∷ 70 ∷ [])) ≡ 2
unfolding to_set insert
two_grants = refl

child_chain_valid_example :
    validate_chain (record { chain_id = 9; hops = root_hop ∷ second_hop ∷ third_hop ∷ [] }) ≡ ok tt
child_chain_valid_example =
    child_chain_valid chain_of_two (writing ∷ reading ∷ writing ∷ []) third_hop three_derived refl
      (omega arith) two_grants (omega arith)

supports_agrees_example : supports forking ≡ is_supported forking
supports_agrees_example = supports_agrees forking
