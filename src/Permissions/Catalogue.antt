-- ===== src/Permissions/Catalogue.antt =====
-- The families of agent-os/crates/permissions/src/capabilities.rs with the actions of each.
use ai_harness.Base.{◌==◌, Bool, if◌then◌else◌, List, [], ◌∷◌, any, String}
use ai_harness.Identity.Capabilities.{
  CapabilityFamily, CapabilityAction, Capability, family_rank, action_rank, workspace, network,
  secret, agent, extension, config, effect, resource, read, write, fork, merge, transfer_exclusive,
  shared_coordinated, connect, use_secret, sign_or_act, spawn, install, enable, disable, propose,
  test, activate, rollback, reconcile, resolve_unknown, reserve,
}

pub record FamilySpec : Type 0 where
  pub token : String
  pub family : CapabilityFamily
  pub declared : List CapabilityAction

abbrev spec : String → CapabilityFamily → List CapabilityAction → FamilySpec
spec t f d = record { token = t; family = f; declared = d }

abbrev pub family_specs : List FamilySpec
family_specs =
    spec "workspace" workspace
      (read ∷ write ∷ fork ∷ merge ∷ transfer_exclusive ∷ shared_coordinated ∷ [])
    ∷ spec "network" network (connect ∷ [])
    ∷ spec "secret" secret (use_secret ∷ sign_or_act ∷ [])
    ∷ spec "agent" agent (spawn ∷ [])
    ∷ spec "extension" extension (install ∷ enable ∷ disable ∷ [])
    ∷ spec "config" config (propose ∷ test ∷ activate ∷ rollback ∷ [])
    ∷ spec "effect" effect (reconcile ∷ resolve_unknown ∷ [])
    ∷ spec "resource" resource (reserve ∷ [])
    ∷ []

-- `iter().find(|spec| spec.family == family)`, with the actions of what it finds.
abbrev pub actions_in : List FamilySpec → CapabilityFamily → List CapabilityAction
actions_in [] family = []
actions_in (s ∷ specs) family =
    if family_rank s.family == family_rank family then s.declared else actions_in specs family

unfoldable pub actions : CapabilityFamily → List CapabilityAction
actions family = actions_in family_specs family

unfoldable pub supports : Capability → Bool
supports capability =
    any (λ action. action_rank action == action_rank capability.action) (actions capability.family)
