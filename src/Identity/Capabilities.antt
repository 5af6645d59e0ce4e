-- ===== src/Identity/Capabilities.antt =====
-- agent-os/crates/identity/src/delegation.rs: capability families and actions, in the order that
-- `derive(Ord)` gives them, and the pairs that the capability contract defines.
use ai_harness.Base.{ℕ, ◌+◌, ◌*◌, Bool, true, false}

pub data CapabilityFamily : Type 0 where
  workspace network secret agent extension config effect resource : CapabilityFamily

pub data CapabilityAction : Type 0 where
  read write fork merge transfer_exclusive shared_coordinated connect use_secret sign_or_act spawn
        install enable disable propose test activate rollback reconcile resolve_unknown reserve :
      CapabilityAction

pub record Capability : Type 0 where
  pub family : CapabilityFamily
  pub action : CapabilityAction

abbrev pub supported : CapabilityFamily → CapabilityAction → Bool
supported workspace read = true
supported workspace write = true
supported workspace fork = true
supported workspace merge = true
supported workspace transfer_exclusive = true
supported workspace shared_coordinated = true
supported network connect = true
supported secret use_secret = true
supported secret sign_or_act = true
supported agent spawn = true
supported extension install = true
supported extension enable = true
supported extension disable = true
supported config propose = true
supported config test = true
supported config activate = true
supported config rollback = true
supported effect reconcile = true
supported effect resolve_unknown = true
supported resource reserve = true
supported _ _ = false

unfoldable pub is_supported : Capability → Bool
is_supported c = supported c.family c.action

abbrev pub family_rank : CapabilityFamily → ℕ
family_rank workspace = 0
family_rank network = 1
family_rank secret = 2
family_rank agent = 3
family_rank extension = 4
family_rank config = 5
family_rank effect = 6
family_rank resource = 7

abbrev pub action_rank : CapabilityAction → ℕ
action_rank read = 0
action_rank write = 1
action_rank fork = 2
action_rank merge = 3
action_rank transfer_exclusive = 4
action_rank shared_coordinated = 5
action_rank connect = 6
action_rank use_secret = 7
action_rank sign_or_act = 8
action_rank spawn = 9
action_rank install = 10
action_rank enable = 11
action_rank disable = 12
action_rank propose = 13
action_rank test = 14
action_rank activate = 15
action_rank rollback = 16
action_rank reconcile = 17
action_rank resolve_unknown = 18
action_rank reserve = 19

-- The place of a capability in the derived order: by the family, then by the action.
unfoldable pub rank : Capability → ℕ
rank c = 20 * family_rank c.family + action_rank c.action
