-- ===== src/Identity/Order.antt =====
-- Capabilities are told apart by their place in the derived order.
use ai_harness.Base.{ℕ, zero, suc, List, [], ◌∷◌, ◌+◌, ◌*◌, ◌<◌, ◌≡◌, refl, sym, ap, ◌∙◌, arith}
use ai_harness.Identity.Capabilities.{
  CapabilityFamily, CapabilityAction, Capability, family_rank, action_rank, rank, workspace,
  network, secret, agent, extension, config, effect, resource, read, write, fork, merge,
  transfer_exclusive, shared_coordinated, connect, use_secret, sign_or_act, spawn, install, enable,
  disable, propose, test, activate, rollback, reconcile, resolve_unknown, reserve,
}

abbrev entry : {A : Type 0} → A → List A → ℕ → A
entry last [] n = last
entry last (x ∷ xs) zero = x
entry last (x ∷ xs) (suc n) = entry last xs n

abbrev family_at : ℕ → CapabilityFamily
family_at = entry resource (workspace ∷ network ∷ secret ∷ agent ∷ extension ∷ config ∷ effect ∷ [])

abbrev action_at : ℕ → CapabilityAction
action_at = entry reserve (
    read ∷ write ∷ fork ∷ merge ∷ transfer_exclusive ∷ shared_coordinated ∷ connect ∷ use_secret
    ∷ sign_or_act ∷ spawn ∷ install ∷ enable ∷ disable ∷ propose ∷ test ∷ activate ∷ rollback
    ∷ reconcile ∷ resolve_unknown ∷ [])

family_found : (f : CapabilityFamily) → family_at (family_rank f) ≡ f
family_found workspace = refl
family_found network = refl
family_found secret = refl
family_found agent = refl
family_found extension = refl
family_found config = refl
family_found effect = refl
family_found resource = refl

action_found : (a : CapabilityAction) → (action_at (action_rank a) ≡ a) × action_rank a < 20
action_found read = (refl, omega arith)
action_found write = (refl, omega arith)
action_found fork = (refl, omega arith)
action_found merge = (refl, omega arith)
action_found transfer_exclusive = (refl, omega arith)
action_found shared_coordinated = (refl, omega arith)
action_found connect = (refl, omega arith)
action_found use_secret = (refl, omega arith)
action_found sign_or_act = (refl, omega arith)
action_found spawn = (refl, omega arith)
action_found install = (refl, omega arith)
action_found enable = (refl, omega arith)
action_found disable = (refl, omega arith)
action_found propose = (refl, omega arith)
action_found test = (refl, omega arith)
action_found activate = (refl, omega arith)
action_found rollback = (refl, omega arith)
action_found reconcile = (refl, omega arith)
action_found resolve_unknown = (refl, omega arith)
action_found reserve = (refl, omega arith)

digits : (f g a b : ℕ) → a < 20 → b < 20 → 20 * f + a ≡ 20 * g + b → (f ≡ g) × (a ≡ b)
digits f g a b la lb h = (omega (arith, la, lb, h), omega (arith, la, lb, h))

pub rank_injective : (x y : Capability) → rank x ≡ rank y → x ≡ y
unfolding rank
rank_injective x y h =
    let d =
      digits (family_rank x.family) (family_rank y.family) (action_rank x.action)
        (action_rank y.action) (action_found x.action).1 (action_found y.action).1 h in
    let f : x.family ≡ y.family =
      sym (family_found x.family) ∙ ap family_at d.0 ∙ family_found y.family in
    let a : x.action ≡ y.action =
      sym (action_found x.action).0 ∙ ap action_at d.1 ∙ (action_found y.action).0 in
    λ i. record { family = f i; action = a i }
