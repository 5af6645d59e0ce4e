-- ===== src/Permissions/Agreement.antt =====
-- The catalogue of the permissions crate and the pairs that the identity crate reads.
use ai_harness.Base.{
  ◌≡◌, refl, sym, ap, ◌∙◌, Bool, true, false, not, Bool-cases, inl, inr, List, [], ◌∷◌, all, In,
}
use ai_harness.Identity.Capabilities.{
  CapabilityFamily, CapabilityAction, Capability, is_supported, workspace, network, secret, agent,
  extension, config, effect, resource, read, write, fork, merge, transfer_exclusive,
  shared_coordinated, connect, use_secret, sign_or_act, spawn, install, enable, disable, propose,
  test, activate, rollback, reconcile, resolve_unknown, reserve,
}
use ai_harness.Permissions.Catalogue.{actions, supports}

abbrev same : Bool → Bool → Bool
same true b = b
same false b = not b

same_eq : (a b : Bool) → same a b ≡ true → a ≡ b
same_eq true b h = sym h
same_eq false true h = h
same_eq false false h = refl

abbrev all_families : List CapabilityFamily
all_families = workspace ∷ network ∷ secret ∷ agent ∷ extension ∷ config ∷ effect ∷ resource ∷ []

abbrev all_actions : List CapabilityAction
all_actions =
    read ∷ write ∷ fork ∷ merge ∷ transfer_exclusive ∷ shared_coordinated ∷ connect ∷ use_secret
    ∷ sign_or_act ∷ spawn ∷ install ∷ enable ∷ disable ∷ propose ∷ test ∷ activate ∷ rollback
    ∷ reconcile ∷ resolve_unknown ∷ reserve ∷ []

apart : false ≡ true → ⊥
apart e = cc

all-In : {A : Type 0} (p : A → Bool) (x : A) (xs : List A) → all p xs ≡ true → In x xs → p x ≡ true
all-In p x [] h m = absurd m
all-In p x (y ∷ ys) h m = elim (Bool-cases (p y)) [
  | inr fails ↦ absurd (apart (rw fails at h))
  | inl holds ↦ elim m [ inl e ↦ sym (ap p e) ∙ holds | inr n ↦ all-In p x ys (rw holds at h) n ]
]

In-families : (f : CapabilityFamily) → In f all_families
In-families workspace = inl refl
In-families network = inr (inl refl)
In-families secret = inr (inr (inl refl))
In-families agent = inr (inr (inr (inl refl)))
In-families extension = inr (inr (inr (inr (inl refl))))
In-families config = inr (inr (inr (inr (inr (inl refl)))))
In-families effect = inr (inr (inr (inr (inr (inr (inl refl))))))
In-families resource = inr (inr (inr (inr (inr (inr (inr (inl refl)))))))

In-actions : (a : CapabilityAction) → In a all_actions
In-actions read = inl refl
In-actions write = inr (inl refl)
In-actions fork = inr (inr (inl refl))
In-actions merge = inr (inr (inr (inl refl)))
In-actions transfer_exclusive = inr (inr (inr (inr (inl refl))))
In-actions shared_coordinated = inr (inr (inr (inr (inr (inl refl)))))
In-actions connect = inr (inr (inr (inr (inr (inr (inl refl))))))
In-actions use_secret = inr (inr (inr (inr (inr (inr (inr (inl refl)))))))
In-actions sign_or_act = inr (inr (inr (inr (inr (inr (inr (inr (inl refl))))))))
In-actions spawn = inr (inr (inr (inr (inr (inr (inr (inr (inr (inl refl)))))))))
In-actions install = inr (inr (inr (inr (inr (inr (inr (inr (inr (inr (inl refl))))))))))
In-actions enable = inr (inr (inr (inr (inr (inr (inr (inr (inr (inr (inr (inl refl)))))))))))
In-actions disable =
    inr (inr (inr (inr (inr (inr (inr (inr (inr (inr (inr (inr (inl refl))))))))))))
In-actions propose =
    inr (inr (inr (inr (inr (inr (inr (inr (inr (inr (inr (inr (inr (inl refl)))))))))))))
In-actions test =
    inr (inr (inr (inr (inr (inr (inr (inr (inr (inr (inr (inr (inr (inr (inl refl))))))))))))))
In-actions activate =
    inr
      (inr (inr (inr (inr (inr (inr (inr (inr (inr (inr (inr (inr (inr (inr (inl refl)))))))))))))))
In-actions rollback = inr (
    inr (
      inr (inr (inr (inr (inr (inr (inr (inr (inr (inr (inr (inr (inr (inr (inl refl))))))))))))))))
In-actions reconcile = inr (
    inr (
      inr (
        inr (
          inr (inr (inr (inr (inr (inr (inr (inr (inr (inr (inr (inr (inr (inl refl)))))))))))))))))
In-actions resolve_unknown = inr (
    inr (
      inr (
        inr (
          inr (
            inr (
              inr (inr (inr (inr (inr (inr (inr (inr (inr (inr (inr (inr (inl refl))))))))))))))))))
In-actions reserve = inr (
    inr (
      inr (
        inr (
          inr (
            inr (
              inr (
                inr (
                  inr (inr (inr (inr (inr (inr (inr (inr (inr (inr (inr (inl refl)))))))))))))))))))

abbrev agrees : CapabilityFamily → CapabilityAction → Bool
agrees f a =
    let c : Capability = record { family = f; action = a } in same (supports c) (is_supported c)

agree_everywhere : all (λ f. all (agrees f) all_actions) all_families ≡ true
unfolding supports is_supported actions
agree_everywhere = refl

-- The catalogue declares a capability exactly where the identity crate supports the pair.
pub supports_agrees : (capability : Capability) → supports capability ≡ is_supported capability
supports_agrees capability =
    let row =
      all-In (λ f. all (agrees f) all_actions) capability.family all_families agree_everywhere
        (In-families capability.family) in
    same_eq (supports capability) (is_supported capability) (
      all-In (agrees capability.family) capability.action all_actions row
        (In-actions capability.action))
