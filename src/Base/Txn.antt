-- ===== src/Base/Txn.antt =====
-- Kernel errors (crates/errors) and the shape of a service function: it runs inside a caller's
-- transaction `S`, which keeps what was written also when the function fails.
use mathlib.Core.Path.{◌≡◌, refl, sym, ap, ◌∙◌}
use mathlib.Core.Logic.{◌⊎◌, inl, inr}
use mathlib.Core.Option.{Option, none, some}
use mathlib.Core.Bool.{Bool, true, false}
use Prim.Native.String.{String}

-- The stable error codes and their retry classes (crates/errors/src/codes.rs).
pub data ErrorCode : Type 0 where
  invalid_argument not_found conflict failed_precondition resource_exhausted unavailable internal :
      ErrorCode

pub data RetryClass : Type 0 where
  never safe reconciliation_required : RetryClass

pub record KernelError : Type 0 where
  pub code : ErrorCode
  pub retry : RetryClass
  pub detail : String

pub data Result {ℓ} (A : Type ℓ) : Type ℓ where
  ok : A → Result A
  err : KernelError → Result A

pub Result-cases {ℓ} :
    {A : Type ℓ} (r : Result A) → ((a : A) × (r ≡ ok a)) ⊎ ((e : KernelError) × (r ≡ err e))
Result-cases (ok a) = inl (a, refl)
Result-cases (err e) = inr (e, refl)

distinct {ℓ} : {A : Type ℓ} {a : A} {e : KernelError} → ok a ≡ err e → ⊥
distinct h = cc

-- A call that fails does not succeed.
pub ok_not_err {ℓ κ} :
    {A : Type ℓ} {S : Type κ} {a : A} {e : KernelError} {r : Result A × S} {s s' : S}
    → r ≡ (ok a, s)
    → r ≡ (err e, s')
    → ⊥
ok_not_err h h' = distinct (ap (λ t. t.0) (sym h ∙ h'))

abbrev pub fault : ErrorCode → String → KernelError
fault c d = record { code = c; retry = never; detail = d }

-- A function of a transaction: its result and the transaction's state after it.
abbrev pub Txn {ℓ κ} : Type ℓ → Type κ → Type (ℓ ⊔ κ)
Txn S A = S → Result A × S

infixl 5 ◌>>=◌ ◌>>◌
abbrev pub ◌>>=◌ {ℓ κ μ} :
    {S : Type ℓ} {A : Type κ} {B : Type μ} → Txn S A → (A → Txn S B) → Txn S B
◌>>=◌ m f s = let r = m s in elim r.0 [ ok a ↦ f a r.1 | err e ↦ (err e, r.1) ]

-- A sequence that succeeds went through its first call, and through the second one from there.
pub bind_ok {ℓ κ μ} :
    {S : Type ℓ} {A : Type κ} {B : Type μ} (r : Result A × S) (f : A → Txn S B) (b : B) (s' : S)
    → elim r.0 [ ok a ↦ f a r.1 | err e ↦ (err e, r.1) ] ≡ (ok b, s')
    → (a : A) × (s1 : S) × (r ≡ (ok a, s1)) × (f a s1 ≡ (ok b, s'))
bind_ok (ok a, s1) f b s' h = (a, s1, refl, h)
bind_ok (err e, s1) f b s' h = absurd (distinct (ap (λ t. t.0) (sym h)))

abbrev pub ◌>>◌ {ℓ μ} : {S : Type ℓ} {B : Type μ} → Txn S (Unit {0}) → Txn S B → Txn S B
m >> k = m >>= λ _. k

abbrev pub pure {ℓ κ} : {S : Type ℓ} {A : Type κ} → A → Txn S A
pure a s = (ok a, s)

abbrev pub fail {ℓ κ} : {S : Type ℓ} {A : Type κ} → KernelError → Txn S A
fail e s = (err e, s)

-- `if !test { return Err(e) }`.
abbrev pub require {ℓ} : {S : Type ℓ} → Bool → KernelError → Txn S (Unit {0})
require true e s = (ok tt, s)
require false e s = (err e, s)

-- `option.ok_or(e)?`.
abbrev pub or_fail {ℓ κ} : {S : Type ℓ} {A : Type κ} → Option A → KernelError → Txn S A
or_fail none e s = (err e, s)
or_fail (some a) e s = (ok a, s)

-- The command coordinator drops the transaction of a handler that fails.
abbrev pub committed {ℓ κ} : {S : Type ℓ} {A : Type κ} → S → Result A × S → S
committed before (ok a, after) = after
committed before (err e, after) = before

-- The result is an error of the given code.
abbrev pub FailsWith {ℓ} : {A : Type ℓ} → ErrorCode → Result A → Type 0
FailsWith c (ok a) = ⊥
FailsWith c (err e) = e.code ≡ c
