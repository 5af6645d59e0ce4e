-- ===== src/Effects/History.antt =====
-- Sequences of the operations of crates/effects/src/executor.rs and reconcile.rs, in any order and by
-- any caller, with restarts of the daemon between them.
use ai_harness.Base.{ℕ, Option, none, some, String, ◌≡◌, refl, sym, subst, arith, inl, inr}
use ai_harness.Base.Txn.{Txn, pure, Result-cases, ◌>>=◌, ◌>>◌}
use ai_harness.Store.Models.{EffectRow}
use ai_harness.Store.Kernel.{KernelTxn}
use ai_harness.Store.Outbox.{stage}
use ai_harness.Effects.Executor.{
  ExecutorRef, transition, claim, mark_dispatched, acknowledge, commit, commit_durable, fail,
  mark_unknown, cancel, stage_effect_event, to_dispatched, to_acknowledged, to_cancelled,
  to_committed, to_failed, to_unknown,
}
use ai_harness.Effects.Reconcile.{
  succeeded, failed, not_found, unknown, ReconcilePlan, observed_cases, settle, redispatch, park,
  apply_plan, apply_observed, Resolution, mark_succeeded, mark_failed,
  retry_accepting_duplicate_risk, resolution_transition, apply_resolution, to_prepared,
}
use ai_harness.Effects.Progress.{
  Advances, Advances-refl, Advances-trans, IsPlain, transition-Advances, claim-Advances,
}

-- One operation, whatever it returns, or a restart of the daemon in a new epoch.
pub data Step (txn : KernelTxn) : KernelTxn → Type 0 where
  claims : (now id : ℕ) (who : String) → Step txn (claim now id who txn).1
  dispatches :
      (now id : ℕ) (e : ExecutorRef) (ref : Option String)
      → Step txn (mark_dispatched now id e ref txn).1
  acknowledges :
      (now id : ℕ) (e : ExecutorRef) (ref : Option String)
      → Step txn (acknowledge now id e ref txn).1
  commits :
      (now id : ℕ) (e : ExecutorRef) (ref : Option String) → Step txn (commit now id e ref txn).1
  commits_durable : (now id : ℕ) (ref : Option String) → Step txn (commit_durable now id ref txn).1
  fails : (now id : ℕ) (e : ExecutorRef) (code : String) → Step txn (fail now id e code txn).1
  marks_unknown : (now id : ℕ) (e : Option ExecutorRef) → Step txn (mark_unknown now id e txn).1
  cancels : (now id : ℕ) (e : Option ExecutorRef) → Step txn (cancel now id e txn).1
  observes : (now id : ℕ) (plan : ReconcilePlan) → Step txn (apply_observed now id plan txn).1
  resolves :
      (now id : ℕ) (r : Resolution) (ref : Option String) (reason : String)
      → Step txn (apply_resolution now id r ref reason txn).1
  restarts : (epoch : ℕ) → Step txn (record txn { daemon_epoch = epoch })

pub data History (a : KernelTxn) : KernelTxn → Type 0 where
  nothing : History a a
  then_step : {b c : KernelTxn} → History a b → Step b c → History a c

bind-Advances {ℓ κ} :
    (id : ℕ) {A : Type ℓ} {B : Type κ} (m : Txn KernelTxn A) (f : A → Txn KernelTxn B)
    (txn : KernelTxn)
    → Advances id txn (m txn).1
    → ((a : A) (b : KernelTxn) → Advances id b (f a b).1)
    → Advances id txn ((m >>= f) txn).1
bind-Advances id m f txn first rest = elim (Result-cases (m txn).0) [
  | inl (a, done) ↦
      let after : ((m >>= f) txn).1 ≡ (f a (m txn).1).1 = ground (arith, done) in
      subst (λ b. Advances id txn b) (sym after)
        (Advances-trans id txn (m txn).1 (f a (m txn).1).1 first (rest a (m txn).1))
  | inr (e, refused) ↦
      let after : ((m >>= f) txn).1 ≡ (m txn).1 = ground (arith, refused) in
      subst (λ b. Advances id txn b) (sym after) first
]

-- The end of every operation of reconciliation that settles an effect.
abbrev announced : ℕ → EffectRow → Txn KernelTxn EffectRow
announced k row = do stage_effect_event "EffectReconciled" k row; pure row

announce-Advances :
    (id k : ℕ) (row : EffectRow) (txn : KernelTxn) → Advances id txn (announced k row txn).1
unfolding stage
announce-Advances id k row txn = Advances-refl id txn

resolution-IsPlain :
    (r : Resolution) (ref : Option String) (reason : String)
    → IsPlain (resolution_transition r ref reason)
resolution-IsPlain mark_succeeded ref reason = (refl, refl)
resolution-IsPlain mark_failed ref reason = (refl, refl)
resolution-IsPlain retry_accepting_duplicate_risk ref reason = (refl, refl)

plan-Advances :
    (id now k : ℕ) (plan : ReconcilePlan) (txn : KernelTxn)
    → Advances id txn (apply_plan now k plan txn).1
plan-Advances id now k (settle (succeeded ref)) txn =
    bind-Advances id (transition now k none (to_acknowledged (some ref)))
      (λ _. transition now k none (to_committed none) >>= announced k) txn
      (transition-Advances id now k none (to_acknowledged (some ref)) txn (refl, refl))
      (λ _ b.
        bind-Advances id (transition now k none (to_committed none)) (announced k) b
          (transition-Advances id now k none (to_committed none) b (refl, refl))
          (λ row c. announce-Advances id k row c))
plan-Advances id now k (settle (failed code)) txn =
    bind-Advances id (transition now k none (to_failed code)) (announced k) txn
      (transition-Advances id now k none (to_failed code) txn (refl, refl))
      (λ row c. announce-Advances id k row c)
plan-Advances id now k (settle not_found) txn =
    transition-Advances id now k none to_unknown txn (refl, refl)
plan-Advances id now k (settle unknown) txn =
    transition-Advances id now k none to_unknown txn (refl, refl)
plan-Advances id now k redispatch txn =
    transition-Advances id now k none to_prepared txn (refl, refl)
plan-Advances id now k park txn = transition-Advances id now k none to_unknown txn (refl, refl)

observed-Advances :
    (id now k : ℕ) (plan : ReconcilePlan) (txn : KernelTxn)
    → Advances id txn (apply_observed now k plan txn).1
observed-Advances id now k plan txn = elim (observed_cases now k plan txn) [
  | inl same ↦ rw same (Advances-refl id txn)
  | inr applied ↦ rw applied (plan-Advances id now k plan txn)
]

Step-Advances : (id : ℕ) {a b : KernelTxn} → Step a b → Advances id a b
unfolding mark_dispatched acknowledge commit commit_durable fail mark_unknown cancel
    apply_resolution
Step-Advances id {a} (claims now k who) = claim-Advances id now k who a
Step-Advances id {a} (dispatches now k e ref) =
    transition-Advances id now k (some e) (to_dispatched ref) a (refl, refl)
Step-Advances id {a} (acknowledges now k e ref) =
    transition-Advances id now k (some e) (to_acknowledged ref) a (refl, refl)
Step-Advances id {a} (commits now k e ref) =
    transition-Advances id now k (some e) (to_committed ref) a (refl, refl)
Step-Advances id {a} (commits_durable now k ref) =
    transition-Advances id now k none (to_committed ref) a (refl, refl)
Step-Advances id {a} (fails now k e code) =
    transition-Advances id now k (some e) (to_failed code) a (refl, refl)
Step-Advances id {a} (marks_unknown now k e) =
    transition-Advances id now k e to_unknown a (refl, refl)
Step-Advances id {a} (cancels now k e) = transition-Advances id now k e to_cancelled a (refl, refl)
Step-Advances id {a} (observes now k plan) = observed-Advances id now k plan a
Step-Advances id {a} (resolves now k r ref reason) =
    bind-Advances id (transition now k none (resolution_transition r ref reason)) (announced k) a
      (transition-Advances id now k none (resolution_transition r ref reason) a
        (resolution-IsPlain r ref reason))
      (λ row c. announce-Advances id k row c)
Step-Advances id {a} (restarts epoch) = Advances-refl id a

pub History-Advances : (id : ℕ) {a b : KernelTxn} → History a b → Advances id a b
History-Advances id {a} nothing = Advances-refl id a
History-Advances id {a} (then_step {b} {c} h s) =
    Advances-trans id a b c (History-Advances id h) (Step-Advances id s)
