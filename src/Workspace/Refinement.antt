-- ===== src/Workspace/Refinement.antt =====
-- The lease operations of crates/workspace/src/coordinator.rs as steps of the abstract lock.
use ai_harness.Base.{
  saturating_add, ℕ, ◌+◌, true, false, Option, none, some, List, [], ◌∷◌, ◌++◌, ◌≡◌, refl, sym, ap,
  ◌∙◌, subst, inl, inr, ◌↔◌, arith, Bool-cases, if◌then◌else◌,
}
use ai_harness.Base.Pairs.{In-find, find-In}
use ai_harness.Base.Table.{put, key-find}
use ai_harness.Base.Txn.{ok}
use ai_harness.Store.Models.{WorkspaceLeaseRow}
use ai_harness.Store.Kernel.{KernelTxn, fits}
use ai_harness.Store.Leases.{
  lease_key, get_lease, is_exclusive, lease_row, is_taken, lease_patched, get_lease-patched,
}
use ai_harness.Workspace.Leases.{
  verify_write_authority, new_lease, transfer_patch, revoke_patch, may_transfer,
}
use ai_harness.Workspace.Moves.{acquire_cases, transfer_cases, revoke_cases, verify_found}
use ai_harness.Workspace.Exclusive.{Apart, HasOneWriter, free-Apart, transfer-HasOneWriter}
use ai_harness.Workspace.History.{Step, acquires, transfers, revokes}
use ai_harness.Workspace.Lock.{
  Token, LockStep, keeps, takes, hands_on, drops, token_of, holds, lock, not_both', held, named,
  free, lock-append, put_idle, put_drops,
}

-- A step between locks that are equal to the given ones.
between : (t t' u u' : Option Token) → t ≡ u → t' ≡ u' → LockStep u u' → LockStep t t'
between t t' u u' e e' step = subst (λ x. LockStep x t') (sym e) (subst (LockStep u) (sym e') step)

unchanged : (t t' : Option Token) → t' ≡ t → LockStep t t'
unchanged t t' e = subst (LockStep t) (sym e) (keeps t)

still :
    (t : Option Token) (new : WorkspaceLeaseRow) (w : ℕ)
    → holds w new ≡ false
    → (elim t [ none ↦ if holds w new then some (token_of new) else none | some t ↦ some t ]) ≡ t
still none new w other = rw other refl
still (some t) new w other = refl

same_token : (t u : Token) → t.lease ≡ u.lease → t.owner ≡ u.owner → t.epoch ≡ u.epoch → t ≡ u
same_token t u a b c = cc

appended :
    (w : ℕ) (new : WorkspaceLeaseRow) (txn : KernelTxn)
    → is_taken new txn ≡ false
    → new.lease_epoch ≡ 1
    → LockStep (lock w txn.leases) (lock w (txn.leases ++ new ∷ []))
appended w new txn untaken one = elim (Bool-cases (holds w new)) [
  | inl own ↦
      let nobody : lock w txn.leases ≡ none =
        free w txn.leases (λ x m. not_both' w x new own (free-Apart new txn untaken x m).1) in
      between (lock w txn.leases) (lock w (txn.leases ++ new ∷ [])) none (some (token_of new))
        nobody (lock-append w txn.leases new ∙ rw (nobody, own) refl)
        (subst
          (λ e.
            LockStep none
              (some record { lease = new.lease_id; owner = new.owner_run_id; epoch = e }))
          (sym one) (takes new.lease_id new.owner_run_id))
  | inr other ↦
      unchanged (lock w txn.leases) (lock w (txn.leases ++ new ∷ []))
        (lock-append w txn.leases new ∙ still (lock w txn.leases) new w other)
]

-- A row of the same workspace takes the place of the row that stands there.
replaced_idle :
    (w id : ℕ) (y row : WorkspaceLeaseRow) (txn : KernelTxn)
    → get_lease id txn ≡ some row
    → y.lease_id ≡ row.lease_id
    → holds w row ≡ false
    → holds w y ≡ false
    → LockStep (lock w txn.leases) (lock w (put lease_key y txn.leases))
replaced_idle w id y row txn found key idle idle' =
    let of_id = key-find lease_key id txn.leases {x = row} found in
    let there : get_lease y.lease_id txn ≡ some row =
      subst (λ i. get_lease i txn ≡ some row) (sym (key ∙ of_id)) found in
    unchanged (lock w txn.leases) (lock w (put lease_key y txn.leases))
      (put_idle w y txn.leases {x = row} there idle idle')

revoked :
    (w id epoch : ℕ) (row : WorkspaceLeaseRow) (txn : KernelTxn)
    → HasOneWriter txn
    → get_lease id txn ≡ some row
    → LockStep
        (lock w txn.leases)
        (lock w (put lease_key (lease_patched (revoke_patch epoch) row) txn.leases))
unfolding lease_patched holds is_exclusive ai_harness.Domain.LeaseEnforcementState.to_wire
revoked w id epoch row txn keys found =
    let y = lease_patched (revoke_patch epoch) row in
    let off : holds w y ≡ false = ground arith in
    let of_id = key-find lease_key id txn.leases {x = row} found in
    let there : get_lease y.lease_id txn ≡ some row =
      subst (λ i. get_lease i txn ≡ some row) (sym of_id) found in
    elim (Bool-cases (holds w row)) [
      | inr idle ↦ replaced_idle w id y row txn found refl idle off
      | inl own ↦
          between (lock w txn.leases) (lock w (put lease_key y txn.leases)) (some (token_of row))
            none (held w txn.leases row keys (find-In lease_key id txn.leases {x = row} found) own)
            (put_drops w y txn.leases {x = row} keys there own off) (drops (token_of row))
    ]

transferred :
    (w id from to epoch : ℕ) (proof : List ℕ) (row : WorkspaceLeaseRow) (txn : KernelTxn)
    → HasOneWriter txn
    → HasOneWriter (record txn {
      leases = put lease_key (lease_patched (transfer_patch to epoch proof) row) txn.leases;
    })
    → get_lease id txn ≡ some row
    → may_transfer from epoch row ≡ true
    → fits (saturating_add epoch 1) ≡ true
    → LockStep
        (lock w txn.leases)
        (lock w (put lease_key (lease_patched (transfer_patch to epoch proof) row) txn.leases))
unfolding lease_patched holds is_exclusive
transferred w id from to epoch proof row txn keys keys' found may fit =
    let y = lease_patched (transfer_patch to epoch proof) row in
    let there = get_lease-patched id (transfer_patch to epoch proof) txn {row = row} found in
    elim (Bool-cases (holds w row)) [
      | inr idle ↦ replaced_idle w id y row txn found refl idle idle
      | inl own ↦
          let old : token_of row ≡ record { lease = row.lease_id; owner = from; epoch = epoch } =
            same_token (token_of row) _ refl (ground (arith, may)) (ground (arith, may)) in
          let new : token_of y ≡ record { lease = row.lease_id; owner = to; epoch = epoch + 1 } =
            same_token (token_of y) _ refl refl (ground (arith, fit)) in
          between (lock w txn.leases) (lock w (put lease_key y txn.leases)) (some _) (some _)
            (held w txn.leases row keys (find-In lease_key id txn.leases {x = row} found) own
              ∙ ap some old)
            (held w (put lease_key y txn.leases) y keys'
                (find-In lease_key id (put lease_key y txn.leases) {x = y} there) own
              ∙ ap some new)
            (hands_on row.lease_id from to epoch)
    ]

-- The lease table implements one lock for each workspace: under its keys, every acquisition, transfer and revocation, whatever it returns, does to the lock of every workspace nothing, or what a lock allows: it is taken where it was free, handed on by its holder under the next epoch, or dropped.
pub leases_refine_lock :
    (w : ℕ) (a b : KernelTxn)
    → HasOneWriter a
    → Step a b
    → LockStep (lock w a.leases) (lock w b.leases)
leases_refine_lock w a b keys (acquires lease_id workspace_id owner mode caps from now) =
    elim (acquire_cases lease_id workspace_id owner mode caps from now a) [
      | inl (e, failed) ↦ unchanged (lock w a.leases) _ (ap (λ r. lock w r.1.leases) failed)
      | inr (untaken, done) ↦
          subst (λ r. LockStep (lock w a.leases) (lock w r.1.leases)) (sym done)
            (appended w (lease_row (new_lease lease_id workspace_id owner mode from now)) a untaken
              refl)
    ]
leases_refine_lock w a b keys (transfers lease_id from to epoch proof) =
    elim (transfer_cases lease_id from to epoch proof a) [
      | inl (e, failed) ↦ unchanged (lock w a.leases) _ (ap (λ r. lock w r.1.leases) failed)
      | inr (row, found, may, fit, done, after) ↦
          let state = ap (λ r. r.1) done ∙ after in
          let keys' =
            subst HasOneWriter state (transfer-HasOneWriter lease_id from to epoch proof a keys) in
          subst (λ t. LockStep (lock w a.leases) (lock w t.leases)) (sym state)
            (transferred w lease_id from to epoch proof row a keys keys' found may fit)
    ]
leases_refine_lock w a b keys (revokes lease_id epoch) = elim (revoke_cases lease_id epoch a) [
  | inl (e, failed) ↦ unchanged (lock w a.leases) _ (ap (λ r. lock w r.1.leases) failed)
  | inr (row, found, at_epoch, fit, done, after) ↦
      let state = ap (λ r. r.1) done ∙ after in
      subst (λ t. LockStep (lock w a.leases) (lock w t.leases)) (sym state)
        (revoked w lease_id epoch row a keys found)
]

passes :
    (l w owner epoch : ℕ) (txn : KernelTxn)
    → HasOneWriter txn
    → verify_write_authority l w owner epoch txn ≡ (ok tt, txn)
    → lock w txn.leases ≡ some record { lease = l; owner = owner; epoch = epoch }
unfolding holds is_exclusive
passes l w owner epoch txn keys h =
    let (row, found, may) = verify_found l w owner epoch txn h in
    held w txn.leases row keys (find-In lease_key l txn.leases {x = row} found)
      (ground (arith, may))
    ∙ ap some (
        same_token (token_of row) _ (key-find lease_key l txn.leases {x = row} found)
          (ground (arith, may)) (ground (arith, may)))

admitted :
    (l w owner epoch : ℕ) (txn : KernelTxn)
    → HasOneWriter txn
    → lock w txn.leases ≡ some record { lease = l; owner = owner; epoch = epoch }
    → verify_write_authority l w owner epoch txn ≡ (ok tt, txn)
unfolding verify_write_authority holds is_exclusive
admitted l w owner epoch txn keys h =
    let (row, m, own, is) = named w txn.leases _ h in
    let found : get_lease l txn ≡ some row =
      subst (λ i. get_lease i txn ≡ some row) (ap (λ t. t.lease) is)
        (In-find lease_key Apart (λ a b apart. apart.0) txn.leases row keys m) in
    ground (arith, found, own, ap (λ t. t.owner) is, ap (λ t. t.epoch) is)

-- Under the keys of the table, a token passes the gate of a workspace exactly where its lock is held under this lease, by this owner, at this epoch.
pub gate_reads_lock :
    (l w owner epoch : ℕ) (txn : KernelTxn)
    → HasOneWriter txn
    → (verify_write_authority l w owner epoch txn ≡ (ok tt, txn))
      ↔ (lock w txn.leases ≡ some record { lease = l; owner = owner; epoch = epoch })
gate_reads_lock l w owner epoch txn keys =
    (λ h. passes l w owner epoch txn keys h, λ h. admitted l w owner epoch txn keys h)
