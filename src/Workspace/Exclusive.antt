-- ===== src/Workspace/Exclusive.antt =====
-- The keys of the lease table under the operations of crates/workspace/src/coordinator.rs, and the write
-- authority of a workspace.
use ai_harness.Base.{
  ℕ, Bool, true, false, ◌&&◌, ◌||◌, not, String, List, [], ◌∷◌, ◌==◌, any, ◌≡◌, sym, ap, ◌∙◌, subst,
  ◌≢◌, inl, inr, arith, In,
}
use ai_harness.Base.Pairs.{Pairwise, Pairwise-append_one, Pairwise-put, Pairwise-related, find-In}
use ai_harness.Base.Table.{key-find}
use ai_harness.Base.Txn.{ok, FailsWith, conflict}
use ai_harness.Domain.WorkspaceAccessMode.{WorkspaceAccessMode}
use ai_harness.Store.Models.{WorkspaceLeaseRow, LeasePatch}
use ai_harness.Store.Kernel.{KernelTxn}
use ai_harness.Store.Leases.{
  lease_key, is_exclusive, clashes, lease_row, is_taken, index_refuses, lease_patched, cas_lease,
  cas_lease_cases, insert_lease,
}
use ai_harness.Workspace.Leases.{
  acquire_lease, transfer_exclusive, revoke_lease, verify_write_authority, is_authority,
  transfer_patch, revoke_patch, new_lease,
}
use ai_harness.Workspace.Moves.{acquire_cases, transfer_cases, revoke_cases, verify_found}

-- Rows that may stand in the table together: other identifiers, and no shared index entry.
abbrev pub Apart : WorkspaceLeaseRow → WorkspaceLeaseRow → Type 0
Apart a b = (a.lease_id ≢ b.lease_id) × (clashes a b ≡ false)

-- The keys of the table hold: the primary key, and the index of active exclusive leases.
abbrev pub HasOneWriter : KernelTxn → Type 0
HasOneWriter txn = Pairwise Apart txn.leases

clashes_sym : (a b : WorkspaceLeaseRow) → clashes a b ≡ clashes b a
unfolding clashes
clashes_sym a b = ground arith

Apart-sym : (a b : WorkspaceLeaseRow) → Apart a b → Apart b a
Apart-sym a b h = (λ e. h.0 (sym e), clashes_sym b a ∙ h.1)

any-false :
    {A : Type 0} (p : A → Bool) (xs : List A) → any p xs ≡ false → (x : A) → In x xs → p x ≡ false
any-false p [] h x m = absurd m
any-false p (y ∷ ys) h x (inl e) = let q : p y ≡ false = ground (arith, h) in sym (ap p e) ∙ q
any-false p (y ∷ ys) h x (inr m) = any-false p ys (ground (arith, h)) x m

pub free-Apart :
    (row : WorkspaceLeaseRow) (txn : KernelTxn)
    → is_taken row txn ≡ false
    → (x : WorkspaceLeaseRow) → In x txn.leases
    → Apart x row
free-Apart row txn free x m =
    let q = any-false (λ r. r.lease_id == row.lease_id || clashes row r) txn.leases free x m in
    (λ e. ground (arith, q, e), clashes_sym x row ∙ ground (arith, q))

index-Apart :
    (row : WorkspaceLeaseRow) (txn : KernelTxn)
    → index_refuses row txn ≡ false
    → (x : WorkspaceLeaseRow) → In x txn.leases
    → x.lease_id ≢ row.lease_id
    → Apart x row × Apart row x
index-Apart row txn free x m ne =
    let q =
      any-false (λ r. not (r.lease_id == row.lease_id) && clashes row r) txn.leases free x m in
    let other : (x.lease_id == row.lease_id) ≡ false = ground (arith, ne) in
    let apart : Apart row x = (λ e. ne (sym e), ground (arith, q, other)) in
    (Apart-sym row x apart, apart)

pub cas-HasOneWriter :
    (id expect_epoch : ℕ) (patch : LeasePatch) (txn : KernelTxn)
    → HasOneWriter txn
    → HasOneWriter (cas_lease id expect_epoch patch txn).1
cas-HasOneWriter id expect_epoch patch txn h = elim (cas_lease_cases id expect_epoch patch txn) [
  | inl (e, refused) ↦ subst (λ r. HasOneWriter r.1) (sym refused) h
  | inr (inl lost) ↦ subst (λ r. HasOneWriter r.1) (sym lost) h
  | inr (inr (row, found, at_epoch, fit, free, done)) ↦
      subst (λ r. HasOneWriter r.1) (sym done)
        (Pairwise-put lease_key Apart (λ a b apart. apart.0) (lease_patched patch row) txn.leases h
          (index-Apart (lease_patched patch row) txn free))
]

pub acquire-HasOneWriter :
    (lease_id workspace_id owner : ℕ) (mode : WorkspaceAccessMode) (caps : List String)
    (from : List ℕ) (now : ℕ) (txn : KernelTxn)
    → HasOneWriter txn
    → HasOneWriter (acquire_lease lease_id workspace_id owner mode caps from now txn).1
acquire-HasOneWriter lease_id workspace_id owner mode caps from now txn h =
    let row = lease_row (new_lease lease_id workspace_id owner mode from now) in
    elim (acquire_cases lease_id workspace_id owner mode caps from now txn) [
      | inl (e, refused) ↦ subst (λ r. HasOneWriter r.1) (sym refused) h
      | inr (free, done) ↦
          subst (λ r. HasOneWriter r.1) (sym done)
            (Pairwise-append_one Apart txn.leases row h (free-Apart row txn free))
    ]

pub transfer-HasOneWriter :
    (lease_id from to expected_epoch : ℕ) (proof : List ℕ) (txn : KernelTxn)
    → HasOneWriter txn
    → HasOneWriter (transfer_exclusive lease_id from to expected_epoch proof txn).1
transfer-HasOneWriter lease_id from to expected_epoch proof txn h =
    elim (transfer_cases lease_id from to expected_epoch proof txn) [
      | inl (e, refused) ↦ subst (λ r. HasOneWriter r.1) (sym refused) h
      | inr (row, found, may, fit, done, after) ↦
          subst (λ r. HasOneWriter r.1) (sym done)
            (cas-HasOneWriter lease_id expected_epoch (transfer_patch to expected_epoch proof) txn
              h)
    ]

pub revoke-HasOneWriter :
    (lease_id expected_epoch : ℕ) (txn : KernelTxn)
    → HasOneWriter txn
    → HasOneWriter (revoke_lease lease_id expected_epoch txn).1
revoke-HasOneWriter lease_id expected_epoch txn h =
    elim (revoke_cases lease_id expected_epoch txn) [
      | inl (e, refused) ↦ subst (λ r. HasOneWriter r.1) (sym refused) h
      | inr (row, found, at_epoch, fit, done, after) ↦
          subst (λ r. HasOneWriter r.1) (sym done)
            (cas-HasOneWriter lease_id expected_epoch (revoke_patch expected_epoch) txn h)
    ]

one_authority :
    (workspace_id o o' e e' : ℕ) (a b : WorkspaceLeaseRow)
    → is_authority workspace_id o e a ≡ true
    → is_authority workspace_id o' e' b ≡ true
    → Apart a b
    → ⊥
unfolding clashes is_exclusive
one_authority workspace_id o o' e e' a b h h' apart = ground (arith, apart.1, h, h')

-- Where the keys of the lease table hold, two tokens that both pass as the write authority of one workspace are one: the same lease, owner and epoch.
pub authority_is_unique :
    (l l' workspace_id owner owner' epoch epoch' : ℕ) (txn : KernelTxn)
    → HasOneWriter txn
    → verify_write_authority l workspace_id owner epoch txn ≡ (ok tt, txn)
    → verify_write_authority l' workspace_id owner' epoch' txn ≡ (ok tt, txn)
    → (l ≡ l') × (owner ≡ owner') × (epoch ≡ epoch')
authority_is_unique l l' workspace_id owner owner' epoch epoch' txn keys h h' =
    let (a, found, passes) = verify_found l workspace_id owner epoch txn h in
    let (b, found', passes') = verify_found l' workspace_id owner' epoch' txn h' in
    elim (Pairwise-related Apart txn.leases a b keys (find-In lease_key l txn.leases found)
      (find-In lease_key l' txn.leases found')) [
        | inl same ↦
            let key = key-find lease_key l txn.leases found in
            let key' = key-find lease_key l' txn.leases found' in
            let passes2 : is_authority workspace_id owner' epoch' a ≡ true = rw same passes' in
            (
              sym key ∙ ap lease_key same ∙ key',
              ground (arith, passes, passes2),
              ground (arith, passes, passes2),
            )
        | inr (inl apart) ↦ absurd (one_authority workspace_id _ _ _ _ a b passes passes' apart)
        | inr (inr apart) ↦ absurd (one_authority workspace_id _ _ _ _ b a passes' passes apart)
      ]

any-true :
    {A : Type 0} (p : A → Bool) (xs : List A) (x : A) → In x xs → p x ≡ true → any p xs ≡ true
any-true p [] x m h = absurd m
any-true p (y ∷ ys) x (inl e) h = let q : p y ≡ true = ap p e ∙ h in ground (arith, q)
any-true p (y ∷ ys) x (inr m) h = ground (arith, any-true p ys x m h)

-- While some token passes as the write authority of a workspace, no run acquires an exclusive lease of it: the attempt is refused with `Conflict` and writes nothing.
pub acquire_excluded :
    (l workspace_id owner epoch l' owner' : ℕ) (caps : List String) (from : List ℕ) (now : ℕ)
    (txn : KernelTxn)
    → verify_write_authority l workspace_id owner epoch txn ≡ (ok tt, txn)
    → let r =
        acquire_lease l' workspace_id owner' WorkspaceAccessMode.exclusive_write caps from now
          txn in
      FailsWith conflict r.0 × (r.1 ≡ txn)
unfolding acquire_lease insert_lease clashes is_exclusive
    ai_harness.Domain.WorkspaceAccessMode.to_wire
acquire_excluded l workspace_id owner epoch l' owner' caps from now txn h =
    let (row, found, passes) = verify_found l workspace_id owner epoch txn h in
    let new =
      lease_row (new_lease l' workspace_id owner' WorkspaceAccessMode.exclusive_write from now) in
    let taken =
      any-true (λ r. r.lease_id == l' || clashes new r) txn.leases row
        (find-In lease_key l txn.leases found) (ground (arith, passes)) in
    (ground (arith, taken), ground (arith, taken))
