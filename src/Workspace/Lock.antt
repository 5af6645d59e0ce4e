-- ===== src/Workspace/Lock.antt =====
-- The abstract view of the lease table of crates/workspace/src/coordinator.rs: every workspace has a lock,
-- which is free or held under a token.
use ai_harness.Base.{
  ℕ, ◌+◌, Bool, true, false, ◌&&◌, Option, none, some, List, [], ◌∷◌, ◌++◌, ◌==◌, ◌≡◌, refl, ap,
  inl, inr, arith, In, In_All, Bool-cases, if◌then◌else◌,
}
use ai_harness.Base.Pairs.{Pairwise, find-In}
use ai_harness.Base.Table.{find, put}
use ai_harness.Store.Models.{WorkspaceLeaseRow}
use ai_harness.Store.Leases.{lease_key, is_exclusive, clashes}
use ai_harness.Workspace.Exclusive.{Apart}

-- The lease that holds a lock, its owner and its epoch.
pub record Token : Type 0 where
  pub lease : ℕ
  pub owner : ℕ
  pub epoch : ℕ

-- What may happen to a lock: it is taken where it is free, at epoch 1; its holder hands it on under the
-- next epoch; or it is dropped.
pub data LockStep : Option Token → Option Token → Type 0 where
  keeps : (t : Option Token) → LockStep t t
  takes :
      (lease owner : ℕ) → LockStep none (some record { lease = lease; owner = owner; epoch = 1 })
  hands_on :
      (lease from to epoch : ℕ)
      → LockStep
          (some record { lease = lease; owner = from; epoch = epoch })
          (some record { lease = lease; owner = to; epoch = epoch + 1 })
  drops : (t : Token) → LockStep (some t) none

abbrev pub token_of : WorkspaceLeaseRow → Token
token_of row = record { lease = row.lease_id; owner = row.owner_run_id; epoch = row.lease_epoch }

-- The row is an active exclusive lease of the workspace.
unfoldable pub holds : ℕ → WorkspaceLeaseRow → Bool
holds workspace row = is_exclusive row && row.workspace_id == workspace

-- The lock of a workspace.
unfoldable pub lock : ℕ → List WorkspaceLeaseRow → Option Token
unfolding holds
lock workspace [] = none
lock workspace (row ∷ rows) =
    let rest = lock workspace rows in if holds workspace row then some (token_of row) else rest

pub not_both :
    (w : ℕ) (a b : WorkspaceLeaseRow) → holds w a ≡ true → clashes a b ≡ false → holds w b ≡ false
unfolding holds clashes
not_both w a b h apart = ground (arith, h, apart)

pub not_both' :
    (w : ℕ) (a b : WorkspaceLeaseRow) → holds w b ≡ true → clashes a b ≡ false → holds w a ≡ false
unfolding holds clashes
not_both' w a b h apart = ground (arith, h, apart)

-- A table without a holder has a free lock.
pub free :
    (w : ℕ) (rows : List WorkspaceLeaseRow)
    → ((row : WorkspaceLeaseRow) → In row rows → holds w row ≡ false)
    → lock w rows ≡ none
unfolding lock
free w [] h = refl
free w (r ∷ rs) h =
    let first = h r (inl refl) in ground (arith, first, free w rs (λ x m. h x (inr m)))

-- Under the keys of the table, the holder is the one.
pub held :
    (w : ℕ) (rows : List WorkspaceLeaseRow) (row : WorkspaceLeaseRow)
    → Pairwise Apart rows
    → In row rows
    → holds w row ≡ true
    → lock w rows ≡ some (token_of row)
unfolding lock
held w [] row keys m h = absurd m
held w (r ∷ rs) row keys (inl is) h =
    let own : holds w r ≡ true = rw is h in rw own (ap (λ x. some (token_of x)) is)
held w (r ∷ rs) row keys (inr m) h =
    let apart = In_All (Apart r) rs keys.0 row m in
    let other = not_both' w r row h apart.1 in rw other (held w rs row keys.1 m h)

the_token : {a b : Token} → some a ≡ some b → a ≡ b
the_token h = cc

-- Whoever the lock names is in the table.
pub named :
    (w : ℕ) (rows : List WorkspaceLeaseRow) (t : Token)
    → lock w rows ≡ some t
    → (row : WorkspaceLeaseRow) × In row rows × (holds w row ≡ true) × (token_of row ≡ t)
unfolding lock
named w [] t h = cc
named w (r ∷ rs) t h = elim (Bool-cases (holds w r)) [
  | inl own ↦ (r, inl refl, own, the_token (rw own at h))
  | inr other ↦ let (row, m, own, is) = named w rs t (rw other at h) in (row, inr m, own, is)
]

pub lock-append :
    (w : ℕ) (rows : List WorkspaceLeaseRow) (new : WorkspaceLeaseRow)
    → lock w (rows ++ new ∷ []) ≡ elim (lock w rows) [
      | none ↦ if holds w new then some (token_of new) else none
      | some t ↦ some t
    ]
unfolding lock
lock-append w [] new = ground arith
lock-append w (r ∷ rs) new = ground (arith, lock-append w rs new)

-- A row that holds no lock is replaced by one that holds none.
pub put_idle :
    (w : ℕ) (y : WorkspaceLeaseRow) (rows : List WorkspaceLeaseRow) {x : WorkspaceLeaseRow}
    → find lease_key y.lease_id rows ≡ some x
    → holds w x ≡ false
    → holds w y ≡ false
    → lock w (put lease_key y rows) ≡ lock w rows
unfolding lock find put
put_idle w y [] found idle idle' = cc
put_idle w y (r ∷ rs) {x} found idle idle' = elim (Bool-cases (r.lease_id == y.lease_id)) [
  | inl same ↦
      let first : r ≡ x = ground (arith, found, same) in
      let idle_r : holds w r ≡ false = rw first idle in rw (same, idle', idle_r) refl
  | inr differs ↦
      let rest : find lease_key y.lease_id rs ≡ some x = rw differs at found in
      let same = put_idle w y rs {x = x} rest idle idle' in rw (differs, same) refl
]

-- The holder is replaced by a row that holds no lock.
pub put_drops :
    (w : ℕ) (y : WorkspaceLeaseRow) (rows : List WorkspaceLeaseRow) {x : WorkspaceLeaseRow}
    → Pairwise Apart rows
    → find lease_key y.lease_id rows ≡ some x
    → holds w x ≡ true
    → holds w y ≡ false
    → lock w (put lease_key y rows) ≡ none
unfolding lock find put
put_drops w y [] keys found own idle = cc
put_drops w y (r ∷ rs) {x} keys found own idle = elim (Bool-cases (r.lease_id == y.lease_id)) [
  | inl same ↦
      let first : r ≡ x = ground (arith, found, same) in
      let own_r : holds w r ≡ true = rw first own in
      rw (same, idle) (free w rs (λ z m. not_both w r z own_r (In_All (Apart r) rs keys.0 z m).1))
  | inr differs ↦
      let rest : find lease_key y.lease_id rs ≡ some x = rw differs at found in
      let there = find-In lease_key y.lease_id rs {x = x} rest in
      let other = not_both' w r x own (In_All (Apart r) rs keys.0 x there).1 in
      rw (differs, other) (put_drops w y rs {x = x} keys.1 rest own idle)
]
