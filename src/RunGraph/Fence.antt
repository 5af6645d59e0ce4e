-- ===== src/RunGraph/Fence.antt =====
-- The theorems on `cancel_subtree` of crates/run-graph/src/cancellation.rs.
use ai_harness.Base.{
  ℕ, saturating_add, ◌+◌, Option, none, some, List, [], ◌∷◌, ◌≡◌, ◌≢◌, refl, sym, ap, ◌∙◌, subst,
  ◌⊎◌, inl, inr, arith, In, Option-cases, coalesce,
}
use ai_harness.Base.Table.{find, put, key-find, find-put_ne}
use ai_harness.Base.Txn.{ok, bind_ok, ◌>>◌, ◌>>=◌}
use ai_harness.Domain.RunState.{cancellation_target}
use ai_harness.Store.Models.{RunRow}
use ai_harness.Store.Kernel.{KernelTxn}
use ai_harness.Store.Runs.{get_run, run_key, run_patched, get_run-patched}
use ai_harness.Store.Outbox.{stage}
use ai_harness.RunGraph.Repository.{load_run}
use ai_harness.RunGraph.Descendants.{walk, Descends, walk_iff}
use ai_harness.RunGraph.Cancellation.{
  advance_epoch, stage_epoch_event, collect, cancel_subtree, epoch_patch,
}
use ai_harness.RunGraph.Eligible.{
  IsMovable, advanced, advance_epoch_of, children-put, walk_same, collect_ok,
}

-- The root, or a run below it.
abbrev pub InSubtree : KernelTxn → ℕ → ℕ → Type 0
InSubtree txn root x = (x ≡ root) ⊎ Descends txn.runs root x

loaded :
    (root : ℕ) (txn txn1 : KernelTxn) (row : RunRow)
    → load_run root txn ≡ (ok row, txn1)
    → (get_run root txn ≡ some row) × (txn1 ≡ txn)
loaded root txn txn1 row h = elim (Option-cases (get_run root txn)) [
  | inl absent ↦ ground (arith, h, absent)
  | inr (r, there) ↦ (ground (arith, h, there), ground (arith, h, there))
]

staged_runs :
    (row : RunRow) (txn txn' : KernelTxn)
    → stage_epoch_event row txn ≡ (ok tt, txn')
    → txn'.runs ≡ txn.runs
unfolding stage_epoch_event stage
staged_runs row txn txn' h = sym (ap (λ r. r.1.runs) h)

subtree_kept :
    (root fuel : ℕ) (row : RunRow) (txn : KernelTxn)
    → get_run root txn ≡ some row
    → walk fuel (put run_key (advanced row) txn.runs) (root ∷ []) ≡ walk fuel txn.runs (root ∷ [])
unfolding run_patched
subtree_kept root fuel row txn found =
    let key = key-find run_key root txn.runs {x = row} found in
    let own : get_run row.run_id txn ≡ some row =
      subst (λ i. get_run i txn ≡ some row) (sym key) found in
    walk_same fuel (put run_key (advanced row) txn.runs) txn.runs (root ∷ [])
      (λ p. children-put (advanced row) txn.runs p {x = row} own refl)

the_row : (a b : RunRow) → some a ≡ some b → a ≡ b
the_row a b h = cc

next_epoch :
    (row : RunRow)
    → saturating_add row.cancellation_epoch 1 ≡ row.cancellation_epoch + 1
    → (advanced row).cancellation_epoch ≡ row.cancellation_epoch + 1
unfolding run_patched
next_epoch row h = h

others :
    (root : ℕ) (row : RunRow) (x : ℕ) (txn : KernelTxn)
    → get_run root txn ≡ some row
    → x ≢ root
    → find run_key x (put run_key (advanced row) txn.runs) ≡ get_run x txn
unfolding run_patched
others root row x txn found ne =
    find-put_ne run_key x (advanced row) txn.runs
      (λ e. ne (sym e ∙ key-find run_key root txn.runs {x = row} found))

-- A subtree cancellation that succeeds found the root at the expected revision, where one is given; the root is then at the next cancellation epoch and no other run has changed; and the answer holds exactly the runs of the subtree that a cancellation still moves: each of them is one, and every other run of the subtree is one that no cancellation moves.
pub cancel_subtree_ok :
    (fuel root : ℕ) (expected : Option ℕ) (txn txn' : KernelTxn) (ids : List ℕ)
    → cancel_subtree fuel root expected txn ≡ (ok ids, txn')
    → (row : RunRow) × (get_run root txn ≡ some row)
      × (row.run_revision ≡ coalesce expected row.run_revision)
      × (get_run root txn' ≡ some (advanced row))
      × ((advanced row).cancellation_epoch ≡ row.cancellation_epoch + 1)
      × ((x : ℕ) → x ≢ root → get_run x txn' ≡ get_run x txn)
      × ((x : ℕ) → In x ids → InSubtree txn root x × IsMovable txn' x)
      × ((x : ℕ)
          → InSubtree txn root x
          → In x ids
            ⊎ ((r : RunRow) × (get_run x txn' ≡ some r) × (cancellation_target r.state ≡ none)))
unfolding cancel_subtree
cancel_subtree_ok fuel root expected txn txn' ids h =
    let (row, t0, first, h1) =
      bind_ok (load_run root txn)
        (λ root_row.
          advance_epoch root_row (coalesce expected root_row.run_revision) >>= λ advanced.
          stage_epoch_event advanced >> collect fuel root advanced)
        ids txn' h in
    let (found, same0) = loaded root txn t0 row first in
    let (row', t1, second, h2) =
      bind_ok (advance_epoch row (coalesce expected row.run_revision) t0)
        (λ advanced. stage_epoch_event advanced >> collect fuel root advanced) ids txn' h1 in
    let (rev, is, epoch, wrote) =
      advance_epoch_of root row row' (coalesce expected row.run_revision) txn t1 found (
        subst (λ t. advance_epoch row (coalesce expected row.run_revision) t ≡ (ok row', t1)) same0
          second) in
    let (u, t2, third, h3) =
      bind_ok (stage_epoch_event row' t1) (λ u. collect fuel root row') ids txn' h2 in
    let table : t2.runs ≡ put run_key (advanced row) txn.runs =
      staged_runs row' t1 t2 third ∙ wrote in
    let there : get_run root t2 ≡ some (advanced row) =
      ap (find run_key root) table ∙ get_run-patched root (epoch_patch row) txn {row = row} found in
    let (same, below, done, sub, all) =
      collect_ok fuel root row' t2 txn' ids (there ∙ ap some (sym is)) h3 in
    let walked : walk fuel txn.runs (root ∷ []) ≡ some below =
      sym (subtree_kept root fuel row txn found)
      ∙ ap (λ rows. walk fuel rows (root ∷ [])) (sym table)
      ∙ done in
    (
      row,
      found,
      rev,
      ap (get_run root) same ∙ there,
      next_epoch row epoch,
      λ x ne. ap (get_run x) same ∙ ap (find run_key x) table ∙ others root row x txn found ne,
      λ x m.
          let (inside, movable) = sub x m in
          (
            elim inside [
              | inl here ↦ inl here
              | inr m' ↦ inr ((walk_iff fuel root txn.runs below x walked).0 m')
            ],
            subst (λ t. IsMovable t x) (sym same) movable,
          ),
      λ x m.
          subst
            (λ t.
              In x ids
              ⊎ ((r : RunRow) × (get_run x t ≡ some r) × (cancellation_target r.state ≡ none)))
            (sym same)
            (all x (elim m [
              | inl here ↦ inl here
              | inr d ↦ inr ((walk_iff fuel root txn.runs below x walked).1 d)
            ])),
    )

-- Of two cancellations that expect one revision of a run, the second does not succeed.
pub cancel_subtree_races :
    (fuel fuel' root revision : ℕ) (txn txn' txn'' : KernelTxn) (ids ids' : List ℕ)
    → cancel_subtree fuel root (some revision) txn ≡ (ok ids, txn')
    → cancel_subtree fuel' root (some revision) txn' ≢ (ok ids', txn'')
unfolding run_patched
cancel_subtree_races fuel fuel' root revision txn txn' txn'' ids ids' h h' =
    let (row, found, rev, there, _, _, _, _) =
      cancel_subtree_ok fuel root (some revision) txn txn' ids h in
    let (row2, found2, rev2, _, _, _, _, _) =
      cancel_subtree_ok fuel' root (some revision) txn' txn'' ids' h' in
    let same = the_row (advanced row) row2 (sym there ∙ found2) in
    omega (arith, rev, rev2, ap (λ r. r.run_revision) same)
