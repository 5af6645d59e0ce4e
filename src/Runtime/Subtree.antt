-- ===== src/Runtime/Subtree.antt =====
-- What a cancellation of crates/runtime/src/cancel.rs leaves of the subtree of a run, and outside it.
use ai_harness.Base.{
  ℕ, Option, none, some, String, List, [], ◌∷◌, ◌++◌, ◌≡◌, ◌≢◌, sym, ap, ◌∙◌, subst, inl, inr, In,
  Option-cases,
}
use ai_harness.Base.Table.{find, key-find, find-put_ne}
use ai_harness.Base.Evolves.{Evolves, Evolves-refl, Evolves-put, Evolves-trans}
use ai_harness.Base.Txn.{ok, bind_ok, pure, ◌>>=◌}
use ai_harness.Domain.RunState.{cancellation_target}
use ai_harness.Store.Models.{RunRow}
use ai_harness.Store.Kernel.{KernelTxn}
use ai_harness.Store.Runs.{get_run, run_key, run_patched, get_run-patched}
use ai_harness.RunGraph.Cancellation.{cancel_subtree}
use ai_harness.RunGraph.Fence.{InSubtree, cancel_subtree_ok}
use ai_harness.Runtime.Transition.{move_patch}
use ai_harness.Runtime.Moves.{moved}
use ai_harness.Runtime.Lifecycle.{cancellation_target_allowed}
use ai_harness.Runtime.Cancel.{
  CancellationReport, cancel, report_of, root_vanished, cancel_on, cancel_one, cancel_each,
  vanished, get_or,
}
use ai_harness.Runtime.Settled.{
  HasSettled, Stays, Settles, stays_refl, OnePass, target_is, or_fail_ok, moved_on, idle,
}

cancel_one_ok :
    (id : ℕ) (reason : Option String) (txn txn' : KernelTxn) (out : List ℕ)
    → cancel_one id reason txn ≡ (ok out, txn')
    → OnePass id txn txn'
unfolding cancel_one OnePass
cancel_one_ok id reason txn txn' out h =
    let (row, txn1, loaded, rest) =
      bind_ok (get_or id vanished txn) (λ r. cancel_on id reason r (cancellation_target r.state))
        out txn' h in
    let (found, same) = or_fail_ok id vanished txn txn1 row loaded in
    let here : cancel_on id reason row (cancellation_target row.state) txn ≡ (ok out, txn') =
      subst (λ x. cancel_on id reason row (cancellation_target row.state) x ≡ (ok out, txn')) same
        rest in
    elim (Option-cases (cancellation_target row.state)) [
      | inl settled ↦
          let skipped = subst (λ t. cancel_on id reason row t txn ≡ (ok out, txn')) settled here in
          (row, found, inl (settled, idle id reason row txn txn' out skipped))
      | inr (t, moves) ↦
          let (used, after) =
            moved_on id reason row t txn txn' out found (target_is row.state t moves)
              (subst (λ t. cancel_on id reason row t txn ≡ (ok out, txn')) moves here) in
          (row, found, inr (t, used, moves, after))
    ]

-- One pass settles its run, unsettles none, and touches no other.
pass-Settles :
    (id : ℕ) (txn txn' : KernelTxn)
    → OnePass id txn txn'
    → HasSettled txn' id × Settles txn txn' × ((x : ℕ) → x ≢ id → get_run x txn' ≡ get_run x txn)
unfolding OnePass run_patched
pass-Settles id txn txn' (row, found, inl (settled, same)) = (
  (row, ap (get_run id) same ∙ found, settled),
  subst (Settles txn) (sym same) (Evolves-refl run_key Stays stays_refl txn.runs),
  λ x ne. ap (get_run x) same,
)
pass-Settles id txn txn' (row, found, inr (t, reason, moves, after)) =
    let (permitted, ends, _) = cancellation_target_allowed row.state t moves in
    let key = key-find run_key id txn.runs {x = row} found in
    (
      (
        moved t reason row,
        ap (find run_key id) after ∙ get_run-patched id (move_patch t reason) txn {row = row} found,
        ends,
      ),
      subst (Evolves run_key Stays txn.runs) (sym after) (
          Evolves-put run_key Stays stays_refl id (moved t reason row) txn.runs {x = row} found key
            (λ h. ends)),
      λ x ne.
          ap (find run_key x) after
          ∙ find-put_ne run_key x (moved t reason row) txn.runs (λ e. ne (sym e ∙ key)),
    )

-- The loop settles every run of its list, unsettles none, and touches no other.
pub cancel_each_ok :
    (ids : List ℕ) (reason : Option String) (txn txn' : KernelTxn) (out : List ℕ)
    → cancel_each ids reason txn ≡ (ok out, txn')
    → ((x : ℕ) → In x ids → HasSettled txn' x)
      × Settles txn txn'
      × ((x : ℕ) → (In x ids → ⊥) → get_run x txn' ≡ get_run x txn)
unfolding cancel_each
cancel_each_ok [] reason txn txn' out h =
    let same : txn' ≡ txn = ap (λ r. r.1) (sym h) in
    (
      λ x m. absurd m,
      subst (Settles txn) (sym same) (Evolves-refl run_key Stays stays_refl txn.runs),
      λ x outside. ap (get_run x) same,
    )
cancel_each_ok (id ∷ ids) reason txn txn' out h =
    let (one, txn1, first, rest) =
      bind_ok (cancel_one id reason txn)
        (λ one. cancel_each ids reason >>= λ others. pure (one ++ others)) out txn' h in
    let (others, txn2, later, done) =
      bind_ok (cancel_each ids reason txn1) (λ others. pure (one ++ others)) out txn' rest in
    let end : txn2 ≡ txn' = ap (λ r. r.1) done in
    let (settled, keeps, apart) =
      pass-Settles id txn txn1 (cancel_one_ok id reason txn txn1 one first) in
    let (all, keeps', apart') = cancel_each_ok ids reason txn1 txn2 others later in
    subst
      (λ t.
        ((x : ℕ) → In x (id ∷ ids) → HasSettled t x)
        × Settles txn t
        × ((x : ℕ) → (In x (id ∷ ids) → ⊥) → get_run x t ≡ get_run x txn))
      end
      (
        λ x m. elim m [
          | inl is ↦
              let (row, there, off) = settled in
              let (row', there', stays) = keeps' id row there in
              subst (HasSettled txn2) is (row', there', stays off)
          | inr m' ↦ all x m'
        ],
        Evolves-trans run_key Stays txn.runs txn1.runs txn2.runs (λ a b c f g s. g (f s)) keeps
            keeps',
        λ x outside. apart' x (λ m. outside (inr m)) ∙ apart x (λ e. outside (inl (sym e))),
      )

-- A cancellation that succeeds leaves its run and every run below it where no cancellation moves it any more, and every other run exactly as it was.
pub cancel_settles :
    (fuel root : ℕ) (expected : Option ℕ) (reason : Option String) (txn txn' : KernelTxn)
    (report : CancellationReport) (x : ℕ)
    → cancel fuel root expected reason txn ≡ (ok report, txn')
    → (InSubtree txn root x
        → (row : RunRow) × (get_run x txn' ≡ some row) × (cancellation_target row.state ≡ none))
      × ((InSubtree txn root x → ⊥) → get_run x txn' ≡ get_run x txn)
unfolding cancel
cancel_settles fuel root expected reason txn txn' report x h =
    let (ids, t1, first, h1) =
      bind_ok (cancel_subtree fuel root expected txn)
        (λ eligible. cancel_each eligible reason >>= λ changed.
          get_or root root_vanished >>= λ root_row. pure (report_of root root_row changed))
        report txn' h in
    let (changed, t2, second, h2) =
      bind_ok (cancel_each ids reason t1)
        (λ changed.
          get_or root root_vanished >>= λ root_row. pure (report_of root root_row changed))
        report txn' h1 in
    let (last, t3, third, end) =
      bind_ok (get_or root root_vanished t2) (λ root_row. pure (report_of root root_row changed))
        report txn' h2 in
    let same : t2 ≡ txn' =
      sym (or_fail_ok root root_vanished t2 t3 last third).1 ∙ ap (λ r. r.1) end in
    let (row, found, _, _, _, others, sub, all) =
      cancel_subtree_ok fuel root expected txn t1 ids first in
    let (settled, keeps, apart) = cancel_each_ok ids reason t1 t2 changed second in
    subst
      (λ t.
        (InSubtree txn root x → HasSettled t x)
        × ((InSubtree txn root x → ⊥) → get_run x t ≡ get_run x txn))
      same
      (
        λ m. elim (all x m) [
          | inl there ↦ settled x there
          | inr (r, there, off) ↦
              let (r', there', stays) = keeps x r there in (r', there', stays off)
        ],
        λ outside. apart x (λ m. outside (sub x m).0) ∙ others x (λ e. outside (inl e)),
      )
