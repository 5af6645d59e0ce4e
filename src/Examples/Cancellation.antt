-- ===== src/Examples/Cancellation.antt =====
-- The cancellation of a subtree at concrete inputs.
use ai_harness.Base.{
  suc, length, ℕ, ◌+◌, ◌-◌, ◌≤◌, ◌<◌, true, none, some, List, [], ◌∷◌, ◌≡◌, ◌≢◌, refl, sym, ap, ◌∙◌,
  inl, inr, ◌↔◌, arith, In, coalesce, ◌⊎◌,
}
use ai_harness.Base.Txn.{ok}
use ai_harness.Domain.RunState.{RunState, cancellation_target}
use ai_harness.Store.Models.{RunRow}
use ai_harness.Store.Kernel.{KernelTxn}
use ai_harness.Store.Runs.{get_run}
use ai_harness.RunGraph.Descendants.{is_child, descendants, Descends, descendants_iff}
use ai_harness.RunGraph.WalkEnds.{descendants_end}
use ai_harness.RunGraph.Cancellation.{cancel_subtree}
use ai_harness.RunGraph.Eligible.{IsMovable, advanced}
use ai_harness.RunGraph.Fence.{InSubtree, cancel_subtree_ok, cancel_subtree_races}
use ai_harness.Runtime.Cancel.{CancellationReport, cancel}
use ai_harness.Runtime.Subtree.{cancel_settles}
use ai_harness.Examples.Data.{kernel, run_in}

abbrev below : ℕ → RunRow → RunRow
below parent row = record row { parent_run_id = some parent }

-- Run 1 is running, run 2 ready below it, run 3 completed below run 2, and run 4 apart.
abbrev tree : KernelTxn
tree = record kernel {
  runs =
      run_in 1 RunState.running
      ∷ below 1 (run_in 2 RunState.ready)
      ∷ below 2 (run_in 3 RunState.completed)
      ∷ run_in 4 RunState.running
      ∷ [];
}

walks_1 : descendants 4 1 tree ≡ (ok (2 ∷ 3 ∷ []), tree)
unfolding descendants ai_harness.Base.Table.find
walks_1 = refl

selects_1 :
    cancel_subtree 4 1 (some 3) tree ≡ (ok (1 ∷ 2 ∷ []), (cancel_subtree 4 1 (some 3) tree).1)
unfolding cancel_subtree ai_harness.Base.Table.find ai_harness.Base.Table.update
    ai_harness.Base.Table.put ai_harness.RunGraph.Cancellation.advance_epoch
    ai_harness.RunGraph.Cancellation.collect ai_harness.RunGraph.Cancellation.eligible_of
    ai_harness.RunGraph.Cancellation.stage_epoch_event ai_harness.RunGraph.Descendants.descendants
    ai_harness.RunGraph.Descendants.walk ai_harness.Store.Runs.cas_update
    ai_harness.Store.Runs.cas_encodes ai_harness.Store.Runs.cas_holds
    ai_harness.Store.Runs.run_patched ai_harness.Store.Outbox.stage
    ai_harness.Domain.RunState.to_wire cancellation_target
selects_1 = refl

abbrev report_1 : CancellationReport
report_1 = record { root = 1; cancellation_epoch = 1; changed = 1 ∷ 2 ∷ [] }

cancels_1 : cancel 4 1 none none tree ≡ (ok report_1, (cancel 4 1 none none tree).1)
unfolding cancel cancel_subtree ai_harness.Runtime.Cancel.cancel_each
    ai_harness.Runtime.Cancel.cancel_one ai_harness.Runtime.Cancel.cancel_on
    ai_harness.Runtime.Cancel.stage_run_event ai_harness.Runtime.Transition.transition
    ai_harness.Runtime.Transition.terminal_reason ai_harness.Runtime.State.allows
    ai_harness.Base.Table.find ai_harness.Base.Table.update ai_harness.Base.Table.put
    ai_harness.RunGraph.Cancellation.advance_epoch ai_harness.RunGraph.Cancellation.collect
    ai_harness.RunGraph.Cancellation.eligible_of ai_harness.RunGraph.Cancellation.stage_epoch_event
    ai_harness.RunGraph.Descendants.descendants ai_harness.RunGraph.Descendants.walk
    ai_harness.Store.Runs.cas_update ai_harness.Store.Runs.cas_encodes
    ai_harness.Store.Runs.cas_holds ai_harness.Store.Runs.run_patched ai_harness.Store.Outbox.stage
    ai_harness.Domain.RunState.to_wire cancellation_target
cancels_1 = refl

tree_falls :
    (r : RunRow) (parent : ℕ)
    → In r tree.runs
    → is_child parent r ≡ true
    → 9 - r.run_id < 9 - parent
tree_falls r parent (inl e) own = ground (arith, e, own)
tree_falls r parent (inr (inl e)) own = ground (arith, e, own)
tree_falls r parent (inr (inr (inl e))) own = ground (arith, e, own)
tree_falls r parent (inr (inr (inr (inl e)))) own = ground (arith, e, own)
tree_falls r parent (inr (inr (inr (inr m)))) own = absurd m

descendants_end_example :
    (out : List ℕ) × ((fuel : ℕ)
      → suc (length out) ≤ fuel
      → descendants fuel 1 tree ≡ (ok out, tree))
unfolding ai_harness.Base.Table.find
descendants_end_example =
    descendants_end 1 tree (run_in 1 RunState.running) (λ n. 9 - n) refl tree_falls

descendants_iff_example : In {A = ℕ} 3 (2 ∷ 3 ∷ []) ↔ Descends tree.runs 1 3
descendants_iff_example = descendants_iff 4 1 tree tree (2 ∷ 3 ∷ []) 3 walks_1

cancel_subtree_ok_example :
    (row : RunRow) × (get_run 1 tree ≡ some row)
    × (row.run_revision ≡ coalesce (some 3) row.run_revision)
    × (get_run 1 (cancel_subtree 4 1 (some 3) tree).1 ≡ some (advanced row))
    × ((advanced row).cancellation_epoch ≡ row.cancellation_epoch + 1)
    × ((x : ℕ) → x ≢ 1 → get_run x (cancel_subtree 4 1 (some 3) tree).1 ≡ get_run x tree)
    × ((x : ℕ)
        → In x (1 ∷ 2 ∷ [])
        → InSubtree tree 1 x × IsMovable (cancel_subtree 4 1 (some 3) tree).1 x)
    × ((x : ℕ)
        → InSubtree tree 1 x
        → In x (1 ∷ 2 ∷ [])
          ⊎ ((r : RunRow) × (get_run x (cancel_subtree 4 1 (some 3) tree).1 ≡ some r)
              × (cancellation_target r.state ≡ none)))
cancel_subtree_ok_example = cancel_subtree_ok 4 1 (some 3) tree _ (1 ∷ 2 ∷ []) selects_1

cancel_subtree_races_example :
    cancel_subtree 4 1 (some 3) (cancel_subtree 4 1 (some 3) tree).1 ≢ (ok (1 ∷ []), tree)
cancel_subtree_races_example =
    cancel_subtree_races 4 4 1 3 tree _ tree (1 ∷ 2 ∷ []) (1 ∷ []) selects_1

cancel_settles_example :
    (InSubtree tree 1 4
      → (row : RunRow) × (get_run 4 (cancel 4 1 none none tree).1 ≡ some row)
        × (cancellation_target row.state ≡ none))
    × ((InSubtree tree 1 4 → ⊥) → get_run 4 (cancel 4 1 none none tree).1 ≡ get_run 4 tree)
cancel_settles_example = cancel_settles 4 1 none none tree _ report_1 4 cancels_1
