-- ===== src/RunGraph/Reach.antt =====
-- The recursive query of crates/kernel-store-sqlite/src/repos/graph.rs against routes along edges.
use ai_harness.Base.{
  ℕ, zero, suc, ◌+◌, ◌≤◌, Bool, true, false, not, List, [], ◌∷◌, ◌++◌, ◌≡◌, sym, ap, subst, ◌⊎◌,
  inl, inr, ◌↔◌, ◌==◌, ==_iff, arith, Bool-cases, filter, length, length-append,
  length-filter_split, length-map, Any, In, In-filter, In-of_filter, Any-In, In-Any, In-map,
  In-of_map, Any-append_left, Any-append_right, Any-append_cases,
}
use ai_harness.Store.Models.{RunDependencyRow}
use ai_harness.Store.Kernel.{KernelTxn}
use ai_harness.Store.Graph.{reaches, is_reachable, leaves, targets}

-- A way from a run to `to` along edges, from source to target.
pub data Route (edges : List RunDependencyRow) (to : ℕ) : ℕ → Type 0 where
  arrived : {from : ℕ} → from ≡ to → Route edges to from
  along :
      {from : ℕ} (row : RunDependencyRow)
      → In row edges
      → row.source_run_id ≡ from
      → Route edges to row.target_run_id
      → Route edges to from

abbrev stays : ℕ → RunDependencyRow → Bool
stays run row = not (leaves run row)

Route-filter :
    (p : RunDependencyRow → Bool) (edges : List RunDependencyRow) (to : ℕ) {from : ℕ}
    → Route (filter p edges) to from
    → Route edges to from
Route-filter p edges to (arrived e) = arrived e
Route-filter p edges to (along row m e r) =
    along row (In-of_filter p row edges m).0 e (Route-filter p edges to r)

reaches_sound :
    (fuel : ℕ) (edges : List RunDependencyRow) (queue : List ℕ) (to : ℕ)
    → reaches fuel edges queue to ≡ true
    → Any (Route edges to) queue
unfolding reaches
reaches_sound zero edges queue to h = cc
reaches_sound (suc fuel) edges [] to h = cc
reaches_sound (suc fuel) edges (run ∷ queue) to h = elim (Bool-cases (run == to)) [
  | inl found ↦ inl (arrived ((==_iff run to).0 found))
  | inr other ↦
      elim (Any-append_cases (Route (filter (stays run) edges) to) queue
        (targets (filter (leaves run) edges))
        (reaches_sound fuel (filter (stays run) edges)
          (queue ++ targets (filter (leaves run) edges)) to (ground (arith, h)))) [
            | inl later ↦
                let (x, m, r) = Any-In _ queue later in
                inr (In-Any _ x queue m (Route-filter (stays run) edges to r))
            | inr next ↦
                let (x, m, r) = Any-In _ (targets (filter (leaves run) edges)) next in
                let (row, n, e) =
                  In-of_map (λ d. d.target_run_id) x (filter (leaves run) edges) m in
                let (there, out) = In-of_filter (leaves run) row edges n in
                inl (
                  along row there ((==_iff _ run).0 out)
                    (subst (Route edges to) (sym e) (Route-filter (stays run) edges to r)))
          ]
]

-- A route either avoids the edges out of a run, or goes on from the last of them.
detour :
    (run : ℕ) (edges : List RunDependencyRow) (to : ℕ) {from : ℕ}
    → Route edges to from
    → Route (filter (stays run) edges) to from
      ⊎ Any (Route (filter (stays run) edges) to) (targets (filter (leaves run) edges))
detour run edges to (arrived e) = inl (arrived e)
detour run edges to (along row m e r) = elim (detour run edges to r) [
  | inr later ↦ inr later
  | inl direct ↦ elim (Bool-cases (leaves run row)) [
    | inl out ↦ inr (
        In-Any _ row.target_run_id (targets (filter (leaves run) edges))
          (In-map (λ d. d.target_run_id) row _ (In-filter (leaves run) row edges m out)) direct)
    | inr kept ↦ inl (along row (In-filter (stays run) row edges m (ap not kept)) e direct)
  ]
]

-- The routes from the queue, once a run has left it and its edges are used up.
onward :
    (run : ℕ) (edges : List RunDependencyRow) (to : ℕ) (queue : List ℕ)
    → (run == to) ≡ false
    → Any (Route edges to) (run ∷ queue)
    → Any (Route (filter (stays run) edges) to) (queue ++ targets (filter (leaves run) edges))
onward run edges to queue other (inl (arrived e)) = absurd (cc (other, (==_iff run to).1 e))
onward run edges to queue other (inl (along row m e r)) =
    Any-append_right _ queue _ (elim (detour run edges to r) [
      | inr later ↦ later
      | inl direct ↦
          In-Any _ row.target_run_id (targets (filter (leaves run) edges))
            (In-map (λ d. d.target_run_id) row _
              (In-filter (leaves run) row edges m ((==_iff _ run).1 e)))
            direct
    ])
onward run edges to queue other (inr later) =
    let (x, m, r) = Any-In _ queue later in
    elim (detour run edges to r) [
      | inl direct ↦ Any-append_left _ queue _ (In-Any _ x queue m direct)
      | inr next ↦ Any-append_right _ queue _ next
    ]

reaches_complete :
    (fuel : ℕ) (edges : List RunDependencyRow) (queue : List ℕ) (to : ℕ)
    → length queue + length edges ≤ fuel
    → Any (Route edges to) queue
    → reaches fuel edges queue to ≡ true
unfolding reaches
reaches_complete zero edges [] to h m = absurd m
reaches_complete zero edges (run ∷ queue) to h m = absurd (omega arith)
reaches_complete (suc fuel) edges [] to h m = absurd m
reaches_complete (suc fuel) edges (run ∷ queue) to h m = elim (Bool-cases (run == to)) [
  | inl found ↦ rw found
  | inr other ↦ rw other (
      reaches_complete fuel (filter (stays run) edges)
        (queue ++ targets (filter (leaves run) edges)) to
        (omega (
          arith,
          length-append queue (targets (filter (leaves run) edges)),
          length-map (λ (d : RunDependencyRow). d.target_run_id) (filter (leaves run) edges),
          length-filter_split (leaves run) edges,
        ))
        (onward run edges to queue other m))
]

-- The reachability query answers `true` exactly when a route of persisted edges leads from one run to the other.
pub is_reachable_iff :
    (from to : ℕ) (txn : KernelTxn)
    → (is_reachable from to txn ≡ true) ↔ Route txn.dependencies to from
unfolding is_reachable
is_reachable_iff from to txn = (
  λ h. elim (reaches_sound (suc (length txn.dependencies)) txn.dependencies (from ∷ []) to h) [
    | inl r ↦ r
    | inr none_left ↦ absurd none_left
  ],
  λ r.
      reaches_complete (suc (length txn.dependencies)) txn.dependencies (from ∷ []) to (omega arith)
        (inl r),
)
