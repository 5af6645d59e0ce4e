-- ===== src/RunGraph/Acyclic.antt =====
-- The run graph stays acyclic: the check of `insert_dependency` seen through `add_dependency`.
use ai_harness.Base.{
  ℕ, List, [], ◌∷◌, ◌++◌, ◌≡◌, refl, sym, ap, ◌∙◌, subst, ◌⊎◌, inl, inr, All, All-of_In, In_All,
  Any-append_cases,
}
use ai_harness.Store.Models.{RunDependencyRow}
use ai_harness.RunGraph.Reach.{Route, arrived, along}

-- No edge can be followed from its target back to its source.
abbrev pub IsAcyclic : List RunDependencyRow → Type 0
IsAcyclic edges = All (λ row. ¬ Route edges row.source_run_id row.target_run_id) edges

module _ (edges : List RunDependencyRow) where
  Route-trans : {b c a : ℕ} → Route edges b a → Route edges c b → Route edges c a
  Route-trans (arrived e) s = subst (Route edges _) (sym e) s
  Route-trans (along row m e r) s = along row m e (Route-trans r s)

  -- A route after an edge was added avoids it, or reaches its source and leaves from its target.
  Route-split :
      (new : RunDependencyRow) (to : ℕ) {from : ℕ}
      → Route (edges ++ new ∷ []) to from
      → Route edges to from
        ⊎ (Route edges new.source_run_id from × Route edges to new.target_run_id)
  Route-split new to (arrived e) = inl (arrived e)
  Route-split new to (along row m e r) = elim (Any-append_cases _ edges (new ∷ []) m) [
    | inl old ↦ elim (Route-split new to r) [
      | inl direct ↦ inl (along row old e direct)
      | inr (before, after) ↦ inr (along row old e before, after)
    ]
    | inr last ↦
        let same : new ≡ row = elim last [ inl s ↦ s | inr f ↦ absurd f ] in
        let here = arrived (sym e ∙ ap (λ (d : RunDependencyRow). d.source_run_id) (sym same)) in
        elim (Route-split new to r) [
          | inl direct ↦ inr (
            here,
            subst (λ (d : RunDependencyRow). Route edges to d.target_run_id) (sym same) direct,
          )
          | inr (before, after) ↦ inr (here, after)
        ]
  ]

  -- An edge whose target does not lead back to its source closes no cycle.
  pub IsAcyclic-append :
      (new : RunDependencyRow)
      → IsAcyclic edges
      → ¬ Route edges new.source_run_id new.target_run_id
      → IsAcyclic (edges ++ new ∷ [])
  IsAcyclic-append new acyclic apart = All-of_In _ (edges ++ new ∷ []) (λ row m r.
      elim (Any-append_cases _ edges (new ∷ []) m) [
        | inl old ↦ elim (Route-split new row.source_run_id r) [
          | inl direct ↦ In_All _ edges acyclic row old direct
          | inr (before, after) ↦ apart (Route-trans after (along row old refl before))
        ]
        | inr last ↦
            let same : new ≡ row = elim last [ inl s ↦ s | inr f ↦ absurd f ] in
            let r' =
              subst
                (λ (d : RunDependencyRow).
                  Route (edges ++ new ∷ []) d.source_run_id d.target_run_id)
                (sym same) r in
            elim (Route-split new new.source_run_id r') [
              | inl direct ↦ apart direct
              | inr (before, after) ↦ apart before
            ]
      ])
