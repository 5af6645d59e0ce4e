-- ===== src/RunGraph/WalkEnds.antt =====
-- The rounds of the walk of `descendants` in crates/run-graph/src/repository.rs, counted by the runs of
-- the subtree.
use ai_harness.Base.{
  ℕ, zero, suc, ◌+◌, ◌≤◌, ◌<◌, true, some, List, [], ◌∷◌, ◌++◌, length, length-append, ◌≡◌, refl,
  ap, subst, inl, inr, arith, In,
}
use ai_harness.Base.Txn.{ok}
use ai_harness.Store.Models.{RunRow}
use ai_harness.Store.Kernel.{KernelTxn}
use ai_harness.Store.Runs.{get_run}
use ai_harness.RunGraph.Descendants.{is_child, children, walk, descendants, child_of}

-- The sum over a list.
abbrev total : (ℕ → ℕ) → List ℕ → ℕ
total f [] = 0
total f (x ∷ xs) = f x + total f xs

total-append : (f : ℕ → ℕ) (xs ys : List ℕ) → total f (xs ++ ys) ≡ total f xs + total f ys
total-append f [] ys = omega arith
total-append f (x ∷ xs) ys = omega (arith, total-append f xs ys)

total_same : (f g : ℕ → ℕ) (xs : List ℕ) → ((x : ℕ) → In x xs → f x ≡ g x) → total f xs ≡ total g xs
total_same f g [] h = refl
total_same f g (x ∷ xs) h = omega (arith, h x (inl refl), total_same f g xs (λ y m. h y (inr m)))

-- The number of runs in a subtree whose height is below the bound.
unfoldable size : ℕ → List RunRow → ℕ → ℕ
size zero runs root = 1
size (suc bound) runs root = suc (total (size bound runs) (children runs root))

walk_empty : (fuel : ℕ) (runs : List RunRow) → walk fuel runs [] ≡ some []
unfolding walk
walk_empty zero runs = refl
walk_empty (suc fuel) runs = refl

walk_next :
    (enough fuel : ℕ) (runs : List RunRow) (current : ℕ) (frontier out : List ℕ)
    → suc enough ≤ fuel
    → ((f : ℕ) → enough ≤ f → walk f runs (frontier ++ children runs current) ≡ some out)
    → walk fuel runs (current ∷ frontier) ≡ some (children runs current ++ out)
unfolding walk
walk_next enough zero runs current frontier out e done = absurd (omega (arith, e))
walk_next enough (suc fuel) runs current frontier out e done =
    let rest = done fuel (omega (arith, e)) in ground (arith, rest)

module _ (runs : List RunRow) (height : ℕ → ℕ)
    (falls : (row : RunRow) (parent : ℕ)
      → In row runs
      → is_child parent row ≡ true
      → height row.run_id < height parent) where
  child_below : (parent x : ℕ) → In x (children runs parent) → height x < height parent
  child_below parent x m =
      let (row, stands, own, key) = child_of runs parent x m in
      subst (λ k. height k < height parent) key (falls row parent stands own)

  size_stable :
      (bound bound' root : ℕ)
      → height root < bound
      → height root < bound'
      → size bound runs root ≡ size bound' runs root
  unfolding size
  size_stable zero bound' root h h' = absurd (omega (arith, h))
  size_stable (suc bound) zero root h h' = absurd (omega (arith, h'))
  size_stable (suc bound) (suc bound') root h h' = ap suc (
      total_same (size bound runs) (size bound' runs) (children runs root) (λ x m.
        let lower = child_below root x m in
        size_stable bound bound' x (omega (arith, lower, h)) (omega (arith, lower, h'))))

  -- How many rounds the walk takes from a frontier.
  abbrev rounds : List ℕ → ℕ
  rounds = total (λ x. size (suc (height x)) runs x)

  rounds_step :
      (current : ℕ) (frontier : List ℕ)
      → rounds (current ∷ frontier) ≡ suc (rounds (frontier ++ children runs current))
  unfolding size
  rounds_step current frontier =
      let f = λ (x : ℕ). size (suc (height x)) runs x in
      omega (
        arith,
        total-append f frontier (children runs current),
        total_same (size (height current) runs) f (children runs current) (λ x m.
            size_stable (height current) (suc (height x)) x (child_below current x m)
              (omega arith)),
      )

  -- It takes a round for each run of the frontier and each run that it answers.
  walk_ends :
      (enough : ℕ) (frontier : List ℕ)
      → rounds frontier ≤ enough
      → (out : List ℕ) × (rounds frontier ≡ length frontier + length out)
        × ((fuel : ℕ) → rounds frontier ≤ fuel → walk fuel runs frontier ≡ some out)
  walk_ends enough [] h = ([], omega arith, λ fuel e. walk_empty fuel runs)
  walk_ends zero (current ∷ frontier) h = absurd (omega (arith, h, rounds_step current frontier))
  walk_ends (suc enough) (current ∷ frontier) h =
      let kids = children runs current in
      let step = rounds_step current frontier in
      let (out, count, done) = walk_ends enough (frontier ++ kids) (omega (arith, h, step)) in
      (
        kids ++ out,
        omega (arith, step, count, length-append frontier kids, length-append kids out),
        λ fuel e.
            walk_next (rounds (frontier ++ kids)) fuel runs current frontier out
              (omega (arith, e, step)) done,
      )

-- Where every run stands below its parent in some ranking, the walk ends: one round for the root and one for each run that it answers are enough, and more fuel changes nothing.
pub descendants_end :
    (root : ℕ) (txn : KernelTxn) (row : RunRow) (height : ℕ → ℕ)
    → get_run root txn ≡ some row
    → ((r : RunRow) (parent : ℕ)
        → In r txn.runs
        → is_child parent r ≡ true
        → height r.run_id < height parent)
    → (out : List ℕ) × ((fuel : ℕ)
        → suc (length out) ≤ fuel
        → descendants fuel root txn ≡ (ok out, txn))
unfolding descendants
descendants_end root txn row height found falls =
    let enough = rounds txn.runs height falls (root ∷ []) in
    let (out, count, done) = walk_ends txn.runs height falls enough (root ∷ []) (omega arith) in
    (out, λ fuel e. let there = done fuel (omega (arith, e, count)) in ground (arith, found, there))
