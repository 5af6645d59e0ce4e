-- ===== src/RunGraph/Descendants.antt =====
-- `descendants` of crates/run-graph/src/repository.rs: the breadth-first walk through
-- `runs.parent_run_id`. The loop of the source runs on fuel here.
use ai_harness.Base.{
  ℕ, zero, suc, Bool, true, Option, none, some, List, [], ◌∷◌, ◌++◌, map, filter, opt_eq, ◌≡◌, refl,
  sym, subst, ◌⊎◌, inl, inr, ◌↔◌, arith, In, In-filter, In-of_filter, In-map, In-of_map,
  Option-cases, Any-append_left, Any-append_right, Any-append_cases,
}
use ai_harness.Base.Txn.{Txn, KernelError, ok, or_fail, fault, internal, ◌>>=◌}
use ai_harness.Store.Models.{RunRow}
use ai_harness.Store.Kernel.{KernelTxn}
use ai_harness.RunGraph.Repository.{load_run}

abbrev pub is_child : ℕ → RunRow → Bool
is_child parent row = opt_eq row.parent_run_id (some parent)

abbrev pub children : List RunRow → ℕ → List ℕ
children runs parent = map (λ row. row.run_id) (filter (is_child parent) runs)

abbrev pub prepend : List ℕ → Option (List ℕ) → Option (List ℕ)
prepend xs none = none
prepend xs (some ys) = some (xs ++ ys)

-- `while let Some(current) = frontier.pop_front()`: the children of the first run join the result and
-- the frontier. `none` where the fuel ends first.
unfoldable pub walk : ℕ → List RunRow → List ℕ → Option (List ℕ)
walk fuel runs [] = some []
walk zero runs (current ∷ frontier) = none
walk (suc fuel) runs (current ∷ frontier) =
    prepend (children runs current) (walk fuel runs (frontier ++ children runs current))

abbrev pub unfinished : KernelError
unfinished = fault internal "the walk did not end"

unfoldable pub descendants : ℕ → ℕ → Txn KernelTxn (List ℕ)
unfolding walk
descendants fuel root = do
  _ ← load_run root
  λ txn. or_fail (walk fuel txn.runs (root ∷ [])) unfinished txn

-- A run descends from another through one or more parents.
pub data Descends (runs : List RunRow) : ℕ → ℕ → Type 0 where
  child :
      (root : ℕ) (row : RunRow)
      → In row runs
      → is_child root row ≡ true
      → Descends runs root row.run_id
  deeper :
      (root : ℕ) (row : RunRow) {x : ℕ}
      → In row runs
      → is_child root row ≡ true
      → Descends runs row.run_id x
      → Descends runs root x

first_step :
    (runs : List RunRow) {root x : ℕ}
    → Descends runs root x
    → (row : RunRow) × In row runs
      × (is_child root row ≡ true)
      × ((row.run_id ≡ x) ⊎ Descends runs row.run_id x)
first_step runs (child root row stands own) = (row, stands, own, inl refl)
first_step runs (deeper root row stands own below) = (row, stands, own, inr below)

-- From one of a list of runs.
abbrev DescendsFrom : List RunRow → List ℕ → ℕ → Type 0
DescendsFrom runs roots x = (root : ℕ) × In root roots × Descends runs root x

walked :
    (fuel : ℕ) (runs : List RunRow) (current : ℕ) (frontier out : List ℕ)
    → prepend (children runs current) (walk fuel runs (frontier ++ children runs current))
      ≡ some out
    → (rest : List ℕ) × (walk fuel runs (frontier ++ children runs current) ≡ some rest)
      × (out ≡ children runs current ++ rest)
walked fuel runs current frontier out h =
    elim (Option-cases (walk fuel runs (frontier ++ children runs current))) [
      | inl stuck ↦ cc
      | inr (rest, done) ↦ (rest, done, ground (arith, h, done))
    ]

pub child_of :
    (runs : List RunRow) (current x : ℕ)
    → In x (children runs current)
    → (row : RunRow) × In row runs × (is_child current row ≡ true) × (row.run_id ≡ x)
child_of runs current x m =
    let (row, there, is) = In-of_map (λ row. row.run_id) x (filter (is_child current) runs) m in
    let (stands, own) = In-of_filter (is_child current) row runs there in (row, stands, own, is)

walk_sound :
    (fuel : ℕ) (runs : List RunRow) (frontier out : List ℕ) (x : ℕ)
    → walk fuel runs frontier ≡ some out
    → In x out
    → DescendsFrom runs frontier x
unfolding walk
walk_sound fuel runs [] out x h m =
    let empty : [] ≡ out = ground (arith, h) in absurd (subst (In x) (sym empty) m)
walk_sound zero runs (current ∷ frontier) out x h m = cc
walk_sound (suc fuel) runs (current ∷ frontier) out x h m =
    let (rest, done, is) = walked fuel runs current frontier out h in
    elim (Any-append_cases (λ y. y ≡ x) (children runs current) rest (subst (In x) is m)) [
      | inl first ↦
          let (row, stands, own, key) = child_of runs current x first in
          (current, inl refl, subst (Descends runs current) key (child current row stands own))
      | inr later ↦
          let (root, from, below) =
            walk_sound fuel runs (frontier ++ children runs current) rest x done later in
          elim (Any-append_cases (λ y. y ≡ root) frontier (children runs current) from) [
            | inl old ↦ (root, inr old, below)
            | inr new ↦
                let (row, stands, own, key) = child_of runs current root new in
                (
                  current,
                  inl refl,
                  deeper current row stands own (subst (λ r. Descends runs r x) (sym key) below),
                )
          ]
    ]

a_child :
    (runs : List RunRow) (current : ℕ) (row : RunRow)
    → In row runs
    → is_child current row ≡ true
    → In row.run_id (children runs current)
a_child runs current row stands own =
    In-map (λ r. r.run_id) row (filter (is_child current) runs)
      (In-filter (is_child current) row runs stands own)

walk_complete :
    (fuel : ℕ) (runs : List RunRow) (frontier out : List ℕ) (x root : ℕ)
    → walk fuel runs frontier ≡ some out
    → In root frontier
    → Descends runs root x
    → In x out
unfolding walk
walk_complete fuel runs [] out x root h m d = absurd m
walk_complete zero runs (current ∷ frontier) out x root h m d = cc
walk_complete (suc fuel) runs (current ∷ frontier) out x root h m d =
    let (rest, done, is) = walked fuel runs current frontier out h in
    let kids = children runs current in
    subst (In x) (sym is) (elim m [
      | inr later ↦
          Any-append_right (λ y. y ≡ x) kids rest
            (walk_complete fuel runs (frontier ++ kids) rest x root done
              (Any-append_left (λ y. y ≡ root) frontier kids later) d)
      | inl first ↦
          let (row, stands, own, next) =
            first_step runs (subst (λ r. Descends runs r x) (sym first) d) in
          let kid = a_child runs current row stands own in
          elim next [
            | inl here ↦ Any-append_left (λ y. y ≡ x) kids rest (subst (λ k. In k kids) here kid)
            | inr below ↦
                Any-append_right (λ y. y ≡ x) kids rest
                  (walk_complete fuel runs (frontier ++ kids) rest x row.run_id done
                    (Any-append_right (λ y. y ≡ row.run_id) frontier kids kid) below)
          ]
    ])

pub walk_iff :
    (fuel root : ℕ) (runs : List RunRow) (out : List ℕ) (x : ℕ)
    → walk fuel runs (root ∷ []) ≡ some out
    → In x out ↔ Descends runs root x
walk_iff fuel root runs out x done = (
  λ m.
      let (r, from, below) = walk_sound fuel runs (root ∷ []) out x done m in
      elim from [
        | inl is ↦ subst (λ i. Descends runs i x) (sym is) below
        | inr nowhere ↦ absurd nowhere
      ],
  λ d. walk_complete fuel runs (root ∷ []) out x root done (inl refl) d,
)

-- The walk reads only.
pub descendants_ok :
    (fuel root : ℕ) (txn txn' : KernelTxn) (out : List ℕ)
    → descendants fuel root txn ≡ (ok out, txn')
    → (walk fuel txn.runs (root ∷ []) ≡ some out) × (txn' ≡ txn)
unfolding descendants
descendants_ok fuel root txn txn' out h = (ground (arith, h), ground (arith, h))

-- The runs that the walk answers are exactly those that descend from the root through one or more parents.
pub descendants_iff :
    (fuel root : ℕ) (txn txn' : KernelTxn) (out : List ℕ) (x : ℕ)
    → descendants fuel root txn ≡ (ok out, txn')
    → In x out ↔ Descends txn.runs root x
descendants_iff fuel root txn txn' out x h =
    walk_iff fuel root txn.runs out x (descendants_ok fuel root txn txn' out h).0
