-- ===== src/RunGraph/Eligible.antt =====
-- What `cancel_subtree` of crates/run-graph/src/cancellation.rs writes, and which runs it answers.
use ai_harness.Base.{
  ℕ, saturating_add, zero, suc, ◌+◌, Bool, true, false, none, some, List, [], ◌∷◌, ◌++◌, ◌==◌, ◌≡◌,
  ◌≢◌, refl, sym, ap, ◌∙◌, subst, ◌⊎◌, inl, inr, arith, In, Bool-cases, Option-cases,
}
use ai_harness.Base.Table.{find, put, key-find}
use ai_harness.Base.Txn.{ok, bind_ok, pure, or_fail, ◌>>=◌}
use ai_harness.Domain.RunState.{cancellation_target}
use ai_harness.Store.Models.{RunRow}
use ai_harness.Store.Kernel.{KernelTxn}
use ai_harness.Store.Runs.{
  get_run, run_key, run_patched, get_run-patched, cas_holds, cas_encodes, cas_update_found,
}
use ai_harness.RunGraph.Descendants.{children, is_child, prepend, walk, descendants, descendants_ok}
use ai_harness.RunGraph.Cancellation.{
  advance_epoch, eligible_of, collect, epoch_cas, epoch_patch, is_eligible, push_if,
  descendant_vanished,
}

-- The row of the root after the advance.
abbrev pub advanced : RunRow → RunRow
advanced row = run_patched (epoch_patch row) row

the_some : (a b : RunRow) → some a ≡ some b → a ≡ b
the_some a b h = cc

the_ok : {A : Type 0} {a b : A} → ok a ≡ ok b → a ≡ b
the_ok h = cc

pub advance_epoch_of :
    (root : ℕ) (row row' : RunRow) (revision : ℕ) (txn txn' : KernelTxn)
    → get_run root txn ≡ some row
    → advance_epoch row revision txn ≡ (ok row', txn')
    → (row.run_revision ≡ revision)
      × (row' ≡ advanced row)
      × (saturating_add row.cancellation_epoch 1 ≡ row.cancellation_epoch + 1)
      × (txn'.runs ≡ put run_key (advanced row) txn.runs)
unfolding advance_epoch cas_holds cas_encodes
advance_epoch_of root row row' revision txn txn' found h =
    let key = key-find run_key root txn.runs {x = row} found in
    let own : get_run row.run_id txn ≡ some row =
      subst (λ i. get_run i txn ≡ some row) (sym key) found in
    let cas =
      cas_update_found row.run_id (epoch_cas row revision) (epoch_patch row) txn {row = row} own in
    let after = get_run-patched row.run_id (epoch_patch row) txn {row = row} own in
    (
      ground (arith, h, cas, after),
      ground (arith, h, cas, after),
      ground (arith, h, cas, after),
      ground (arith, h, cas, after),
    )

same_row :
    (r y : RunRow) (rs : List RunRow) (parent : ℕ)
    → y.parent_run_id ≡ r.parent_run_id
    → r.run_id ≡ y.run_id
    → children (y ∷ rs) parent ≡ children (r ∷ rs) parent
same_row r y rs parent parents keys = elim (Bool-cases (is_child parent r)) [
  | inl own ↦
      let own' : is_child parent y ≡ true = rw parents own in
      rw (own, own') (ap (λ i. i ∷ children rs parent) (sym keys))
  | inr other ↦ let other' : is_child parent y ≡ false = rw parents other in rw (other, other') refl
]

cons_children :
    (r : RunRow) (xs ys : List RunRow) (parent : ℕ)
    → children xs parent ≡ children ys parent
    → children (r ∷ xs) parent ≡ children (r ∷ ys) parent
cons_children r xs ys parent h = elim (Bool-cases (is_child parent r)) [
  | inl own ↦ rw own (ap (λ rest. r.run_id ∷ rest) h)
  | inr other ↦ rw other h
]

pub children-put :
    (y : RunRow) (runs : List RunRow) (parent : ℕ) {x : RunRow}
    → find run_key y.run_id runs ≡ some x
    → y.parent_run_id ≡ x.parent_run_id
    → children (put run_key y runs) parent ≡ children runs parent
unfolding find put
children-put y [] parent found same = cc
children-put y (r ∷ rs) parent {x} found same = elim (Bool-cases (r.run_id == y.run_id)) [
  | inl here ↦
      let first : r ≡ x = ground (arith, found, here) in
      let parents : y.parent_run_id ≡ r.parent_run_id =
        same ∙ ap (λ q. q.parent_run_id) (sym first) in
      let keys : r.run_id ≡ y.run_id = ground (arith, here) in
      rw here (same_row r y rs parent parents keys)
  | inr differs ↦
      let rest : find run_key y.run_id rs ≡ some x = rw differs at found in
      rw differs
        (cons_children r (put run_key y rs) rs parent (children-put y rs parent {x = x} rest same))
]

pub walk_same :
    (fuel : ℕ) (runs runs' : List RunRow) (frontier : List ℕ)
    → ((p : ℕ) → children runs p ≡ children runs' p)
    → walk fuel runs frontier ≡ walk fuel runs' frontier
unfolding walk
walk_same zero runs runs' [] h = refl
walk_same (suc fuel) runs runs' [] h = refl
walk_same zero runs runs' (current ∷ frontier) h = refl
walk_same (suc fuel) runs runs' (current ∷ frontier) h =
    subst
      (λ kids.
        prepend (children runs current) (walk fuel runs (frontier ++ children runs current))
        ≡ prepend kids (walk fuel runs' (frontier ++ kids)))
      (h current)
      (ap (prepend (children runs current))
        (walk_same fuel runs runs' (frontier ++ children runs current) h))

loaded_ok :
    (id : ℕ) (txn txn1 : KernelTxn) (row : RunRow)
    → or_fail (get_run id txn) descendant_vanished txn ≡ (ok row, txn1)
    → (get_run id txn ≡ some row) × (txn1 ≡ txn)
loaded_ok id txn txn1 row h = elim (Option-cases (get_run id txn)) [
  | inl absent ↦ ground (arith, h, absent)
  | inr (r, there) ↦ (ground (arith, h, there), ground (arith, h, there))
]

-- A run that a cancellation still moves.
abbrev pub IsMovable : KernelTxn → ℕ → Type 0
IsMovable txn x =
    (row : RunRow) × (get_run x txn ≡ some row) × (cancellation_target row.state ≢ none)

eligible_target : (row : RunRow) → is_eligible row ≡ true → cancellation_target row.state ≢ none
eligible_target row h e = ground (arith, h, e)

-- What stands behind a push was pushed, or stood there before.
pushed_cases :
    (b : Bool) (id x : ℕ) (rest : List ℕ)
    → In x (push_if b id rest)
    → ((b ≡ true) × (id ≡ x)) ⊎ In x rest
pushed_cases true id x rest (inl here) = inl (refl, here)
pushed_cases true id x rest (inr m) = inr m
pushed_cases false id x rest m = inr m

pushed-IsMovable :
    (row : RunRow) (id x : ℕ) (txn : KernelTxn)
    → get_run id txn ≡ some row
    → is_eligible row ≡ true
    → id ≡ x
    → IsMovable txn x
pushed-IsMovable row id x txn found goes here =
    (row, subst (λ i. get_run i txn ≡ some row) here found, eligible_target row goes)

pushed_rest : (b : Bool) (id x : ℕ) (rest : List ℕ) → In x rest → In x (push_if b id rest)
pushed_rest true id x rest m = inr m
pushed_rest false id x rest m = m

-- The filter keeps exactly the runs that a cancellation still moves.
pub eligible_of_ok :
    (ids : List ℕ) (txn txn' : KernelTxn) (out : List ℕ)
    → eligible_of ids txn ≡ (ok out, txn')
    → (txn' ≡ txn)
      × ((x : ℕ) → In x out → In x ids × IsMovable txn x)
      × ((x : ℕ)
          → In x ids
          → In x out
            ⊎ ((row : RunRow) × (get_run x txn ≡ some row)
                × (cancellation_target row.state ≡ none)))
unfolding eligible_of
eligible_of_ok [] txn txn' out h = (
  ap (λ r. r.1) (sym h),
  λ x m. absurd (subst (In x) (the_ok (ap (λ r. r.0) (sym h))) m),
  λ x m. absurd m,
)
eligible_of_ok (id ∷ ids) txn txn' out h =
    let (row, txn1, loaded, next) =
      bind_ok (or_fail (get_run id txn) descendant_vanished txn)
        (λ row. eligible_of ids >>= λ rest. pure (push_if (is_eligible row) id rest)) out txn' h in
    let (rest, txn2, later, done) =
      bind_ok (eligible_of ids txn1) (λ rest. pure (push_if (is_eligible row) id rest)) out txn'
        next in
    let (found, same) = loaded_ok id txn txn1 row loaded in
    let (same', sub, all) = eligible_of_ok ids txn1 txn2 rest later in
    let is : push_if (is_eligible row) id rest ≡ out = the_ok (ap (λ r. r.0) done) in
    let end : txn' ≡ txn = sym (ap (λ r. r.1) done) ∙ same' ∙ same in
    (
      end,
      λ x m. elim (pushed_cases (is_eligible row) id x rest (subst (In x) (sym is) m)) [
        | inl (goes, here) ↦ (inl here, pushed-IsMovable row id x txn found goes here)
        | inr m' ↦
            let (listed, movable) = sub x m' in
            (inr listed, subst (λ t. IsMovable t x) same movable)
      ],
      λ x m. elim m [
        | inr m' ↦ elim (all x m') [
          | inl there ↦ inl (subst (In x) is (pushed_rest (is_eligible row) id x rest there))
          | inr (r, there, off) ↦ inr (r, ap (get_run x) (sym same) ∙ there, off)
        ]
        | inl here ↦ elim (Option-cases (cancellation_target row.state)) [
          | inl off ↦ inr (row, subst (λ i. get_run i txn ≡ some row) here found, off)
          | inr (t, moves) ↦
              let goes : is_eligible row ≡ true = ground (arith, moves) in
              let pushed : id ∷ rest ≡ out = ap (λ b. push_if b id rest) (sym goes) ∙ is in
              inl (subst (In x) pushed (inl here))
        ]
      ],
    )

-- The answer for a root: of the root and the runs of the walk, those that a cancellation still moves.
pub collect_ok :
    (fuel root : ℕ) (row : RunRow) (txn txn' : KernelTxn) (ids : List ℕ)
    → get_run root txn ≡ some row
    → collect fuel root row txn ≡ (ok ids, txn')
    → (txn' ≡ txn)
      × (below : List ℕ) × (walk fuel txn.runs (root ∷ []) ≡ some below)
      × ((x : ℕ) → In x ids → ((x ≡ root) ⊎ In x below) × IsMovable txn x)
      × ((x : ℕ)
          → (x ≡ root) ⊎ In x below
          → In x ids
            ⊎ ((r : RunRow) × (get_run x txn ≡ some r) × (cancellation_target r.state ≡ none)))
unfolding collect
collect_ok fuel root row txn txn' ids found h =
    let (below, t1, walked, next) =
      bind_ok (descendants fuel root txn)
        (λ below. eligible_of below >>= λ rest. pure (push_if (is_eligible row) root rest)) ids txn'
        h in
    let (done, same) = descendants_ok fuel root txn t1 below walked in
    let (rest, t2, kept, end) =
      bind_ok (eligible_of below t1) (λ rest. pure (push_if (is_eligible row) root rest)) ids txn'
        next in
    let (same', sub, all) =
      eligible_of_ok below txn t2 rest
        (subst (λ t. eligible_of below t ≡ (ok rest, t2)) same kept) in
    let is : push_if (is_eligible row) root rest ≡ ids = the_ok (ap (λ r. r.0) end) in
    (
      sym (ap (λ r. r.1) end) ∙ same',
      below,
      done,
      λ x m. elim (pushed_cases (is_eligible row) root x rest (subst (In x) (sym is) m)) [
        | inl (goes, here) ↦ (inl (sym here), pushed-IsMovable row root x txn found goes here)
        | inr m' ↦ let (listed, movable) = sub x m' in (inr listed, movable)
      ],
      λ x m. elim m [
        | inr m' ↦ elim (all x m') [
          | inl there ↦ inl (subst (In x) is (pushed_rest (is_eligible row) root x rest there))
          | inr off ↦ inr off
        ]
        | inl here ↦ elim (Option-cases (cancellation_target row.state)) [
          | inl off ↦ inr (row, subst (λ i. get_run i txn ≡ some row) (sym here) found, off)
          | inr (t, moves) ↦
              let goes : is_eligible row ≡ true = ground (arith, moves) in
              let pushed : root ∷ rest ≡ ids = ap (λ b. push_if b root rest) (sym goes) ∙ is in
              inl (subst (In x) pushed (inl (sym here)))
        ]
      ],
    )
