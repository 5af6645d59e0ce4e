-- ===== src/Base/Table.antt =====
-- A table with a primary key, as a list of rows. `find` is `SELECT … WHERE key = ?`; `update` is
-- `UPDATE … WHERE key = ? AND guard`, and its Boolean is `rows_affected() == 1`.
use Prim.Native.Nat.{ℕ}
use mathlib.Core.Path.{◌≡◌, refl}
use mathlib.Core.Logic.{◌≢◌, ◌⊎◌, inl, inr}
use mathlib.Core.Bool.{Bool, true, false}
use mathlib.Core.Option.{Option, none, some}
use mathlib.Core.List.{List, [], ◌∷◌, ◌++◌}
use native.Mathlib.Omega.{arith}
use ai_harness.Base.Tests.{◌==◌, if◌then◌else◌, Bool-cases, Option-cases}
use ai_harness.Base.Lists.{length}

module _ {ℓ} {A : Type ℓ} (key : A → ℕ) where
  unfoldable pub find : ℕ → List A → Option A
  find k [] = none
  find k (x ∷ xs) = if key x == k then some x else find k xs

  unfoldable pub put : A → List A → List A
  put y [] = []
  put y (x ∷ xs) = if key x == key y then y ∷ xs else x ∷ put y xs

  unfoldable pub update : ℕ → (A → Bool) → (A → A) → List A → List A × Bool
  update k guard f t = elim (find k t) [
    | none ↦ (t, false)
    | some x ↦ if guard x then (put (f x) t, true) else (t, false)
  ]

  pub key-find : (k : ℕ) (t : List A) {x : A} → find k t ≡ some x → key x ≡ k
  unfolding find
  key-find k [] h = cc
  key-find k (y ∷ ys) {x} h = ground (arith, key-find k ys {x = x})

  pub find-put_self :
      (y : A) (t : List A) {x : A} → find (key y) t ≡ some x → find (key y) (put y t) ≡ some y
  unfolding find put
  find-put_self y [] h = cc
  find-put_self y (z ∷ zs) {x} h = ground (arith, find-put_self y zs {x = x})

  pub find-put_ne : (k : ℕ) (y : A) (t : List A) → key y ≢ k → find k (put y t) ≡ find k t
  unfolding find put
  find-put_ne k y [] h = refl
  find-put_ne k y (z ∷ zs) h = ground (arith, find-put_ne k y zs)

  pub length-put : (y : A) (t : List A) → length (put y t) ≡ length t
  unfolding put
  length-put y [] = refl
  length-put y (z ∷ zs) = ground (arith, length-put y zs)

  pub find-append_new :
      (k : ℕ) (t : List A) (y : A)
      → find k (t ++ y ∷ [])
        ≡ elim (find k t) [ none ↦ if key y == k then some y else none | some x ↦ some x ]
  unfolding find
  find-append_new k [] y = ground arith
  find-append_new k (z ∷ zs) y = ground (arith, find-append_new k zs y)

  -- An update writes one row that meets its guard, or changes nothing.
  pub update_cases :
      (k : ℕ) (guard : A → Bool) (f : A → A) (t : List A)
      → (update k guard f t ≡ (t, false))
        ⊎ ((x : A) × (find k t ≡ some x)
            × (guard x ≡ true)
            × (update k guard f t ≡ (put (f x) t, true)))
  unfolding update
  update_cases k guard f t = elim (Option-cases (find k t)) [
    | inl missing ↦ inl (rw (missing, update))
    | inr (x, found) ↦ elim (Bool-cases (guard x)) [
      | inl holds ↦ inr (x, found, holds, rw (found, update) (rw holds))
      | inr fails ↦ inl (rw (found, update) (rw fails))
    ]
  ]

  pub update_found :
      (k : ℕ) (guard : A → Bool) (f : A → A) (t : List A) {x : A}
      → find k t ≡ some x
      → update k guard f t ≡ (if guard x then (put (f x) t, true) else (t, false))
  unfolding update
  update_found k guard f t found = rw (found, update)

  pub find-put :
      (k : ℕ) (y : A) (t : List A) {x : A}
      → find k t ≡ some x
      → key y ≡ k
      → find k (put y t) ≡ some y
  unfolding find put
  find-put k y [] h e = cc
  find-put k y (z ∷ zs) {x} h e = ground (arith, find-put k y zs {x = x})
