-- ===== src/Base/Select.antt =====
-- Choosing from a list: `Iterator::filter_map`, `flatten`, `max_by_key` and `find_map`.
use ai_harness.Base.Tests.{leb, if◌then◌else◌, Option-cases, Bool-cases}
use ai_harness.Base.Lists.{Any, In}
use Prim.Native.Nat.{ℕ, ◌≤◌}
use mathlib.Core.Path.{◌≡◌, refl, sym, ap, subst, ◌∙◌}
use mathlib.Core.Logic.{◌⊎◌, inl, inr}
use mathlib.Core.Option.{Option, none, some}
use mathlib.Core.List.{List, [], ◌∷◌}
use native.Mathlib.Omega.{arith}

abbrev pub push? : {B : Type 0} → Option B → List B → List B
push? none ys = ys
push? (some b) ys = b ∷ ys

abbrev pub first_or : {B : Type 0} → Option B → Option B → Option B
first_or none d = d
first_or (some b) d = some b

In-of_push : {B : Type 0} (c b : B) (ys : List B) → In b (c ∷ ys) → (c ≡ b) ⊎ In b ys
In-of_push c b ys m = m

module _ {A B : Type 0} where
  unfoldable pub filter_map : (A → Option B) → List A → List B
  filter_map f [] = []
  filter_map f (x ∷ xs) = push? (f x) (filter_map f xs)

  -- The first value that `f` yields.
  unfoldable pub find_map : (A → Option B) → List A → Option B
  find_map f [] = none
  find_map f (x ∷ xs) = first_or (f x) (find_map f xs)

  pub In-filter_map :
      (f : A → Option B) (b : B) (xs : List A) → Any (λ x. f x ≡ some b) xs → In b (filter_map f xs)
  unfolding filter_map
  In-filter_map f b [] m = absurd m
  In-filter_map f b (x ∷ xs) (inl e) = rw e (inl refl)
  In-filter_map f b (x ∷ xs) (inr m) = elim (Option-cases (f x)) [
    | inl skip ↦ rw skip (In-filter_map f b xs m)
    | inr (c, took) ↦ rw took (inr (In-filter_map f b xs m))
  ]

  pub In-of_filter_map :
      (f : A → Option B) (b : B) (xs : List A) → In b (filter_map f xs) → Any (λ x. f x ≡ some b) xs
  unfolding filter_map
  In-of_filter_map f b [] m = absurd m
  In-of_filter_map f b (x ∷ xs) m = elim (Option-cases (f x)) [
    | inl skip ↦
        inr (In-of_filter_map f b xs (subst (λ o. In b (push? o (filter_map f xs))) skip m))
    | inr (c, took) ↦
        elim (In-of_push c b (filter_map f xs)
          (subst (λ o. In b (push? o (filter_map f xs))) took m)) [
            | inl e ↦ inl (took ∙ ap some e)
            | inr rest ↦ inr (In-of_filter_map f b xs rest)
          ]
  ]

  pub find_map-Any :
      (f : A → Option B) (b : B) (xs : List A) → find_map f xs ≡ some b → Any (λ x. f x ≡ some b) xs
  unfolding find_map
  find_map-Any f b [] h = cc
  find_map-Any f b (x ∷ xs) h = elim (Option-cases (f x)) [
    | inl skip ↦ inr (find_map-Any f b xs (ground (arith, skip)))
    | inr (c, took) ↦ inl (ground (arith, took))
  ]

module _ {A : Type 0} where
  abbrev pub flatten : List (Option A) → List A
  flatten xs = filter_map (λ o. o) xs

module _ {A : Type 0} (rank : A → ℕ) where
  unfoldable pub higher : A → A → A
  higher best x = if leb (rank best) (rank x) then x else best

  -- The running maximum; the later of two equal ones.
  unfoldable pub max_from : A → List A → A
  max_from best [] = best
  max_from best (x ∷ xs) = max_from (higher best x) xs

  unfoldable pub max_by_key : List A → Option A
  max_by_key [] = none
  max_by_key (x ∷ xs) = some (max_from x xs)

  higher_above : (a b : A) → (rank a ≤ rank (higher a b)) × (rank b ≤ rank (higher a b))
  unfolding higher
  higher_above a b = (ground arith, ground arith)

  higher_cases : (a b : A) → (higher a b ≡ a) ⊎ (higher a b ≡ b)
  unfolding higher
  higher_cases a b = elim (Bool-cases (leb (rank a) (rank b))) [
    | inl later ↦ inr (ground (arith, later))
    | inr same ↦ inl (ground (arith, same))
  ]

  max_from-above :
      (best : A) (xs : List A)
      → (rank best ≤ rank (max_from best xs))
        × ((x : A) → In x xs → rank x ≤ rank (max_from best xs))
  unfolding max_from
  max_from-above best [] = (ground arith, λ x m. absurd m)
  max_from-above best (y ∷ ys) =
      let (low, every) = max_from-above (higher best y) ys in
      let (up, up') = higher_above best y in
      (
        ground (arith, low, up),
        λ x m. elim m [
          | inl e ↦
              subst (λ z. rank z ≤ rank (max_from (higher best y) ys)) e (ground (arith, low, up'))
          | inr rest ↦ every x rest
        ],
      )

  max_from-In : (best : A) (xs : List A) → In (max_from best xs) (best ∷ xs)
  unfolding max_from
  max_from-In best [] = inl refl
  max_from-In best (y ∷ ys) = elim (max_from-In (higher best y) ys) [
    | inr m ↦ inr (inr m)
    | inl e ↦ elim (higher_cases best y) [
      | inl first ↦ inl (sym first ∙ e)
      | inr later ↦ inr (inl (sym later ∙ e))
    ]
  ]

  the_some : (a b : A) → some a ≡ some b → a ≡ b
  the_some a b h = cc

  -- The maximum stands in the list, and nothing in the list is above it.
  pub max_by_key-In : (xs : List A) (m : A) → max_by_key xs ≡ some m → In m xs
  unfolding max_by_key
  max_by_key-In [] m h = cc
  max_by_key-In (x ∷ xs) m h =
      subst (λ z. In z (x ∷ xs)) (the_some (max_from x xs) m h) (max_from-In x xs)

  pub max_by_key-above :
      (xs : List A) (x : A) → In x xs → (m : A) × (max_by_key xs ≡ some m) × (rank x ≤ rank m)
  unfolding max_by_key
  max_by_key-above [] x h = absurd h
  max_by_key-above (y ∷ ys) x h =
      let (low, every) = max_from-above y ys in
      (
        max_from y ys,
        refl,
        elim h [
          | inl e ↦ subst (λ z. rank z ≤ rank (max_from y ys)) e low
          | inr rest ↦ every x rest
        ],
      )
