-- ===== src/Base/Lists.antt =====
-- Lists measured by the native numbers, tests over lists, and predicates by recursion.
use Prim.Native.Nat.{ℕ, suc, ◌+◌}
use mathlib.Core.Path.{◌≡◌, refl, sym, ap, ◌∙◌, subst}
use mathlib.Core.Logic.{◌⊎◌, inl, inr}
use mathlib.Core.Bool.{Bool, true, false, ◌&&◌, ◌||◌, not}
use mathlib.Core.List.{List, [], ◌∷◌, ◌++◌, map}
use native.Mathlib.Omega.{arith}
use ai_harness.Base.Tests.{if◌then◌else◌, Bool-cases}

module _ {ℓ} {A : Type ℓ} where
  abbrev pub length : List A → ℕ
  length [] = 0
  length (x ∷ xs) = suc (length xs)

  -- `iter().any(p)` and `iter().all(p)`.
  abbrev pub any : (A → Bool) → List A → Bool
  any p [] = false
  any p (x ∷ xs) = p x || any p xs

  abbrev pub all : (A → Bool) → List A → Bool
  all p [] = true
  all p (x ∷ xs) = p x && all p xs

  abbrev pub filter : (A → Bool) → List A → List A
  filter p [] = []
  filter p (x ∷ xs) = let rest = filter p xs in if p x then x ∷ rest else rest

  pub length-append : (xs ys : List A) → length (xs ++ ys) ≡ length xs + length ys
  length-append [] ys = omega arith
  length-append (x ∷ xs) ys = omega (arith, length-append xs ys)

module _ {ℓ} {A : Type ℓ} (P : A → Type 0) where
  -- `P` holds of an element, with its place; of every element.
  abbrev pub Any : List A → Type 0
  Any [] = ⊥
  Any (x ∷ xs) = P x ⊎ Any xs

  abbrev pub All : List A → Type 0
  All [] = Unit
  All (x ∷ xs) = P x × All xs

  pub Any-append_left : (xs ys : List A) → Any xs → Any (xs ++ ys)
  Any-append_left [] ys h = absurd h
  Any-append_left (x ∷ xs) ys (inl h) = inl h
  Any-append_left (x ∷ xs) ys (inr h) = inr (Any-append_left xs ys h)

  pub Any-append_right : (xs ys : List A) → Any ys → Any (xs ++ ys)
  Any-append_right [] ys h = h
  Any-append_right (x ∷ xs) ys h = inr (Any-append_right xs ys h)

  pub Any-append_cases : (xs ys : List A) → Any (xs ++ ys) → Any xs ⊎ Any ys
  Any-append_cases [] ys h = inr h
  Any-append_cases (x ∷ xs) ys (inl h) = inl (inl h)
  Any-append_cases (x ∷ xs) ys (inr h) = elim (Any-append_cases xs ys h) [
    | inl a ↦ inl (inr a)
    | inr b ↦ inr b
  ]

-- An element stands in a list.
abbrev pub In : {A : Type 0} → A → List A → Type 0
In x = Any (λ y. y ≡ x)

module _ {A : Type 0} where
  pub In-filter : (p : A → Bool) (x : A) (xs : List A) → In x xs → p x ≡ true → In x (filter p xs)
  In-filter p x [] m h = absurd m
  In-filter p x (y ∷ ys) (inl e) h = let kept : p y ≡ true = ap p e ∙ h in rw kept (inl e)
  In-filter p x (y ∷ ys) (inr m) h = elim (Bool-cases (p y)) [
    | inl kept ↦ rw kept (inr (In-filter p x ys m h))
    | inr dropped ↦ rw dropped (In-filter p x ys m h)
  ]

  pub In-of_filter :
      (p : A → Bool) (x : A) (xs : List A) → In x (filter p xs) → In x xs × (p x ≡ true)
  In-of_filter p x [] m = absurd m
  In-of_filter p x (y ∷ ys) m = elim (Bool-cases (p y)) [
    | inl kept ↦ elim (rw kept at m) [
      | inl e ↦ (inl e, sym (ap p e) ∙ kept)
      | inr m' ↦ let r = In-of_filter p x ys m' in (inr r.0, r.1)
    ]
    | inr dropped ↦ let r = In-of_filter p x ys (rw dropped at m) in (inr r.0, r.1)
  ]

  -- What holds somewhere in a list holds of an element of it.
  pub Any-In : (P : A → Type 0) (xs : List A) → Any P xs → (x : A) × In x xs × P x
  Any-In P [] h = absurd h
  Any-In P (x ∷ xs) (inl h) = (x, inl refl, h)
  Any-In P (x ∷ xs) (inr h) = let r = Any-In P xs h in (r.0, inr r.1, r.2)

  pub In-Any : (P : A → Type 0) (x : A) (xs : List A) → In x xs → P x → Any P xs
  In-Any P x [] m h = absurd m
  In-Any P x (y ∷ ys) (inl e) h = inl (subst P (sym e) h)
  In-Any P x (y ∷ ys) (inr m) h = inr (In-Any P x ys m h)

  pub In-map : {B : Type 0} (f : A → B) (x : A) (xs : List A) → In x xs → In (f x) (map f xs)
  In-map f x [] m = absurd m
  In-map f x (y ∷ ys) (inl e) = inl (ap f e)
  In-map f x (y ∷ ys) (inr m) = inr (In-map f x ys m)

  pub In-of_map :
      {B : Type 0} (f : A → B) (b : B) (xs : List A)
      → In b (map f xs)
      → (x : A) × In x xs × (f x ≡ b)
  In-of_map f b [] m = absurd m
  In-of_map f b (y ∷ ys) (inl e) = (y, inl refl, e)
  In-of_map f b (y ∷ ys) (inr m) = let r = In-of_map f b ys m in (r.0, inr r.1, r.2)

  pub All-of_In : (P : A → Type 0) (xs : List A) → ((x : A) → In x xs → P x) → All P xs
  All-of_In P [] h = tt
  All-of_In P (x ∷ xs) h = (h x (inl refl), All-of_In P xs (λ y m. h y (inr m)))

  pub In_All : (P : A → Type 0) (xs : List A) → All P xs → (x : A) → In x xs → P x
  In_All P [] h x m = absurd m
  In_All P (y ∷ ys) h x (inl e) = subst P e h.0
  In_All P (y ∷ ys) h x (inr m) = In_All P ys h.1 x m

  -- A list splits into what passes a test and what does not.
  pub length-filter_split :
      (p : A → Bool) (xs : List A)
      → length (filter p xs) + length (filter (λ x. not (p x)) xs) ≡ length xs
  length-filter_split p [] = omega arith
  length-filter_split p (x ∷ xs) = ground (arith, length-filter_split p xs)

  pub length-map : {B : Type 0} (f : A → B) (xs : List A) → length (map f xs) ≡ length xs
  length-map f [] = refl
  length-map f (x ∷ xs) = ap suc (length-map f xs)
