-- ===== src/Base/Pairs.antt =====
-- Lists in which every two elements stand in a symmetric relation, such as the rows of a table under
-- a uniqueness constraint.
use ai_harness.Base.Tests.{◌==◌, Bool-cases, ==_refl}
use ai_harness.Base.Lists.{All, In, In_All, All-of_In}
use ai_harness.Base.Table.{find, put}
use Prim.Native.Nat.{ℕ}
use mathlib.Core.Path.{◌≡◌, refl, sym, ◌∙◌, subst, ap}
use mathlib.Core.Logic.{◌≢◌, ◌⊎◌, inl, inr}
use mathlib.Core.Bool.{true, false}
use mathlib.Core.Option.{some}
use mathlib.Core.List.{List, [], ◌∷◌, ◌++◌}
use native.Mathlib.Omega.{arith}

module _ {A : Type 0} (P : A → Type 0) where
  pub All-append_one : (xs : List A) (y : A) → All P xs → P y → All P (xs ++ y ∷ [])
  All-append_one [] y h p = (p, tt)
  All-append_one (x ∷ xs) y h p = (h.0, All-append_one xs y h.1 p)

module _ {A : Type 0} (R : A → A → Type 0) where
  abbrev pub Pairwise : List A → Type 0
  Pairwise [] = Unit
  Pairwise (x ∷ xs) = All (R x) xs × Pairwise xs

  pub Pairwise-append_one :
      (xs : List A) (y : A) → Pairwise xs → ((x : A) → In x xs → R x y) → Pairwise (xs ++ y ∷ [])
  Pairwise-append_one [] y h r = (tt, tt)
  Pairwise-append_one (x ∷ xs) y h r = (
    All-append_one (R x) xs y h.0 (r x (inl refl)),
    Pairwise-append_one xs y h.1 (λ z m. r z (inr m)),
  )

  -- Two elements of such a list are related, or are one.
  pub Pairwise-related :
      (xs : List A) (x y : A) → Pairwise xs → In x xs → In y xs → (x ≡ y) ⊎ R x y ⊎ R y x
  Pairwise-related [] x y h m n = absurd m
  Pairwise-related (z ∷ zs) x y h (inl e) (inl f) = inl (sym e ∙ f)
  Pairwise-related (z ∷ zs) x y h (inl e) (inr n) =
      inr (inl (subst (λ a. R a y) e (In_All (R z) zs h.0 y n)))
  Pairwise-related (z ∷ zs) x y h (inr m) (inl f) =
      inr (inr (subst (λ a. R a x) f (In_All (R z) zs h.0 x m)))
  Pairwise-related (z ∷ zs) x y h (inr m) (inr n) = Pairwise-related zs x y h.1 m n

module _ {A : Type 0} (key : A → ℕ) where
  pub find-In : (k : ℕ) (t : List A) {x : A} → find key k t ≡ some x → In x t
  unfolding find
  find-In k [] h = cc
  find-In k (y ∷ ys) {x} h = elim (Bool-cases (key y == k)) [
    | inl same ↦ inl (ground (arith, same))
    | inr differs ↦ inr (find-In k ys (ground (arith, differs)))
  ]

  -- What stands in a table after one row was replaced.
  pub In-of_put : (y : A) (t : List A) (x : A) → In x (put key y t) → (x ≡ y) ⊎ In x t
  unfolding put
  In-of_put y [] x m = absurd m
  In-of_put y (z ∷ zs) x m = elim (Bool-cases (key z == key y)) [
    | inl same ↦ elim (rw same at m) [ inl e ↦ inl (sym e) | inr n ↦ inr (inr n) ]
    | inr differs ↦ elim (rw differs at m) [
      | inl e ↦ inr (inl e)
      | inr n ↦ elim (In-of_put y zs x n) [ inl e ↦ inl e | inr k ↦ inr (inr k) ]
    ]
  ]

  module _ (R : A → A → Type 0) (apart : (a b : A) → R a b → key a ≢ key b) where
    -- Replacing a row by one that is related to every row of another key.
    pub Pairwise-put :
        (y : A) (t : List A)
        → Pairwise R t
        → ((x : A) → In x t → key x ≢ key y → R x y × R y x)
        → Pairwise R (put key y t)
    unfolding put
    Pairwise-put y [] h r = tt
    Pairwise-put y (z ∷ zs) h r = elim (Bool-cases (key z == key y)) [
      | inl same ↦
          let eq : key z ≡ key y = ground (arith, same) in
          rw same (
            All-of_In (R y) zs
                (λ x m. (r x (inr m) (λ e. apart z x (In_All (R z) zs h.0 x m) (eq ∙ sym e))).1),
            h.1,
          )
      | inr differs ↦
          let ne : key z ≢ key y = λ e. ground (arith, differs, e) in
          rw differs (
            All-of_In (R z) (put key y zs) (λ x m. elim (In-of_put y zs x m) [
              | inl e ↦ subst (R z) (sym e) (r z (inl refl) ne).0
              | inr n ↦ In_All (R z) zs h.0 x n
            ]),
            Pairwise-put y zs h.1 (λ x m. r x (inr m)),
          )
    ]

    -- A row of such a table is the one that its key finds.
    pub In-find : (t : List A) (x : A) → Pairwise R t → In x t → find key (key x) t ≡ some x
    unfolding find
    In-find [] x h m = absurd m
    In-find (y ∷ ys) x h (inl e) =
        let same : (key y == key x) ≡ true = rw e (==_refl (key x)) in rw same (ap some e)
    In-find (y ∷ ys) x h (inr m) =
        let ne = apart y x (In_All (R y) ys h.0 x m) in
        let differs : (key y == key x) ≡ false = ground (arith, ne) in
        rw differs (In-find ys x h.1 m)
