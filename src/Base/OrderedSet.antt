-- ===== src/Base/OrderedSet.antt =====
-- `BTreeSet` as the ascending list of its elements, which are told apart by their rank.
use ai_harness.Base.Tests.{◌==◌, ltb, if◌then◌else◌, Bool-cases, ==_refl, ==_iff}
use ai_harness.Base.Lists.{All, In, any, all}
use Prim.Native.Nat.{ℕ, ◌<◌}
use mathlib.Core.Path.{◌≡◌, refl, sym, ap, ◌∙◌}
use mathlib.Core.Logic.{◌⊎◌, inl, inr}
use mathlib.Core.Bool.{Bool, true, false}
use mathlib.Core.List.{List, [], ◌∷◌}
use native.Mathlib.Omega.{arith}

false_not_true : false ≡ true → ⊥
false_not_true e = cc

module _ {A : Type 0} (rank : A → ℕ) where
  -- `BTreeSet::insert`, which keeps an equal element.
  unfoldable pub insert : A → List A → List A
  insert x [] = x ∷ []
  insert x (y ∷ ys) =
      let rest = insert x ys in
      if rank x == rank y then y ∷ ys else if ltb (rank x) (rank y) then x ∷ y ∷ ys else y ∷ rest

  -- `iter().copied().collect::<BTreeSet<_>>()`.
  unfoldable pub to_set : List A → List A
  to_set [] = []
  to_set (x ∷ xs) = insert x (to_set xs)

  -- `BTreeSet::contains` and `BTreeSet::is_subset`.
  unfoldable pub contains : List A → A → Bool
  contains ys x = any (λ y. rank y == rank x) ys

  unfoldable pub is_subset : List A → List A → Bool
  is_subset xs ys = all (contains ys) xs

  abbrev pub IsAscending : List A → Type 0
  IsAscending [] = Unit
  IsAscending (x ∷ xs) = All (λ y. rank x < rank y) xs × IsAscending xs

  insert-All : (P : A → Type 0) (x : A) (ys : List A) → P x → All P ys → All P (insert x ys)
  unfolding insert
  insert-All P x [] p h = (p, tt)
  insert-All P x (y ∷ ys) p h = elim (Bool-cases (rank x == rank y)) [
    | inl same ↦ rw same h
    | inr differs ↦ rw differs (elim (Bool-cases (ltb (rank x) (rank y))) [
      | inl before ↦ rw before (p, h)
      | inr after ↦ rw after (h.0, insert-All P x ys p h.1)
    ])
  ]

  above_All :
      (n : ℕ) (y : A) (zs : List A)
      → n < rank y
      → All (λ z. rank y < rank z) zs
      → All (λ z. n < rank z) zs
  above_All n y [] l a = tt
  above_All n y (z ∷ zs) l a = (omega (arith, l, a.0), above_All n y zs l a.1)

  pub insert-IsAscending : (x : A) (ys : List A) → IsAscending ys → IsAscending (insert x ys)
  unfolding insert
  insert-IsAscending x [] h = (tt, tt)
  insert-IsAscending x (y ∷ ys) h = elim (Bool-cases (rank x == rank y)) [
    | inl same ↦ rw same h
    | inr differs ↦ rw differs (elim (Bool-cases (ltb (rank x) (rank y))) [
      | inl before ↦
          let lower : rank x < rank y = ground (arith, before) in
          rw before ((lower, above_All (rank x) y ys lower h.0), h)
      | inr after ↦
          let lower : rank y < rank x = ground (arith, differs, after) in
          rw after (insert-All (λ z. rank y < rank z) x ys lower h.0, insert-IsAscending x ys h.1)
    ])
  ]

  pub to_set-IsAscending : (xs : List A) → IsAscending (to_set xs)
  unfolding to_set
  to_set-IsAscending [] = tt
  to_set-IsAscending (x ∷ xs) = insert-IsAscending x (to_set xs) (to_set-IsAscending xs)

  -- An ascending list is the set of its elements.
  insert_least : (x : A) (ys : List A) → All (λ y. rank x < rank y) ys → insert x ys ≡ x ∷ ys
  unfolding insert
  insert_least x [] h = refl
  insert_least x (y ∷ ys) h =
      let differs : (rank x == rank y) ≡ false = ground (arith, h.0) in
      let before : ltb (rank x) (rank y) ≡ true = ground (arith, h.0) in rw differs (rw before refl)

  pub to_set_id : (xs : List A) → IsAscending xs → to_set xs ≡ xs
  unfolding to_set
  to_set_id [] h = refl
  to_set_id (x ∷ xs) h = ap (insert x) (to_set_id xs h.1) ∙ insert_least x xs h.0

  module _ (apart : (x y : A) → rank x ≡ rank y → x ≡ y) where
    pub In-insert : (z x : A) (ys : List A) → (x ≡ z) ⊎ In z ys → In z (insert x ys)
    unfolding insert
    In-insert z x [] (inl e) = inl e
    In-insert z x [] (inr m) = absurd m
    In-insert z x (y ∷ ys) m = elim (Bool-cases (rank x == rank y)) [
      | inl same ↦ rw same (elim m [
        | inl e ↦ inl (sym (apart x y ((==_iff (rank x) (rank y)).0 same)) ∙ e)
        | inr n ↦ n
      ])
      | inr differs ↦ rw differs (elim (Bool-cases (ltb (rank x) (rank y))) [
        | inl before ↦ rw before m
        | inr after ↦ rw after (elim m [
          | inl e ↦ inr (In-insert z x ys (inl e))
          | inr (inl e) ↦ inl e
          | inr (inr n) ↦ inr (In-insert z x ys (inr n))
        ])
      ])
    ]

    pub In-to_set : (z : A) (xs : List A) → In z xs → In z (to_set xs)
    unfolding to_set
    In-to_set z [] m = absurd m
    In-to_set z (x ∷ xs) (inl e) = In-insert z x (to_set xs) (inl e)
    In-to_set z (x ∷ xs) (inr m) = In-insert z x (to_set xs) (inr (In-to_set z xs m))

    pub contains-In : (x : A) (ys : List A) → contains ys x ≡ true → In x ys
    unfolding contains
    contains-In x [] h = absurd (false_not_true h)
    contains-In x (y ∷ ys) h = elim (Bool-cases (rank y == rank x)) [
      | inl same ↦ inl (apart y x ((==_iff (rank y) (rank x)).0 same))
      | inr differs ↦ inr (contains-In x ys (rw differs at h))
    ]

    pub is_subset-In : (xs ys : List A) → is_subset xs ys ≡ true → (x : A) → In x xs → In x ys
    unfolding is_subset
    is_subset-In [] ys h x m = absurd m
    is_subset-In (z ∷ zs) ys h x m = elim (Bool-cases (contains ys z)) [
      | inl held ↦ elim m [
        | inl e ↦ contains-In x ys (sym (ap (contains ys) e) ∙ held)
        | inr n ↦ is_subset-In zs ys (rw held at h) x n
      ]
      | inr missing ↦ absurd (false_not_true (rw missing at h))
    ]

  -- What a set contains by membership.
  pub In-contains : (x : A) (ys : List A) → In x ys → contains ys x ≡ true
  unfolding contains
  In-contains x [] m = absurd m
  In-contains x (y ∷ ys) (inl e) = rw e (rw (==_refl (rank x)) refl)
  In-contains x (y ∷ ys) (inr m) = elim (Bool-cases (rank y == rank x)) [
    | inl same ↦ rw same refl
    | inr differs ↦ rw differs (In-contains x ys m)
  ]

  pub In-is_subset : (xs ys : List A) → ((x : A) → In x xs → In x ys) → is_subset xs ys ≡ true
  unfolding is_subset
  In-is_subset [] ys h = refl
  In-is_subset (x ∷ xs) ys h =
      rw (In-contains x ys (h x (inl refl))) (In-is_subset xs ys (λ z m. h z (inr m)))

  -- A set holds nothing that was not put into it.
  pub insert-In : (z x : A) (ys : List A) → In z (insert x ys) → (x ≡ z) ⊎ In z ys
  unfolding insert
  insert-In z x [] (inl e) = inl e
  insert-In z x [] (inr m) = absurd m
  insert-In z x (y ∷ ys) m = elim (Bool-cases (rank x == rank y)) [
    | inl same ↦ inr (rw same at m)
    | inr differs ↦ elim (Bool-cases (ltb (rank x) (rank y))) [
      | inl before ↦ rw before at (rw differs at m)
      | inr after ↦ elim (rw after at (rw differs at m)) [
        | inl e ↦ inr (inl e)
        | inr n ↦ elim (insert-In z x ys n) [ inl e ↦ inl e | inr k ↦ inr (inr k) ]
      ]
    ]
  ]

  pub to_set-In : (z : A) (xs : List A) → In z (to_set xs) → In z xs
  unfolding to_set
  to_set-In z [] m = absurd m
  to_set-In z (x ∷ xs) m = elim (insert-In z x (to_set xs) m) [
    | inl e ↦ inl e
    | inr n ↦ inr (to_set-In z xs n)
  ]
