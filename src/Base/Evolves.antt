-- ===== src/Base/Evolves.antt =====
-- What becomes of the rows of a keyed table: every row of the first table has a row of its key in the
-- second one, and the two are related.
use ai_harness.Base.Tests.{◌==◌, Bool-cases}
use ai_harness.Base.Table.{find, put, find-append_new, find-put_ne, find-put}
use Prim.Native.Nat.{ℕ}
use mathlib.Core.Path.{◌≡◌, sym, ◌∙◌, subst, refl}
use mathlib.Core.Logic.{◌≢◌, inl, inr}
use mathlib.Core.Option.{some}
use mathlib.Core.List.{List, [], ◌∷◌, ◌++◌}
use native.Mathlib.Omega.{arith}

the_some : {A : Type 0} (a b : A) → some a ≡ some b → a ≡ b
the_some a b h = cc

module _ {A : Type 0} (key : A → ℕ) where
  pub find-append_old :
      (k : ℕ) (t : List A) (y : A) {x : A}
      → find key k t ≡ some x
      → find key k (t ++ y ∷ []) ≡ some x
  find-append_old k t y {x} there = find-append_new key k t y ∙ rw there refl

  module _ (R : A → A → Type 0) where
    abbrev pub Evolves : List A → List A → Type 0
    Evolves t t' =
        (k : ℕ) (x : A) → find key k t ≡ some x → (y : A) × (find key k t' ≡ some y) × R x y

    pub Evolves-trans :
        (t t' t'' : List A)
        → ((x y z : A) → R x y → R y z → R x z)
        → Evolves t t'
        → Evolves t' t''
        → Evolves t t''
    Evolves-trans t t' t'' trans f g k x there =
        let (y, there', r) = f k x there in
        let (z, there'', s) = g k y there' in (z, there'', trans x y z r s)

    module _ (same : (x : A) → R x x) where
      pub Evolves-refl : (t : List A) → Evolves t t
      Evolves-refl t k x there = (x, there, same x)

      pub Evolves-append : (t : List A) (y : A) → Evolves t (t ++ y ∷ [])
      Evolves-append t y k x there = (x, find-append_old k t y {x = x} there, same x)

      -- One row is replaced by a row of its key that it is related to.
      pub Evolves-put :
          (id : ℕ) (y : A) (t : List A) {x : A}
          → find key id t ≡ some x
          → key y ≡ id
          → R x y
          → Evolves t (put key y t)
      Evolves-put id y t {x} found own next k old there = elim (Bool-cases (id == k)) [
        | inl eq ↦
            let one : id ≡ k = ground (arith, eq) in
            let was : x ≡ old =
              the_some x old (sym (subst (λ i. find key i t ≡ some x) one found) ∙ there) in
            (
              y,
              subst (λ i. find key i (put key y t) ≡ some y) one
                  (find-put key id y t {x = x} found own),
              subst (λ z. R z y) was next,
            )
        | inr differs ↦
            let ne : key y ≢ k = λ e. ground (arith, e, own, differs) in
            (old, find-put_ne key k y t ne ∙ there, same old)
      ]
