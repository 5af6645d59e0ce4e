-- ===== src/Queue/Keys.antt =====
-- Lemmas on the keys of the queue's maps and sets (crates/message-queue/src/in_memory.rs).
use ai_harness.Base.{
  ℕ, suc, ◌≤◌, Bool, true, false, not, none, some, List, [], ◌∷◌, ◌≡◌, ◌≢◌, refl, sym, ap, ◌∙◌, inl,
  inr, arith, In, In-filter, In-of_filter, In_All, All-of_In, Bool-cases, filter, length, any,
}
use ai_harness.Base.Pairs.{Pairwise}
use ai_harness.Queue.State.{Key, Stored, same_key, get, without, remove_key, insert_key, land}

key_eta : (a b : Key) → a.stream ≡ b.stream → a.message ≡ b.message → a ≡ b
key_eta a b s m = cc

pub same_key-eq : (a b : Key) → same_key a b ≡ true → a ≡ b
same_key-eq a b h = key_eta a b (ground (arith, h)) (ground (arith, h))

pub same_key_refl : (a : Key) → same_key a a ≡ true
same_key_refl a = ground arith

pub same_key_ne : (a b : Key) → a ≢ b → same_key a b ≡ false
same_key_ne a b ne = elim (Bool-cases (same_key a b)) [
  | inl same ↦ absurd (ne (same_key-eq a b same))
  | inr differs ↦ differs
]

module _ {A : Type 0} where
  pub length-filter : (p : A → Bool) (xs : List A) → length (filter p xs) ≤ length xs
  length-filter p [] = omega arith
  length-filter p (x ∷ xs) = ground (arith, length-filter p xs)

  pub length-filter_less :
      (p : A → Bool) (x : A) (xs : List A)
      → In x xs
      → p x ≡ false
      → suc (length (filter p xs)) ≤ length xs
  length-filter_less p x [] m h = absurd m
  length-filter_less p x (y ∷ ys) (inl e) h =
      let out : p y ≡ false = ap p e ∙ h in ground (arith, out, length-filter p ys)
  length-filter_less p x (y ∷ ys) (inr m) h = ground (arith, length-filter_less p x ys m h)

  pub Pairwise-filter :
      (R : A → A → Type 0) (p : A → Bool) (xs : List A) → Pairwise R xs → Pairwise R (filter p xs)
  Pairwise-filter R p [] h = tt
  Pairwise-filter R p (x ∷ xs) h = elim (Bool-cases (p x)) [
    | inl kept ↦ rw kept (
      All-of_In (R x) (filter p xs) (λ y m. In_All (R x) xs h.0 y (In-of_filter p y xs m).0),
      Pairwise-filter R p xs h.1,
    )
    | inr dropped ↦ rw dropped (Pairwise-filter R p xs h.1)
  ]

pub In-remove_key : (x k : Key) (ks : List Key) → In x ks → x ≢ k → In x (remove_key k ks)
In-remove_key x k ks m ne = In-filter (λ y. not (same_key y k)) x ks m (ap not (same_key_ne x k ne))

any_In : (k : Key) (ks : List Key) → any (λ x. same_key x k) ks ≡ true → In k ks
any_In k [] h = cc
any_In k (x ∷ xs) h = elim (Bool-cases (same_key x k)) [
  | inl same ↦ inl (same_key-eq x k same)
  | inr differs ↦ inr (any_In k xs (ground (arith, h, differs)))
]

pub any-key : (k : Key) (ks : List Key) → In k ks → any (λ x. same_key x k) ks ≡ true
any-key k [] m = absurd m
any-key k (x ∷ xs) (inl e) =
    let same : same_key x k ≡ true = rw e (same_key_refl k) in ground (arith, same)
any-key k (x ∷ xs) (inr m) = ground (arith, any-key k xs m)

pub In-insert_key_old : (x k : Key) (ks : List Key) → In x ks → In x (insert_key k ks)
In-insert_key_old x k ks m = elim (Bool-cases (any (λ y. same_key y k) ks)) [
  | inl there ↦ rw there m
  | inr fresh ↦ rw fresh (inr m)
]

pub In-insert_key : (k : Key) (ks : List Key) → In k (insert_key k ks)
In-insert_key k ks = elim (Bool-cases (any (λ y. same_key y k) ks)) [
  | inl there ↦ rw there (any_In k ks there)
  | inr fresh ↦ rw fresh (inl refl)
]

pub length-insert_key : (k : Key) (ks : List Key) → length (insert_key k ks) ≤ suc (length ks)
length-insert_key k ks = elim (Bool-cases (any (λ y. same_key y k) ks)) [
  | inl there ↦ rw there (omega arith)
  | inr fresh ↦ rw fresh (omega arith)
]

pub get-without : (x k : Key) (s : List Stored) → x ≢ k → get x (without k s) ≡ get x s
unfolding get
get-without x k [] ne = refl
get-without x k (y ∷ ys) ne = elim (Bool-cases (same_key y.key k)) [
  | inl same ↦
      let is = same_key-eq y.key k same in
      let other : same_key y.key x ≡ false = same_key_ne y.key x (λ e. ne (sym e ∙ is)) in
      ground (arith, same, other, get-without x k ys ne)
  | inr differs ↦ ground (arith, differs, get-without x k ys ne)
]

pub get-land : (k : Key) (p : List ℕ) (s : List Stored) → get k (land k p s) ≡ some p
unfolding get
get-land k p s = ground (arith, same_key_refl k)

pub get-land_old :
    (x k : Key) (p : List ℕ) (s : List Stored) → get x s ≢ none → get x (land k p s) ≢ none
unfolding get
get-land_old x k p s there = elim (Bool-cases (same_key k x)) [
  | inl same ↦ λ e. ground (arith, same, e)
  | inr differs ↦
      let ne : x ≢ k = λ e. ground (arith, differs, ap (same_key k) e, same_key_refl k) in
      let kept = get-without x k s ne in λ e. there (sym kept ∙ ground (arith, differs, e))
]
