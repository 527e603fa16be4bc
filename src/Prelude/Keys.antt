-- ===== src/Prelude/Keys.antt =====
-- Tables with a primary key: lists in which no two elements have the same key.
use Prim.Native.String.{String}
use mathlib.Core.Path.{◌≡◌, refl}
use mathlib.Core.Logic.{inl, inr}
use mathlib.Core.Bool.{Bool, true, false}
use mathlib.Core.List.{List, [], ◌∷◌, ◌++◌, map}
use native.Mathlib.Omega.{arith}
use text.Mathlib.Text.{◌==◌}
use mark_sdk.Prelude.Tests.{Bool-cases, eq_false_sym}
use mark_sdk.Prelude.Lists.{
  All, All-append, All-filter, All-map, All-filter_cons, All-imp, All-imp₂, filter,
}
use mark_sdk.Prelude.Sorting.{insert_by, sort_by, All-insert_by, All-sort_by}

module _ {ℓ} {A : Type ℓ} (key : A → String) where
  -- No element has the key `k`.
  abbrev pub IsFresh : String → List A → Type 0
  IsFresh k = All (λ x. (key x == k) ≡ false)

  -- A primary key: no two elements have the same one.
  abbrev pub HasUniqueKeys : List A → Type 0
  HasUniqueKeys [] = Unit
  HasUniqueKeys (x ∷ xs) = IsFresh (key x) xs × HasUniqueKeys xs

module _ {ℓ} {A : Type ℓ} (key : A → String) where
  pub HasUniqueKeys-filter :
      (p : A → Bool) (xs : List A) → HasUniqueKeys key xs → HasUniqueKeys key (filter p xs)
  HasUniqueKeys-filter p [] h = tt
  HasUniqueKeys-filter p (x ∷ xs) h = elim (Bool-cases (p x)) [
    | inl e ↦
        rw e (All-filter (λ y. (key y == key x) ≡ false) p xs h.0, HasUniqueKeys-filter p xs h.1)
    | inr e ↦ rw e (HasUniqueKeys-filter p xs h.1)
  ]

  module _ (le : A → A → Bool) where
    HasUniqueKeys-insert_by :
        (x : A) (xs : List A)
        → IsFresh key (key x) xs
        → HasUniqueKeys key xs
        → HasUniqueKeys key (insert_by le x xs)
    HasUniqueKeys-insert_by x [] h k = (tt, tt)
    HasUniqueKeys-insert_by x (y ∷ ys) h k = elim (Bool-cases (le x y)) [
      | inl e ↦ rw e (h, k)
      | inr e ↦ rw e (
        All-insert_by le (λ z. (key z == key y) ≡ false) x ys (eq_false_sym (key y) (key x) h.0)
            k.0,
        HasUniqueKeys-insert_by x ys h.1 k.1,
      )
    ]

    pub HasUniqueKeys-sort_by :
        (xs : List A) → HasUniqueKeys key xs → HasUniqueKeys key (sort_by le xs)
    HasUniqueKeys-sort_by [] h = tt
    HasUniqueKeys-sort_by (x ∷ xs) h =
        HasUniqueKeys-insert_by x (sort_by le xs)
          (All-sort_by le (λ z. (key z == key x) ≡ false) xs h.0) (HasUniqueKeys-sort_by xs h.1)

  -- An inserted row with a fresh key.
  pub HasUniqueKeys-append :
      (xs : List A) (x : A)
      → IsFresh key (key x) xs
      → HasUniqueKeys key xs
      → HasUniqueKeys key (xs ++ x ∷ [])
  HasUniqueKeys-append [] x h k = (tt, tt)
  HasUniqueKeys-append (y ∷ ys) x h k = (
    All-append (λ z. (key z == key y) ≡ false) ys (x ∷ []) k.0
        (eq_false_sym (key y) (key x) h.0, tt),
    HasUniqueKeys-append ys x h.1 k.1,
  )

  -- An update that keeps every key.
  pub HasUniqueKeys-map :
      (f : A → A)
      → ((x : A) → key (f x) ≡ key x)
      → (xs : List A) → HasUniqueKeys key xs
      → HasUniqueKeys key (map f xs)
  HasUniqueKeys-map f same [] h = tt
  HasUniqueKeys-map f same (x ∷ xs) h = (
    All-map f (λ y. (key y == key (f x)) ≡ false) xs
        (rw (same x) (
          All-imp (λ y. (key y == key x) ≡ false) (λ y. (key (f y) == key x) ≡ false)
            (λ y e. rw (same y) e) xs h.0)),
    HasUniqueKeys-map f same xs h.1,
  )

module _ {ℓ} {A : Type ℓ} (key : A → String) where
  -- Two rows with the same key are one row.
  pub All-same_key :
      (xs : List A)
      → HasUniqueKeys key xs
      → All (λ x. All (λ y. (key y == key x) ≡ true → y ≡ x) xs) xs
  All-same_key [] h = tt
  All-same_key (x ∷ xs) h = (
    (
      (λ _. refl),
      All-imp (λ y. (key y == key x) ≡ false) (λ y. (key y == key x) ≡ true → y ≡ x)
          (λ y n e. absurd (ground arith)) xs h.0,
    ),
    All-imp₂ (λ y. (key y == key x) ≡ false) (λ y. All (λ z. (key z == key y) ≡ true → z ≡ y) xs)
        (λ y. All (λ z. (key z == key y) ≡ true → z ≡ y) (x ∷ xs))
        (λ y n a. ((λ e. absurd (ground (arith, eq_false_sym (key y) (key x) n))), a)) xs h.0
        (All-same_key xs h.1),
  )

module _ {ℓ} {A : Type ℓ} (key : A → String) (p : A → Bool) where
  HasKeyIn : A → List A → Type 0
  HasKeyIn x = All (λ y. (key y == key x) ≡ true → p y ≡ true)

  HasKeyIn-cons :
      (y : A) (ys : List A) (x : A) → (key x == key y) ≡ false → HasKeyIn x ys → HasKeyIn x (y ∷ ys)
  unfolding HasKeyIn
  HasKeyIn-cons y ys x n k = (λ m. absurd (ground (arith, eq_false_sym (key x) (key y) n)), k)

  -- A key that a selected row has is the key of selected rows only.
  pub All-filter_keys :
      (xs : List A)
      → HasUniqueKeys key xs
      → All (λ x. All (λ y. (key y == key x) ≡ true → p y ≡ true) xs) (filter p xs)
  unfolding HasKeyIn
  All-filter_keys [] h = tt
  All-filter_keys (y ∷ ys) h =
      let rest : All (λ x. HasKeyIn x (y ∷ ys)) (filter p ys) =
        All-imp₂ (λ x. (key x == key y) ≡ false) (λ x. HasKeyIn x ys) (λ x. HasKeyIn x (y ∷ ys))
          (HasKeyIn-cons y ys) (filter p ys) (All-filter (λ x. (key x == key y) ≡ false) p ys h.0)
          (All-filter_keys ys h.1) in
      All-filter_cons (λ x. HasKeyIn x (y ∷ ys)) p y ys
        (λ e. (
          λ _. e,
          All-imp (λ z. (key z == key y) ≡ false) (λ z. (key z == key y) ≡ true → p z ≡ true)
              (λ z n m. absurd (ground arith)) ys h.0,
        ))
        rest
