-- ===== src/Prelude/Sorting.antt =====
-- `ORDER BY`: a stable insertion sort by a Boolean `≤`.
use mathlib.Core.Path.{◌≡◌, refl, sym, ap, ap₂, ◌∙◌}
use mathlib.Core.Logic.{◌≢◌, inl, inr}
use mathlib.Core.Bool.{Bool, true, false}
use mathlib.Core.List.{List, [], ◌∷◌, ◌++◌, map}
use native.Mathlib.Omega.{arith}
use mark_sdk.Prelude.Tests.{if◌then◌else◌, Bool-cases}
use mark_sdk.Prelude.Lists.{All, All-filter, All-imp, filter}

module _ {ℓ} {A : Type ℓ} (le : A → A → Bool) where
  -- An element goes before the first one that is not below it: equal keys keep their order.
  abbrev pub insert_by : A → List A → List A
  insert_by x [] = x ∷ []
  insert_by x (y ∷ ys) = if le x y then x ∷ y ∷ ys else y ∷ insert_by x ys

  abbrev pub sort_by : List A → List A
  sort_by [] = []
  sort_by (x ∷ xs) = insert_by x (sort_by xs)

  -- Each element is `≤` every later one.
  abbrev pub IsSorted : List A → Type 0
  IsSorted [] = Unit
  IsSorted (x ∷ xs) = All (λ y. le x y ≡ true) xs × IsSorted xs

module _ {ℓ} {A : Type ℓ} (le : A → A → Bool) where
  pub All-insert_by {κ} :
      (P : A → Type κ) (x : A) (xs : List A) → P x → All P xs → All P (insert_by le x xs)
  All-insert_by P x [] h k = (h, tt)
  All-insert_by P x (y ∷ ys) h k = elim (Bool-cases (le x y)) [
    | inl e ↦ rw e (h, k)
    | inr e ↦ rw e (k.0, All-insert_by P x ys h k.1)
  ]

  pub All-sort_by {κ} : (P : A → Type κ) (xs : List A) → All P xs → All P (sort_by le xs)
  All-sort_by P [] h = tt
  All-sort_by P (x ∷ xs) h = All-insert_by P x (sort_by le xs) h.0 (All-sort_by P xs h.1)

module _ {ℓ} {A : Type ℓ} (le : A → A → Bool) (total : (x y : A) → le x y ≡ false → le y x ≡ true)
    (trans : (x y z : A) → le x y ≡ true → le y z ≡ true → le x z ≡ true) where
  insert_by-IsSorted : (x : A) (xs : List A) → IsSorted le xs → IsSorted le (insert_by le x xs)
  insert_by-IsSorted x [] h = (tt, tt)
  insert_by-IsSorted x (y ∷ ys) h = elim (Bool-cases (le x y)) [
    | inl e ↦
        rw e ((e, All-imp (λ z. le y z ≡ true) (λ z. le x z ≡ true) (λ z. trans x y z e) ys h.0), h)
    | inr e ↦
        rw e (
          All-insert_by le (λ z. le y z ≡ true) x ys (total x y e) h.0,
          insert_by-IsSorted x ys h.1,
        )
  ]

  pub sort_by-IsSorted : (xs : List A) → IsSorted le (sort_by le xs)
  sort_by-IsSorted [] = tt
  sort_by-IsSorted (x ∷ xs) = insert_by-IsSorted x (sort_by le xs) (sort_by-IsSorted xs)

module _ {ℓ} {A : Type ℓ} (le : A → A → Bool) (f : A → A)
    (keeps : (x y : A) → le (f x) (f y) ≡ le x y) where
  insert_by-map : (x : A) (xs : List A) → insert_by le (f x) (map f xs) ≡ map f (insert_by le x xs)
  insert_by-map x [] = refl
  insert_by-map x (y ∷ ys) = elim (Bool-cases (le x y)) [
    | inl e ↦ rw (keeps, e)
    | inr e ↦ rw (keeps, e, insert_by-map x ys)
  ]

  -- A map that keeps the order commutes with the sort.
  pub sort_by-map : (xs : List A) → sort_by le (map f xs) ≡ map f (sort_by le xs)
  sort_by-map [] = refl
  sort_by-map (x ∷ xs) = rw (sort_by-map xs, insert_by-map x (sort_by le xs))

module _ {ℓ} {A : Type ℓ} (le : A → A → Bool) where
  insert_by_first : (x : A) (xs : List A) → All (λ y. le x y ≡ true) xs → insert_by le x xs ≡ x ∷ xs
  insert_by_first x [] h = refl
  insert_by_first x (y ∷ ys) h = rw h.0

  insert_by-filter :
      ((x y z : A) → le x y ≡ true → le y z ≡ true → le x z ≡ true)
      → (p : A → Bool) (x : A) (xs : List A) → IsSorted le xs
      → filter p (insert_by le x xs) ≡ (if p x then insert_by le x (filter p xs) else filter p xs)
  insert_by-filter trans p x [] h = refl
  insert_by-filter trans p x (y ∷ ys) h = elim (Bool-cases (le x y)) [
    | inl e ↦ elim (Bool-cases (p x)) [
      | inl d ↦
          rw (e, d)
            (sym (
              insert_by_first x (filter p (y ∷ ys)) (
                All-filter (λ z. le x z ≡ true) p (y ∷ ys)
                  (
                    e,
                    All-imp (λ z. le y z ≡ true) (λ z. le x z ≡ true) (λ z. trans x y z e) ys h.0,
                  ))))
      | inr d ↦ rw (e, d)
    ]
    | inr e ↦ elim (Bool-cases (p x)) [
      | inl d ↦ elim (Bool-cases (p y)) [
        | inl b ↦ rw (e, d, b, e) (ap (◌∷◌ y) (insert_by-filter trans p x ys h.1 ∙ rw d))
        | inr b ↦ rw (e, d, b) (insert_by-filter trans p x ys h.1 ∙ rw d)
      ]
      | inr d ↦ elim (Bool-cases (p y)) [
        | inl b ↦ rw (e, d, b) (ap (◌∷◌ y) (insert_by-filter trans p x ys h.1 ∙ rw d))
        | inr b ↦ rw (e, d, b) (insert_by-filter trans p x ys h.1 ∙ rw d)
      ]
    ]
  ]

  module _ (total : (x y : A) → le x y ≡ false → le y x ≡ true)
      (trans : (x y z : A) → le x y ≡ true → le y z ≡ true → le x z ≡ true) where
    -- Selecting before or after the sort gives the same list.
    pub filter-sort_by :
        (p : A → Bool) (xs : List A) → filter p (sort_by le xs) ≡ sort_by le (filter p xs)
    filter-sort_by p [] = refl
    filter-sort_by p (x ∷ xs) =
        let here =
          insert_by-filter trans p x (sort_by le xs) (sort_by-IsSorted le total trans xs) in
        elim (Bool-cases (p x)) [
          | inl d ↦ rw (here, d) (ap (insert_by le x) (filter-sort_by p xs))
          | inr d ↦ rw (here, d) (filter-sort_by p xs)
        ]

  insert_by-ne_nil : (x : A) (xs : List A) → insert_by le x xs ≢ []
  insert_by-ne_nil x [] h = cc
  insert_by-ne_nil x (y ∷ ys) h = ground arith

  pub sort_by-eq-nil : (xs : List A) → sort_by le xs ≡ [] → xs ≡ []
  sort_by-eq-nil [] h = refl
  sort_by-eq-nil (x ∷ xs) h = absurd (insert_by-ne_nil x (sort_by le xs) h)

  insert_by-eq-one : (x a : A) (xs : List A) → insert_by le x xs ≡ a ∷ [] → (x ≡ a) × (xs ≡ [])
  insert_by-eq-one x a [] h = ground arith
  insert_by-eq-one x a (y ∷ ys) h = elim (Bool-cases (le x y)) [
    | inl e ↦ absurd (ground arith)
    | inr e ↦ absurd (insert_by-ne_nil x ys (ground arith))
  ]

  pub sort_by-eq-one : (a : A) (xs : List A) → sort_by le xs ≡ a ∷ [] → xs ≡ a ∷ []
  sort_by-eq-one a [] h = cc
  sort_by-eq-one a (x ∷ xs) h =
      let (first, rest) = insert_by-eq-one x a (sort_by le xs) h in
      ap₂ ◌∷◌ first (sort_by-eq-nil xs rest)

module _ {ℓ} {A : Type ℓ} (le : A → A → Bool) (x : A) where
  insert_by-append_last :
      (y : A) (zs : List A)
      → le y x ≡ true
      → insert_by le y (zs ++ x ∷ []) ≡ insert_by le y zs ++ x ∷ []
  insert_by-append_last y [] h = rw h
  insert_by-append_last y (z ∷ zs) h = elim (Bool-cases (le y z)) [
    | inl e ↦ rw e
    | inr e ↦ rw (e, insert_by-append_last y zs h)
  ]

  -- An appended row that is not before any other one stays last.
  pub sort_by-append_last :
      (xs : List A)
      → All (λ y. le y x ≡ true) xs
      → sort_by le (xs ++ x ∷ []) ≡ sort_by le xs ++ x ∷ []
  sort_by-append_last [] h = refl
  sort_by-append_last (y ∷ xs) h =
      rw (sort_by-append_last xs h.1, insert_by-append_last y (sort_by le xs) h.0)

module _ {ℓ} {A : Type ℓ} (le le' : A → A → Bool) (P : A → Type 0)
    (same : (x y : A) → P x → P y → le x y ≡ le' x y) where
  insert_by-eq : (x : A) (xs : List A) → P x → All P xs → insert_by le x xs ≡ insert_by le' x xs
  insert_by-eq x [] h k = refl
  insert_by-eq x (y ∷ ys) h k = rw (same x y h k.0, insert_by-eq x ys h k.1)

  -- Two orders that agree on the elements sort them alike.
  pub sort_by-eq : (xs : List A) → All P xs → sort_by le xs ≡ sort_by le' xs
  sort_by-eq [] h = refl
  sort_by-eq (x ∷ xs) h =
      ap (insert_by le x) (sort_by-eq xs h.1)
      ∙ insert_by-eq x (sort_by le' xs) h.0 (All-sort_by le' P xs h.1)
