-- ===== src/Prelude/Partition.antt =====
-- Searches, and sorted lists in two parts.
use mathlib.Core.Path.{◌≡◌, refl, ap, ap₂, ◌∙◌}
use mathlib.Core.Logic.{inl, inr}
use mathlib.Core.Bool.{Bool, true, false, not, ◌&&◌, ◌||◌}
use mathlib.Core.List.{List, [], ◌∷◌, ◌++◌, map}
use native.Mathlib.Omega.{arith}
use mark_sdk.Prelude.Tests.{Bool-cases}
use mark_sdk.Prelude.Lists.{All, any, filter}
use mark_sdk.Prelude.Sorting.{insert_by, sort_by, IsSorted}

-- A sorted list in which no selected element is after another one: the selected ones are first.
module _ {ℓ} {A : Type ℓ} (le : A → A → Bool) (p : A → Bool)
    (first : (x y : A) → p x ≡ true → p y ≡ false → le y x ≡ false) where
  filter_after :
      (y : A) (ys : List A)
      → p y ≡ false
      → All (λ z. le y z ≡ true) ys
      → (filter p ys ≡ []) × (filter (λ x. not (p x)) ys ≡ ys)
  filter_after y [] n h = (refl, refl)
  filter_after y (z ∷ zs) n h =
      let (none_left, all_left) = filter_after y zs n h.1 in
      elim (Bool-cases (p z)) [
        | inl e ↦ absurd (cc (first z y e n, h.0))
        | inr e ↦ (rw e none_left, rw e (ap (◌∷◌ z) all_left))
      ]

  pub IsSorted-partition :
      (ys : List A) → IsSorted le ys → ys ≡ filter p ys ++ filter (λ x. not (p x)) ys
  IsSorted-partition [] h = refl
  IsSorted-partition (y ∷ ys) h = elim (Bool-cases (p y)) [
    | inl e ↦ rw e (ap (◌∷◌ y) (IsSorted-partition ys h.1))
    | inr e ↦
        let (none_left, all_left) = filter_after y ys e h.0 in rw (e, none_left, all_left) refl
  ]

module _ {ℓ} {A : Type ℓ} where
  pub any-insert_by :
      (le : A → A → Bool) (q : A → Bool) (x : A) (xs : List A)
      → any q (insert_by le x xs) ≡ (q x || any q xs)
  any-insert_by le q x [] = refl
  any-insert_by le q x (y ∷ ys) = elim (Bool-cases (le x y)) [
    | inl e ↦ rw e refl
    | inr e ↦ ground (arith, any-insert_by le q x ys)
  ]

  pub any-sort_by :
      (le : A → A → Bool) (q : A → Bool) (xs : List A) → any q (sort_by le xs) ≡ any q xs
  any-sort_by le q [] = refl
  any-sort_by le q (x ∷ xs) =
      any-insert_by le q x (sort_by le xs) ∙ ap (λ b. q x || b) (any-sort_by le q xs)

  pub any-filter : (p q : A → Bool) (xs : List A) → any q (filter p xs) ≡ any (λ x. p x && q x) xs
  any-filter p q [] = refl
  any-filter p q (x ∷ xs) = elim (Bool-cases (p x)) [
    | inl e ↦ rw (e, any-filter p q xs) refl
    | inr e ↦ rw (e, any-filter p q xs) refl
  ]

  pub any-filter_self : (p : A → Bool) (xs : List A) → any p xs ≡ any (λ _. true) (filter p xs)
  any-filter_self p [] = refl
  any-filter_self p (x ∷ xs) = elim (Bool-cases (p x)) [
    | inl e ↦ rw e refl
    | inr e ↦ rw e (any-filter_self p xs)
  ]

  pub map-eq_of_All {κ} :
      {B : Type κ} (f g : A → B) (xs : List A) → All (λ x. f x ≡ g x) xs → map f xs ≡ map g xs
  map-eq_of_All f g [] h = refl
  map-eq_of_All f g (x ∷ xs) h = ap₂ ◌∷◌ h.0 (map-eq_of_All f g xs h.1)
