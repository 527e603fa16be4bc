-- ===== src/Prelude/Lookup.antt =====
-- Searching a table by its primary key.
use mathlib.Core.Path.{◌≡◌, refl, ◌∙◌}
use Prim.Native.String.{String}
use mathlib.Core.Logic.{inl, inr}
use mathlib.Core.Bool.{Bool, false, not}
use mathlib.Core.Option.{Option, none, some}
use mathlib.Core.List.{List, [], ◌∷◌, ◌++◌}
use native.Mathlib.Omega.{arith}
use text.Mathlib.Text.{◌==◌}
use text.Mathlib.TextEquality.{eq_iff}
use text.Mathlib.TextPositions.{eq_refl}
use mark_sdk.Prelude.Tests.{if◌then◌else◌, Bool-cases, eq_false_sym}
use mark_sdk.Prelude.Lists.{All, All-imp, All-imp₂, filter, find?}
use mark_sdk.Prelude.Sorting.{insert_by, sort_by, All-sort_by}
use mark_sdk.Prelude.Keys.{IsFresh, HasUniqueKeys}

-- What a search result keeps of a further test.
abbrev pub keep_if {ℓ} : {A : Type ℓ} → (A → Bool) → Option A → Option A
keep_if q none = none
keep_if q (some x) = if q x then some x else none

module _ {ℓ} {A : Type ℓ} (key : A → String) where
  -- INSERT OR REPLACE: the new row is what its key gives, the others are as before.
  pub find?-replace :
      (j : String) (b : A) (xs : List A)
      → find? (λ x. key x == j) (filter (λ x. not (key x == key b)) xs ++ b ∷ [])
        ≡ (if key b == j then some b else find? (λ x. key x == j) xs)
  find?-replace j b [] = refl
  find?-replace j b (x ∷ xs) =
      ground
        (arith, eq_iff (key x) (key b), eq_iff (key x) j, eq_iff (key b) j, find?-replace j b xs)

  pub find?-of_fresh :
      (j : String) (xs : List A) → IsFresh key j xs → find? (λ x. key x == j) xs ≡ none
  find?-of_fresh j [] h = refl
  find?-of_fresh j (x ∷ xs) h = rw h.0 (find?-of_fresh j xs h.1)

  pub find?-self :
      (xs : List A) → HasUniqueKeys key xs → All (λ x. find? (λ y. key y == key x) xs ≡ some x) xs
  find?-self [] h = tt
  find?-self (x ∷ xs) h = (
    rw eq_refl,
    All-imp₂ (λ y. (key y == key x) ≡ false) (λ y. find? (λ z. key z == key y) xs ≡ some y)
        (λ y. find? (λ z. key z == key y) (x ∷ xs) ≡ some y)
        (λ y n g. rw (eq_false_sym (key y) (key x) n) g) xs h.0 (find?-self xs h.1),
  )

  pub find?-filter :
      (q : A → Bool) (j : String) (xs : List A)
      → HasUniqueKeys key xs
      → find? (λ x. key x == j) (filter q xs) ≡ keep_if q (find? (λ x. key x == j) xs)
  find?-filter q j [] h = refl
  find?-filter q j (x ∷ xs) h = elim (Bool-cases (key x == j)) [
    | inl e ↦ elim (Bool-cases (q x)) [
      | inl d ↦ rw (e, d, e)
      | inr d ↦
          rw (e, d)
            (find?-filter q j xs h.1
              ∙ rw (
                  find?-of_fresh j xs (
                    All-imp (λ y. (key y == key x) ≡ false) (λ y. (key y == j) ≡ false)
                      (λ y n.
                        ground (arith, eq_iff (key y) (key x), eq_iff (key y) j, eq_iff (key x) j))
                      xs h.0)))
    ]
    | inr e ↦ elim (Bool-cases (q x)) [
      | inl d ↦ rw (e, d, e) (find?-filter q j xs h.1)
      | inr d ↦ rw (e, d) (find?-filter q j xs h.1)
    ]
  ]

  module _ (le : A → A → Bool) where
    find?-insert_by :
        (j : String) (x : A) (xs : List A)
        → IsFresh key (key x) xs
        → find? (λ y. key y == j) (insert_by le x xs)
          ≡ (if key x == j then some x else find? (λ y. key y == j) xs)
    find?-insert_by j x [] h = refl
    find?-insert_by j x (y ∷ ys) h = ground (
      arith,
      eq_iff (key x) (key y),
      eq_iff (key y) (key x),
      eq_iff (key x) j,
      eq_iff (key y) j,
      find?-insert_by j x ys h.1,
    )

    -- With each key once, the order of the rows does not matter.
    pub find?-sort_by :
        (j : String) (xs : List A)
        → HasUniqueKeys key xs
        → find? (λ y. key y == j) (sort_by le xs) ≡ find? (λ y. key y == j) xs
    find?-sort_by j [] h = refl
    find?-sort_by j (x ∷ xs) h =
        find?-insert_by j x (sort_by le xs) (All-sort_by le (λ y. (key y == key x) ≡ false) xs h.0)
        ∙ rw (find?-sort_by j xs h.1)

module _ {ℓ} {A : Type ℓ} (le : A → A → Bool) where
  All-of_insert_by {κ} :
      (P : A → Type κ) (x : A) (xs : List A) → All P (insert_by le x xs) → P x × All P xs
  All-of_insert_by P x [] h = h
  All-of_insert_by P x (y ∷ ys) h = elim (Bool-cases (le x y)) [
    | inl e ↦ rw e at h
    | inr e ↦
        let h' = rw e at h in
        let (first, rest) = All-of_insert_by P x ys h'.1 in (first, (h'.0, rest))
  ]

  -- What holds of all sorted elements holds of all elements.
  pub All-of_sort_by {κ} : (P : A → Type κ) (xs : List A) → All P (sort_by le xs) → All P xs
  All-of_sort_by P [] h = tt
  All-of_sort_by P (x ∷ xs) h =
      let (first, rest) = All-of_insert_by P x (sort_by le xs) h in
      (first, All-of_sort_by P xs rest)
