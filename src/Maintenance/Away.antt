-- ===== src/Maintenance/Away.antt =====
-- Selections of a table when rows that they do not show are deleted or replaced.
use mark_sdk.Prelude.{
  String, ◌≡◌, refl, ap, ◌∙◌, Bool, true, false, List, [], ◌∷◌, ◌++◌, not, ◌==◌, if◌then◌else◌, inl,
  inr, Bool-cases, append-nil, any, filter, filter-append, map, All, All-imp, All-append, All-map,
}

module _ {ℓ} {A : Type ℓ} (key : A → String) (p : A → Bool) where
  -- The rows with the key are not selected.
  abbrev pub IsAway : String → List A → Type 0
  IsAway k = All (λ x. (key x == k) ≡ true → p x ≡ false)

  pub filter-delete :
      (k : String) (xs : List A)
      → IsAway k xs
      → filter p (filter (λ x. not (key x == k)) xs) ≡ filter p xs
  filter-delete k [] a = refl
  filter-delete k (x ∷ xs) a = elim (Bool-cases (key x == k)) [
    | inl y ↦ rw (y, a.0 y) (filter-delete k xs a.1)
    | inr n ↦ rw n (ap (λ ys. if p x then x ∷ ys else ys) (filter-delete k xs a.1))
  ]

  module _ (f : A) (off : p f ≡ false) where
    filter-replace :
        (xs : List A)
        → IsAway (key f) xs
        → filter p (map (λ x. if key x == key f then f else x) xs) ≡ filter p xs
    filter-replace [] a = refl
    filter-replace (x ∷ xs) a = elim (Bool-cases (key x == key f)) [
      | inl y ↦ rw (y, off, a.0 y) (filter-replace xs a.1)
      | inr n ↦ rw n (ap (λ ys. if p x then x ∷ ys else ys) (filter-replace xs a.1))
    ]

    pub filter-upsert :
        (xs : List A)
        → IsAway (key f) xs
        → filter p (
            if any (λ x. key x == key f) xs
            then map (λ x. if key x == key f then f else x) xs
            else xs ++ f ∷ [])
          ≡ filter p xs
    filter-upsert xs a = elim (Bool-cases (any (λ x. key x == key f) xs)) [
      | inl y ↦ rw y (filter-replace xs a)
      | inr n ↦ rw n (filter-append p xs (f ∷ []) ∙ rw off (append-nil (filter p xs)))
    ]

    pub IsAway-upsert :
        (k : String) (xs : List A)
        → IsAway k xs
        → IsAway k (
            if any (λ x. key x == key f) xs
            then map (λ x. if key x == key f then f else x) xs
            else xs ++ f ∷ [])
    IsAway-upsert k xs a = elim (Bool-cases (any (λ x. key x == key f) xs)) [
      | inl y ↦ rw y (
          All-map (λ x. if key x == key f then f else x) (λ x. (key x == k) ≡ true → p x ≡ false) xs
            (All-imp (λ x. (key x == k) ≡ true → p x ≡ false) _
              (λ x h. elim (Bool-cases (key x == key f)) [
                | inl z ↦ rw z (λ _. off)
                | inr n ↦ rw n h
              ])
              xs a))
      | inr n ↦
          rw n (All-append (λ x. (key x == k) ≡ true → p x ≡ false) xs (f ∷ []) a ((λ _. off), tt))
    ]
