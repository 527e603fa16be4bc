-- ===== src/Prelude/Lists.antt =====
-- Lists measured and indexed by native numbers and filtered by Boolean tests, under the library's
-- names, with predicates on all elements.
use Prim.Native.Nat.{ℕ, zero, suc, ◌+◌, ◌≤◌}
use mathlib.Core.Path.{◌≡◌, refl, ap₂, subst}
use mathlib.Core.Bool.{Bool, true, false, ◌&&◌, ◌||◌}
use mathlib.Core.Option
use mathlib.Core.Option.{Option, none, some}
use mathlib.Core.List.{List, [], ◌∷◌, ◌++◌, map}
use native.Mathlib.Omega.{arith}
use mathlib.Core.Logic.{inl, inr}
use mark_sdk.Prelude.Tests.{if◌then◌else◌, Bool-cases, some_eq}

module _ {ℓ} {A : Type ℓ} where
  abbrev pub length : List A → ℕ
  length [] = 0
  length (x ∷ xs) = suc (length xs)

  abbrev pub filter : (A → Bool) → List A → List A
  filter p [] = []
  filter p (x ∷ xs) = if p x then x ∷ filter p xs else filter p xs

  abbrev pub any : (A → Bool) → List A → Bool
  any p [] = false
  any p (x ∷ xs) = p x || any p xs

  abbrev pub all : (A → Bool) → List A → Bool
  all p [] = true
  all p (x ∷ xs) = p x && all p xs

  -- The first element that passes the test.
  abbrev pub find? : (A → Bool) → List A → Option A
  find? p [] = none
  find? p (x ∷ xs) = if p x then some x else find? p xs

  -- `xs[-1]` of a list that may be empty.
  abbrev pub get_last? : List A → Option A
  get_last? [] = none
  get_last? (x ∷ []) = some x
  get_last? (x ∷ y ∷ ys) = get_last? (y ∷ ys)

  abbrev pub take : ℕ → List A → List A
  take zero xs = []
  take (suc n) [] = []
  take (suc n) (x ∷ xs) = x ∷ take n xs

  abbrev pub drop : ℕ → List A → List A
  drop zero xs = xs
  drop (suc n) [] = []
  drop (suc n) (x ∷ xs) = drop n xs

  abbrev pub get_elem? : List A → ℕ → Option A
  get_elem? [] i = none
  get_elem? (x ∷ xs) zero = some x
  get_elem? (x ∷ xs) (suc i) = get_elem? xs i

  pub drop-append : (xs ys : List A) → drop (length xs) (xs ++ ys) ≡ ys
  drop-append [] ys = refl
  drop-append (x ∷ xs) ys = drop-append xs ys

  abbrev pub All {κ} : (A → Type κ) → List A → Type κ
  All P [] = Unit
  All P (x ∷ xs) = P x × All P xs

  pub length-append : (xs ys : List A) → length (xs ++ ys) ≡ length xs + length ys
  length-append [] ys = omega arith
  length-append (x ∷ xs) ys = omega (arith, length-append xs ys)

  pub length-take-le : (n : ℕ) (xs : List A) → length (take n xs) ≤ n
  length-take-le zero xs = omega arith
  length-take-le (suc n) [] = omega arith
  length-take-le (suc n) (x ∷ xs) = omega (arith, length-take-le n xs)

  pub length-filter-le : (p : A → Bool) (xs : List A) → length (filter p xs) ≤ length xs
  length-filter-le p [] = omega arith
  length-filter-le p (x ∷ xs) = ground (arith, length-filter-le p xs)

  pub filter-append :
      (p : A → Bool) (xs ys : List A) → filter p (xs ++ ys) ≡ filter p xs ++ filter p ys
  filter-append p [] ys = refl
  filter-append p (x ∷ xs) ys = ground (arith, filter-append p xs ys)

module _ {ℓ} {A : Type ℓ} where
  pub All-append {κ} : (P : A → Type κ) (xs ys : List A) → All P xs → All P ys → All P (xs ++ ys)
  All-append P [] ys h k = k
  All-append P (x ∷ xs) ys h k = (h.0, All-append P xs ys h.1 k)

  pub All-imp {κ μ} :
      (P : A → Type κ) (Q : A → Type μ)
      → ((x : A) → P x → Q x)
      → (xs : List A) → All P xs
      → All Q xs
  All-imp P Q f [] h = tt
  All-imp P Q f (x ∷ xs) h = (f x h.0, All-imp P Q f xs h.1)

  pub All-filter_cons {κ} :
      (P : A → Type κ) (p : A → Bool) (x : A) (xs : List A)
      → (p x ≡ true → P x)
      → All P (filter p xs)
      → All P (filter p (x ∷ xs))
  All-filter_cons P p x xs f h = elim (Bool-cases (p x)) [ inl e ↦ rw e (f e, h) | inr e ↦ rw e h ]

  pub All-filter {κ} :
      (P : A → Type κ) (p : A → Bool) (xs : List A) → All P xs → All P (filter p xs)
  All-filter P p [] h = tt
  All-filter P p (x ∷ xs) h = All-filter_cons P p x xs (λ _. h.0) (All-filter P p xs h.1)

  pub All-map {κ μ} :
      {B : Type μ} (f : A → B) (P : B → Type κ) (xs : List A)
      → All (λ x. P (f x)) xs
      → All P (map f xs)
  All-map f P [] h = tt
  All-map f P (x ∷ xs) h = (h.0, All-map f P xs h.1)

module _ {ℓ κ} {A : Type ℓ} {B : Type κ} where
  -- A map that keeps the test commutes with the filter.
  pub filter-map :
      (p : B → Bool) (q : A → Bool) (f : A → B) (xs : List A)
      → All (λ x. p (f x) ≡ q x) xs
      → filter p (map f xs) ≡ map f (filter q xs)
  filter-map p q f [] h = refl
  filter-map p q f (x ∷ xs) h = elim (Bool-cases (q x)) [
    | inl e ↦ rw (h.0, e, filter-map p q f xs h.1)
    | inr e ↦ rw (h.0, e, filter-map p q f xs h.1)
  ]

module _ {ℓ} {A : Type ℓ} where
  pub All-of {κ} : (P : A → Type κ) → ((x : A) → P x) → (xs : List A) → All P xs
  All-of P f [] = tt
  All-of P f (x ∷ xs) = (f x, All-of P f xs)

  -- A test that decides `all` holds of each element.
  pub all-All : (p : A → Bool) (xs : List A) → all p xs ≡ true → All (λ x. p x ≡ true) xs
  all-All p [] h = tt
  all-All p (x ∷ xs) h = (ground arith, all-All p xs (ground arith))

  pub All-all : (p : A → Bool) (xs : List A) → All (λ x. p x ≡ true) xs → all p xs ≡ true
  All-all p [] h = refl
  All-all p (x ∷ xs) h = ground (arith, All-all p xs h.1)

  -- The elements of a filtered list pass the test.
  pub All-filter_self : (p : A → Bool) (xs : List A) → All (λ x. p x ≡ true) (filter p xs)
  All-filter_self p [] = tt
  All-filter_self p (x ∷ xs) =
      All-filter_cons (λ y. p y ≡ true) p x xs (λ e. e) (All-filter_self p xs)

  pub map-id_of_All : (f : A → A) (xs : List A) → All (λ x. f x ≡ x) xs → map f xs ≡ xs
  map-id_of_All f [] h = refl
  map-id_of_All f (x ∷ xs) h = ap₂ ◌∷◌ h.0 (map-id_of_All f xs h.1)

  pub All-imp₂ {κ μ ν} :
      (P : A → Type κ) (Q : A → Type μ) (R : A → Type ν)
      → ((x : A) → P x → Q x → R x)
      → (xs : List A) → All P xs
      → All Q xs
      → All R xs
  All-imp₂ P Q R f [] h k = tt
  All-imp₂ P Q R f (x ∷ xs) h k = (f x h.0 k.0, All-imp₂ P Q R f xs h.1 k.1)

  pub any-append : (p : A → Bool) (xs ys : List A) → any p ys ≡ true → any p (xs ++ ys) ≡ true
  any-append p [] ys h = h
  any-append p (x ∷ xs) ys h = ground (arith, any-append p xs ys h)

  pub any-append_left : (p : A → Bool) (xs ys : List A) → any p xs ≡ true → any p (xs ++ ys) ≡ true
  any-append_left p [] ys h = absurd (ground arith)
  any-append_left p (x ∷ xs) ys h = elim (Bool-cases (p x)) [
    | inl y ↦ rw y refl
    | inr n ↦ rw n (any-append_left p xs ys (rw n at h))
  ]

  -- Where some element passes the test, the search finds one.
  pub find?-of_any :
      (p : A → Bool) (xs : List A) → any p xs ≡ true → (x : A) × (find? p xs ≡ some x)
  find?-of_any p [] h = absurd (ground arith)
  find?-of_any p (x ∷ xs) h = elim (Bool-cases (p x)) [
    | inl e ↦ (x, rw e)
    | inr e ↦ let (y, found) = find?-of_any p xs (rw e at h) in (y, rw e found)
  ]

  pub find?-eq-true : (p : A → Bool) (xs : List A) (x : A) → find? p xs ≡ some x → p x ≡ true
  find?-eq-true p [] x h = absurd (ground arith)
  find?-eq-true p (y ∷ xs) x h = elim (Bool-cases (p y)) [
    | inl e ↦ ground arith
    | inr e ↦ find?-eq-true p xs x (rw e at h)
  ]

  pub All-find? {κ} :
      (P : A → Type κ) (p : A → Bool) (xs : List A) (x : A) → All P xs → find? p xs ≡ some x → P x
  All-find? P p [] x h e = absurd (ground arith)
  All-find? P p (y ∷ xs) x h e = elim (Bool-cases (p y)) [
    | inl d ↦ subst P (some_eq y x (rw d at e)) h.0
    | inr d ↦ All-find? P p xs x h.1 (rw d at e)
  ]

  pub All-get_last? {κ} :
      (P : A → Type κ) (xs : List A) (x : A) → All P xs → get_last? xs ≡ some x → P x
  All-get_last? P [] x h e = absurd (ground arith)
  All-get_last? P (y ∷ []) x h e = subst P (some_eq y x e) h.0
  All-get_last? P (y ∷ z ∷ xs) x h e = All-get_last? P (z ∷ xs) x h.1 e

  -- Each selected element makes the search for its like succeed.
  pub All-any_self :
      (q : A → A → Bool) (xs : List A)
      → ((x : A) → q x x ≡ true)
      → All (λ x. any (q x) xs ≡ true) xs
  All-any_self q [] r = tt
  All-any_self q (x ∷ xs) r = (
    ground (arith, r x),
    All-imp (λ y. any (q y) xs ≡ true) (λ y. any (q y) (x ∷ xs) ≡ true) (λ y e. any_cons q x xs y e)
        xs (All-any_self q xs r),
  )
    where
      any_cons :
          (q : A → A → Bool) (x : A) (xs : List A) (y : A)
          → any (q y) xs ≡ true
          → (q y x || any (q y) xs) ≡ true
      any_cons q x xs y e = ground arith

  pub filter-filter :
      (p q : A → Bool) (xs : List A) → filter p (filter q xs) ≡ filter (λ x. q x && p x) xs
  filter-filter p q [] = refl
  filter-filter p q (x ∷ xs) = elim (Bool-cases (q x)) [
    | inl e ↦ elim (Bool-cases (p x)) [
      | inl d ↦ rw (e, d, filter-filter p q xs)
      | inr d ↦ rw (e, d, filter-filter p q xs)
    ]
    | inr e ↦ rw (e, filter-filter p q xs)
  ]

  pub All-of_filter {κ} :
      (P : A → Type κ) (q : A → Bool) (xs : List A)
      → All P (filter q xs)
      → All (λ x. q x ≡ true → P x) xs
  All-of_filter P q [] h = tt
  All-of_filter P q (x ∷ xs) h = elim (Bool-cases (q x)) [
    | inl e ↦ let h' = rw e at h in ((λ _. h'.0), All-of_filter P q xs h'.1)
    | inr e ↦ let h' = rw e at h in ((λ d. absurd (ground arith)), All-of_filter P q xs h')
  ]

  pub All-filter_imp {κ} :
      (P : A → Type κ) (q : A → Bool) (xs : List A)
      → All (λ x. q x ≡ true → P x) xs
      → All P (filter q xs)
  All-filter_imp P q [] h = tt
  All-filter_imp P q (x ∷ xs) h = All-filter_cons P q x xs h.0 (All-filter_imp P q xs h.1)

  pub filter-eq :
      (p q : A → Bool) (xs : List A) → All (λ x. p x ≡ q x) xs → filter p xs ≡ filter q xs
  filter-eq p q [] h = refl
  filter-eq p q (x ∷ xs) h = rw (h.0, filter-eq p q xs h.1)

module _ {ℓ κ} {A : Type ℓ} {B : Type κ} where
  pub any-map_of_imp :
      (p : A → Bool) (q : B → Bool) (f : A → B) (xs : List A)
      → ((x : A) → p x ≡ true → q (f x) ≡ true)
      → any p xs ≡ true
      → any q (map f xs) ≡ true
  any-map_of_imp p q f [] i h = h
  any-map_of_imp p q f (x ∷ xs) i h = elim (Bool-cases (p x)) [
    | inl e ↦ rw (i x e)
    | inr e ↦ ground (arith, any-map_of_imp p q f xs i (rw e at h))
  ]

  pub get_last?-map : (f : A → B) (xs : List A) → get_last? (map f xs) ≡ Option.map f (get_last? xs)
  get_last?-map f [] = refl
  get_last?-map f (x ∷ []) = refl
  get_last?-map f (x ∷ y ∷ ys) = get_last?-map f (y ∷ ys)

module _ {ℓ} {A : Type ℓ} where
  pub get_last?-append : (xs : List A) (x : A) → get_last? (xs ++ x ∷ []) ≡ some x
  get_last?-append [] x = refl
  get_last?-append (y ∷ []) x = refl
  get_last?-append (y ∷ z ∷ zs) x = get_last?-append (z ∷ zs) x
