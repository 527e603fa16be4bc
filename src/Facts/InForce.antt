-- ===== src/Facts/InForce.antt =====
-- Which single-valued row `fact_as_of` (src/mark/store/_sqlite/facts.py) reads, whatever ends the
-- rows carry: the last in the order of the timeline among those that have started.
use mathlib.Core.Option
use mark_sdk.Prelude.{
  ℕ, String, ◌≡◌, refl, sym, ap, ◌∙◌, Bool, true, false, Option, none, some, List, [], ◌∷◌, ◌++◌,
  map, arith, ◌&&◌, leb, inl, inr, Bool-cases, Option-cases, filter, filter-append, filter-filter,
  filter-map, All, All-of, any, sort_by, sort_by-map, IsSorted, sort_by-IsSorted, filter-sort_by,
  sort_by-append_last, get_last?, get_last?-map, get_last?-append, any-sort_by, any-filter,
  any-filter_self, All-filter_imp, append-nil,
}
use mark_sdk.Facts.Table.{Row, Table, Timeline, single, before, chain_rows}
use mark_sdk.Facts.AsOf.{latest_started, before_total, before_trans}

module _ {ℓ} {A : Type ℓ} where
  get_last?-cons_some :
      (x y : A) (xs : List A) → get_last? xs ≡ some y → get_last? (x ∷ xs) ≡ some y
  get_last?-cons_some x y [] h = absurd (ground arith)
  get_last?-cons_some x y (z ∷ zs) h = h

  get_last?-eq-none : (xs : List A) → get_last? xs ≡ none → xs ≡ []
  get_last?-eq-none [] h = refl
  get_last?-eq-none (x ∷ []) h = absurd (ground arith)
  get_last?-eq-none (x ∷ y ∷ ys) h = absurd (ground (arith, get_last?-eq-none (y ∷ ys) h))

  get_last?-cons_any :
      (x : A) (xs : List A) → any (λ _. true) xs ≡ true → get_last? (x ∷ xs) ≡ get_last? xs
  get_last?-cons_any x [] h = absurd (ground arith)
  get_last?-cons_any x (y ∷ ys) h = refl

  module _ (le : A → A → Bool) (p : A → Bool)
      (up : (x y : A) → le x y ≡ true → p x ≡ true → p y ≡ true) where
    -- A test that stays true behind an element does not lose the last one.
    get_last?-filter :
        (xs : List A) → IsSorted le xs → any p xs ≡ true → get_last? xs ≡ get_last? (filter p xs)
    get_last?-filter [] h k = absurd (ground arith)
    get_last?-filter (x ∷ []) h k = elim (Bool-cases (p x)) [
      | inl e ↦ rw e
      | inr e ↦ absurd (ground arith)
    ]
    get_last?-filter (x ∷ y ∷ ys) h k = elim (Bool-cases (any p (y ∷ ys))) [
      | inl d ↦ elim (Bool-cases (p x)) [
        | inl e ↦ rw e (
            get_last?-filter (y ∷ ys) h.1 d
            ∙ sym (get_last?-cons_any x (filter p (y ∷ ys)) (sym (any-filter_self p (y ∷ ys)) ∙ d)))
        | inr e ↦ rw e (get_last?-filter (y ∷ ys) h.1 d)
      ]
      | inr d ↦ absurd (ground (arith, up x y h.0.0))
    ]

latest_started-get_last? :
    (stamp : ℕ) (rs : List Row)
    → latest_started stamp rs ≡ get_last? (filter (λ r. leb r.valid_from stamp) rs)
unfolding latest_started
latest_started-get_last? stamp [] = refl
latest_started-get_last? stamp (r ∷ rs) =
    let F : List Row = filter (λ s. leb s.valid_from stamp) rs in
    let rest = latest_started-get_last? stamp rs in
    elim (Option-cases (latest_started stamp rs)) [
      | inl e ↦
          let empty : F ≡ [] = get_last?-eq-none F (sym rest ∙ e) in
          elim (Bool-cases (leb r.valid_from stamp)) [
            | inl d ↦ rw (e, d, empty)
            | inr d ↦ rw (e, d, empty)
          ]
      | inr (x, e) ↦ elim (Bool-cases (leb r.valid_from stamp)) [
        | inl d ↦ rw (e, d) (sym (get_last?-cons_some r x F (sym rest ∙ e)))
        | inr d ↦ rw (e, d) (sym (sym rest ∙ e))
      ]
    ]

-- The last of the selected rows, in the order of a timeline.
abbrev pub last_row : (Row → Bool) → Table → Option Row
last_row q t = get_last? (sort_by before (filter q t))

abbrev pub has_started : Timeline → ℕ → Row → Bool
has_started k stamp r = single k r && leb r.valid_from stamp

pub latest_started-last_row :
    (k : Timeline) (stamp : ℕ) (t : Table)
    → latest_started stamp (chain_rows k t) ≡ last_row (has_started k stamp) t
latest_started-last_row k stamp t =
    latest_started-get_last? stamp (chain_rows k t)
    ∙ ap get_last? (
        filter-sort_by before before_total before_trans (λ r. leb r.valid_from stamp)
          (filter (single k) t)
        ∙ ap (sort_by before) (filter-filter (λ r. leb r.valid_from stamp) (single k) t))

-- With a row that starts later selected, only such rows count.
pub last_row-later :
    (q p : Row → Bool) (t : Table)
    → ((r s : Row) → before r s ≡ true → p r ≡ true → p s ≡ true)
    → any (λ r. q r && p r) t ≡ true
    → last_row q t ≡ last_row (λ r. q r && p r) t
last_row-later q p t up h =
    get_last?-filter before p up (sort_by before (filter q t))
      (sort_by-IsSorted before before_total before_trans (filter q t))
      (any-sort_by before p (filter q t) ∙ any-filter q p t ∙ h)
    ∙ ap get_last? (
        filter-sort_by before before_total before_trans p (filter q t)
        ∙ ap (sort_by before) (filter-filter p q t))

-- A selected row that no selected one comes after is the last.
pub last_row-append :
    (q : Row → Bool) (r : Row) (t : Table)
    → q r ≡ true
    → All (λ s. q s ≡ true → before s r ≡ true) t
    → last_row q (t ++ r ∷ []) ≡ some r
last_row-append q r t here h =
    let one : filter q (r ∷ []) ≡ r ∷ [] = rw here in
    ap (λ rows. get_last? (sort_by before rows))
      (filter-append q t (r ∷ []) ∙ ap (◌++◌ (filter q t)) one)
    ∙ ap get_last?
        (sort_by-append_last before r (filter q t) (All-filter_imp (λ s. before s r ≡ true) q t h))
    ∙ get_last?-append (sort_by before (filter q t)) r

-- A row that is not selected does not count.
pub filter-append_off :
    (q : Row → Bool) (r : Row) (t : Table) → q r ≡ false → filter q (t ++ r ∷ []) ≡ filter q t
filter-append_off q r t off =
    let nothing : filter q (r ∷ []) ≡ [] = rw off in
    filter-append q t (r ∷ []) ∙ ap (◌++◌ (filter q t)) nothing ∙ append-nil (filter q t)

-- The value of the last selected row.
abbrev pub last_value_of : (Row → Bool) → Table → Option String
last_value_of q t = Option.map (λ r. r.value) (last_row q t)

-- Rows changed in what neither the test, the order nor the value reads give the same value.
pub last_value_of-map :
    (q : Row → Bool) (f : Row → Row)
    → ((r : Row) → q (f r) ≡ q r)
    → ((r s : Row) → before (f r) (f s) ≡ before r s)
    → ((r : Row) → (f r).value ≡ r.value)
    → (t : Table) → last_value_of q (map f t) ≡ last_value_of q t
last_value_of-map q f same_test same_order same_value t =
    ap (λ rows. Option.map (λ r. r.value) (get_last? (sort_by before rows)))
      (filter-map q q f t (All-of (λ r. q (f r) ≡ q r) same_test t))
    ∙ ap (λ rows. Option.map (λ r. r.value) (get_last? rows))
        (sort_by-map before f same_order (filter q t))
    ∙ sym (get_last?-map (λ r. r.value) (map f (sort_by before (filter q t))))
    ∙ ap get_last? (map-map_same (sort_by before (filter q t)))
    ∙ get_last?-map (λ r. r.value) (sort_by before (filter q t))
  where
    map-map_same : (rows : List Row) → map (λ r. r.value) (map f rows) ≡ map (λ r. r.value) rows
    map-map_same [] = refl
    map-map_same (r ∷ rows) = rw (same_value r, map-map_same rows)
