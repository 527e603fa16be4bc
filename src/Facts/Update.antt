-- ===== src/Facts/Update.antt =====
-- What UPDATE by id leaves alone: the selections that no updated row is in.
use mark_sdk.Prelude.{
  String, ◌≡◌, refl, ◌∙◌, Bool, true, false, List, [], ◌∷◌, ◌==◌, inl, inr, if◌then◌else◌,
  Bool-cases, filter, All, All-of, All-imp, All-map, filter-map, HasUniqueKeys-map, IsFresh, any,
  map,
}
use mark_sdk.Facts.Table.{Row, Table, update, update_each, HasUniqueIds}

module _ (f : Row → Row) (same_id : (r : Row) → (f r).id ≡ r.id) where
  id-update_row : (i : String) (r : Row) → (if r.id == i then f r else r).id ≡ r.id
  id-update_row i r = elim (Bool-cases (r.id == i)) [ inl e ↦ rw e (same_id r) | inr e ↦ rw e ]

  pub update-HasUniqueIds : (i : String) (t : Table) → HasUniqueIds t → HasUniqueIds (update i f t)
  unfolding update
  update-HasUniqueIds i t h =
      HasUniqueKeys-map (λ r. r.id) (λ r. if r.id == i then f r else r) (id-update_row i) t h

  pub update_each-HasUniqueIds :
      (ids : List String) (t : Table) → HasUniqueIds t → HasUniqueIds (update_each ids f t)
  unfolding update_each
  update_each-HasUniqueIds [] t h = h
  update_each-HasUniqueIds (i ∷ ids) t h =
      update_each-HasUniqueIds ids (update i f t) (update-HasUniqueIds i t h)

-- Every row with the id fails the test.
abbrev pub Misses : (Row → Bool) → Table → String → Type 0
Misses p t i = All (λ r. (r.id == i) ≡ true → p r ≡ false) t

module _ (f : Row → Row) (same_id : (r : Row) → (f r).id ≡ r.id) (p : Row → Bool)
    (stays : (r : Row) → p r ≡ false → p (f r) ≡ false) where
  pub filter-update_of_Misses :
      (i : String) (t : Table) → Misses p t i → filter p (update i f t) ≡ filter p t
  unfolding update
  filter-update_of_Misses i [] h = refl
  filter-update_of_Misses i (r ∷ t) h = elim (Bool-cases (r.id == i)) [
    | inl e ↦ rw (e, h.0 e, stays r (h.0 e)) (filter-update_of_Misses i t h.1)
    | inr e ↦ rw (e, filter-update_of_Misses i t h.1)
  ]

  Misses_row :
      (i j : String) (r : Row)
      → ((r.id == j) ≡ true → p r ≡ false)
      → ((if r.id == i then f r else r).id == j) ≡ true
      → p (if r.id == i then f r else r) ≡ false
  Misses_row i j r h e = elim (Bool-cases (r.id == i)) [
    | inl hit ↦ rw hit (stays r (h (rw (← same_id r) (rw hit at e))))
    | inr miss ↦ rw miss (h (rw miss at e))
  ]

  pub Misses-update :
      (i : String) (t : Table) (j : String) → Misses p t j → Misses p (update i f t) j
  unfolding update
  Misses-update i t j h =
      All-map (λ r. if r.id == i then f r else r) (λ r. (r.id == j) ≡ true → p r ≡ false) t
        (All-imp (λ r. (r.id == j) ≡ true → p r ≡ false)
          (λ r.
            ((if r.id == i then f r else r).id == j) ≡ true
            → p (if r.id == i then f r else r) ≡ false)
          (Misses_row i j) t h)

  -- Updating rows outside a selection leaves the selection as it is.
  pub filter-update_each_of_Misses :
      (ids : List String) (t : Table)
      → All (Misses p t) ids
      → filter p (update_each ids f t) ≡ filter p t
  unfolding update_each
  filter-update_each_of_Misses [] t h = refl
  filter-update_each_of_Misses (i ∷ ids) t h =
      filter-update_each_of_Misses ids (update i f t)
        (All-imp (Misses p t) (Misses p (update i f t)) (Misses-update i t) ids h.1)
      ∙ filter-update_of_Misses i t h.0

module _ (f : Row → Row) (p : Row → Bool) (keeps : (r : Row) → p (f r) ≡ p r) where
  keeps_row : (i : String) (r : Row) → p (if r.id == i then f r else r) ≡ p r
  keeps_row i r = elim (Bool-cases (r.id == i)) [ inl e ↦ rw e (keeps r) | inr e ↦ rw e ]

  -- An update that keeps the test commutes with the selection.
  pub filter-update : (i : String) (t : Table) → filter p (update i f t) ≡ update i f (filter p t)
  unfolding update
  filter-update i t =
      filter-map p p (λ r. if r.id == i then f r else r) t
        (All-of (λ r. p (if r.id == i then f r else r) ≡ p r) (keeps_row i) t)

-- What every update by id keeps, for a function that keeps the ids.
module _ (f : Row → Row) (same_id : (r : Row) → (f r).id ≡ r.id) where
  pub update_each-IsFresh :
      (id : String) (ids : List String) (t : Table)
      → IsFresh (λ r. r.id) id t
      → IsFresh (λ r. r.id) id (update_each ids f t)
  unfolding update_each update
  update_each-IsFresh id [] t h = h
  update_each-IsFresh id (i ∷ ids) t h = update_each-IsFresh id ids (update i f t) (
      All-map (λ r. if r.id == i then f r else r) (λ r. (r.id == id) ≡ false) t
        (All-imp (λ r. (r.id == id) ≡ false)
          (λ r. ((if r.id == i then f r else r).id == id) ≡ false)
          (λ r e. rw (id-update_row f same_id i r) e) t h))

  pub update-has_id :
      (id i : String) (t : Table) → any (λ r. r.id == id) (update i f t) ≡ any (λ r. r.id == id) t
  unfolding update
  update-has_id id i [] = refl
  update-has_id id i (r ∷ t) = rw (id-update_row f same_id i r, update-has_id id i t)

  pub update_each-has_id :
      (id : String) (ids : List String) (t : Table)
      → any (λ r. r.id == id) (update_each ids f t) ≡ any (λ r. r.id == id) t
  unfolding update_each
  update_each-has_id id [] t = refl
  update_each-has_id id (i ∷ ids) t =
      update_each-has_id id ids (update i f t) ∙ update-has_id id i t

-- A reading of the rows that the updates do not change.
module _ {ℓ} {B : Type ℓ} (g : Row → B) (f : Row → Row) (same : (r : Row) → g (f r) ≡ g r) where
  pub map-update : (i : String) (t : Table) → map g (update i f t) ≡ map g t
  unfolding update
  map-update i [] = refl
  map-update i (r ∷ t) = elim (Bool-cases (r.id == i)) [
    | inl e ↦ rw (e, same r, map-update i t)
    | inr e ↦ rw (e, map-update i t)
  ]

  pub map-update_each : (ids : List String) (t : Table) → map g (update_each ids f t) ≡ map g t
  unfolding update_each
  map-update_each [] t = refl
  map-update_each (i ∷ ids) t = map-update_each ids (update i f t) ∙ map-update i t
