-- ===== src/Timeline/Placed.antt =====
-- The two-clock rule as one order and one basis for each item (src/mark/memory/timeline_order.py).
use mark_sdk.Prelude.{
  ℕ, ◌≡◌, refl, sym, ap, ap₂, ◌∙◌, Bool, true, false, Option, List, [], ◌∷◌, ◌++◌, map, not, ◌&&◌,
  ltb, leb, if◌then◌else◌, arith, filter, sort_by, IsSorted, All-imp₂, IsSorted-partition,
  any-sort_by, any-filter, any-filter_self, map-eq_of_All, All-filter, sort_by-IsSorted, sort_by-eq,
  filter-sort_by, All, All-filter, All-imp, All-filter_self, All-sort_by, any, map-append,
}
use mark_sdk.Timeline.Order.{
  Basis, declared, stored_after_dated, unknown, stored, max_of, is_dated, dated_le, stored_le,
  with_basis, two_clock_order,
}
use mark_sdk.Timeline.Clocks.{
  two_clock_le, le_dated, le_undated, le_mixed, two_clock_le-total, two_clock_le_trans,
  stored_le-total, stored_le_trans, stored_later,
}

map_fst {ℓ κ} :
    {A : Type ℓ} {B : Type κ} (f : A → B) (xs : List A)
    → map (λ (x : A × B). x.0) (map (λ x. (x, f x)) xs) ≡ xs
map_fst f [] = refl
map_fst f (x ∷ xs) = ap (◌∷◌ x) (map_fst f xs)

any-max_of {ℓ} :
    {A : Type ℓ} (store : A → ℕ) (n : ℕ) (x : A) (xs : List A)
    → any (λ y. leb n (store y)) (x ∷ xs) ≡ leb n (max_of (map store (x ∷ xs)))
unfolding max_of
any-max_of store n x [] = ground arith
any-max_of store n x (y ∷ ys) = ground (arith, any-max_of store n y ys)

module _ {ℓ} {T : Type ℓ} (when : T → Option ℕ) (store : T → ℕ) where
  -- How the rule places an item among others.
  unfoldable pub basis_of : List T → T → Basis
  basis_of items x =
      if is_dated when x
      then declared
      else if not (any (is_dated when) items)
      then stored
      else if any (λ y. is_dated when y && leb (store x) (store y)) items
      then unknown
      else stored_after_dated

  module _ (items : List T) where
    basis-dated : (x : T) → is_dated when x ≡ true → declared ≡ basis_of items x
    unfolding basis_of
    basis-dated x h = rw h refl

    module _ (x : T) (h : not (is_dated when x) ≡ true) where
      basis-stored : any (is_dated when) items ≡ false → stored ≡ basis_of items x
      unfolding basis_of
      basis-stored k = let e : is_dated when x ≡ false = ground arith in rw (e, k) refl

      basis-unknown :
          any (is_dated when) items ≡ true
          → any (λ y. is_dated when y && leb (store x) (store y)) items ≡ true
          → unknown ≡ basis_of items x
      unfolding basis_of
      basis-unknown k l = let e : is_dated when x ≡ false = ground arith in rw (e, k, l) refl

      basis-later :
          any (is_dated when) items ≡ true
          → any (λ y. is_dated when y && leb (store x) (store y)) items ≡ false
          → stored_after_dated ≡ basis_of items x
      unfolding basis_of
      basis-later k l = let e : is_dated when x ≡ false = ground arith in rw (e, k, l) refl

    -- The list `ds` stands for the dated items.
    with_basis-basis :
        (ds us : List T)
        → any (is_dated when) items ≡ any (λ _. true) ds
        → ((q : T → Bool) → any (λ y. is_dated when y && q y) items ≡ any q ds)
        → All (λ x. is_dated when x ≡ true) ds
        → All (λ x. not (is_dated when x) ≡ true) us
        → IsSorted (stored_le store) us
        → with_basis store ds us ≡ map (λ x. (x, basis_of items x)) (ds ++ us)
    unfolding with_basis
    with_basis-basis [] us some_dated same are_dated are_not sorted =
        map-eq_of_All (λ x. (x, stored)) (λ x. (x, basis_of items x)) us
          (All-imp (λ x. not (is_dated when x) ≡ true) _
            (λ x h. ap (λ b. (x, b)) (basis-stored x h some_dated)) us are_not)
    with_basis-basis (d ∷ ds) us some_dated same are_dated are_not sorted =
        let last : ℕ = max_of (map store (d ∷ ds)) in
        let f : T → T × Basis = λ x. (x, basis_of items x) in
        let seen : (x : T)
            → any (λ y. is_dated when y && leb (store x) (store y)) items ≡ leb (store x) last =
          λ x. same (λ y. leb (store x) (store y)) ∙ any-max_of store (store x) d ds in
        let low : T → Bool = λ x. leb (store x) last in
        let high : T → Bool = λ x. ltb last (store x) in
        let no : T → Type 0 = λ x. not (is_dated when x) ≡ true in
        ap₂ ◌++◌
          (map-eq_of_All (λ x. (x, declared)) f (d ∷ ds)
            (All-imp (λ x. is_dated when x ≡ true) (λ x. (x, declared) ≡ f x)
              (λ x h. ap (λ b. (x, b)) (basis-dated x h)) (d ∷ ds) are_dated))
          (ap₂ ◌++◌
              (map-eq_of_All (λ x. (x, unknown)) f (filter low us)
                (All-imp₂ no (λ x. low x ≡ true) (λ x. (x, unknown) ≡ f x)
                  (λ x h k. ap (λ b. (x, b)) (basis-unknown x h some_dated (seen x ∙ k)))
                  (filter low us) (All-filter no low us are_not) (All-filter_self low us)))
              (map-eq_of_All (λ x. (x, stored_after_dated)) f (filter high us)
                (All-imp₂ no (λ x. high x ≡ true) (λ x. (x, stored_after_dated) ≡ f x)
                  (λ x h k. ap (λ b. (x, b)) (basis-later x h some_dated (seen x ∙ ground arith)))
                  (filter high us) (All-filter no high us are_not) (All-filter_self high us)))
            ∙ (sym (map-append f (filter low us) (filter high us))
                ∙ ap (map f) (sym (stored_later when store last us sorted))))
        ∙ sym (map-append f (d ∷ ds) us)

    abbrev dated : List T
    dated = sort_by (dated_le when store) (filter (is_dated when) items)

    abbrev undated : List T
    undated = sort_by (stored_le store) (filter (λ x. not (is_dated when x)) items)

    sort_by-two_clock_le : sort_by (two_clock_le when store) items ≡ dated ++ undated
    sort_by-two_clock_le =
        IsSorted-partition (two_clock_le when store) (is_dated when) (le_mixed when store)
          (sort_by (two_clock_le when store) items)
          (sort_by-IsSorted (two_clock_le when store) (two_clock_le-total when store)
            (two_clock_le_trans when store) items)
        ∙ ap₂ ◌++◌
            (filter-sort_by (two_clock_le when store) (two_clock_le-total when store)
                (two_clock_le_trans when store) (is_dated when) items
              ∙ sort_by-eq (two_clock_le when store) (dated_le when store)
                  (λ x. is_dated when x ≡ true) (le_dated when store) (filter (is_dated when) items)
                  (All-filter_self (is_dated when) items))
            (filter-sort_by (two_clock_le when store) (two_clock_le-total when store)
                (two_clock_le_trans when store) (λ x. not (is_dated when x)) items
              ∙ sort_by-eq (two_clock_le when store) (stored_le store)
                  (λ x. not (is_dated when x) ≡ true) (le_undated when store)
                  (filter (λ x. not (is_dated when x)) items)
                  (All-filter_self (λ x. not (is_dated when x)) items))

    with_basis-basis_of :
        with_basis store dated undated ≡ map (λ x. (x, basis_of items x)) (dated ++ undated)
    with_basis-basis_of =
        with_basis-basis dated undated
          (any-filter_self (is_dated when) items
            ∙ sym (any-sort_by (dated_le when store) (λ _. true) (filter (is_dated when) items)))
          (λ q.
            sym (any-filter (is_dated when) q items) ∙ sym (any-sort_by (dated_le when store) q _))
          (All-sort_by (dated_le when store) (λ x. is_dated when x ≡ true) _
            (All-filter_self (is_dated when) items))
          (All-sort_by (stored_le store) (λ x. not (is_dated when x) ≡ true) _
            (All-filter_self (λ x. not (is_dated when x)) items))
          (sort_by-IsSorted (stored_le store) (stored_le-total when store)
            (stored_le_trans when store) (filter (λ x. not (is_dated when x)) items))

    -- The two-clock rule is one stable sort: two_clock_order gives the items sorted by
    -- two_clock_le (dated before undated, the dated by declared time and then storage, the undated
    -- by storage), each with its own basis: declared if dated, stored if no item is dated, unknown
    -- if some dated item is stored no earlier, and stored_after_dated otherwise. So no item is
    -- lost, repeated or swapped with an equal one.
    pub two_clock_order-two_clock_le :
        two_clock_order when store items
        ≡ map (λ x. (x, basis_of items x)) (sort_by (two_clock_le when store) items)
    unfolding two_clock_order
    two_clock_order-two_clock_le =
        with_basis-basis_of ∙ ap (map (λ x. (x, basis_of items x))) (sym sort_by-two_clock_le)

  pub fst-two_clock_order :
      (items : List T)
      → map (λ x. x.0) (two_clock_order when store items) ≡ sort_by (two_clock_le when store) items
  fst-two_clock_order items =
      ap (map (λ x. x.0)) (two_clock_order-two_clock_le items)
      ∙ map_fst (basis_of items) (sort_by (two_clock_le when store) items)
