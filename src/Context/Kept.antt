-- ===== src/Context/Kept.antt =====
-- Which items a fit keeps, and in which order (src/mark/context/budget.py).
use Prim.Native.String as Str
use mark_sdk.Prelude.{
  ℕ, zero, suc, ◌≡◌, refl, ◌≤◌, ◌+◌, ◌-◌, Bool, true, false, not, ◌&&◌, ◌⊎◌, Option, none, some,
  List, [], ◌∷◌, nat_eq, leb, filter, get_elem?, All, All-imp, All-filter, All-sort_by, IsSorted,
  sort_by, sort_by-IsSorted, length, Bool-cases, Option-cases, inl, inr, arith, OnSome, OnSome-eq,
  ltb, ◌/◌,
}
use mark_sdk.Context.Budget.{
  ContextBudget, BudgetItem, Placed, Fill, enumerate, precedes, by_position, ordered,
  first_position, worst, remove, candidate, fits_alone, truncate_from, truncate, count, text_of,
  cost_of, choose, place, place_all, shrink, filled, overhead, fit,
}

enumerate-All :
    (i : ℕ) (items : List BudgetItem)
    → All (λ (p : Placed). (i ≤ p.0) × (get_elem? items (p.0 - i) ≡ some p.1)) (enumerate i items)
unfolding enumerate
enumerate-All i [] = tt
enumerate-All i (x ∷ xs) = (
  let same : i - i ≡ 0 = omega arith in (omega arith, rw same refl),
  All-imp (λ (p : Placed). (suc i ≤ p.0) × (get_elem? xs (p.0 - suc i) ≡ some p.1))
      (λ (p : Placed). (i ≤ p.0) × (get_elem? (x ∷ xs) (p.0 - i) ≡ some p.1))
      (λ p h.
        let next : p.0 - i ≡ suc (p.0 - suc i) = omega (arith, h.0) in
        (omega (arith, h.0), rw next h.1))
      (enumerate (suc i) xs) (enumerate-All (suc i) xs),
)

IsSorted-filter :
    (q : Placed → Bool) (ps : List Placed)
    → IsSorted by_position ps
    → IsSorted by_position (filter q ps)
IsSorted-filter q [] h = tt
IsSorted-filter q (p ∷ ps) h = elim (Bool-cases (q p)) [
  | inl y ↦ rw y (All-filter (λ r. by_position p r ≡ true) q ps h.0, IsSorted-filter q ps h.1)
  | inr n ↦ rw n (IsSorted-filter q ps h.1)
]

position_total : (p q : Placed) → by_position p q ≡ false → by_position q p ≡ true
unfolding by_position
position_total p q h = ground arith

position_trans :
    (p q r : Placed) → by_position p q ≡ true → by_position q r ≡ true → by_position p r ≡ true
unfolding by_position
position_trans p q r h k = ground arith

module _ (b : ContextBudget) (items : List BudgetItem) where
  -- The item at this place of the input, whole, or cut if its place is the first by priority.
  abbrev pub IsGiven : Placed → Type 0
  IsGiven p =
      (x : BudgetItem) × (get_elem? items p.0 ≡ some x)
      × ((p.1 ≡ x) ⊎ ((p.0 ≡ first_position (ordered items)) × ((n : ℕ) × (p.1 ≡ candidate b x n))))

  abbrev IsAt : Placed → Type 0
  IsAt p = get_elem? items p.0 ≡ some p.1

  ordered-IsAt : All IsAt (ordered items)
  unfolding ordered
  ordered-IsAt = All-sort_by precedes IsAt (enumerate 0 items) (
      All-imp (λ (p : Placed). (0 ≤ p.0) × (get_elem? items (p.0 - 0) ≡ some p.1)) IsAt
        (λ p h. let same : p.0 - 0 ≡ p.0 = omega arith in rw same at h.1) (enumerate 0 items)
        (enumerate-All 0 items))

  -- The cut item is a prefix of the item.
  abbrev IsPrefixOf : BudgetItem → BudgetItem → Type 0
  IsPrefixOf item x = (n : ℕ) × (x ≡ candidate b item n)

  truncate_from_prefix :
      (fuel : ℕ) (item : BudgetItem) (low end : ℕ) (best : Option BudgetItem)
      → OnSome (IsPrefixOf item) best
      → OnSome (IsPrefixOf item) (truncate_from b fuel item low end best)
  unfolding truncate_from
  truncate_from_prefix zero item low end best h = h
  truncate_from_prefix (suc fuel) item low end best h =
      let middle : ℕ = (low + end - 1) / 2 in
      elim (Bool-cases (ltb low end)) [
        | inr stop ↦ rw stop h
        | inl y ↦ elim (Bool-cases (fits_alone b (candidate b item middle))) [
          | inl fits ↦
              rw (y, fits)
                (truncate_from_prefix fuel item (suc middle) end (some (candidate b item middle))
                  (middle, refl))
          | inr over ↦ rw (y, over) (truncate_from_prefix fuel item low middle best h)
        ]
      ]

  choose-IsGiven :
      (f : Fill) (p : Placed) (x : BudgetItem) (cost : ℕ)
      → IsGiven (p.0, x)
      → All IsGiven f.chosen
      → All IsGiven (choose b f p.0 x cost).chosen
  unfolding choose
  choose-IsGiven f p x cost g h = (g, h)

  place-IsGiven :
      (f : Fill) (p : Placed)
      → IsAt p
      → All IsGiven f.chosen
      → All IsGiven (place b false f p).chosen
  unfolding place
  place-IsGiven f p e h = elim (Bool-cases (leb (f.spent + cost_of b f.groups p.1) b.max_tokens)) [
    | inl y ↦ rw y (choose-IsGiven f p p.1 (cost_of b f.groups p.1) (p.1, e, inl refl) h)
    | inr n ↦ rw n h
  ]

  place_first-IsGiven :
      (f : Fill) (p : Placed)
      → p.0 ≡ first_position (ordered items)
      → IsAt p
      → All IsGiven f.chosen
      → All IsGiven (place b true f p).chosen
  unfolding place truncate
  place_first-IsGiven f p s e h =
      elim (Bool-cases (leb (f.spent + cost_of b f.groups p.1) b.max_tokens)) [
        | inl y ↦ rw y (choose-IsGiven f p p.1 (cost_of b f.groups p.1) (p.1, e, inl refl) h)
        | inr n ↦ elim (Option-cases (truncate b p.1)) [
          | inl none_fits ↦ rw (n, none_fits) h
          | inr (cut, found) ↦
              let prefix : IsPrefixOf p.1 cut =
                OnSome-eq (IsPrefixOf p.1) (truncate b p.1) cut
                  (truncate_from_prefix (Str.count p.1.text) p.1 8 (Str.count p.1.text) none tt)
                  found in
              rw (n, found)
                (choose-IsGiven f p cut (count b (b.render (cut ∷ []))) (p.1, e, inr (s, prefix)) h)
        ]
      ]

  place_all-IsGiven :
      (ps : List Placed) (f : Fill)
      → All IsAt ps
      → All IsGiven f.chosen
      → All IsGiven (place_all b false f ps).chosen
  unfolding place_all
  place_all-IsGiven [] f a h = h
  place_all-IsGiven (p ∷ ps) f a h =
      place_all-IsGiven ps (place b false f p) a.1 (place-IsGiven f p a.0 h)

  filled_ordered :
      (ps : List Placed) (f : Fill)
      → first_position ps ≡ first_position (ordered items)
      → All IsAt ps
      → All IsGiven f.chosen
      → All IsGiven (place_all b true f ps).chosen
  unfolding place_all first_position
  filled_ordered [] f s a h = h
  filled_ordered (p ∷ ps) f s a h =
      place_all-IsGiven ps (place b true f p) a.1 (place_first-IsGiven f p s a.0 h)

  shrink-IsGiven :
      (n start : ℕ) (ps : List Placed) (t : Bool)
      → All IsGiven ps × IsSorted by_position ps
      → All IsGiven (shrink b n start ps t).0 × IsSorted by_position (shrink b n start ps t).0
  unfolding shrink remove
  shrink-IsGiven zero start ps t h = h
  shrink-IsGiven (suc n) start [] t h = h
  shrink-IsGiven (suc n) start (p ∷ ps) t h =
      let others : Placed → Bool = λ q. not (nat_eq q.0 (worst p ps).0) in
      elim (Bool-cases (leb (count b (text_of b (p ∷ ps))) b.max_tokens)) [
        | inl y ↦ rw y h
        | inr k ↦ rw k (
            shrink-IsGiven n start (filter others (p ∷ ps)) (t && not (nat_eq (worst p ps).0 start))
              (All-filter IsGiven others (p ∷ ps) h.0, IsSorted-filter others (p ∷ ps) h.1))
      ]

  -- A fit keeps only items of the input, at their places and in the order of the input, each of
  -- them whole, but for the first by section and position, which may be a prefix of itself with an
  -- ellipsis.
  pub fit-IsGiven : All IsGiven (fit b items).items × IsSorted by_position (fit b items).items
  unfolding fit filled
  fit-IsGiven =
      let f : Fill = filled b items in
      shrink-IsGiven (length f.chosen) (first_position (ordered items))
        (sort_by by_position f.chosen) f.truncated
        (
          All-sort_by by_position IsGiven f.chosen (
              filled_ordered (ordered items)
                (record { chosen = []; groups = []; spent = overhead b items; truncated = false })
                refl ordered-IsAt tt),
          sort_by-IsSorted by_position position_total position_trans f.chosen,
        )
