-- ===== src/Context/Cut.antt =====
-- The binary search of `_truncate` (src/mark/context/budget.py) for the longest prefix that fits.
use Prim.Native.String as Str
use mark_sdk.Prelude.{
  ℕ, zero, suc, ◌≡◌, refl, ◌≤◌, ◌<◌, ◌+◌, ◌-◌, ◌/◌, true, false, Option, none, some, ltb,
  Bool-cases, inl, inr, arith, false_of_both,
}
use mark_sdk.Context.Budget.{
  ContextBudget, BudgetItem, candidate, fits_alone, truncate_from, truncate,
}

module _ (b : ContextBudget) (item : BudgetItem) where
  -- A shorter prefix fits where a longer one does.
  abbrev pub IsMonotone : Type 0
  IsMonotone =
      (m n : ℕ)
      → m ≤ n
      → fits_alone b (candidate b item n) ≡ true
      → fits_alone b (candidate b item m) ≡ true

  -- No prefix of at least `low` and less than `end` characters fits.
  abbrev pub NoneFits : ℕ → ℕ → Type 0
  NoneFits low end = (n : ℕ) → low ≤ n → n < end → fits_alone b (candidate b item n) ≡ false

  -- Among the prefixes of `low` to `end - 1` characters: the longest that fits, or none.
  abbrev pub IsLongest : ℕ → ℕ → Option BudgetItem → Type 0
  IsLongest low end none = NoneFits low end
  IsLongest low end (some x) =
      (m : ℕ) × (low ≤ m)
      × (m < end)
      × (x ≡ candidate b item m)
      × (fits_alone b x ≡ true)
      × NoneFits (suc m) end

  -- What the search has found before `low`: nothing at the start, then the prefix of low - 1.
  abbrev Found : ℕ → Option BudgetItem → Type 0
  Found low none = low ≡ 8
  Found low (some x) =
      (m : ℕ) × (low ≡ suc m) × (8 ≤ m) × (x ≡ candidate b item m) × (fits_alone b x ≡ true)

  IsLongest-done :
      (low end : ℕ) (best : Option BudgetItem)
      → Found low best
      → low ≤ end
      → NoneFits low end
      → IsLongest 8 end best
  IsLongest-done low end none f h n = rw f at n
  IsLongest-done low end (some x) (m, e, k, c, t) h n = (m, k, omega (arith, e, h), c, t, rw e at n)

  none_above :
      IsMonotone
      → (m n : ℕ) → m ≤ n
      → fits_alone b (candidate b item m) ≡ false
      → fits_alone b (candidate b item n) ≡ false
  none_above mono m n h over = elim (Bool-cases (fits_alone b (candidate b item n))) [
    | inl fits ↦ absurd (false_of_both over (mono m n h fits))
    | inr far ↦ far
  ]

  truncate_from-IsLongest :
      IsMonotone
      → (fuel low end len : ℕ) (best : Option BudgetItem) → end ≤ low + fuel
      → low ≤ end
      → end ≤ len
      → 8 ≤ low
      → Found low best
      → NoneFits end len
      → IsLongest 8 len (truncate_from b fuel item low end best)
  unfolding truncate_from
  truncate_from-IsLongest mono zero low end len best f h k l found n =
      let same : low ≡ end = omega (arith, f, h) in
      IsLongest-done low len best found (omega arith) (rw same n)
  truncate_from-IsLongest mono (suc fuel) low end len best f h k l found n =
      let middle : ℕ = (low + end - 1) / 2 in
      elim (Bool-cases (ltb low end)) [
        | inr stop ↦
            let same : low ≡ end = ground arith in
            rw stop (IsLongest-done low len best found (omega arith) (rw same n))
        | inl y ↦
            let above : low < end = ground arith in
            elim (Bool-cases (fits_alone b (candidate b item middle))) [
              | inl fits ↦
                  rw (y, fits)
                    (truncate_from-IsLongest mono fuel (suc middle) end len
                      (some (candidate b item middle)) (omega arith) (omega arith) k (omega arith)
                      (middle, refl, omega arith, refl, fits) n)
              | inr over ↦
                  rw (y, over)
                    (truncate_from-IsLongest mono fuel low middle len best (omega arith)
                      (omega arith) (omega arith) l found
                      (λ j up below. none_above mono middle j up over))
            ]
      ]

  -- An empty range: the loop does not run.
  truncate_from_none :
      (fuel low end : ℕ) (best : Option BudgetItem)
      → end ≤ low
      → truncate_from b fuel item low end best ≡ best
  unfolding truncate_from
  truncate_from_none zero low end best h = refl
  truncate_from_none (suc fuel) low end best h =
      let stop : ltb low end ≡ false = ground arith in rw stop refl

  -- Where a shorter prefix of the item fits whenever a longer one does, the binary search, with
  -- the length of the text as fuel, ends with the longest prefix of at least 8 characters and less
  -- than the whole text that fits, and with none only if none of them fits.
  pub truncate-IsLongest : IsMonotone → IsLongest 8 (Str.count item.text) (truncate b item)
  unfolding truncate
  truncate-IsLongest mono =
      let len : ℕ = Str.count item.text in
      elim (Bool-cases (ltb len 8)) [
        | inl short ↦
            rw (truncate_from_none len 8 len none (ground arith))
              (λ n up below. absurd (ground arith))
        | inr long ↦
            truncate_from-IsLongest mono len 8 len len none (omega arith) (ground arith)
              (omega arith) (omega arith) refl (λ n up below. absurd (omega arith))
      ]
