-- ===== src/Context/Fits.antt =====
-- The hard cap: the text of a fit against `max_tokens` (src/mark/context/budget.py).
use mark_sdk.Prelude.{
  ℕ, zero, suc, ◌≡◌, refl, sym, subst, ap, ◌∙◌, ◌≤◌, ◌<◌, Bool, true, false, not, ◌&&◌, List, [],
  ◌∷◌, length, any, nat_eq, leb, sort_by, insert_by, if◌then◌else◌, Bool-cases, inl, inr, arith,
  length-filter-le,
}
use mark_sdk.Context.Budget.{
  ContextBudget, BudgetItem, Placed, precedes, by_position, worst, remove, count, text_of, shrink,
  filled, ordered, first_position, fit,
}

-- What is removed is in the list, so a round makes the list shorter.
worst-keep : (p q : Placed) (qs : List Placed) → precedes q p ≡ true → worst p (q ∷ qs) ≡ worst p qs
unfolding worst
worst-keep p q qs h = ap (λ c. worst (if c then p else q) qs) h

worst-next :
    (p q : Placed) (qs : List Placed) → precedes q p ≡ false → worst p (q ∷ qs) ≡ worst q qs
unfolding worst
worst-next p q qs h = ap (λ c. worst (if c then p else q) qs) h

worst_is_in : (p : Placed) (qs : List Placed) → any (λ q. nat_eq q.0 (worst p qs).0) (p ∷ qs) ≡ true
worst_is_in p [] = unfold worst in ground arith
worst_is_in p (q ∷ qs) = elim (Bool-cases (precedes q p)) [
  | inl y ↦
      subst (λ (w : Placed). any (λ r. nat_eq r.0 w.0) (p ∷ q ∷ qs) ≡ true)
        (sym (worst-keep p q qs y)) (ground (arith, worst_is_in p qs))
  | inr n ↦
      subst (λ (w : Placed). any (λ r. nat_eq r.0 w.0) (p ∷ q ∷ qs) ≡ true)
        (sym (worst-next p q qs n)) (ground (arith, worst_is_in q qs))
]

length-remove :
    (i : ℕ) (ps : List Placed)
    → any (λ q. nat_eq q.0 i) ps ≡ true
    → length (remove i ps) < length ps
unfolding remove
length-remove i [] h = absurd (ground arith)
length-remove i (p ∷ ps) h = elim (Bool-cases (nat_eq p.0 i)) [
  | inl y ↦ rw y (omega (arith, length-filter-le (λ q. not (nat_eq q.0 i)) ps))
  | inr n ↦ rw n (ground (arith, length-remove i ps))
]

length-insert_by :
    (p : Placed) (ps : List Placed) → length (insert_by by_position p ps) ≡ suc (length ps)
length-insert_by p [] = refl
length-insert_by p (q ∷ qs) = elim (Bool-cases (by_position p q)) [
  | inl y ↦ rw y refl
  | inr n ↦ rw n (ap suc (length-insert_by p qs))
]

length-sort_by : (ps : List Placed) → length (sort_by by_position ps) ≡ length ps
length-sort_by [] = refl
length-sort_by (p ∷ ps) = length-insert_by p (sort_by by_position ps) ∙ ap suc (length-sort_by ps)

module _ (b : ContextBudget) where
  shrink_fits :
      (n start : ℕ) (ps : List Placed) (truncated : Bool)
      → length ps ≤ n
      → count b (text_of b (shrink b n start ps truncated).0) ≤ b.max_tokens
  unfolding shrink text_of count
  shrink_fits zero start [] truncated h = omega arith
  shrink_fits zero start (p ∷ ps) truncated h = absurd (omega arith)
  shrink_fits (suc n) start [] truncated h = omega arith
  shrink_fits (suc n) start (p ∷ ps) truncated h =
      let i : ℕ = (worst p ps).0 in
      let shorter : length (remove i (p ∷ ps)) < length (p ∷ ps) =
        length-remove i (p ∷ ps) (worst_is_in p ps) in
      elim (Bool-cases (leb (count b (text_of b (p ∷ ps))) b.max_tokens)) [
        | inl y ↦ rw y (ground arith)
        | inr k ↦ rw k (
            shrink_fits n start (remove i (p ∷ ps)) (truncated && not (nat_eq i start))
              (omega (arith, shorter, h)))
      ]

  -- With any token counter and any renderer, the text of a fit counts at most max_tokens tokens.
  pub fit_bounded : (items : List BudgetItem) → count b (fit b items).text ≤ b.max_tokens
  unfolding fit
  fit_bounded items =
      let f = filled b items in
      shrink_fits (length f.chosen) (first_position (ordered items)) (sort_by by_position f.chosen)
        f.truncated (omega (arith, length-sort_by f.chosen))
