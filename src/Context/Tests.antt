-- ===== src/Context/Tests.antt =====
-- A budget that counts characters, and items that it cannot all keep.
use Prim.Native.String as Str
use text.Mathlib.TextLemmas.{length-cons, length-append}
use mark_sdk.Prelude.{
  ℕ, zero, suc, ◌≡◌, refl, ◌≤◌, String, true, none, some, List, [], ◌∷◌, All, IsSorted, leb, arith,
  ◌+◌, ◌==◌, sym, ap, ◌∙◌, Bool-cases, inl, inr, eq_sound,
}
use mark_sdk.Context.Budget.{
  ContextBudget, BudgetItem, Section, rank_of, estimate_tokens, first_chars, enumerate, header_of,
  join_lines, is_new_group, lines_of, render_lines, precedes, by_position, worst, remove,
  first_position, count, candidate, fits_alone, truncate_from, truncate, cost_of, choose, place,
  place_all, text_of, shrink, ordered, overhead, filled, fit,
}
use mark_sdk.Context.Fits.{fit_bounded}
use mark_sdk.Context.Kept.{IsGiven, fit-IsGiven}
use mark_sdk.Context.Cut.{IsMonotone, IsLongest, truncate-IsLongest}

-- The functions that the runs compute with.
program : Unit {0}
unfolding rank_of estimate_tokens first_chars enumerate header_of join_lines is_new_group lines_of
    render_lines precedes by_position worst remove first_position count candidate fits_alone
    truncate_from truncate cost_of choose place place_all text_of shrink ordered overhead filled fit
program = tt

abbrev thirty : ContextBudget
thirty = record {
  max_tokens = 30;
  token_counter = Str.count;
  render = render_lines;
  rstrip = λ s. s;
}

abbrev line : Section → String → BudgetItem
line s t = record { section = s; text = t; group = none }

abbrev candidates : List BudgetItem
candidates =
    line Section.records "Scene 47 was shot at night"
    ∷ line Section.corrections "The lens is 35 mm"
    ∷ line Section.facts "Rain"
    ∷ []

-- The record does not fit beside the correction; the fact, of lower priority than it, does.
kept_two : (fit thirty candidates).text ≡ "The lens is 35 mm\nRain"
kept_two = unfold program in refl

cut_alone :
    truncate thirty (line Section.facts "The director prefers a static camera")
    ≡ some (line Section.facts "The director prefers a static…")
cut_alone = unfold program in refl

fit_bounded_example : count thirty (fit thirty candidates).text ≤ 30
fit_bounded_example = fit_bounded thirty candidates

fit-IsGiven_example :
    All (IsGiven thirty candidates) (fit thirty candidates).items
    × IsSorted by_position (fit thirty candidates).items
fit-IsGiven_example = fit-IsGiven thirty candidates

first_chars_mono :
    (m n : ℕ) (s : String) → m ≤ n → Str.count (first_chars m s) ≤ Str.count (first_chars n s)
unfolding first_chars
first_chars_mono zero n s h = omega arith
first_chars_mono (suc m) zero s h = absurd (omega arith)
first_chars_mono (suc m) (suc n) (Str.[]) h = omega arith
first_chars_mono (suc m) (suc n) (Str.◌∷◌ c s) h = omega (
  arith,
  length-cons c (first_chars m s),
  length-cons c (first_chars n s),
  first_chars_mono m n s (omega arith),
)

count_lem : (s : String) → count thirty s ≡ Str.count s
unfolding count
count_lem s = elim (Bool-cases (s == "")) [
  | inl y ↦ rw y (ap Str.count (sym (eq_sound s "" y)))
  | inr n ↦ rw n refl
]

fits_alone-count :
    (s : String) (n : ℕ)
    → fits_alone thirty (candidate thirty (line Section.facts s) n)
      ≡ leb (Str.count (first_chars n s) + 1) 30
unfolding fits_alone candidate render_lines lines_of header_of join_lines
fits_alone-count s n =
    ap (λ k. leb k 30)
      (count_lem (Str.◌++◌ (first_chars n s) "…") ∙ length-append (first_chars n s) "…")

thirty_is_monotone : (s : String) → IsMonotone thirty (line Section.facts s)
thirty_is_monotone s m n h fits =
    let wide : leb (Str.count (first_chars n s) + 1) 30 ≡ true =
      sym (fits_alone-count s n) ∙ fits in
    fits_alone-count s m ∙ ground (arith, first_chars_mono m n s h)

truncate-IsLongest_example :
    IsLongest thirty
      (line Section.facts "The director prefers a static camera")
      8
      36
      (truncate thirty (line Section.facts "The director prefers a static camera"))
truncate-IsLongest_example =
    truncate-IsLongest thirty (line Section.facts "The director prefers a static camera")
      (thirty_is_monotone "The director prefers a static camera")
