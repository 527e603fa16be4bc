-- ===== src/Context/Budget.antt =====
-- `ContextBudget` (src/mark/context/budget.py). The token counter and the renderer are the caller's
-- and so arguments; str.rstrip is a parameter. A signed remainder `remaining` is written as what is
-- spent so far against the cap, and an inclusive upper end `high` as the number after it.
use Prim.Native.String as Str
use mark_sdk.Prelude.{
  ℕ, zero, suc, ◌+◌, ◌-◌, ◌/◌, String, Bool, true, false, not, ◌&&◌, ◌||◌, ◌==◌, Option, none, some,
  List, [], ◌∷◌, ◌++◌, map, filter, length, ltb, leb, nat_eq, is_in, sort_by, if◌then◌else◌,
}

-- SECTIONS, highest priority first.
pub data Section : Type 0 where
  corrections unknown relevant facts records linked related assistant : Section

unfoldable pub rank_of : Section → ℕ
rank_of corrections = 0
rank_of unknown = 1
rank_of relevant = 2
rank_of facts = 3
rank_of records = 4
rank_of linked = 5
rank_of related = 6
rank_of assistant = 7

-- `ref`, an opaque id that only the caller reads, is left out.
pub record BudgetItem : Type 0 where
  pub section : Section
  pub text : String
  pub group : Option String

-- An item at its place in the input.
abbrev pub Placed : Type 0
Placed = ℕ × BudgetItem

unfoldable pub estimate_tokens : String → ℕ
estimate_tokens text = (Str.count text + 3) / 4

-- text[:n]
unfoldable pub first_chars : ℕ → String → String
first_chars zero s = Str.[]
first_chars (suc n) (Str.[]) = Str.[]
first_chars (suc n) (Str.◌∷◌ c s) = Str.◌∷◌ c (first_chars n s)

unfoldable pub enumerate : ℕ → List BudgetItem → List Placed
enumerate i [] = []
enumerate i (x ∷ xs) = (i, x) ∷ enumerate (suc i) xs

-- `if item.group`: an empty header is none.
unfoldable pub header_of : BudgetItem → Option String
header_of item = elim item.group [ none ↦ none | some g ↦ if g == "" then none else some g ]

unfoldable pub join_lines : List String → String
join_lines [] = ""
join_lines (l ∷ []) = l
join_lines (l ∷ m ∷ ls) = Str.◌++◌ l (Str.◌++◌ "\n" (join_lines (m ∷ ls)))

-- A header only where the group changes; an item without one ends the group.
unfoldable pub is_new_group : Option String → String → Bool
is_new_group none g = true
is_new_group (some h) g = not (h == g)

unfoldable pub lines_of : Option String → List BudgetItem → List String
lines_of group [] = []
lines_of group (x ∷ xs) =
    let header : List String = elim (header_of x) [
      | none ↦ []
      | some g ↦ if is_new_group group g then g ∷ [] else []
    ] in
    header ++ x.text ∷ lines_of x.group xs

unfoldable pub render_lines : List BudgetItem → String
render_lines xs = join_lines (lines_of none xs)

pub record Fill : Type 0 where
  pub chosen : List Placed
  pub groups : List String
  pub spent : ℕ
  pub truncated : Bool

pub record SectionUsage : Type 0 where
  pub included : ℕ
  pub dropped : ℕ
  pub tokens : ℕ

pub record BudgetFit : Type 0 where
  pub items : List Placed
  pub text : String
  pub used_tokens : ℕ
  pub truncated : Bool

-- (section rank, input position)
unfoldable pub precedes : Placed → Placed → Bool
precedes p q =
    ltb (rank_of p.1.section) (rank_of q.1.section)
    || (nat_eq (rank_of p.1.section) (rank_of q.1.section) && leb p.0 q.0)

unfoldable pub by_position : Placed → Placed → Bool
by_position p q = leb p.0 q.0

unfoldable pub worst : Placed → List Placed → Placed
worst p [] = p
worst p (q ∷ qs) = worst (if precedes q p then p else q) qs

unfoldable pub remove : ℕ → List Placed → List Placed
remove i ps = filter (λ p. not (nat_eq p.0 i)) ps

unfoldable pub first_position : List Placed → ℕ
first_position [] = 0
first_position (p ∷ ps) = p.0

unfoldable pub ordered : List BudgetItem → List Placed
ordered items = sort_by precedes (enumerate 0 items)

-- A budget at work: its cap and counter, and what the caller and str.rstrip bring.
pub record ContextBudget : Type 0 where
  pub max_tokens : ℕ
  pub token_counter : String → ℕ
  pub render : List BudgetItem → String
  pub rstrip : String → String

module _ (b : ContextBudget) where
  unfoldable pub count : String → ℕ
  count text = if text == "" then 0 else b.token_counter text

  unfoldable pub candidate : BudgetItem → ℕ → BudgetItem
  candidate item middle = record item {
    text = Str.◌++◌ (b.rstrip (first_chars middle item.text)) "…";
  }

  unfoldable pub fits_alone : BudgetItem → Bool
  fits_alone item = leb (count (b.render (item ∷ []))) b.max_tokens

  -- while low <= high, with end = high + 1; the fuel is the length of the text
  unfoldable pub truncate_from : ℕ → BudgetItem → ℕ → ℕ → Option BudgetItem → Option BudgetItem
  truncate_from zero item low end best = best
  truncate_from (suc n) item low end best =
      let middle : ℕ = (low + end - 1) / 2 in
      let longer : Option BudgetItem =
        truncate_from n item (suc middle) end (some (candidate item middle)) in
      let shorter : Option BudgetItem = truncate_from n item low middle best in
      if ltb low end then if fits_alone (candidate item middle) then longer else shorter else best

  unfoldable pub truncate : BudgetItem → Option BudgetItem
  truncate item = truncate_from (Str.count item.text) item 8 (Str.count item.text) none

  unfoldable pub cost_of : List String → BudgetItem → ℕ
  cost_of groups item =
      let own : ℕ = count item.text + 1 in
      elim (header_of item) [
        | none ↦ own
        | some g ↦ if is_in groups g then own else own + (count g + 1)
      ]

  unfoldable pub choose : Fill → ℕ → BudgetItem → ℕ → Fill
  choose f i item cost = record f {
    chosen = (i, item) ∷ f.chosen;
    groups = elim (header_of item) [ none ↦ f.groups | some g ↦ g ∷ f.groups ];
    spent = f.spent + cost;
  }

  -- One round of the loop; `first` is rank == 0.
  unfoldable pub place : Bool → Fill → Placed → Fill
  place first f (i, item) =
      if leb (f.spent + cost_of f.groups item) b.max_tokens
      then choose f i item (cost_of f.groups item)
      else if first
      then elim (truncate item) [
        | none ↦ f
        | some cut ↦ record (choose f i cut (count (b.render (cut ∷ [])))) { truncated = true }
      ]
      else f

  unfoldable pub place_all : Bool → Fill → List Placed → Fill
  place_all first f [] = f
  place_all first f (p ∷ ps) = place_all false (place first f p) ps

  unfoldable pub text_of : List Placed → String
  text_of [] = ""
  text_of (p ∷ ps) = b.render (map (λ q. q.1) (p ∷ ps))

  -- while keep and count(text) > max_tokens; each round drops an item, so the fuel is their number
  unfoldable pub shrink : ℕ → ℕ → List Placed → Bool → List Placed × Bool
  shrink zero start kept truncated = (kept, truncated)
  shrink (suc n) start [] truncated = ([], truncated)
  shrink (suc n) start (p ∷ ps) truncated =
      let i : ℕ = (worst p ps).0 in
      let rest : List Placed × Bool =
        shrink n start (remove i (p ∷ ps)) (truncated && not (nat_eq i start)) in
      if leb (count (text_of (p ∷ ps))) b.max_tokens then (p ∷ ps, truncated) else rest

  unfoldable pub overhead : List BudgetItem → ℕ
  overhead [] = 0
  overhead (x ∷ xs) = count (b.render (record { section = records; text = ""; group = none } ∷ []))

  unfoldable pub filled : List BudgetItem → Fill
  filled items =
      place_all true
        (record { chosen = []; groups = []; spent = overhead items; truncated = false })
        (ordered items)

  unfoldable pub fit : List BudgetItem → BudgetFit
  fit items =
      let f : Fill = filled items in
      let kept : List Placed × Bool =
        shrink (length f.chosen) (first_position (ordered items)) (sort_by by_position f.chosen)
          f.truncated in
      record {
        items = kept.0;
        text = text_of kept.0;
        used_tokens = count (text_of kept.0);
        truncated = kept.1;
      }

  -- One section of _usage: what is kept of it, what is dropped, and the tokens kept.
  unfoldable pub section_usage : Section → List Placed → List Placed → SectionUsage
  section_usage s kept [] = record { included = 0; dropped = 0; tokens = 0 }
  section_usage s kept ((i, item) ∷ ps) =
      let u : SectionUsage = section_usage s kept ps in
      if not (nat_eq (rank_of item.section) (rank_of s))
      then u
      else elim (filter (λ p. nat_eq p.0 i) kept) [
        | [] ↦ record u { dropped = suc u.dropped }
        | p ∷ _ ↦ record u { included = suc u.included; tokens = count p.1.text + u.tokens }
      ]
