-- ===== src/Security/Windows.antt =====
-- The windows around the hints of a pattern: `_spans` of src/mark/security/windows.py. The text's
-- `find` from a position on is an argument.
use mark_sdk.Prelude.{
  ℕ, zero, suc, ◌+◌, ◌-◌, max, min, String, Bool, Option, none, some, List, [], ◌∷◌, ◌++◌, ◌&&◌,
  ◌||◌, ltb, leb, nat_eq, if◌then◌else◌, sort_by,
}

pub record Span : Type 0 where
  pub start : ℕ
  pub end : ℕ

-- The order of the pairs.
unfoldable pub span_le : Span → Span → Bool
span_le s t = ltb s.start t.start || (nat_eq s.start t.start && leb s.end t.end)

pub record Lowered : Type 0 where
  pub size : ℕ
  pub find : String → ℕ → Option ℕ
  pub length_of : String → ℕ

module _ (text : Lowered) (radius : ℕ) where
  abbrev pub window : String → ℕ → Span
  window hint at = record {
    start = at - radius;
    end = min text.size (at + text.length_of hint + radius);
  }

  -- The while loop; each round moves on by the length of the hint, so the fuel is the size of the
  -- text. The hints are the non-empty literals of the patterns: on an empty hint, the loop of the
  -- source finds the same place again without end, where this one stops with its fuel.
  unfoldable pub hint_spans : ℕ → String → ℕ → List Span
  hint_spans zero hint from = []
  hint_spans (suc fuel) hint from = elim (text.find hint from) [
    | none ↦ []
    | some at ↦ window hint at ∷ hint_spans fuel hint (at + text.length_of hint)
  ]

  unfoldable pub all_spans : List String → List Span
  all_spans [] = []
  all_spans (hint ∷ hints) = hint_spans text.size hint 0 ++ all_spans hints

-- The loop over the sorted spans, with the last merged one.
unfoldable pub merge_onto : Span → List Span → List Span
merge_onto last [] = last ∷ []
merge_onto last (s ∷ ss) =
    let grown = merge_onto (record { start = last.start; end = max last.end s.end }) ss in
    let apart = merge_onto s ss in if leb s.start last.end then grown else last ∷ apart

unfoldable pub merge_spans : List Span → List Span
merge_spans [] = []
merge_spans (s ∷ ss) = merge_onto s ss

unfoldable pub spans : Lowered → List String → ℕ → List Span
spans text hints radius = merge_spans (sort_by span_le (all_spans text radius hints))
