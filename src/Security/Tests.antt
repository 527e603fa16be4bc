-- ===== src/Security/Tests.antt =====
-- A test number of sixteen digits, and the same number with one digit changed.
use mark_sdk.Prelude.{
  ℕ, ◌≡◌, refl, true, false, List, [], ◌∷◌, ◌++◌, leb, nat_eq, ◌&&◌, arith, if◌then◌else◌, some,
  none,
}
use mark_sdk.Security.Windows.{
  span_le, Lowered, hint_spans, all_spans, merge_onto, merge_spans, spans,
}
use mark_sdk.Security.Merged.{IsMerged, spans-IsMerged}
use mark_sdk.Security.Checksums.{
  Digits, weigh, luhn_total, starts_with_issuer, is_repeated, luhn_valid,
}
use mark_sdk.Security.Typos.{luhn_valid_typo}

abbrev decimal : Digits ℕ
decimal = record { int = λ d. d; is_issuer = λ d. leb 2 d && leb d 6; same = nat_eq }

abbrev first_fifteen : List ℕ
first_fifteen = 4 ∷ 1 ∷ 1 ∷ 1 ∷ 1 ∷ 1 ∷ 1 ∷ 1 ∷ 1 ∷ 1 ∷ 1 ∷ 1 ∷ 1 ∷ 1 ∷ 1 ∷ []

card_is_valid : luhn_valid decimal (first_fifteen ++ 1 ∷ []) ≡ true
unfolding weigh luhn_total starts_with_issuer is_repeated luhn_valid
card_is_valid = refl

luhn_valid_typo_example : luhn_valid decimal (first_fifteen ++ 7 ∷ []) ≡ false
luhn_valid_typo_example =
    luhn_valid_typo decimal first_fifteen [] 1 7 (omega arith) (omega arith) (omega arith)
      card_is_valid

-- A text of 20 characters with a hint at 2, 5 and 15.
abbrev hinted : Lowered
hinted = record {
  size = 20;
  find = λ hint from.
      if leb from 2
      then some 2
      else if leb from 5
      then some 5
      else if leb from 15
      then some 15
      else none;
  length_of = λ hint. 3;
}

windows :
    spans hinted ("key" ∷ []) 2
    ≡ record { start = 0; end = 10 } ∷ record { start = 13; end = 20 } ∷ []
unfolding span_le hint_spans all_spans merge_onto merge_spans spans
windows = refl

spans-IsMerged_example : IsMerged (all_spans hinted 2 ("key" ∷ [])) (spans hinted ("key" ∷ []) 2)
spans-IsMerged_example = spans-IsMerged hinted ("key" ∷ []) 2
