-- ===== src/Governance/Verdicts.antt =====
-- What the consolidation gate lets pass (src/mark/middlewares/governance/pipeline.py).
use mark_sdk.Prelude.{
  ℕ, String, ◌≡◌, refl, ap, ◌∙◌, Bool, true, false, Option, none, some, List, not, ◌&&◌, eq_refl,
  ltb, inl, inr, Bool-cases, any, is_in, false_of_both,
}
use mark_sdk.Governance.Gates.{
  Texts, ConsolidationGate, ValidationGate, check_validation, check_failure, check_duplicate,
  result_of, opt_failure, opt_duplicate, check, pass_result,
}

module _ (texts : Texts) where
  -- The three conditions of the gate, on the sanitized text.
  unfoldable pub is_valid : ValidationGate → String → ℕ → Bool
  is_valid v text confidence =
      not (ltb (texts.len_stripped text) v.min_length) && not (ltb confidence v.min_confidence)

  unfoldable pub is_failure : Bool → String → Bool
  is_failure failure text = failure && any (λ pattern. pattern text) texts.failure_patterns

  unfoldable pub is_seen : Option (List String) → String → Bool
  is_seen none text = false
  is_seen (some seen) text = is_in seen (texts.sha256 text)

  passed-validation :
      (v : ValidationGate) (text : String) (confidence : ℕ)
      → (check_validation texts v text confidence).passed ≡ is_valid v text confidence
  unfolding check_validation is_valid pass_result
  passed-validation v text confidence =
      elim (Bool-cases (ltb (texts.len_stripped text) v.min_length)) [
        | inl y ↦ rw y refl
        | inr n ↦ elim (Bool-cases (ltb confidence v.min_confidence)) [
          | inl y ↦ rw (n, y) refl
          | inr k ↦ rw (n, k) refl
        ]
      ]

  passed-failure :
      (failure : Bool) (text : String)
      → (opt_failure texts failure text).passed ≡ not (is_failure failure text)
  unfolding opt_failure check_failure is_failure pass_result
  passed-failure false text = refl
  passed-failure true text =
      elim (Bool-cases (any (λ pattern. pattern text) texts.failure_patterns)) [
        | inl y ↦ rw y refl
        | inr n ↦ rw n refl
      ]

  passed-duplicate :
      (dedup : Option (List String)) (text : String)
      → (opt_duplicate texts dedup text).0.passed ≡ not (is_seen dedup text)
  unfolding opt_duplicate check_duplicate is_seen pass_result
  passed-duplicate none text = refl
  passed-duplicate (some seen) text = elim (Bool-cases (is_in seen (texts.sha256 text))) [
    | inl y ↦ rw y refl
    | inr n ↦ rw n refl
  ]

  -- The consolidation gate passes a content exactly when its sanitized text is at least min_length
  -- long after stripping, its confidence is at least min_confidence, the text matches no failure
  -- pattern (where the failure filter is on) and its hash was not seen (where the duplicate gate
  -- is on).
  pub check-passed :
      (gate : ConsolidationGate) (content : String) (confidence : ℕ)
      → (check texts gate content confidence).0.passed ≡ (
          is_valid gate.validation (gate.sanitize_report content).text confidence
          && (not (is_failure gate.failure (gate.sanitize_report content).text)
              && not (is_seen gate.dedup (gate.sanitize_report content).text)))
  unfolding check result_of
  check-passed gate content confidence =
      let text : String = (gate.sanitize_report content).text in
      let v = passed-validation gate.validation text confidence in
      let f = passed-failure gate.failure text in
      elim (Bool-cases (is_valid gate.validation text confidence)) [
        | inr n ↦ rw (v ∙ n, n) refl
        | inl y ↦ elim (Bool-cases (is_failure gate.failure text)) [
          | inl d ↦ rw (v ∙ y, f ∙ ap not d, y, d) refl
          | inr n ↦ rw (v ∙ y, f ∙ ap not n, y, n) (passed-duplicate gate.dedup text)
        ]
      ]

  -- The gate after a check that passed has seen the text.
  next-of_passed :
      (gate : ConsolidationGate) (content : String) (confidence : ℕ)
      → (check texts gate content confidence).0.passed ≡ true
      → (check texts gate content confidence).1 ≡ record gate {
        dedup = (opt_duplicate texts gate.dedup (gate.sanitize_report content).text).1;
      }
  unfolding check result_of
  next-of_passed gate content confidence h =
      let text : String = (gate.sanitize_report content).text in
      elim (Bool-cases (check_validation texts gate.validation text confidence).passed) [
        | inr n ↦ absurd (false_of_both {b = false} refl (rw n at h))
        | inl y ↦ elim (Bool-cases (opt_failure texts gate.failure text).passed) [
          | inr n ↦ absurd (false_of_both {b = false} refl (rw (y, n) at h))
          | inl z ↦ rw (y, z) refl
        ]
      ]

  is_seen-next :
      (seen : List String) (text : String)
      → is_seen (opt_duplicate texts (some seen) text).1 text ≡ true
  unfolding is_seen opt_duplicate check_duplicate
  is_seen-next seen text = elim (Bool-cases (is_in seen (texts.sha256 text))) [
    | inl y ↦ rw y y
    | inr n ↦ rw n (rw (eq_refl (texts.sha256 text)) refl)
  ]

  and_false : (a b : Bool) → (a && (b && false)) ≡ false
  and_false true true = refl
  and_false true false = refl
  and_false false b = refl

  -- With the duplicate gate on, once a content has passed, every content that is sanitized to the
  -- same text is rejected by the gate that the first check left, whatever its confidence.
  pub check-again :
      (gate : ConsolidationGate) (content again : String) (confidence confidence' : ℕ)
      (seen : List String)
      → gate.dedup ≡ some seen
      → (check texts gate content confidence).0.passed ≡ true
      → (gate.sanitize_report again).text ≡ (gate.sanitize_report content).text
      → (check texts (check texts gate content confidence).1 again confidence').0.passed ≡ false
  check-again gate content again confidence confidence' seen dedup passed same =
      let text : String = (gate.sanitize_report content).text in
      let gate' : ConsolidationGate = record gate {
        dedup = (opt_duplicate texts gate.dedup text).1;
      } in
      let now_seen : is_seen gate'.dedup (gate.sanitize_report again).text ≡ true =
        ap (is_seen gate'.dedup) same
        ∙ ap (λ d. is_seen (opt_duplicate texts d text).1 text) dedup
        ∙ is_seen-next seen text in
      ap (λ g. (check texts g again confidence').0.passed)
        (next-of_passed gate content confidence passed)
      ∙ check-passed gate' again confidence'
      ∙ ap
          (λ b.
            is_valid gate.validation (gate.sanitize_report again).text confidence'
            && (not (is_failure gate.failure (gate.sanitize_report again).text) && not b))
          now_seen
      ∙ and_false _ _
