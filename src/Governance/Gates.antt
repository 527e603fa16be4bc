-- ===== src/Governance/Gates.antt =====
-- The gates, their pipeline and the audit log (src/mark/middlewares/governance/gates.py, pipeline.py
-- and audit.py). The length of a stripped text, the SHA-256 of a text and the failure patterns, which
-- are Python's string methods, hashlib and re, are parameters; the sanitizer is the constructor's
-- argument.
use mark_sdk.Prelude.{
  ℕ, String, Bool, true, false, Option, none, some, List, [], ◌∷◌, ◌++◌, not, ◌-◌, zero, suc, ltb,
  max, if◌then◌else◌, any, filter, length, drop, reverse, is_in,
}

pub data Reason : Type 0 where
  accepted too_short low_confidence duplicate_hash failure_pattern : Reason

-- GateResult: passed, with the reason of a rejection.
pub record GateResult : Type 0 where
  pub passed : Bool
  pub reason : Reason

pub record ValidationGate : Type 0 where
  pub min_length : ℕ
  pub min_confidence : ℕ

pub record SanitizeReport : Type 0 where
  pub text : String
  pub truncated : Bool
  pub original_length : ℕ

pub record Texts : Type 0 where
  pub len_stripped : String → ℕ
  pub sha256 : String → String
  pub failure_patterns : List (String → Bool)

-- failure: whether a FailureFilter is there; dedup: the hashes seen, if a DuplicateHashGate is there.
pub record ConsolidationGate : Type 0 where
  pub sanitize_report : String → SanitizeReport
  pub validation : ValidationGate
  pub failure : Bool
  pub dedup : Option (List String)

pub record ConsolidationGateResult : Type 0 where
  pub passed : Bool
  pub content : String
  pub reason : Reason
  pub truncated : Bool
  pub original_length : ℕ

unfoldable pub pass_result : GateResult
pass_result = record { passed = true; reason = accepted }

unfoldable pub new_validation : ℕ → ℕ → ValidationGate
new_validation min_length min_confidence = record {
  min_length = max 1 min_length;
  min_confidence = min_confidence;
}

module _ (texts : Texts) where
  unfoldable pub check_validation : ValidationGate → String → ℕ → GateResult
  check_validation v content confidence =
      if ltb (texts.len_stripped content) v.min_length
      then record { passed = false; reason = too_short }
      else if ltb confidence v.min_confidence
      then record { passed = false; reason = low_confidence }
      else pass_result

  unfoldable pub check_failure : String → GateResult
  check_failure content =
      if any (λ pattern. pattern content) texts.failure_patterns
      then record { passed = false; reason = failure_pattern }
      else pass_result

  -- The gate's verdict and the hashes that it has then seen.
  unfoldable pub check_duplicate : List String → String → GateResult × List String
  check_duplicate seen content =
      if is_in seen (texts.sha256 content)
      then (record { passed = false; reason = duplicate_hash }, seen)
      else (pass_result, texts.sha256 content ∷ seen)

  unfoldable pub result_of : SanitizeReport → GateResult → ConsolidationGateResult
  result_of report g = record {
    passed = g.passed;
    content = report.text;
    reason = g.reason;
    truncated = report.truncated;
    original_length = report.original_length;
  }

  -- The opt-in gates: an absent one passes.
  unfoldable pub opt_failure : Bool → String → GateResult
  opt_failure failure content = if failure then check_failure content else pass_result

  unfoldable pub opt_duplicate : Option (List String) → String → GateResult × Option (List String)
  opt_duplicate none content = (pass_result, none)
  opt_duplicate (some seen) content =
      ((check_duplicate seen content).0, some (check_duplicate seen content).1)

  unfoldable pub check :
      ConsolidationGate → String → ℕ → ConsolidationGateResult × ConsolidationGate
  check gate content confidence =
      let report : SanitizeReport = gate.sanitize_report content in
      let v : GateResult = check_validation gate.validation report.text confidence in
      let f : GateResult = opt_failure gate.failure report.text in
      if not v.passed
      then (result_of report v, gate)
      else if not f.passed
      then (result_of report f, gate)
      else (
        result_of report (opt_duplicate gate.dedup report.text).0,
        record gate { dedup = (opt_duplicate gate.dedup report.text).1 },
      )

pub record AuditEntry : Type 0 where
  pub id : String
  pub content_hash : String
  pub passed : Bool
  pub reason : String
  pub gate : String
  pub agent_id : Option String
  pub timestamp : ℕ

unfoldable pub record_entry : AuditEntry → List AuditEntry → List AuditEntry
record_entry e entries = entries ++ e ∷ []

-- entries[-limit:], which for 0 is all of them
unfoldable pub last_entries : ℕ → List AuditEntry → List AuditEntry
last_entries zero entries = entries
last_entries (suc n) entries = drop (length entries - suc n) entries

unfoldable pub list_entries : (AuditEntry → Bool) → ℕ → List AuditEntry → List AuditEntry
list_entries wanted limit entries = reverse (last_entries limit (filter wanted entries))
