-- ===== src/Governance/Tests.antt =====
-- A gate that strips nothing, takes texts as their hashes and has seen nothing yet.
use mark_sdk.Prelude.{◌≡◌, refl, true, false, some, [], ◌&&◌, not, none}
use mark_sdk.Governance.Gates.{
  Texts, ConsolidationGate, pass_result, check_validation, check_failure, check_duplicate,
  result_of, opt_failure, opt_duplicate, check,
}
use mark_sdk.Types.Enums.{MemoryScope, MemoryTier, raw}
use mark_sdk.Types.Fragment.{Fragment}
use mark_sdk.Blocks.Store.{Store}
use mark_sdk.Maintenance.Consolidation.{ConsolidationResult, Action, act}
use mark_sdk.Governance.Consolidating.{governed, act-blocked}
use mark_sdk.Governance.Verdicts.{is_valid, is_failure, is_seen, check-passed, check-again}

abbrev plain_texts : Texts
plain_texts = record { len_stripped = λ s. 8; sha256 = λ s. s; failure_patterns = [] }

abbrev fresh_gate : ConsolidationGate
fresh_gate = record {
  sanitize_report = λ s. record { text = s; truncated = false; original_length = 8 };
  validation = record { min_length = 1; min_confidence = 0 };
  failure = true;
  dedup = some [];
}

scene_passes : (check plain_texts fresh_gate "Scene 47" 1000000).0.passed ≡ true
unfolding pass_result check_validation check_failure check_duplicate result_of opt_failure
    opt_duplicate check
scene_passes = refl

check-passed_example : (check plain_texts fresh_gate "Scene 47" 1000000).0.passed ≡ (
    is_valid plain_texts fresh_gate.validation "Scene 47" 1000000
    && (not (is_failure plain_texts true "Scene 47")
        && not (is_seen plain_texts (some []) "Scene 47")))
check-passed_example = check-passed plain_texts fresh_gate "Scene 47" 1000000

check-again_example :
    (check plain_texts
      (check plain_texts fresh_gate "Scene 47" 1000000).1
      "Scene 47"
      500000).0.passed
    ≡ false
check-again_example =
    check-again plain_texts fresh_gate "Scene 47" "Scene 47" 1000000 500000 [] refl scene_passes
      refl

abbrev scene : Fragment
scene = record {
  content = "Scene 47";
  agent_id = "director";
  id = "m1";
  block_id = none;
  scope = MemoryScope.agent;
  tier = MemoryTier.working;
  session_id = none;
  importance = 500000;
  state = raw;
  confidence = 1000000;
  ttl_seconds = none;
  created_at = 10;
  updated_at = 10;
  last_accessed_at = none;
  tags = [];
  source = none;
  contradiction_ids = [];
  mark_decay = none;
  merged_from_ids = [];
  cluster_size = none;
}

abbrev no_counts : ConsolidationResult
no_counts = record { promoted_count = 0; expired = 0; skipped = 0; blocked = 0; sanitized = 0 }

abbrev empty_store : Store
empty_store = record { fragments = []; nodes = []; edges = []; blocks = []; block_nodes = [] }

act-blocked_example :
    act
      (governed plain_texts)
      11
      (record scene { id = "m2" })
      no_counts
      (check plain_texts fresh_gate "Scene 47" 1000000).1
      empty_store
      Action.submit
    ≡ some (
      record no_counts { blocked = 1 },
      (
        (check plain_texts
            (check plain_texts fresh_gate "Scene 47" 1000000).1
            "Scene 47"
            1000000).1,
        empty_store,
      ),
    )
act-blocked_example =
    act-blocked plain_texts 11 scene (record scene { id = "m2" }) no_counts fresh_gate empty_store
      [] refl scene_passes refl
