-- ===== src/Governance/Consolidating.antt =====
-- The governance gate as the gate of consolidation (src/mark/middlewares/governance/pipeline.py and
-- src/mark/memory/consolidation.py).
use mark_sdk.Prelude.{ℕ, String, ◌≡◌, refl, true, some, List, suc}
use mark_sdk.Types.Fragment.{Fragment}
use mark_sdk.Blocks.Store.{Store}
use mark_sdk.Maintenance.Consolidation.{ConsolidationResult, Gate, Action, promote, act}
use mark_sdk.Governance.Gates.{Texts, ConsolidationGate, check}
use mark_sdk.Governance.Verdicts.{check-again}

module _ (texts : Texts) where
  unfoldable pub governed : Gate ConsolidationGate
  governed = record {
    check = λ g content confidence. (
      record {
        passed = (check texts g content confidence).0.passed;
        content = (check texts g content confidence).0.content;
      },
      (check texts g content confidence).1,
    );
  }

  -- Consolidation behind the governance gate with its duplicate gate on: once a fragment has
  -- passed, every fragment that is submitted next and whose content is sanitized to the same text
  -- is counted as blocked, and the store stays as it is.
  pub act-blocked :
      (now : ℕ) (f f' : Fragment) (r : ConsolidationResult) (g : ConsolidationGate) (s : Store)
      (seen : List String)
      → g.dedup ≡ some seen
      → (check texts g f.content f.confidence).0.passed ≡ true
      → (g.sanitize_report f'.content).text ≡ (g.sanitize_report f.content).text
      → act governed now f' r (check texts g f.content f.confidence).1 s Action.submit
        ≡ some (
          record r { blocked = suc r.blocked },
          ((check texts (check texts g f.content f.confidence).1 f'.content f'.confidence).1, s),
        )
  unfolding act promote governed
  act-blocked now f f' r g s seen d p same =
      rw (check-again texts g f.content f'.content f.confidence f'.confidence seen d p same) refl
