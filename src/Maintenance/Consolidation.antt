-- ===== src/Maintenance/Consolidation.antt =====
-- `ConsolidationManager` (src/mark/memory/consolidation.py). The gate is the constructor's argument:
-- from its state, the content and the confidence to its verdict and its next state.
use mathlib.Core.Option
use mark_sdk.Prelude.{
  ℕ, String, Bool, true, Option, none, some, List, [], ◌∷◌, not, ◌&&◌, ◌||◌, ◌==◌, leb, suc,
  is_none, if◌then◌else◌,
}
use mark_sdk.Types.Enums.{MemoryState, MemoryTier, is_working_tier}
use mark_sdk.Types.Fragment.{Fragment, is_expired}
use mark_sdk.Blocks.Store.{Store}
use mark_sdk.Blocks.Members.{SealedMembership, sealed_membership, protects_fragment}
use mark_sdk.Maintenance.Listing.{list_by_agent, delete, store_fragment}
use mark_sdk.Maintenance.Working.{is_evidence}

pub record ConsolidationResult : Type 0 where
  pub promoted_count : ℕ
  pub expired : ℕ
  pub skipped : ℕ
  pub blocked : ℕ
  pub sanitized : ℕ

pub record GateResult : Type 0 where
  pub passed : Bool
  pub content : String

pub record Gate {ℓ} (G : Type ℓ) : Type ℓ where
  pub check : G → String → ℕ → GateResult × G

unfoldable pub promoted_copy : String → ℕ → Fragment → Fragment
promoted_copy content now f = record f {
  content = content;
  tier = MemoryTier.episodic;
  state = MemoryState.verified;
  ttl_seconds = none;
  updated_at = now;
}

-- What the loop does with a fragment, by the guards in their order.
pub data Action : Type 0 where
  skip expire_it submit : Action

unfoldable pub action : SealedMembership → ℕ → ℕ → Fragment → Action
action m threshold now f =
    if not (is_working_tier f.tier) && is_none f.ttl_seconds
    then skip
    else if protects_fragment m f || is_evidence f.state
    then skip
    else if is_expired now f
    then expire_it
    else if leb threshold f.importance
    then submit
    else skip

module _ {ℓ} {G : Type ℓ} (gate : Gate G) where
  -- The gate's verdict and the store; none is the ValueError of the write.
  unfoldable pub promote :
      ℕ → Fragment → ConsolidationResult → Store → GateResult → Option (ConsolidationResult × Store)
  promote now f r s v =
      if not v.passed
      then some (record r { blocked = suc r.blocked }, s)
      else elim (store_fragment (promoted_copy v.content now f) s) [
        | none ↦ none
        | some s' ↦ some (
          record r {
            promoted_count = suc r.promoted_count;
            sanitized = if v.content == f.content then r.sanitized else suc r.sanitized;
          },
          s',
        )
      ]

  -- The gate is asked for a submitted fragment only.
  unfoldable pub act :
      ℕ
      → Fragment
      → ConsolidationResult
      → G
      → Store
      → Action
      → Option (ConsolidationResult × (G × Store))
  act now f r g s skip = some (record r { skipped = suc r.skipped }, (g, s))
  act now f r g s expire_it = some (record r { expired = suc r.expired }, (g, delete f.id s))
  act now f r g s submit =
      let (v, g') = gate.check g f.content f.confidence in
      Option.map (λ done. (done.0, (g', done.1))) (promote now f r s v)

  unfoldable pub step :
      SealedMembership
      → ℕ
      → ℕ
      → Fragment
      → ConsolidationResult × (G × Store)
      → Option (ConsolidationResult × (G × Store))
  step m threshold now f (r, (g, s)) = act now f r g s (action m threshold now f)

  unfoldable pub run_each :
      SealedMembership
      → ℕ
      → ℕ
      → List Fragment
      → ConsolidationResult × (G × Store)
      → Option (ConsolidationResult × (G × Store))
  run_each m threshold now [] r = some r
  run_each m threshold now (f ∷ fs) r =
      Option.bind (step m threshold now f r) (λ r'. run_each m threshold now fs r')

  unfoldable pub run : String → ℕ → ℕ → G → Store → Option (ConsolidationResult × (G × Store))
  run agent_id threshold now g s =
      run_each (sealed_membership s agent_id) threshold now (list_by_agent s agent_id (λ f. true)) (
        record { promoted_count = 0; expired = 0; skipped = 0; blocked = 0; sanitized = 0 },
        (g, s),
      )
