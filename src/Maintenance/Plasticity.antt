-- ===== src/Maintenance/Plasticity.antt =====
-- Decay, reinforcement and pruning (src/mark/plasticity/decay.py, hebbian.py and pruner.py).
-- Importances, weights and factors are millionths; exp is a parameter.
use mathlib.Core.Option
use mark_sdk.Prelude.{
  ℕ, String, Bool, true, Option, none, some, List, [], ◌∷◌, ◌||◌, ◌+◌, ◌-◌, ◌*◌, ◌/◌, min, max, ltb,
  leb, suc, if◌then◌else◌,
}
use mark_sdk.Types.Enums.{MemoryState, state_eq}
use mark_sdk.Types.Fragment.{Fragment, DecayRecord}
use mark_sdk.Blocks.Hashing.{Edge}
use mark_sdk.Blocks.Store.{Store}
use mark_sdk.Blocks.Members.{SealedMembership, sealed_membership, protects_fragment, protects_edge}
use mark_sdk.Maintenance.Listing.{list_by_agent, delete, store_fragment, list_edges, delete_edge}
use mark_sdk.Maintenance.Working.{is_evidence}

-- exp(-lambda * age) for an age in microseconds, of the scope's half-life; the floor.
pub record ExponentialDecay : Type 0 where
  pub decay_factor : ℕ → ℕ
  pub floor : ℕ

unfoldable pub reference_time : Fragment → ℕ
reference_time f = elim f.mark_decay [ none ↦ f.created_at | some d ↦ d.last_decay_at ]

unfoldable pub apply_decay : ExponentialDecay → ℕ → Fragment → ℕ
apply_decay d now f =
    if state_eq f.state MemoryState.promoted
    then f.importance
    else max d.floor
        (min 1000000 (f.importance * d.decay_factor (now - reference_time f) / 1000000))

unfoldable pub decay_metadata : ℕ → Fragment → DecayRecord
decay_metadata now f = record {
  base_importance = elim f.mark_decay [ none ↦ f.importance | some d ↦ d.base_importance ];
  last_decay_at = now;
}

unfoldable pub should_prune : ExponentialDecay → ℕ → Fragment → Bool
should_prune d now f = leb (apply_decay d now f) d.floor

-- exp(-access_count / 10) is a parameter.
unfoldable pub on_access : (ℕ → ℕ) → ℕ → ℕ → ℕ → ℕ
on_access damping delta access_count importance =
    min 1000000 (importance + delta * (1000000 - damping access_count) / 1000000)

unfoldable pub on_co_retrieval : ℕ → ℕ → ℕ
on_co_retrieval delta weight = min 1000000 (weight + delta)

unfoldable pub should_dissolve : ℕ → ℕ → Bool
should_dissolve edge_floor weight = ltb weight edge_floor

pub record PrunerStats : Type 0 where
  pub fragments_pruned : ℕ
  pub edges_dissolved : ℕ
  pub importance_updated : ℕ
  pub protected_count : ℕ

abbrev pub is_protected_state : MemoryState → Bool
is_protected_state st = state_eq st MemoryState.promoted || is_evidence st

unfoldable pub differs : ℕ → ℕ → Bool
differs a b = ltb 1 (max a b - min a b)

unfoldable pub decayed_copy : ℕ → ℕ → Fragment → Fragment
decayed_copy new_imp now f = record f {
  importance = new_imp;
  mark_decay = some (decay_metadata now f);
}

module _ (d : ExponentialDecay) where
  -- none is the ValueError of the write.
  unfoldable pub persist_decay :
      ℕ → Fragment → ℕ → PrunerStats × Store → Option (PrunerStats × Store)
  persist_decay now f new_imp (r, s) =
      if differs new_imp f.importance
      then (elim (store_fragment (decayed_copy new_imp now f) s) [
        | none ↦ none
        | some s' ↦ some (record r { importance_updated = suc r.importance_updated }, s')
      ])
      else some (r, s)

  unfoldable pub prune_fragment : Fragment → ℕ → PrunerStats × Store → PrunerStats × Store
  prune_fragment f new_imp (r, s) =
      if leb new_imp d.floor
      then (record r { fragments_pruned = suc r.fragments_pruned }, delete f.id s)
      else (r, s)

  unfoldable pub prune_one :
      SealedMembership → ℕ → Fragment → PrunerStats × Store → Option (PrunerStats × Store)
  prune_one m now f (r, s) =
      if is_protected_state f.state || protects_fragment m f
      then some (record r { protected_count = suc r.protected_count }, s)
      else Option.map (prune_fragment f (apply_decay d now f))
          (persist_decay now f (apply_decay d now f) (r, s))

  unfoldable pub prune_each :
      SealedMembership → ℕ → List Fragment → PrunerStats × Store → Option (PrunerStats × Store)
  prune_each m now [] rs = some rs
  prune_each m now (f ∷ fs) rs = Option.bind (prune_one m now f rs) (λ rs'. prune_each m now fs rs')

  unfoldable pub dissolve_one :
      SealedMembership → ℕ → Edge → PrunerStats × Store → PrunerStats × Store
  dissolve_one m edge_floor e (r, s) =
      if protects_edge m e
      then (r, s)
      else if should_dissolve edge_floor e.weight
      then (record r { edges_dissolved = suc r.edges_dissolved }, delete_edge e.id s)
      else (r, s)

  unfoldable pub dissolve_each :
      SealedMembership → ℕ → List Edge → PrunerStats × Store → PrunerStats × Store
  dissolve_each m edge_floor [] rs = rs
  dissolve_each m edge_floor (e ∷ es) rs =
      dissolve_each m edge_floor es (dissolve_one m edge_floor e rs)

  unfoldable pub prune : String → ℕ → ℕ → Store → Option (PrunerStats × Store)
  prune agent_id now edge_floor s =
      let m : SealedMembership = sealed_membership s agent_id in
      let zero_stats : PrunerStats = record {
        fragments_pruned = 0;
        edges_dissolved = 0;
        importance_updated = 0;
        protected_count = 0;
      } in
      Option.map (λ rs. dissolve_each m edge_floor (list_edges rs.1 agent_id) rs)
        (prune_each m now (list_by_agent s agent_id (λ f. true)) (zero_stats, s))
