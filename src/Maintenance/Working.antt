-- ===== src/Maintenance/Working.antt =====
-- `WorkingMemoryManager` (src/mark/memory/working.py).
use mark_sdk.Prelude.{
  ℕ, String, Bool, false, Option, none, some, List, [], ◌∷◌, not, ◌&&◌, ◌||◌, if◌then◌else◌, filter,
  suc,
}
use mark_sdk.Types.Enums.{MemoryState, MemoryScope, MemoryTier, is_working_tier, state_eq}
use mark_sdk.Types.Fragment.{Fragment, is_expired}
use mark_sdk.Blocks.Store.{Store}
use mark_sdk.Blocks.Members.{SealedMembership, sealed_membership, protects_fragment}
use mark_sdk.Maintenance.Listing.{list_by_agent, delete}

-- f.state in (QUARANTINED, CONTRADICTED)
abbrev pub is_evidence : MemoryState → Bool
is_evidence st = state_eq st MemoryState.quarantined || state_eq st MemoryState.contradicted

unfoldable pub new_working :
    String → Option String → String → ℕ → ℕ → List String → ℕ → String → Fragment
new_working agent_id session_id content ttl_seconds importance tags now id = record {
  content = content;
  agent_id = agent_id;
  id = id;
  block_id = none;
  scope = MemoryScope.agent;
  tier = MemoryTier.working;
  session_id = session_id;
  importance = importance;
  state = MemoryState.unverified;
  confidence = 1000000;
  ttl_seconds = some ttl_seconds;
  created_at = now;
  updated_at = now;
  last_accessed_at = none;
  tags = "working_memory" ∷ tags;
  source = none;
  contradiction_ids = [];
  mark_decay = none;
  merged_from_ids = [];
  cluster_size = none;
}

unfoldable pub active : String → ℕ → Store → List Fragment
active agent_id now s =
    filter (λ f. is_working_tier f.tier && not (is_expired now f))
      (list_by_agent s agent_id (λ f.
        is_working_tier f.tier
        && (state_eq f.state MemoryState.unverified || state_eq f.state MemoryState.verified)))

-- Whether `expire` deletes the fragment.
unfoldable pub expires : SealedMembership → ℕ → Fragment → Bool
expires m now f =
    if not (is_working_tier f.tier) || not (is_expired now f)
    then false
    else not (protects_fragment m f || is_evidence f.state)

unfoldable pub expire_one : SealedMembership → ℕ → Fragment → ℕ × Store → ℕ × Store
expire_one m now f (count, s) = if expires m now f then (suc count, delete f.id s) else (count, s)

unfoldable pub expire_each : SealedMembership → ℕ → List Fragment → ℕ × Store → ℕ × Store
expire_each m now [] r = r
expire_each m now (f ∷ fs) r = expire_each m now fs (expire_one m now f r)

unfoldable pub expire : String → ℕ → Store → ℕ × Store
expire agent_id now s =
    expire_each (sealed_membership s agent_id) now
      (list_by_agent s agent_id (λ f. is_working_tier f.tier)) (0, s)
