-- ===== src/Types/Fragment.antt =====
-- `MemoryFragment` (src/mark/types/memory_fragment.py). Times are UTC instants in microseconds,
-- importances and confidences are millionths. The embedding, the attribution and the metadata but
-- for the bookkeeping of decay and of deduplication are carried along by every operation modelled, and are left out.
use Prim.Native.Nat.{Ordering}
use Prim.Native.String.{compare}
use mark_sdk.Prelude.{
  ℕ, ◌+◌, ◌*◌, String, Bool, false, Option, none, some, List, [], ◌∷◌, ◌||◌, if◌then◌else◌, ltb,
  is_some,
}
use mark_sdk.Types.Enums.{
  MemoryState, MemoryScope, MemoryTier, contradicted, can_transition_to, is_working_tier,
}

-- metadata["mark_decay"]
pub record DecayRecord : Type 0 where
  pub base_importance : ℕ
  pub last_decay_at : ℕ

pub record Fragment : Type 0 where
  pub content : String
  pub agent_id : String
  pub id : String
  pub block_id : Option String
  pub scope : MemoryScope
  pub tier : MemoryTier
  pub session_id : Option String
  pub importance : ℕ
  pub state : MemoryState
  pub confidence : ℕ
  pub ttl_seconds : Option ℕ
  pub created_at : ℕ
  pub updated_at : ℕ
  pub last_accessed_at : Option ℕ
  pub tags : List String
  pub source : Option String
  pub contradiction_ids : List String
  pub mark_decay : Option DecayRecord
  -- metadata["merged_from_ids"] and metadata["cluster_size"]
  pub merged_from_ids : List String
  pub cluster_size : Option ℕ

unfoldable pub is_working_memory : Fragment → Bool
is_working_memory f = is_some f.ttl_seconds || is_working_tier f.tier

-- (now - created_at).total_seconds() > ttl_seconds
unfoldable pub is_expired : ℕ → Fragment → Bool
is_expired now f = elim f.ttl_seconds [
  | none ↦ false
  | some ttl ↦ ltb (f.created_at + ttl * 1000000) now
]

-- ValueError, or the copy in the new state
unfoldable pub transition_to : MemoryState → ℕ → Fragment → Option Fragment
transition_to new_state now f =
    if can_transition_to f.state new_state
    then some (record f { state = new_state; updated_at = now })
    else none

-- sorted(set([*ids, other_id])), over a list that is sorted
unfoldable pub insert_id : String → List String → List String
insert_id i [] = i ∷ []
insert_id i (j ∷ js) = elim (compare i j) [
  | Ordering.lt ↦ i ∷ j ∷ js
  | Ordering.eq ↦ j ∷ js
  | Ordering.gt ↦ j ∷ insert_id i js
]

unfoldable pub sorted_set : List String → List String
sorted_set [] = []
sorted_set (i ∷ is) = insert_id i (sorted_set is)

unfoldable pub mark_contradicted : String → ℕ → Fragment → Fragment
mark_contradicted other_id now f = record f {
  state = contradicted;
  contradiction_ids = sorted_set (other_id ∷ f.contradiction_ids);
  updated_at = now;
}

unfoldable pub touch : ℕ → Fragment → Fragment
touch now f = record f { last_accessed_at = some now }
