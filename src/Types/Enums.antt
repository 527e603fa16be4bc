-- ===== src/Types/Enums.antt =====
-- The enums of src/mark/types/memory_enums.py and the table of state transitions.
use mark_sdk.Prelude.{Bool, true, false, List, [], ◌∷◌, any}

pub data MemoryState : Type 0 where
  raw unverified verified promoted contradicted quarantined : MemoryState

pub data MemoryScope : Type 0 where
  session agent user global : MemoryScope

pub data MemoryTier : Type 0 where
  working episodic semantic procedural global : MemoryTier

pub data BlockStatus : Type 0 where
  opened sealed quarantined : BlockStatus

abbrev pub state_eq : MemoryState → MemoryState → Bool
state_eq raw raw = true
state_eq unverified unverified = true
state_eq verified verified = true
state_eq promoted promoted = true
state_eq contradicted contradicted = true
state_eq MemoryState.quarantined MemoryState.quarantined = true
state_eq _ _ = false

abbrev pub is_working_tier : MemoryTier → Bool
is_working_tier working = true
is_working_tier _ = false

abbrev pub is_open : BlockStatus → Bool
is_open opened = true
is_open _ = false

abbrev pub is_sealed_status : BlockStatus → Bool
is_sealed_status sealed = true
is_sealed_status _ = false

-- MemoryState.TRANSITIONS
unfoldable pub transitions : MemoryState → List MemoryState
transitions raw = unverified ∷ contradicted ∷ []
transitions unverified = verified ∷ contradicted ∷ []
transitions verified = promoted ∷ contradicted ∷ MemoryState.quarantined ∷ []
transitions promoted = contradicted ∷ MemoryState.quarantined ∷ []
transitions contradicted = unverified ∷ []
transitions MemoryState.quarantined = unverified ∷ []

unfoldable pub can_transition_to : MemoryState → MemoryState → Bool
unfolding transitions
can_transition_to state new_state = any (state_eq new_state) (transitions state)
