-- ===== src/Types/Tests.antt =====
-- Lives of a fragment.
use mark_sdk.Prelude.{◌≡◌, refl, true, none, [], ◌∷◌, any, ◌==◌, ◌||◌}
use mark_sdk.Types.Enums.{
  MemoryScope, MemoryTier, raw, unverified, verified, promoted, can_transition_to, state_eq,
}
use mark_sdk.Types.Fragment.{Fragment, transition_to, mark_contradicted}
use mark_sdk.Types.Lifecycle.{
  Life, born, next, transition, states_of, vetted_was_verified, mark_contradicted-ids,
}

abbrev note : Fragment
note = record {
  content = "Scene 47";
  agent_id = "director";
  id = "m1";
  block_id = none;
  scope = MemoryScope.agent;
  tier = MemoryTier.episodic;
  session_id = none;
  importance = 500000;
  state = raw;
  confidence = 1000000;
  ttl_seconds = none;
  created_at = 10;
  updated_at = 10;
  last_accessed_at = none;
  tags = [];
  source = none;
  contradiction_ids = "m3" ∷ [];
  mark_decay = none;
  merged_from_ids = [];
  cluster_size = none;
}

abbrev promoted_note : Fragment
promoted_note = record note { state = promoted; updated_at = 13 }

promotion : Life note promoted_note
unfolding transition_to can_transition_to
promotion =
    next
      (next (next born (transition note unverified 11 refl))
        (transition (record note { state = unverified; updated_at = 11 }) verified 12 refl))
      (transition (record note { state = verified; updated_at = 12 }) promoted 13 refl)

vetted_was_verified_example : any (state_eq verified) (states_of promotion) ≡ true
vetted_was_verified_example = vetted_was_verified promotion refl refl

raw_is_not_promoted : transition_to promoted 11 note ≡ none
unfolding transition_to can_transition_to
raw_is_not_promoted = refl

flagged_twice :
    any (λ k. k == "m3") (mark_contradicted "m2" 12 note).contradiction_ids
    ≡ (("m2" == "m3") || any (λ k. k == "m3") note.contradiction_ids)
flagged_twice = mark_contradicted-ids note "m2" "m3" 12
