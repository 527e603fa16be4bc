-- ===== src/Learning/Tests.antt =====
-- A policy that tries to get round the gates, and a replay buffer of two.
use mark_sdk.Prelude.{false, true, [], ◌∷◌, ℕ, ◌≡◌, refl, some, ◌-◌, drop}
use mark_sdk.Learning.Safety.{RlAction, pos, filter_action, IsSafe, filter_action-IsSafe}
use mark_sdk.Learning.Buffer.{ReplayBuffer, new_buffer, push, push_all}
use mark_sdk.Learning.Window.{IsRotation, push_all-IsRotation}

abbrev pushy : RlAction
pushy = record {
  policy = "FAST";
  consolidation_decision = "APPROVE";
  gov_override_attempt = true;
  edge_weight_delta = pos 3000000;
  hook_mask = ("validation_gate", false) ∷ [];
}

filter_action-IsSafe_example : IsSafe (filter_action pushy)
filter_action-IsSafe_example = filter_action-IsSafe pushy

abbrev buffer_of_two : ReplayBuffer ℕ
buffer_of_two = record { capacity = 2; buffer = []; pos = 0 }

third_overwrites_first : (push_all (1 ∷ 2 ∷ 3 ∷ []) buffer_of_two).buffer ≡ 3 ∷ 2 ∷ []
unfolding push_all push
third_overwrites_first = refl

new_of_two : new_buffer 2 ≡ some buffer_of_two
unfolding new_buffer
new_of_two = refl

push_all-IsRotation_example :
    IsRotation (push_all (1 ∷ 2 ∷ 3 ∷ []) buffer_of_two).buffer (drop (3 - 2) (1 ∷ 2 ∷ 3 ∷ []))
push_all-IsRotation_example = push_all-IsRotation 2 buffer_of_two (1 ∷ 2 ∷ 3 ∷ []) new_of_two
