-- ===== src/Types/Lifecycle.antt =====
-- The life of a fragment under `transition_to` and `mark_contradicted`
-- (src/mark/types/memory_fragment.py), as a step relation.
use mark_sdk.Prelude.{
  ℕ, String, ◌≡◌, refl, subst, ◌∙◌, Bool, true, false, some, List, [], ◌∷◌, arith, ◌==◌, eq_iff,
  any, ◌⊎◌, inl, inr, ◌||◌,
}
use mark_sdk.Types.Enums.{
  MemoryState, raw, verified, promoted, quarantined, can_transition_to, state_eq,
}
use mark_sdk.Types.Fragment.{
  Fragment, transition_to, mark_contradicted, touch, insert_id, sorted_set,
}

pub data Step : Fragment → Fragment → Type 0 where
  transition :
      (f : Fragment) {g : Fragment} (new_state : MemoryState) (now : ℕ)
      → transition_to new_state now f ≡ some g
      → Step f g
  contradict :
      (f : Fragment) (other_id : String) (now : ℕ) → Step f (mark_contradicted other_id now f)
  read : (f : Fragment) (now : ℕ) → Step f (touch now f)

pub data Life (f : Fragment) : Fragment → Type 0 where
  born : Life f f
  next : {g h : Fragment} → Life f g → Step g h → Life f h

-- The states in which a life has been, the present one first.
unfoldable pub states_of : {f g : Fragment} → Life f g → List MemoryState
states_of {f} born = f.state ∷ []
states_of (next {h = h} l s) = h.state ∷ states_of l

state_after_transition :
    (f g : Fragment) (new_state : MemoryState) (now : ℕ)
    → transition_to new_state now f ≡ some g
    → (can_transition_to f.state new_state ≡ true) × (g.state ≡ new_state)
unfolding transition_to
state_after_transition f g new_state now h = ground arith

-- The states that are reached from `verified` only.
abbrev pub is_vetted : MemoryState → Bool
is_vetted promoted = true
is_vetted quarantined = true
is_vetted _ = false

before_vetted :
    (s t : MemoryState)
    → can_transition_to s t ≡ true
    → is_vetted t ≡ true
    → (s ≡ verified) ⊎ (is_vetted s ≡ true)
unfolding can_transition_to
before_vetted s t h v = ground arith

state_eq_refl : (s : MemoryState) → state_eq s s ≡ true
state_eq_refl s = ground arith

present : {f g : Fragment} (l : Life f g) → any (state_eq g.state) (states_of l) ≡ true
unfolding states_of
present {f} born = rw (state_eq_refl f.state)
present (next {h = h} l s) = rw (state_eq_refl h.state)

Step-vetted :
    {f g : Fragment}
    → Step f g
    → is_vetted g.state ≡ true
    → (f.state ≡ verified) ⊎ (is_vetted f.state ≡ true)
Step-vetted (transition f {g} new_state now h) v =
    let (can, is_new) = state_after_transition f g new_state now h in
    before_vetted f.state new_state can (rw (← is_new) v)
Step-vetted (contradict f other_id now) v = absurd (unfold mark_contradicted in ground arith)
Step-vetted (read f now) v = unfold touch in inr v

-- In every sequence of transition_to, mark_contradicted and touch from a raw fragment that ends
-- promoted or quarantined, the fragment has been verified on the way.
pub vetted_was_verified :
    {f g : Fragment} (l : Life f g)
    → f.state ≡ raw
    → is_vetted g.state ≡ true
    → any (state_eq verified) (states_of l) ≡ true
unfolding states_of
vetted_was_verified born start v = absurd (ground arith)
vetted_was_verified (next {h = h} l s) start v = elim (Step-vetted s v) [
  | inl e ↦ ground (arith, subst (λ t. any (state_eq t) (states_of l) ≡ true) e (present l))
  | inr w ↦ ground (arith, vetted_was_verified l start w)
]

insert_id-has :
    (j i : String) (is : List String)
    → any (λ k. k == j) (insert_id i is) ≡ ((i == j) || any (λ k. k == j) is)
unfolding insert_id
insert_id-has j i [] = refl
insert_id-has j i (k ∷ is) =
    ground (arith, insert_id-has j i is, eq_iff i k, eq_iff i j, eq_iff k j)

sorted_set-has :
    (j : String) (is : List String) → any (λ k. k == j) (sorted_set is) ≡ any (λ k. k == j) is
unfolding sorted_set
sorted_set-has j [] = refl
sorted_set-has j (i ∷ is) = insert_id-has j i (sorted_set is) ∙ rw (sorted_set-has j is)

-- After mark_contradicted an id is flagged exactly when it is the new one or was flagged before.
pub mark_contradicted-ids :
    (f : Fragment) (other_id j : String) (now : ℕ)
    → any (λ k. k == j) (mark_contradicted other_id now f).contradiction_ids
      ≡ ((other_id == j) || any (λ k. k == j) f.contradiction_ids)
unfolding mark_contradicted
mark_contradicted-ids f other_id j now = sorted_set-has j (other_id ∷ f.contradiction_ids)
