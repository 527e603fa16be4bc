-- ===== src/Learning/Safety.antt =====
-- `SafetyConstraintLayer` (src/mark/rl/safety.py). A delta is in millionths and has a sign.
use mark_sdk.Prelude.{
  ℕ, String, ◌≡◌, refl, sym, ◌∙◌, Bool, true, false, none, some, ◌&&◌, ◌||◌, ◌==◌, eq_refl, ◌≤◌,
  min, inl, inr, Bool-cases, Option-cases, is_some, if◌then◌else◌, Dict, dict_get, dict_put,
  dict_get-dict_put, arith, some_eq,
}

pub data ℤ : Type 0 where
  pos : ℕ → ℤ
  negsuc : ℕ → ℤ

pub record RlAction : Type 0 where
  pub policy : String
  pub consolidation_decision : String
  pub gov_override_attempt : Bool
  pub edge_weight_delta : ℤ
  pub hook_mask : Dict Bool

-- max(0.0, min(1.0, edge_delta))
unfoldable pub clamp : ℤ → ℤ
clamp (pos n) = pos (min 1000000 n)
clamp (negsuc n) = pos 0

-- if h in hook_mask: hook_mask[h] = True
unfoldable pub force_hook : String → Dict Bool → Dict Bool
force_hook h mask = if is_some (dict_get h mask) then dict_put h true mask else mask

abbrev pub is_promotion : String → Bool
is_promotion decision = (decision == "APPROVE") || (decision == "PROMOTE")

unfoldable pub decide : Bool → String → String
decide override decision = if override && is_promotion decision then "QUARANTINE" else decision

-- An action that is safe is returned itself: the same values.
unfoldable pub filter_action : RlAction → RlAction
filter_action a = record a {
  consolidation_decision = decide a.gov_override_attempt a.consolidation_decision;
  edge_weight_delta = clamp a.edge_weight_delta;
  hook_mask = force_hook "failure_filter" (force_hook "validation_gate" a.hook_mask);
}

-- The three guarantees.
unfoldable pub IsSafe : RlAction → Type 0
IsSafe a =
    (a.gov_override_attempt ≡ true → is_promotion a.consolidation_decision ≡ false)
    × (((n : ℕ) × ((a.edge_weight_delta ≡ pos n) × (n ≤ 1000000)))
        × (((b : Bool) → dict_get "validation_gate" a.hook_mask ≡ some b → b ≡ true)
            × ((b : Bool) → dict_get "failure_filter" a.hook_mask ≡ some b → b ≡ true)))

decide-safe :
    (override : Bool) (decision : String)
    → override ≡ true
    → is_promotion (decide override decision) ≡ false
unfolding decide
decide-safe override decision o = elim (Bool-cases (is_promotion decision)) [
  | inl y ↦ rw (o, y) refl
  | inr n ↦ rw (o, n) n
]

clamp-le : (d : ℤ) → (n : ℕ) × ((clamp d ≡ pos n) × (n ≤ 1000000))
unfolding clamp
clamp-le (pos n) = (min 1000000 n, (refl, omega arith))
clamp-le (negsuc n) = (0, (refl, omega arith))

dict_get-force_hook :
    (h j : String) (mask : Dict Bool)
    → dict_get j (force_hook h mask)
      ≡ (if (h == j) && is_some (dict_get h mask) then some true else dict_get j mask)
unfolding force_hook
dict_get-force_hook h j mask = elim (Bool-cases (is_some (dict_get h mask))) [
  | inl y ↦ rw y (
      dict_get-dict_put h j true mask
      ∙ elim (Bool-cases (h == j)) [ inl e ↦ rw e refl | inr n ↦ rw n refl ])
  | inr n ↦ rw n (elim (Bool-cases (h == j)) [ inl e ↦ rw e refl | inr n ↦ rw n refl ])
]

force_hook-forces :
    (h : String) (mask : Dict Bool) (b : Bool) → dict_get h (force_hook h mask) ≡ some b → b ≡ true
force_hook-forces h mask b e = elim (Option-cases (dict_get h mask)) [
  | inl n ↦
      let gone : dict_get h (force_hook h mask) ≡ none =
        dict_get-force_hook h h mask ∙ rw (n, eq_refl h) refl in
      absurd (cc (gone, e))
  | inr (c, found) ↦
      let there : dict_get h (force_hook h mask) ≡ some true =
        dict_get-force_hook h h mask ∙ rw (found, eq_refl h) refl in
      sym (some_eq true b (sym there ∙ e))
]

force_hook-keeps :
    (h j : String) (mask : Dict Bool)
    → (h == j) ≡ false
    → dict_get j (force_hook h mask) ≡ dict_get j mask
force_hook-keeps h j mask n = dict_get-force_hook h j mask ∙ rw n refl

-- The filter makes every action safe: after an override attempt the decision is no approval or
-- promotion, the edge weight delta is between 0 and 1, and a mandatory governance hook that the
-- mask names is on.
pub filter_action-IsSafe : (a : RlAction) → IsSafe (filter_action a)
unfolding filter_action IsSafe
filter_action-IsSafe a = (
  (λ o. decide-safe a.gov_override_attempt a.consolidation_decision o),
  (
    clamp-le a.edge_weight_delta,
    (
      (λ b e. force_hook-forces "validation_gate" a.hook_mask b (
          sym (
            force_hook-keeps "failure_filter" "validation_gate"
              (force_hook "validation_gate" a.hook_mask) refl)
          ∙ e)),
      (λ b e. force_hook-forces "failure_filter" (force_hook "validation_gate" a.hook_mask) b e),
    ),
  ),
)
