-- ===== src/Timeline/Order.antt =====
-- The two-clock rule (src/mark/memory/timeline_order.py). Times are UTC instants in microseconds.
-- The source sorts positions, so that equal items stay apart; no test compares two positions, and
-- the lists of positions are here the lists of the items at them.
use mark_sdk.Prelude.{
  ℕ, Bool, Option, none, some, List, [], ◌∷◌, ◌++◌, not, ◌&&◌, ◌||◌, max, map, ltb, leb, nat_eq,
  is_some, filter, sort_by,
}

-- The positions' bases BASIS_DECLARED, BASIS_AFTER_DATED, BASIS_UNKNOWN and BASIS_STORED.
pub data Basis : Type 0 where
  declared stored_after_dated unknown stored : Basis

-- max of a list that is not empty; 0 for the empty one.
unfoldable pub max_of : List ℕ → ℕ
max_of [] = 0
max_of (n ∷ ns) = max n (max_of ns)

module _ {ℓ} {T : Type ℓ} where
  unfoldable pub is_dated : (T → Option ℕ) → T → Bool
  is_dated when x = is_some (when x)

  -- The declared time of a dated item.
  unfoldable pub declared_at : (T → Option ℕ) → T → ℕ
  declared_at when x = elim (when x) [ none ↦ 0 | some n ↦ n ]

  -- The sort keys (declared, stored) and stored.
  unfoldable pub dated_le : (T → Option ℕ) → (T → ℕ) → T → T → Bool
  dated_le when store x y =
      ltb (declared_at when x) (declared_at when y)
      || (nat_eq (declared_at when x) (declared_at when y) && leb (store x) (store y))

  unfoldable pub stored_le : (T → ℕ) → T → T → Bool
  stored_le store x y = leb (store x) (store y)

  unfoldable pub with_basis : (T → ℕ) → List T → List T → List (T × Basis)
  with_basis store [] undated = map (λ x. (x, stored)) undated
  with_basis store (d ∷ ds) undated =
      let last_dated_store : ℕ = max_of (map store (d ∷ ds)) in
      map (λ x. (x, declared)) (d ∷ ds)
      ++ (map (λ x. (x, unknown)) (filter (λ x. leb (store x) last_dated_store) undated)
          ++ map (λ x. (x, stored_after_dated))
              (filter (λ x. ltb last_dated_store (store x)) undated))

  unfoldable pub two_clock_order : (T → Option ℕ) → (T → ℕ) → List T → List (T × Basis)
  two_clock_order when store items =
      with_basis store (sort_by (dated_le when store) (filter (is_dated when) items))
        (sort_by (stored_le store) (filter (λ x. not (is_dated when x)) items))
