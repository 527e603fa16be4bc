-- ===== src/Facts/Retracts.antt =====
-- `fact_retract` (src/mark/store/_sqlite/facts.py) and the invariant of the table.
use mark_sdk.Prelude.{
  ℕ, String, ◌≡◌, sym, subst, Bool, true, false, Option, List, [], ◌∷◌, map, arith, ◌==◌, inl, inr,
  if◌then◌else◌, Bool-cases, eq_iff, eq_of_eq_true, false_of_both, filter, All-of_filter,
  any-map_of_imp, any, All, All-imp, eq_refl,
}
use mark_sdk.Facts.Table.{
  Row, Table, Timeline, same_timeline, single, set_retracted, update_each, ids_of,
}
use mark_sdk.Facts.Ops.{Codec, fact_retract, is_retracted_by}
use mark_sdk.Facts.Select.{distinct_keys}
use mark_sdk.Facts.Update.{update_each-HasUniqueIds}
use mark_sdk.Facts.Chain.{Chained, selected-Misses}
use mark_sdk.Facts.Invariant.{IsValid, rechain_each-IsValid, id-set_retracted, chain_rows-retract}

any-add :
    (p : String → Bool) (b : Bool) (a : String) (keys : List String)
    → any p keys ≡ true
    → any p (if b then keys else a ∷ keys) ≡ true
any-add p b a keys h = ground arith

-- Every selected row's attribute is among those that are re-chained.
distinct_keys_complete :
    (rs : List Row) → All (λ r. any (λ a. a == r.attribute_key) (distinct_keys rs) ≡ true) rs
unfolding distinct_keys
distinct_keys_complete [] = tt
distinct_keys_complete (r ∷ rs) = (
  ground (arith, eq_refl r.attribute_key),
  All-imp (λ s. any (λ a. a == s.attribute_key) (distinct_keys rs) ≡ true)
      (λ s. any (λ a. a == s.attribute_key) (distinct_keys (r ∷ rs)) ≡ true)
      (λ s.
        any-add (λ a. a == s.attribute_key) (any (λ a. a == r.attribute_key) (distinct_keys rs))
          r.attribute_key (distinct_keys rs))
      rs (distinct_keys_complete rs),
)

-- `fact_retract` keeps the invariant: the neighbours of the retracted rows take their intervals over.
module _ (c : Codec) (agent_id subject_key : String) (attribute_key : Option String)
    (value : Option (String × String)) where
  timeline_of : String → Timeline
  timeline_of a = record { agent_id = agent_id; subject_key = subject_key; attribute_key = a }

  covered-same :
      (j : Timeline) (r : Row) (a : String)
      → is_retracted_by c agent_id subject_key attribute_key value r ≡ true
      → single j r ≡ true
      → (a == r.attribute_key) ≡ true
      → same_timeline (timeline_of a) j ≡ true
  unfolding is_retracted_by single timeline_of
  covered-same j r a q e d = ground (
    arith,
    eq_of_eq_true r.agent_id agent_id j.agent_id,
    eq_of_eq_true r.subject_key subject_key j.subject_key,
    eq_of_eq_true r.attribute_key a j.attribute_key,
    eq_iff a r.attribute_key,
    eq_iff r.attribute_key a,
  )

  retracted-off :
      (j : Timeline) (keys : List String) (r : Row)
      → any (λ k. same_timeline k j) (map timeline_of keys) ≡ false
      → is_retracted_by c agent_id subject_key attribute_key value r ≡ true
      → any (λ a. a == r.attribute_key) keys ≡ true
      → single j r ≡ false
  retracted-off j keys r out q h = elim (Bool-cases (single j r)) [
    | inr e ↦ e
    | inl e ↦ absurd (
        false_of_both out (
          any-map_of_imp (λ a. a == r.attribute_key) (λ k. same_timeline k j) timeline_of keys
            (λ a d. covered-same j r a q e d) h))
  ]

  -- fact_retract, for any attribute and value filter, keeps the table valid: ids unique and every
  -- single-valued timeline gapless, the neighbours having taken over the retracted intervals.
  pub fact_retract-IsValid :
      (now : ℕ) (t : Table)
      → IsValid t
      → IsValid (fact_retract c agent_id subject_key attribute_key value now t).1
  unfolding fact_retract timeline_of
  fact_retract-IsValid now t v =
      let q : Row → Bool = is_retracted_by c agent_id subject_key attribute_key value in
      let rows : List Row = filter q t in
      rechain_each-IsValid (map timeline_of (distinct_keys rows))
        (update_each (ids_of rows) (set_retracted now) t)
        (update_each-HasUniqueIds (set_retracted now) (id-set_retracted now) (ids_of rows) t
          v.unique)
        (λ j out.
          subst Chained
            (sym (
              chain_rows-retract j now rows t (
                selected-Misses q (single j) t
                  (All-imp
                    (λ r. q r ≡ true → any (λ a. a == r.attribute_key) (distinct_keys rows) ≡ true)
                    (λ r. q r ≡ true → single j r ≡ false)
                    (λ r f e. retracted-off j (distinct_keys rows) r out e (f e)) t
                    (All-of_filter
                      (λ r. any (λ a. a == r.attribute_key) (distinct_keys rows) ≡ true) q t
                      (distinct_keys_complete rows)))
                  v.unique)))
            (v.chained j))
