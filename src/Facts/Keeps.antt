-- ===== src/Facts/Keeps.antt =====
-- `fact_set`, `fact_add` and `fact_remove` (src/mark/store/_sqlite/facts.py and facts_multi.py) and the
-- invariant of the table.
use mark_sdk.Prelude.{
  ℕ, String, ◌≡◌, refl, sym, ap, subst, ◌∙◌, Bool, true, false, Option, none, some, List, [], ◌∷◌,
  ◌++◌, arith, ◌==◌, ◌&&◌, inl, inr, Bool-cases, Option-cases, &&-eq-true, filter, filter-append,
  filter-filter, All-of, append-nil, All-sort_by, sort_by, IsFresh, HasUniqueKeys-append, leb,
  nat_eq, is_none, find?, get_last?,
}
use mark_sdk.Facts.Table.{
  Row, Table, Timeline, same_timeline, on_timeline, single, before, chain_rows, covers, open_at,
  set_valid_to, set_retracted, update_each, ids_of, HasUniqueIds,
}
use mark_sdk.Facts.Ops.{
  Codec, ok, ◌>>=◌, fact_by_id, new_row, insert_value, write_value, write_unless_latest, fact_set,
  fact_add, fact_remove,
}
use mark_sdk.Facts.Select.{
  same_time_rows, ended_by_set, retract_same_time, rechain_each, open_rows, is_blank_key,
}
use mark_sdk.Facts.Update.{Misses, update_each-HasUniqueIds, update_each-IsFresh}
use mark_sdk.Facts.Chain.{
  Chained, selected-Misses, single_of_off, on_timeline-disjoint, on_of_single,
}
use mark_sdk.Facts.Invariant.{
  IsValid, ChainedOutside, rechain_each-IsValid, id-set_valid_to, id-set_retracted, chain_rows-end,
  chain_rows-retract, single_of_multi,
}

-- A row outside a timeline, appended, is not in its chain.
pub chain_rows-append :
    (j : Timeline) (t : Table) (r : Row)
    → single j r ≡ false
    → chain_rows j (t ++ r ∷ []) ≡ chain_rows j t
chain_rows-append j t r h =
    let none_new : filter (single j) (r ∷ []) ≡ [] = rw h in
    ap (sort_by before) (
      filter-append (single j) t (r ∷ [])
      ∙ ap (◌++◌ (filter (single j) t)) none_new
      ∙ append-nil (filter (single j) t))

module _ (c : Codec) (k : Timeline) (encoded : String) (valid_from : ℕ) (source : Option String)
    (now : ℕ) (fact_id : String) where
  pub single-new_row :
      (multi : Bool) (j : Timeline)
      → same_timeline k j ≡ false
      → single j (new_row c k encoded valid_from source now multi fact_id) ≡ false
  unfolding single on_timeline new_row
  single-new_row multi j h = rw h

  insert_value-IsValid :
      (t : Table)
      → HasUniqueIds t
      → IsFresh (λ r. r.id) fact_id t
      → ChainedOutside (k ∷ []) t
      → IsValid (insert_value c k encoded valid_from source now fact_id t)
  unfolding insert_value rechain_each ended_by_set
  insert_value-IsValid t u fresh h =
      let r : Row = new_row c k encoded valid_from source now false fact_id in
      let inserted : Table = t ++ r ∷ [] in
      let u' : HasUniqueIds inserted =
        HasUniqueKeys-append (λ s. s.id) t r (unfold new_row in fresh) u in
      rechain_each-IsValid (k ∷ [])
        (update_each (ids_of (ended_by_set k valid_from inserted)) (set_valid_to (some valid_from))
          inserted)
        (update_each-HasUniqueIds (set_valid_to (some valid_from))
          (id-set_valid_to (some valid_from)) (ids_of (ended_by_set k valid_from inserted)) inserted
          u')
        (λ j out.
          subst Chained
            (sym (
              chain_rows-end j
                (λ s.
                  (on_timeline k s && (is_none s.retracted_at && covers valid_from s))
                  && s.multi_valued)
                (some valid_from) inserted u' (λ s e. single_of_multi j s (&&-eq-true _ _ e).1)
              ∙ chain_rows-append j t r (single-new_row false j (ground arith))))
            (h j out))

  -- What a successful write of the value leaves.
  write_value-eq :
      (t : Table) {fact : Row} {t' : Table}
      → write_value c k encoded valid_from source now fact_id t ≡ ok (fact, t')
      → insert_value c k encoded valid_from source now fact_id t ≡ t'
  unfolding write_value fact_by_id
  write_value-eq t h = ground arith

  retract_same_time-ChainedOutside :
      (t : Table) → IsValid t → ChainedOutside (k ∷ []) (retract_same_time k valid_from now t)
  unfolding retract_same_time same_time_rows
  retract_same_time-ChainedOutside t v j out =
      subst Chained
        (sym (
          chain_rows-retract j now (same_time_rows k valid_from t) t (
            All-sort_by (λ r s. leb r.recorded_at s.recorded_at) (λ r. Misses (single j) t r.id)
              (filter (λ r. single k r && nat_eq r.valid_from valid_from) t)
              (selected-Misses (λ r. single k r && nat_eq r.valid_from valid_from) (single j) t
                (All-of
                  (λ r. (single k r && nat_eq r.valid_from valid_from) ≡ true → single j r ≡ false)
                  (λ r e. single_of_off j r (
                    on_timeline-disjoint k j r (ground arith)
                      (on_of_single k r (&&-eq-true _ _ e).0)))
                  t)
                v.unique))))
        (v.chained j)

  retract_same_time-IsValid-insert :
      (t : Table)
      → IsValid t
      → IsFresh (λ r. r.id) fact_id t
      → IsValid (
          insert_value c k encoded valid_from source now fact_id
            (retract_same_time k valid_from now t))
  unfolding retract_same_time
  retract_same_time-IsValid-insert t v fresh =
      let ids : List String = ids_of (same_time_rows k valid_from t) in
      insert_value-IsValid (update_each ids (set_retracted now) t)
        (update_each-HasUniqueIds (set_retracted now) (id-set_retracted now) ids t v.unique)
        (update_each-IsFresh (set_retracted now) (id-set_retracted now) fact_id ids t fresh)
        (unfold retract_same_time in retract_same_time-ChainedOutside t v)

  reassert-eq :
      (t : Table) (i : String) {fact : Row} {t' : Table}
      → ◌>>=◌ {B = Row × Table} (fact_by_id c t i) (λ f. ok (f, t)) ≡ ok (fact, t')
      → t ≡ t'
  reassert-eq t i h = ground arith

  write_unless_latest-IsValid :
      (t : Table) (latest : Option Row) {fact : Row} {t' : Table}
      → IsValid t
      → IsFresh (λ r. r.id) fact_id t
      → write_unless_latest c k encoded valid_from source now fact_id t latest ≡ ok (fact, t')
      → IsValid t'
  unfolding write_unless_latest
  write_unless_latest-IsValid t none v fresh h =
      subst IsValid (write_value-eq t h)
        (insert_value-IsValid t v.unique fresh (λ j _. v.chained j))
  write_unless_latest-IsValid t (some row) v fresh h =
      elim (Bool-cases (c.decrypt_str row.value == encoded)) [
        | inl e ↦ subst IsValid (reassert-eq t row.id (rw e at h)) v
        | inr e ↦
            subst IsValid (write_value-eq t (rw e at h))
              (insert_value-IsValid t v.unique fresh (λ j _. v.chained j))
      ]

  -- From a table with unique ids whose single-valued timelines are gapless (each row ends where
  -- the next begins, the last is open), every fact_set that returns, with or without correction,
  -- leaves such a table, if the id that it draws is fresh.
  pub fact_set-IsValid :
      (correction : Bool) (t : Table) {fact : Row} {t' : Table}
      → IsValid t
      → IsFresh (λ r. r.id) fact_id t
      → fact_set c k encoded valid_from source correction now fact_id t ≡ ok (fact, t')
      → IsValid t'
  unfolding fact_set
  fact_set-IsValid correction t v fresh h = elim (Bool-cases (is_blank_key k)) [
    | inl e ↦ absurd (ground arith)
    | inr e ↦ elim (Bool-cases correction) [
      | inl d ↦
          subst IsValid (write_value-eq (retract_same_time k valid_from now t) (rw (e, d) at h))
            (retract_same_time-IsValid-insert t v fresh)
      | inr d ↦
          write_unless_latest-IsValid t (get_last? (same_time_rows k valid_from t)) v fresh
            (rw (e, d) at h)
    ]
  ]

  pub chain_rows-add :
      (t : Table)
      → IsValid t
      → IsFresh (λ r. r.id) fact_id t
      → IsValid (t ++ new_row c k encoded valid_from source now true fact_id ∷ [])
  chain_rows-add t v fresh =
      let r : Row = new_row c k encoded valid_from source now true fact_id in
      record {
        unique = HasUniqueKeys-append (λ s. s.id) t r (unfold new_row in fresh) v.unique;
        chained = λ j.
            subst Chained
              (sym (chain_rows-append j t r (single_of_multi j r (unfold new_row in refl))))
              (v.chained j);
      }

  -- Every fact_add that returns keeps the table valid, if the id that it draws is fresh: added
  -- values stay outside the chains.
  pub fact_add-IsValid :
      (t : Table) {fact : Row} {t' : Table}
      → IsValid t
      → IsFresh (λ r. r.id) fact_id t
      → fact_add c k encoded valid_from source now fact_id t ≡ ok (fact, t')
      → IsValid t'
  unfolding fact_add
  fact_add-IsValid t v fresh h = elim (Bool-cases (is_blank_key k)) [
    | inl e ↦ absurd (ground arith)
    | inr e ↦
        elim (Option-cases
          (find? (λ r. c.decrypt_str r.value == encoded) (open_rows k valid_from t))) [
            | inl d ↦ subst IsValid (ground arith) (chain_rows-add t v fresh)
            | inr (row, d) ↦ subst IsValid (reassert-eq t row.id (rw (e, d) at h)) v
          ]
  ]

-- fact_remove keeps the table valid: ending added values leaves every chain and id as it was.
pub fact_remove-IsValid :
    (c : Codec) (k : Timeline) (encoded : String) (stamp : ℕ) (t : Table)
    → IsValid t
    → IsValid (fact_remove c k encoded stamp t).1
unfolding fact_remove open_rows
fact_remove-IsValid c k encoded stamp t v =
    let q : Row → Bool = λ r. on_timeline k r && (is_none r.retracted_at && open_at stamp r) in
    let p : Row → Bool = λ r. r.multi_valued && (c.decrypt_str r.value == encoded) in
    rw (filter-filter p q t) (record {
      unique =
          update_each-HasUniqueIds (set_valid_to (some stamp)) (id-set_valid_to (some stamp))
            (ids_of (filter (λ r. q r && p r) t)) t v.unique;
      chained = λ j.
          subst Chained
            (sym (
              chain_rows-end j (λ r. q r && p r) (some stamp) t v.unique
                (λ r e. single_of_multi j r (&&-eq-true _ _ (&&-eq-true _ _ e).1).0)))
            (v.chained j);
    })
