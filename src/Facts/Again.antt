-- ===== src/Facts/Again.antt =====
-- Re-asserting a fact: `fact_set` of src/mark/store/_sqlite/facts.py after the same `fact_set`.
use mathlib.Core.Option
use mark_sdk.Prelude.{
  ℕ, String, ◌≡◌, refl, sym, ap, subst, ◌∙◌, Bool, true, false, Option, none, some, List, [], ◌∷◌,
  ◌++◌, map, arith, ◌&&◌, ◌==◌, eq_refl, leb, nat_eq, inl, inr, if◌then◌else◌, Bool-cases, some_eq,
  filter, filter-append, All, All-filter, sort_by, sort_by-map, sort_by-append_last, get_last?,
  get_last?-map, get_last?-append,
}
use mark_sdk.Facts.Table.{
  Row, Table, Timeline, on_timeline, single, update, set_valid_to, update_each, ids_of, chain_rows,
}
use mark_sdk.Facts.Select.{
  chain_updates, apply_updates, rechain_facts, same_time_rows, ended_by_set, is_blank_key,
}
use mark_sdk.Facts.Ops.{Codec, ok, new_row, insert_value, fact_set}
use mark_sdk.Facts.Update.{map-update, filter-update}
use mark_sdk.Facts.Writes.{
  stored_table, table_after, fact_set-total, fact_set-table, fact_set-blank,
}

module _ (k : Timeline) (valid_from : ℕ) where
  values_at : Table → List String
  values_at t = map (λ r. r.value) (same_time_rows k valid_from t)

  end_row : String → Option ℕ → Row → Row
  end_row i end r = if r.id == i then set_valid_to end r else r

  recorded_before : Row → Row → Bool
  recorded_before r s = leb r.recorded_at s.recorded_at

  recorded_before-end_row :
      (i : String) (end : Option ℕ) (r s : Row)
      → recorded_before (end_row i end r) (end_row i end s) ≡ recorded_before r s
  unfolding recorded_before end_row set_valid_to
  recorded_before-end_row i end r s = elim (Bool-cases (r.id == i)) [
    | inl e ↦ elim (Bool-cases (s.id == i)) [ inl d ↦ rw (e, d) | inr d ↦ rw (e, d) ]
    | inr e ↦ elim (Bool-cases (s.id == i)) [ inl d ↦ rw (e, d) | inr d ↦ rw (e, d) ]
  ]

  at_start : Row → Bool
  at_start r = single k r && nat_eq r.valid_from valid_from

  at_start-set_valid_to : (end : Option ℕ) (r : Row) → at_start (set_valid_to end r) ≡ at_start r
  unfolding at_start single set_valid_to
  at_start-set_valid_to end r = refl

  same_time_rows-update :
      (i : String) (end : Option ℕ) (t : Table)
      → same_time_rows k valid_from (update i (set_valid_to end) t)
        ≡ update i (set_valid_to end) (same_time_rows k valid_from t)
  unfolding same_time_rows update end_row recorded_before at_start
  same_time_rows-update i end t =
      ap (sort_by recorded_before)
        (filter-update (set_valid_to end) at_start (at_start-set_valid_to end) i t)
      ∙ sort_by-map recorded_before (end_row i end) (recorded_before-end_row i end)
          (filter at_start t)

  values_at-update :
      (i : String) (end : Option ℕ) (t : Table)
      → values_at (update i (set_valid_to end) t) ≡ values_at t
  unfolding values_at
  values_at-update i end t =
      ap (map (λ r. r.value)) (same_time_rows-update i end t)
      ∙ map-update (λ r. r.value) (set_valid_to end) (unfold set_valid_to in λ r. refl) i
          (same_time_rows k valid_from t)

  values_at-update_each :
      (ids : List String) (end : Option ℕ) (t : Table)
      → values_at (update_each ids (set_valid_to end) t) ≡ values_at t
  unfolding update_each
  values_at-update_each [] end t = refl
  values_at-update_each (i ∷ ids) end t =
      values_at-update_each ids end (update i (set_valid_to end) t) ∙ values_at-update i end t

  values_at-apply_updates :
      (us : List (String × Option ℕ)) (t : Table) → values_at (apply_updates us t) ≡ values_at t
  unfolding apply_updates
  values_at-apply_updates [] t = refl
  values_at-apply_updates ((i, end) ∷ us) t =
      values_at-apply_updates us (update i (set_valid_to end) t) ∙ values_at-update i end t

  -- A row recorded last is the last of the rows with its start.
  last_value :
      (t : Table) (r : Row)
      → at_start r ≡ true
      → All (λ s. leb s.recorded_at r.recorded_at ≡ true) t
      → get_last? (values_at (t ++ r ∷ [])) ≡ some r.value
  unfolding values_at same_time_rows at_start recorded_before
  last_value t r here h =
      let one : filter at_start (r ∷ []) ≡ r ∷ [] = rw here in
      get_last?-map (λ s. s.value) (same_time_rows k valid_from (t ++ r ∷ []))
      ∙ ap (λ rows. Option.map (λ s. s.value) (get_last? (sort_by recorded_before rows)))
          (filter-append at_start t (r ∷ []) ∙ ap (◌++◌ (filter at_start t)) one)
      ∙ ap (λ rows. Option.map (λ s. s.value) (get_last? rows))
          (sort_by-append_last recorded_before r (filter at_start t)
            (All-filter (λ s. leb s.recorded_at r.recorded_at ≡ true) at_start t h))
      ∙ ap (Option.map (λ s. s.value))
          (get_last?-append (sort_by recorded_before (filter at_start t)) r)

module _ (c : Codec) (k : Timeline) (encoded : String) (valid_from : ℕ) (source : Option String)
    (now : ℕ) (fact_id : String) (t : Table) where
  stored_table-none :
      insert_value c k encoded valid_from source now fact_id t
      ≡ stored_table c k encoded valid_from source now fact_id none t
  unfolding stored_table
  stored_table-none = refl

  stored_table-ne :
      (row : Row)
      → (c.decrypt_str row.value == encoded) ≡ false
      → insert_value c k encoded valid_from source now fact_id t
        ≡ stored_table c k encoded valid_from source now fact_id (some row) t
  unfolding stored_table
  stored_table-ne row d = rw d

  stored_table-eq :
      (row : Row)
      → (c.decrypt_str row.value == encoded) ≡ true
      → t ≡ stored_table c k encoded valid_from source now fact_id (some row) t
  unfolding stored_table
  stored_table-eq row d = rw d

module _ (c : Codec) (k : Timeline) (encoded : String) (valid_from : ℕ)
    (law : c.decrypt_str (c.encrypt_str encoded) ≡ encoded) where
  stored_table-same :
      (source : Option String) (now : ℕ) (fact_id : String) (latest : Option Row) (t : Table)
      → Option.map (λ r. r.value) latest ≡ some (c.encrypt_str encoded)
      → stored_table c k encoded valid_from source now fact_id latest t ≡ t
  unfolding stored_table
  stored_table-same source now fact_id none t h = absurd (ground arith)
  stored_table-same source now fact_id (some row) t h =
      rw (some_eq row.value (c.encrypt_str encoded) h, law, eq_refl)

  new_row-at_start :
      (source : Option String) (now : ℕ) (fact_id : String)
      → at_start k valid_from (new_row c k encoded valid_from source now false fact_id) ≡ true
  unfolding at_start single on_timeline new_row
  new_row-at_start source now fact_id =
      ground (arith, eq_refl k.agent_id, eq_refl k.subject_key, eq_refl k.attribute_key)

  values_at-insert_value :
      (source : Option String) (now : ℕ) (fact_id : String) (t : Table)
      → All (λ r. leb r.recorded_at now ≡ true) t
      → get_last?
          (values_at k valid_from (insert_value c k encoded valid_from source now fact_id t))
        ≡ some (c.encrypt_str encoded)
  unfolding insert_value rechain_facts new_row
  values_at-insert_value source now fact_id t h =
      let r : Row = new_row c k encoded valid_from source now false fact_id in
      let inserted : Table = t ++ r ∷ [] in
      let ids : List String = ids_of (ended_by_set k valid_from inserted) in
      let ended : Table = update_each ids (set_valid_to (some valid_from)) inserted in
      ap get_last? (
        values_at-apply_updates k valid_from (chain_updates (chain_rows k ended)) ended
        ∙ values_at-update_each k valid_from ids (some valid_from) inserted)
      ∙ last_value k valid_from t r (new_row-at_start source now fact_id) h

  module _ (source' : Option String) (now' : ℕ) (fact_id' : String) where
    -- What a second write leaves of the table.
    second : Table → Table
    second t =
        stored_table c k encoded valid_from source' now' fact_id'
          (get_last? (same_time_rows k valid_from t)) t

    module _ (source : Option String) (now : ℕ) (fact_id : String) (t : Table)
        (h : All (λ r. leb r.recorded_at now ≡ true) t) where
      second-insert_value :
          second (insert_value c k encoded valid_from source now fact_id t)
          ≡ insert_value c k encoded valid_from source now fact_id t
      unfolding second
      second-insert_value =
          let t' : Table = insert_value c k encoded valid_from source now fact_id t in
          stored_table-same source' now' fact_id' (get_last? (same_time_rows k valid_from t')) t' (
            sym (get_last?-map (λ r. r.value) (same_time_rows k valid_from t'))
            ∙ (unfold values_at in values_at-insert_value source now fact_id t h))

      second-same :
          (row : Row)
          → get_last? (same_time_rows k valid_from t) ≡ some row
          → (c.decrypt_str row.value == encoded) ≡ true
          → second t ≡ t
      unfolding second
      second-same row e d =
          rw e (sym (stored_table-eq c k encoded valid_from source' now' fact_id' t row d))

      second-stored_table :
          (latest : Option Row)
          → get_last? (same_time_rows k valid_from t) ≡ latest
          → second (stored_table c k encoded valid_from source now fact_id latest t)
            ≡ stored_table c k encoded valid_from source now fact_id latest t
      second-stored_table none e =
          subst (λ t'. second t' ≡ t')
            (stored_table-none c k encoded valid_from source now fact_id t) second-insert_value
      second-stored_table (some row) e = elim (Bool-cases (c.decrypt_str row.value == encoded)) [
        | inl d ↦
            subst (λ t'. second t' ≡ t')
              (stored_table-eq c k encoded valid_from source now fact_id t row d)
              (second-same row e d)
        | inr d ↦
            subst (λ t'. second t' ≡ t')
              (stored_table-ne c k encoded valid_from source now fact_id t row d)
              second-insert_value
      ]

  -- If decryption undoes encryption on the value and no row is recorded later than the clock, then
  -- after a fact_set without correction the same assertion, at any clock and with any id and
  -- source, succeeds and leaves the table unchanged.
  pub fact_set-again :
      (source : Option String) (now : ℕ) (fact_id : String) (t : Table) {fact : Row} {t' : Table}
      (source' : Option String) (now' : ℕ) (fact_id' : String)
      → All (λ r. leb r.recorded_at now ≡ true) t
      → fact_set c k encoded valid_from source false now fact_id t ≡ ok (fact, t')
      → (fact' : Row) × (fact_set c k encoded valid_from source' false now' fact_id' t'
          ≡ ok (fact', t'))
  fact_set-again source now fact_id t {t'} source' now' fact_id' h done =
      elim (Bool-cases (is_blank_key k)) [
        | inl e ↦ absurd (cc (fact_set-blank c k encoded valid_from source now fact_id false t e))
        | inr e ↦
            let left : t' ≡ table_after c k encoded valid_from source now fact_id false t =
              fact_set-table c k encoded valid_from source now fact_id false t done in
            let same : second source' now' fact_id' t' ≡ t' =
              subst (λ u. second source' now' fact_id' u ≡ u) (sym left)
                (unfold table_after in
                  second-stored_table source' now' fact_id' source now fact_id t h
                    (get_last? (same_time_rows k valid_from t)) refl) in
            let (fact', found) =
              fact_set-total c k encoded valid_from source' now' fact_id' false t' e in
            (fact', found ∙ (unfold table_after second in ap (λ u. ok (fact', u)) same))
      ]
