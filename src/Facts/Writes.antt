-- ===== src/Facts/Writes.antt =====
-- What `fact_set` (src/mark/store/_sqlite/facts.py) returns and writes.
use mark_sdk.Prelude.{
  ℕ, String, ◌≡◌, refl, ap, ◌∙◌, Bool, true, false, Option, none, some, List, [], ◌∷◌, ◌++◌, map,
  map-append, ◌&&◌, ◌==◌, eq_refl, leb, nat_eq, ◌⊎◌, inl, inr, if◌then◌else◌, Bool-cases, filter,
  All-filter, All-sort_by, All-get_last?, All-any_self, any, any-append, find?-of_any, get_last?,
}
use mark_sdk.Facts.Table.{
  Row, Table, Timeline, single, update, set_valid_to, set_retracted, update_each, ids_of,
  chain_rows,
}
use mark_sdk.Facts.Select.{
  chain_updates, apply_updates, rechain_facts, same_time_rows, ended_by_set, retract_same_time,
  is_blank_key,
}
use mark_sdk.Facts.Ops.{
  Codec, ok, raise, value_error, row_to_fact, fact_by_id, new_row, insert_value, write_value,
  write_unless_latest, fact_set,
}
use mark_sdk.Facts.Update.{map-update, map-update_each, update-has_id, update_each-has_id}
use mark_sdk.Facts.Invariant.{id-set_valid_to}

-- Re-chaining keeps what is read of the rows without their ends.
module _ {ℓ} {B : Type ℓ} (g : Row → B)
    (same : (end : Option ℕ) (r : Row) → g (set_valid_to end r) ≡ g r) where
  pub map-apply_updates :
      (us : List (String × Option ℕ)) (t : Table) → map g (apply_updates us t) ≡ map g t
  unfolding apply_updates
  map-apply_updates [] t = refl
  map-apply_updates ((i, end) ∷ us) t =
      map-apply_updates us (update i (set_valid_to end) t)
      ∙ map-update g (set_valid_to end) (same end) i t

apply_updates-has_id :
    (id : String) (us : List (String × Option ℕ)) (t : Table)
    → any (λ r. r.id == id) (apply_updates us t) ≡ any (λ r. r.id == id) t
unfolding apply_updates
apply_updates-has_id id [] t = refl
apply_updates-has_id id ((i, end) ∷ us) t =
    apply_updates-has_id id us (update i (set_valid_to end) t)
    ∙ update-has_id (set_valid_to end) (id-set_valid_to end) id i t

-- A row without the two fields that later writes may change.
unfoldable pub recorded : Row → Row
recorded r = record r { valid_to = none; retracted_at = none }

recorded-set_valid_to : (end : Option ℕ) (r : Row) → recorded (set_valid_to end r) ≡ recorded r
unfolding recorded set_valid_to
recorded-set_valid_to end r = refl

recorded-set_retracted : (now : ℕ) (r : Row) → recorded (set_retracted now r) ≡ recorded r
unfolding recorded set_retracted
recorded-set_retracted now r = refl

fact_by_id-total :
    (c : Codec) (id : String) (t : Table)
    → any (λ r. r.id == id) t ≡ true
    → (fact : Row) × (fact_by_id c t id ≡ ok fact)
unfolding fact_by_id
fact_by_id-total c id t h =
    let (r, found) = find?-of_any (λ r. r.id == id) t h in (row_to_fact c r, rw (found, fact_by_id))

module _ (c : Codec) (k : Timeline) (encoded : String) (valid_from : ℕ) (source : Option String)
    (now : ℕ) (fact_id : String) where
  has_id-insert_value :
      (t : Table)
      → any (λ r. r.id == fact_id) (insert_value c k encoded valid_from source now fact_id t) ≡ true
  unfolding insert_value rechain_facts
  has_id-insert_value t =
      let inserted : Table = t ++ new_row c k encoded valid_from source now false fact_id ∷ [] in
      let ids : List String = ids_of (ended_by_set k valid_from inserted) in
      let ended : Table = update_each ids (set_valid_to (some valid_from)) inserted in
      apply_updates-has_id fact_id (chain_updates (chain_rows k ended)) ended
      ∙ update_each-has_id (set_valid_to (some valid_from)) (id-set_valid_to (some valid_from))
          fact_id ids inserted
      ∙ any-append (λ r. r.id == fact_id) t
          (new_row c k encoded valid_from source now false fact_id ∷ [])
          (unfold new_row in rw eq_refl)

  write_value-total :
      (t : Table)
      → (fact : Row) × (write_value c k encoded valid_from source now fact_id t
          ≡ ok (fact, insert_value c k encoded valid_from source now fact_id t))
  unfolding write_value
  write_value-total t =
      let t' : Table = insert_value c k encoded valid_from source now fact_id t in
      let (fact, found) = fact_by_id-total c fact_id t' (has_id-insert_value t) in (fact, rw found)

  same_time-has_id :
      (t : Table) (row : Row)
      → get_last? (same_time_rows k valid_from t) ≡ some row
      → any (λ r. r.id == row.id) t ≡ true
  unfolding same_time_rows
  same_time-has_id t row h =
      All-get_last? (λ x. any (λ r. r.id == x.id) t ≡ true) (same_time_rows k valid_from t) row
        (All-sort_by (λ r s. leb r.recorded_at s.recorded_at)
          (λ x. any (λ r. r.id == x.id) t ≡ true)
          (filter (λ r. single k r && nat_eq r.valid_from valid_from) t)
          (All-filter (λ x. any (λ r. r.id == x.id) t ≡ true)
            (λ r. single k r && nat_eq r.valid_from valid_from) t
            (All-any_self (λ x r. r.id == x.id) t (λ x. eq_refl x.id))))
        h

  -- What `fact_set` writes without `correction`: nothing, or the new value.
  unfoldable pub stored_table : Option Row → Table → Table
  stored_table none t = insert_value c k encoded valid_from source now fact_id t
  stored_table (some row) t =
      if c.decrypt_str row.value == encoded
      then t
      else insert_value c k encoded valid_from source now fact_id t

  write_unless_latest-total :
      (t : Table) (latest : Option Row)
      → get_last? (same_time_rows k valid_from t) ≡ latest
      → (fact : Row) × (write_unless_latest c k encoded valid_from source now fact_id t latest
          ≡ ok (fact, stored_table latest t))
  unfolding write_unless_latest stored_table
  write_unless_latest-total t none h = write_value-total t
  write_unless_latest-total t (some row) h =
      elim (Bool-cases (c.decrypt_str row.value == encoded)) [
        | inl e ↦
            let (fact, found) = fact_by_id-total c row.id t (same_time-has_id t row h) in
            (fact, rw (e, found))
        | inr e ↦ let (fact, found) = write_value-total t in (fact, rw (e, found))
      ]

  -- The table that `fact_set` leaves.
  unfoldable pub table_after : Bool → Table → Table
  table_after true t =
      insert_value c k encoded valid_from source now fact_id (retract_same_time k valid_from now t)
  table_after false t = stored_table (get_last? (same_time_rows k valid_from t)) t

  -- With keys that are not blank, the row that fact_set reads back is there, and `table_after` is
  -- the table that it leaves.
  pub fact_set-total :
      (correction : Bool) (t : Table)
      → is_blank_key k ≡ false
      → (fact : Row) × (fact_set c k encoded valid_from source correction now fact_id t
          ≡ ok (fact, table_after correction t))
  unfolding fact_set table_after
  fact_set-total true t h =
      let (fact, found) = write_value-total (retract_same_time k valid_from now t) in
      (fact, rw (h, found))
  fact_set-total false t h =
      let (fact, found) =
        write_unless_latest-total t (get_last? (same_time_rows k valid_from t)) refl in
      (fact, rw (h, found))

  pub fact_set-blank :
      (correction : Bool) (t : Table)
      → is_blank_key k ≡ true
      → fact_set c k encoded valid_from source correction now fact_id t ≡ raise value_error
  unfolding fact_set
  fact_set-blank correction t h = rw h

  pub fact_set-table :
      (correction : Bool) (t : Table) {fact : Row} {t' : Table}
      → fact_set c k encoded valid_from source correction now fact_id t ≡ ok (fact, t')
      → t' ≡ table_after correction t
  fact_set-table correction t h = elim (Bool-cases (is_blank_key k)) [
    | inl e ↦ absurd (cc (fact_set-blank correction t e))
    | inr e ↦ let (other, found) = fact_set-total correction t e in cc
  ]

  recorded-insert_value :
      (t : Table)
      → map recorded (insert_value c k encoded valid_from source now fact_id t)
        ≡ map recorded t ++ new_row c k encoded valid_from source now false fact_id ∷ []
  unfolding insert_value rechain_facts
  recorded-insert_value t =
      let r : Row = new_row c k encoded valid_from source now false fact_id in
      let inserted : Table = t ++ r ∷ [] in
      let ids : List String = ids_of (ended_by_set k valid_from inserted) in
      let ended : Table = update_each ids (set_valid_to (some valid_from)) inserted in
      map-apply_updates recorded recorded-set_valid_to (chain_updates (chain_rows k ended)) ended
      ∙ map-update_each recorded (set_valid_to (some valid_from))
          (recorded-set_valid_to (some valid_from)) ids inserted
      ∙ map-append recorded t (r ∷ [])
      ∙ ap (λ s. map recorded t ++ s ∷ []) (unfold recorded new_row in refl)

  recorded-retract_same_time :
      (t : Table) → map recorded (retract_same_time k valid_from now t) ≡ map recorded t
  unfolding retract_same_time
  recorded-retract_same_time t =
      map-update_each recorded (set_retracted now) (recorded-set_retracted now)
        (ids_of (same_time_rows k valid_from t)) t

  recorded-stored_table :
      (latest : Option Row) (t : Table)
      → (map recorded (stored_table latest t) ≡ map recorded t)
        ⊎ (map recorded (stored_table latest t)
            ≡ map recorded t ++ new_row c k encoded valid_from source now false fact_id ∷ [])
  unfolding stored_table
  recorded-stored_table none t = inr (recorded-insert_value t)
  recorded-stored_table (some row) t = elim (Bool-cases (c.decrypt_str row.value == encoded)) [
    | inl e ↦ inl (rw e)
    | inr e ↦ inr (rw e (recorded-insert_value t))
  ]

  -- When fact_set returns, the rows without their ends and retractions are those from before, in
  -- order, or those and the new row behind them: nothing recorded is removed or rewritten.
  pub fact_set-audit :
      (correction : Bool) (t : Table) {fact : Row} {t' : Table}
      → fact_set c k encoded valid_from source correction now fact_id t ≡ ok (fact, t')
      → (map recorded t' ≡ map recorded t)
        ⊎ (map recorded t'
            ≡ map recorded t ++ new_row c k encoded valid_from source now false fact_id ∷ [])
  unfolding table_after
  fact_set-audit true t h = inr (
      ap (map recorded) (fact_set-table true t h)
      ∙ recorded-insert_value (retract_same_time k valid_from now t)
      ∙ ap (λ rows. rows ++ new_row c k encoded valid_from source now false fact_id ∷ [])
          (recorded-retract_same_time t))
  fact_set-audit false t h =
      rw (fact_set-table false t h)
        (recorded-stored_table (get_last? (same_time_rows k valid_from t)) t)
