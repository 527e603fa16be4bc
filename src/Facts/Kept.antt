-- ===== src/Facts/Kept.antt =====
-- What the writes of `fact_set` (src/mark/store/_sqlite/facts.py) keep of the rows, and which
-- selections a correction leaves alone.
use mark_sdk.Prelude.{
  ℕ, String, ◌≡◌, refl, Bool, true, false, Option, none, some, List, [], ◌∷◌, ◌++◌, ◌&&◌, ◌==◌, leb,
  nat_eq, inl, inr, if◌then◌else◌, Bool-cases, &&-eq-true, filter, All, All-of, All-imp, All-map,
  All-append, All-sort_by, get_last?,
}
use mark_sdk.Facts.Table.{
  Row, Table, Timeline, on_timeline, single, chain_rows, update, set_valid_to, set_retracted,
  update_each, ids_of,
}
use mark_sdk.Facts.Select.{
  chain_updates, apply_updates, rechain_facts, same_time_rows, ended_by_set, retract_same_time,
}
use mark_sdk.Facts.Ops.{Codec, new_row, insert_value}
use mark_sdk.Facts.Update.{Misses, filter-update_each_of_Misses}
use mark_sdk.Facts.Chain.{selected-Misses}
use mark_sdk.Facts.Invariant.{IsValid, id-set_retracted, single-set_retracted}
use mark_sdk.Facts.AsOf.{HasNoAdded}
use mark_sdk.Facts.Writes.{stored_table, table_after}

-- What each row has, and every update keeps, all rows have after the updates.
module _ (P : Row → Type 0) where
  All-update :
      (f : Row → Row)
      → ((r : Row) → P r → P (f r))
      → (i : String) (t : Table) → All P t
      → All P (update i f t)
  unfolding update
  All-update f keeps i t h =
      All-map (λ r. if r.id == i then f r else r) P t
        (All-imp P (λ r. P (if r.id == i then f r else r)) row t h)
    where
      row : (r : Row) → P r → P (if r.id == i then f r else r)
      row r h = elim (Bool-cases (r.id == i)) [ inl e ↦ rw e (keeps r h) | inr e ↦ rw e h ]

  All-update_each :
      (f : Row → Row)
      → ((r : Row) → P r → P (f r))
      → (ids : List String) (t : Table) → All P t
      → All P (update_each ids f t)
  unfolding update_each
  All-update_each f keeps [] t h = h
  All-update_each f keeps (i ∷ ids) t h =
      All-update_each f keeps ids (update i f t) (All-update f keeps i t h)

  All-apply_updates :
      ((end : Option ℕ) (r : Row) → P r → P (set_valid_to end r))
      → (us : List (String × Option ℕ)) (t : Table) → All P t
      → All P (apply_updates us t)
  unfolding apply_updates
  All-apply_updates keeps [] t h = h
  All-apply_updates keeps ((i, end) ∷ us) t h =
      All-apply_updates keeps us (update i (set_valid_to end) t)
        (All-update (set_valid_to end) (keeps end) i t h)

-- A correction retracts rows that start at the asserted time only.
pub retract_same_time-filter :
    (k : Timeline) (valid_from now : ℕ) (q : Row → Bool) (t : Table)
    → IsValid t
    → ((r : Row) → q r ≡ true → single k r ≡ true)
    → ((r : Row) → q r ≡ true → nat_eq r.valid_from valid_from ≡ false)
    → filter q (retract_same_time k valid_from now t) ≡ filter q t
unfolding retract_same_time same_time_rows
retract_same_time-filter k valid_from now q t v within apart =
    let same_time : Row → Bool = λ r. single k r && nat_eq r.valid_from valid_from in
    let retracted_off : (r : Row) → q r ≡ false → q (set_retracted now r) ≡ false = λ r _.
      elim (Bool-cases (q (set_retracted now r))) [
        | inl e ↦ absurd (cc (within (set_retracted now r) e, single-set_retracted k now r))
        | inr e ↦ e
      ] in
    let disjoint : (r : Row) → same_time r ≡ true → q r ≡ false = λ r e. elim (Bool-cases (q r)) [
      | inl d ↦
          absurd (cc (apart r d, (&&-eq-true (single k r) (nat_eq r.valid_from valid_from) e).1))
      | inr d ↦ d
    ] in
    filter-update_each_of_Misses (set_retracted now) (id-set_retracted now) q retracted_off
      (ids_of (same_time_rows k valid_from t)) t
      (All-map (λ r. r.id) (Misses q t) (same_time_rows k valid_from t)
        (All-sort_by (λ r s. leb r.recorded_at s.recorded_at) (λ r. Misses q t r.id)
          (filter same_time t)
          (selected-Misses same_time q t (All-of (λ r. same_time r ≡ true → q r ≡ false) disjoint t)
            v.unique)))

module _ (c : Codec) (k : Timeline) (encoded : String) (valid_from : ℕ) (source : Option String)
    (now : ℕ) (fact_id : String) where
  insert_value-HasNoAdded :
      (t : Table)
      → HasNoAdded k t
      → HasNoAdded k (insert_value c k encoded valid_from source now fact_id t)
  unfolding insert_value rechain_facts new_row on_timeline set_valid_to
  insert_value-HasNoAdded t h =
      let r : Row = new_row c k encoded valid_from source now false fact_id in
      let P : Row → Type 0 = λ s. on_timeline k s ≡ true → s.multi_valued ≡ false in
      let ids : List String = ids_of (ended_by_set k valid_from (t ++ r ∷ [])) in
      let ended : Table = update_each ids (set_valid_to (some valid_from)) (t ++ r ∷ []) in
      All-apply_updates P (λ end s e. e) (chain_updates (chain_rows k ended)) ended
        (All-update_each P (set_valid_to (some valid_from)) (λ s e. e) ids (t ++ r ∷ [])
          (All-append P t (r ∷ []) h ((λ _. refl), tt)))

  retract_same_time-HasNoAdded :
      (t : Table) → HasNoAdded k t → HasNoAdded k (retract_same_time k valid_from now t)
  unfolding retract_same_time on_timeline set_retracted
  retract_same_time-HasNoAdded t h =
      All-update_each (λ s. on_timeline k s ≡ true → s.multi_valued ≡ false) (set_retracted now)
        (λ s e. e) (ids_of (same_time_rows k valid_from t)) t h

  pub retract_same_time-recorded :
      (t : Table)
      → All (λ r. leb r.recorded_at now ≡ true) t
      → All (λ r. leb r.recorded_at now ≡ true) (retract_same_time k valid_from now t)
  unfolding retract_same_time set_retracted
  retract_same_time-recorded t h =
      All-update_each (λ r. leb r.recorded_at now ≡ true) (set_retracted now) (λ s e. e)
        (ids_of (same_time_rows k valid_from t)) t h

  stored_table-HasNoAdded :
      (latest : Option Row) (t : Table)
      → HasNoAdded k t
      → HasNoAdded k (stored_table c k encoded valid_from source now fact_id latest t)
  unfolding stored_table
  stored_table-HasNoAdded none t h = insert_value-HasNoAdded t h
  stored_table-HasNoAdded (some row) t h = elim (Bool-cases (c.decrypt_str row.value == encoded)) [
    | inl e ↦ rw e h
    | inr e ↦ rw e (insert_value-HasNoAdded t h)
  ]

  pub table_after-HasNoAdded :
      (correction : Bool) (t : Table)
      → HasNoAdded k t
      → HasNoAdded k (table_after c k encoded valid_from source now fact_id correction t)
  unfolding table_after
  table_after-HasNoAdded true t h =
      insert_value-HasNoAdded (retract_same_time k valid_from now t)
        (retract_same_time-HasNoAdded t h)
  table_after-HasNoAdded false t h =
      stored_table-HasNoAdded (get_last? (same_time_rows k valid_from t)) t h
