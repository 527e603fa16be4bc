-- ===== src/Facts/Asserted.antt =====
-- `fact_set` and then `fact_as_of` (src/mark/store/_sqlite/facts.py): which times an assertion
-- changes, with a correction and without.
use mathlib.Core.Option
use mark_sdk.Prelude.{
  ℕ, String, ◌≡◌, refl, sym, ap, subst, ◌∙◌, Bool, true, false, Option, none, some, List, [], ◌∷◌,
  arith, ◌&&◌, ◌==◌, eq_sound, leb, nat_eq, inl, inr, if◌then◌else◌, Bool-cases, &&-eq-true, filter,
  filter-eq, All, All-imp, All-filter_self, IsFresh, any, any-filter_self, any-sort_by, sort_by,
  sort_by-eq, get_last?,
}
use mark_sdk.Facts.Table.{Row, Table, Timeline, single, before}
use mark_sdk.Facts.Select.{same_time_rows, retract_same_time}
use mark_sdk.Facts.Ops.{Codec, ok, insert_value, fact_set}
use mark_sdk.Facts.Invariant.{IsValid}
use mark_sdk.Facts.Keeps.{fact_set-IsValid}
use mark_sdk.Facts.AsOf.{HasNoAdded, before-le}
use mark_sdk.Facts.Writes.{stored_table, table_after, fact_set-table}
use mark_sdk.Facts.InForce.{last_row, has_started, last_row-later, last_value_of}
use mark_sdk.Facts.Effect.{
  is_later, takes_effect, value_as_of, value_as_of-last_value_of, any_none, insert_value-effect,
}
use mark_sdk.Facts.Kept.{
  retract_same_time-filter, retract_same_time-recorded, table_after-HasNoAdded,
}

get_last?-any :
    {A : Type 0} (xs : List A) (x : A) → get_last? xs ≡ some x → any (λ _. true) xs ≡ true
get_last?-any [] x h = absurd (ground arith)
get_last?-any (y ∷ ys) x h = refl

module _ (k : Timeline) (valid_from stamp : ℕ) (t : Table) where
  now_or_earlier :
      (r : Row)
      → is_later k valid_from stamp r ≡ false
      → leb valid_from stamp ≡ true
      → (has_started k stamp r && leb valid_from r.valid_from)
        ≡ (single k r && nat_eq r.valid_from valid_from)
  now_or_earlier r g h = elim (Bool-cases (single k r)) [
    | inl e ↦ rw e (ground arith)
    | inr e ↦ rw e
  ]

  recorded_order :
      (r s : Row)
      → nat_eq r.valid_from valid_from ≡ true
      → nat_eq s.valid_from valid_from ≡ true
      → before r s ≡ leb r.recorded_at s.recorded_at
  unfolding before
  recorded_order r s h g = ground arith

  -- When no later row has started, the last one with that start is the last that has started.
  last_row-same_time :
      (row : Row)
      → get_last? (same_time_rows k valid_from t) ≡ some row
      → leb valid_from stamp ≡ true
      → any (is_later k valid_from stamp) t ≡ false
      → last_row (has_started k stamp) t ≡ some row
  unfolding same_time_rows
  last_row-same_time row latest h g =
      let same_time : Row → Bool = λ r. single k r && nat_eq r.valid_from valid_from in
      let from_then : Row → Bool = λ r. has_started k stamp r && leb valid_from r.valid_from in
      let same_rows : filter from_then t ≡ filter same_time t = filter-eq from_then same_time t (
        All-imp (λ r. is_later k valid_from stamp r ≡ false) (λ r. from_then r ≡ same_time r)
          (λ r e. now_or_earlier r e h) t (any_none (is_later k valid_from stamp) t g)) in
      let found : any from_then t ≡ true =
        any-filter_self from_then t
        ∙ ap (any (λ _. true)) same_rows
        ∙ sym
            (any-sort_by (λ r s. leb r.recorded_at s.recorded_at) (λ _. true) (filter same_time t))
        ∙ get_last?-any (sort_by (λ r s. leb r.recorded_at s.recorded_at) (filter same_time t)) row
            latest in
      last_row-later (has_started k stamp) (λ r. leb valid_from r.valid_from) t
        (λ r s e d. ground (arith, before-le r s e)) found
      ∙ ap (λ rows. get_last? (sort_by before rows)) same_rows
      ∙ ap get_last? (
          sort_by-eq before (λ r s. leb r.recorded_at s.recorded_at)
            (λ r. nat_eq r.valid_from valid_from ≡ true) recorded_order (filter same_time t)
            (All-imp (λ r. same_time r ≡ true) (λ r. nat_eq r.valid_from valid_from ≡ true)
              (λ r e. (&&-eq-true _ _ e).1) (filter same_time t) (All-filter_self same_time t)))
      ∙ latest

module _ (c : Codec) (k : Timeline) (encoded : String) (valid_from : ℕ) (source : Option String)
    (now : ℕ) (fact_id : String) where
  module _ (law : c.decrypt_str (c.encrypt_str encoded) ≡ encoded) (stamp : ℕ) (t : Table)
      (v : IsValid t) (recorded : All (λ r. leb r.recorded_at now ≡ true) t) where
    -- The value that the last started row of a table has, decrypted.
    abbrev answer : Table → Option String
    answer u = Option.map c.decrypt_str (last_value_of (has_started k stamp) u)

    abbrev expected : Option String
    expected = if takes_effect k valid_from stamp t then some encoded else answer t

    answer-effect :
        (u : Table)
        → last_value_of (has_started k stamp) u ≡ (
            if takes_effect k valid_from stamp t
            then some (c.encrypt_str encoded)
            else last_value_of (has_started k stamp) t)
        → answer u ≡ expected
    answer-effect u h = elim (Bool-cases (takes_effect k valid_from stamp t)) [
      | inl e ↦ rw e (ap (Option.map c.decrypt_str) (rw e at h) ∙ ap some law)
      | inr e ↦ rw e (ap (Option.map c.decrypt_str) (rw e at h))
    ]

    answer-inserted : answer (insert_value c k encoded valid_from source now fact_id t) ≡ expected
    answer-inserted = answer-effect (insert_value c k encoded valid_from source now fact_id t) (
        insert_value-effect c k encoded valid_from source now fact_id stamp t t (λ _. refl) refl
          recorded)

    answer-corrected :
        answer (
          insert_value c k encoded valid_from source now fact_id
            (retract_same_time k valid_from now t))
        ≡ expected
    answer-corrected =
        let u : Table = retract_same_time k valid_from now t in
        answer-effect (insert_value c k encoded valid_from source now fact_id u) (
          insert_value-effect c k encoded valid_from source now fact_id stamp t u
            (λ h.
              retract_same_time-filter k valid_from now (has_started k stamp) t v
                (λ r e. (&&-eq-true (single k r) (leb r.valid_from stamp) e).0)
                (λ r e. ground arith))
            (retract_same_time-filter k valid_from now (is_later k valid_from stamp) t v
              (λ r e. ground arith) (λ r e. ground arith))
            (retract_same_time-recorded c k encoded valid_from source now fact_id t recorded))

    -- Asserting again what is the latest value for that time.
    answer-again :
        (row : Row)
        → get_last? (same_time_rows k valid_from t) ≡ some row
        → c.decrypt_str row.value ≡ encoded
        → answer t ≡ expected
    unfolding takes_effect
    answer-again row latest same = elim (Bool-cases (leb valid_from stamp)) [
      | inr h ↦ rw h
      | inl h ↦ elim (Bool-cases (any (is_later k valid_from stamp) t)) [
        | inl g ↦ rw (h, g)
        | inr g ↦
            rw (h, g)
              (ap (λ o. Option.map c.decrypt_str (Option.map (λ r. r.value) o))
                  (last_row-same_time k valid_from stamp t row latest h g)
                ∙ ap some same)
      ]
    ]

    answer-stored_table :
        (latest : Option Row)
        → get_last? (same_time_rows k valid_from t) ≡ latest
        → answer (stored_table c k encoded valid_from source now fact_id latest t) ≡ expected
    unfolding stored_table
    answer-stored_table none h = answer-inserted
    answer-stored_table (some row) h = elim (Bool-cases (c.decrypt_str row.value == encoded)) [
      | inl e ↦ rw e (answer-again row h (eq_sound (c.decrypt_str row.value) encoded e))
      | inr e ↦ rw e answer-inserted
    ]

    answer-table_after :
        (correction : Bool)
        → answer (table_after c k encoded valid_from source now fact_id correction t) ≡ expected
    unfolding table_after
    answer-table_after true = answer-corrected
    answer-table_after false = answer-stored_table (get_last? (same_time_rows k valid_from t)) refl

    -- If the table is valid, no row is recorded later than the clock, the timeline has no added
    -- values, the drawn id is fresh and decryption undoes encryption on the value, then after a
    -- fact_set that returns, with or without correction, fact_as_of answers the asserted value at
    -- every time by which it has started and no row of the timeline that starts later has, and at
    -- every other time the value that it answered before.
    pub fact_as_of-fact_set :
        (correction : Bool) {fact : Row} {t' : Table}
        → HasNoAdded k t
        → IsFresh (λ r. r.id) fact_id t
        → fact_set c k encoded valid_from source correction now fact_id t ≡ ok (fact, t')
        → value_as_of c k stamp t'
          ≡ (if takes_effect k valid_from stamp t then some encoded else value_as_of c k stamp t)
    fact_as_of-fact_set correction {t'} plain fresh done =
        let left : t' ≡ table_after c k encoded valid_from source now fact_id correction t =
          fact_set-table c k encoded valid_from source now fact_id correction t done in
        value_as_of-last_value_of c k stamp t'
          (fact_set-IsValid c k encoded valid_from source now fact_id correction t v fresh done)
          (subst (HasNoAdded k) (sym left)
            (table_after-HasNoAdded c k encoded valid_from source now fact_id correction t plain))
        ∙ ap answer left
        ∙ answer-table_after correction
        ∙ ap (λ o. if takes_effect k valid_from stamp t then some encoded else o)
            (sym (value_as_of-last_value_of c k stamp t v plain))
